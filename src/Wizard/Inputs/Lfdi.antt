-- ===== src/Wizard/Inputs/Lfdi.antt =====
-- The allowlist of src/wizard/wizard_record.py as it is stored.
use platform_api.Prelude.{
  All, Bool, Bool-cases, List, Option-cases, Result, Text, Unicode, [], all, ap, append-nil,
  append_assoc, arith, err, false, if◌then◌else◌, inl, inr, is_empty, join, length-map, lower_ascii,
  map, none, ok, refl, some, sym, text, true, ℕ, ◌++◌, ◌∙◌, ◌∷◌, ◌≡◌,
}
use platform_api.Wizard.Inputs.{
  InputError, first_bad, is_hex, is_lfdi, is_separator, lfdis_are_40_hex, lowered, value_error,
  words_from,
}

abbrev pub IsId : Text → Type 0
IsId s = is_lfdi s ≡ true

first_bad-none : (ids : List Text) → first_bad ids ≡ none → All IsId ids
unfolding first_bad
first_bad-none [] h = tt
first_bad-none (i ∷ ids) h = elim (Bool-cases (is_lfdi i)) [
  | inl e ↦ (e, first_bad-none ids (ground arith))
  | inr e ↦ absurd (ground arith)
]

first_bad-All : (ids : List Text) → All IsId ids → first_bad ids ≡ none
unfolding first_bad
first_bad-All [] h = refl
first_bad-All (i ∷ ids) (p, h) = rw p (first_bad-All ids h)

lower_ascii-is_hex : (c : ℕ) → is_hex c ≡ true → is_hex (lower_ascii c) ≡ true
lower_ascii-is_hex c h = ground arith

lowered-all_hex : (s : Text) → all is_hex s ≡ true → all is_hex (lowered s) ≡ true
lowered-all_hex [] h = refl
lowered-all_hex (c ∷ s) h = ground (arith, lower_ascii-is_hex c, lowered-all_hex s)

lowered-IsId : (s : Text) → IsId s → IsId (lowered s)
lowered-IsId s h = ground (arith, length-map lower_ascii s, lowered-all_hex s)

lowered-idempotent : (s : Text) → lowered (lowered s) ≡ lowered s
lowered-idempotent [] = refl
lowered-idempotent (c ∷ s) = ground (arith, lowered-idempotent s)

All-lowered : (ids : List Text) → All IsId ids → All IsId (map lowered ids)
All-lowered [] h = tt
All-lowered (i ∷ ids) (p, h) = (lowered-IsId i p, All-lowered ids h)

map-lowered : (ids : List Text) → map lowered (map lowered ids) ≡ map lowered ids
map-lowered [] = refl
map-lowered (i ∷ ids) = rw (lowered-idempotent i, map-lowered ids) refl

module _ (is_sep : ℕ → Bool) (hex_apart : (c : ℕ) → is_hex c ≡ true → is_sep c ≡ false) where
  words_from-end :
      (cur s : Text)
      → all is_hex s ≡ true
      → words_from is_sep cur s ≡ (if is_empty (cur ++ s) then [] else (cur ++ s) ∷ [])
  unfolding words_from
  words_from-end cur [] h = rw append-nil refl
  words_from-end cur (c ∷ s) h = rw (hex_apart c (ground arith)) (
      words_from-end (cur ++ c ∷ []) s (ground arith)
      ∙ ap (λ x. if is_empty x then [] else x ∷ []) (append_assoc cur (c ∷ []) s))

  words_from-word :
      (cur s rest : Text)
      → is_sep 32 ≡ true
      → all is_hex s ≡ true
      → words_from is_sep cur (s ++ 32 ∷ rest) ≡ (
          if is_empty (cur ++ s)
          then words_from is_sep [] rest
          else (cur ++ s) ∷ words_from is_sep [] rest)
  unfolding words_from
  words_from-word cur [] rest k h = rw (append-nil, k) refl
  words_from-word cur (c ∷ s) rest k h = rw (hex_apart c (ground arith)) (
      words_from-word (cur ++ c ∷ []) s rest k (ground arith)
      ∙ ap (λ x. if is_empty x then words_from is_sep [] rest else x ∷ words_from is_sep [] rest)
          (append_assoc cur (c ∷ []) s))

  words_from-join :
      (ids : List Text)
      → is_sep 32 ≡ true
      → All IsId ids
      → words_from is_sep [] (join (text " ") ids) ≡ ids
  unfolding words_from
  words_from-join [] k h = refl
  words_from-join ([] ∷ ids) k (p, h) = absurd (ground arith)
  words_from-join ((c ∷ i) ∷ []) k (p, h) = words_from-end [] (c ∷ i) (ground arith)
  words_from-join ((c ∷ i) ∷ j ∷ ids) k (p, h) =
      words_from-word [] (c ∷ i) (join (text " ") (j ∷ ids)) k (ground arith)
      ∙ ap (λ x. (c ∷ i) ∷ x) (words_from-join (j ∷ ids) k h)

separator_apart :
    (u : Unicode)
    → ((c : ℕ) → is_hex c ≡ true → u.is_space c ≡ false)
    → (c : ℕ) → is_hex c ≡ true
    → is_separator u c ≡ false
separator_apart u apart c h = ground (arith, apart c h)

-- the whole check, for the list of ids
checked_ids : List Text → Result InputError Text
checked_ids ids = elim (first_bad ids) [
  | some bad ↦ err (value_error (text "not a 40-character hex LFDI: " ++ bad))
  | none ↦ ok (join (text " ") (map lowered ids))
]

checked_ids-ok :
    (ids : List Text) (stored : Text)
    → checked_ids ids ≡ ok stored
    → (stored ≡ join (text " ") (map lowered ids)) × All IsId ids
unfolding checked_ids
checked_ids-ok ids stored h = elim (Option-cases (first_bad ids)) [
  | inl e ↦ (ground arith, first_bad-none ids e)
  | inr (bad, e) ↦ absurd (ground arith)
]

checked_ids-All :
    (ids : List Text) → All IsId ids → checked_ids ids ≡ ok (join (text " ") (map lowered ids))
unfolding checked_ids
checked_ids-All ids h = rw (first_bad-All ids h, checked_ids) refl

-- Where a blank is a space and no hex digit is one, an allowlist that is accepted is stored as ids
-- that are 40 lowercase hex characters each, with one blank between two, and what is stored is
-- accepted again and stored as it is.
pub lfdis_are_40_hex-stable :
    (u : Unicode) (value stored : Text)
    → u.is_space 32 ≡ true
    → ((c : ℕ) → is_hex c ≡ true → u.is_space c ≡ false)
    → lfdis_are_40_hex u value ≡ ok stored
    → (ids : List Text) × (stored ≡ join (text " ") ids)
      × All IsId ids
      × (map lowered ids ≡ ids)
      × (lfdis_are_40_hex u stored ≡ ok stored)
unfolding lfdis_are_40_hex checked_ids
lfdis_are_40_hex-stable u value stored blank apart h =
    let ids = words_from (is_separator u) [] value in
    let (same, good) = checked_ids-ok ids stored h in
    let again =
      words_from-join (is_separator u) (separator_apart u apart) (map lowered ids) (ground arith)
        (All-lowered ids good) in
    (
      map lowered ids,
      same,
      All-lowered ids good,
      map-lowered ids,
      ap (λ s. checked_ids (words_from (is_separator u) [] s)) same
          ∙ (ap checked_ids again
              ∙ (checked_ids-All (map lowered ids) (All-lowered ids good)
                  ∙ ap ok (ap (join (text " ")) (map-lowered ids) ∙ sym same))),
    )
