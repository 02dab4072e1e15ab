-- ===== src/Bundle/Names/Laws.antt =====
-- The names that src/bundle/bundle_service.py and archive_keys give out.
use mathlib.Core.List.{append_cancel_left}
use platform_api.Prelude.{
  All, Distinct, List, Result-cases, Text, [], after_last, after_last-Without, ap, arith, contains,
  false, inl, inr, length, length-map, map, ok, refl, suc, text, text_eq, text_eq_iff,
  text_eq_of_ne, true, ◌∙◌, ◌∷◌, ◌≡◌,
}
use platform_api.Bundle.Paths.{is_part, unique_path}
use platform_api.Bundle.Paths.Fresh.{HasName, HasName-of_name, unique_path-found, unique_path-free}
use platform_api.Bundle.Names.{archive_keys, order_key, unique_names}

abbrev pub NoneIn : List Text → List Text → Type 0
NoneIn taken names = All (λ s. contains s taken ≡ false) names

NoneIn-tail :
    (t : Text) (taken names : List Text)
    → NoneIn (t ∷ taken) names
    → NoneIn taken names × (contains t names ≡ false)
NoneIn-tail t taken [] h = (tt, refl)
NoneIn-tail t taken (n ∷ names) (p, h) =
    let (rest, free) = NoneIn-tail t taken names h in
    ((ground arith, rest), ground (arith, text_eq_iff t n, text_eq_iff n t))

pub unique_names-Distinct :
    (wanted taken : List Text) (names : List Text)
    → unique_names taken wanted ≡ ok names
    → Distinct names × NoneIn taken names × (length names ≡ length wanted)
unfolding unique_names
unique_names-Distinct [] taken [] e = (tt, tt, refl)
unique_names-Distinct [] taken (n ∷ names) e = cc
unique_names-Distinct (w ∷ wanted) taken names e = elim (Result-cases (unique_path w taken)) [
  | inr (x, bad) ↦ cc
  | inl (n, picked) ↦ elim (Result-cases (unique_names (n ∷ taken) wanted)) [
    | inr (x, bad) ↦ cc
    | inl (rest, later) ↦
        let (distinct, free, same) = unique_names-Distinct wanted (n ∷ taken) rest later in
        let (outside, fresh) = NoneIn-tail n taken rest free in
        let is : n ∷ rest ≡ names = ground arith in
        rw (← is) ((fresh, distinct), (unique_path-free w taken n picked, outside), ap suc same)
  ]
]

-- Where every wanted path has a name, each gets one.
pub unique_names-found :
    (wanted taken : List Text)
    → All HasName wanted
    → (names : List Text) × (unique_names taken wanted ≡ ok names)
unfolding unique_names
unique_names-found [] taken h = ([], refl)
unique_names-found (w ∷ wanted) taken (p, h) =
    let (n, e) = unique_path-found w taken p in
    let (names, later) = unique_names-found wanted (n ∷ taken) h in (n ∷ names, rw (e, later))

order_key_injective : (id a b : Text) → order_key id a ≡ order_key id b → a ≡ b
order_key_injective id a b e =
    append_cancel_left (text "/") a b
      (append_cancel_left id _ _ (append_cancel_left (text "orders/") _ _ e))

contains-map-order_key :
    (id s : Text) (names : List Text)
    → contains s names ≡ false
    → contains (order_key id s) (map (order_key id) names) ≡ false
contains-map-order_key id s [] h = refl
contains-map-order_key id s (n ∷ names) h =
    rw
      (text_eq_of_ne (order_key id n) (order_key id s)
        (λ e. absurd (cc (h, same n s (order_key_injective id n s e)))))
      (contains-map-order_key id s names (ground arith))
  where
    same : (a b : Text) → a ≡ b → text_eq a b ≡ true
    same a b = (text_eq_iff a b).1

Distinct-map-order_key :
    (id : Text) (names : List Text) → Distinct names → Distinct (map (order_key id) names)
Distinct-map-order_key id [] h = tt
Distinct-map-order_key id (n ∷ names) (p, h) =
    (contains-map-order_key id n names p, Distinct-map-order_key id names h)

-- Where every URL ends in a file name (not empty and not "."), each file gets a key, there is one
-- key for each file, and no two files share a key: no archived file overwrites another.
pub archive_keys-Distinct :
    (order_id : Text) (urls : List Text)
    → All (λ url. is_part (after_last b'/' url) ≡ true) urls
    → (keys : List Text) × (archive_keys order_id urls ≡ ok keys)
      × Distinct keys
      × (length keys ≡ length urls)
unfolding archive_keys
archive_keys-Distinct order_id urls h =
    let (names, e) = unique_names-found (map (after_last b'/') urls) [] (named urls h) in
    let (distinct, _, same) = unique_names-Distinct (map (after_last b'/') urls) [] names e in
    (
      map (order_key order_id) names,
      rw e,
      Distinct-map-order_key order_id names distinct,
      length-map (order_key order_id) names ∙ (same ∙ length-map (after_last b'/') urls),
    )
  where
    named :
        (urls : List Text)
        → All (λ url. is_part (after_last b'/' url) ≡ true) urls
        → All HasName (map (after_last b'/') urls)
    named [] h = tt
    named (url ∷ urls) (p, h) =
        (HasName-of_name (after_last b'/' url) p (after_last-Without b'/' url), named urls h)
