-- ===== src/Sites/Slug/Laws.antt =====
-- The slugs of `_slugify_site_id` in src/orchestrator/orchestrator_service.py.
use platform_api.Prelude.{
  All, Bool, Bool-cases, Text, Unicode, [], arith, drop_while, err, false, if◌then◌else◌, inl, inr,
  is_empty, is_plain, ok, refl, rstrip, rstrip-cons, strip, true, ℕ, ◌&&◌, ◌||◌, ◌∷◌, ◌≡◌, ◌⊎◌,
}
use platform_api.Sites.Slug.{empty_slug, is_slug_char, is_underscore, slugify_site_id, sub_runs}

-- `[a-z0-9]+(_[a-z0-9]+)*`, read from the left; the first argument says that a slug character
-- stands directly before.
abbrev pub is_slug_from : Bool → Text → Bool
is_slug_from before [] = before
is_slug_from before (c ∷ s) =
    let plain = is_slug_from true s in
    let joined = is_slug_from false s in
    if is_slug_char c then plain else (before && is_underscore c) && joined

abbrev pub IsSlug : Text → Type 0
IsSlug s = is_slug_from false s ≡ true

-- the same, where one underscore may stand at the end
abbrev is_collapsed : Bool → Text → Bool
is_collapsed before [] = true
is_collapsed before (c ∷ s) =
    let plain = is_collapsed true s in
    let joined = is_collapsed false s in
    if is_slug_char c then plain else (before && is_underscore c) && joined

mutual
  unfolding sub_runs

  sub_runs-collapsed_in : (s : Text) → is_collapsed false (sub_runs true s) ≡ true
  sub_runs-collapsed_in [] = refl
  sub_runs-collapsed_in (c ∷ s) = ground (arith, sub_runs-collapsed_in s, sub_runs-collapsed_out s)

  sub_runs-collapsed_out : (s : Text) → is_collapsed true (sub_runs false s) ≡ true
  sub_runs-collapsed_out [] = refl
  sub_runs-collapsed_out (c ∷ s) = ground (arith, sub_runs-collapsed_in s, sub_runs-collapsed_out s)

drop_while-plain : (s : Text) → is_collapsed false s ≡ true → drop_while is_underscore s ≡ s
drop_while-plain [] h = refl
drop_while-plain (c ∷ s) h = ground arith

drop_while-collapsed :
    (s : Text) → is_collapsed true s ≡ true → is_collapsed false (drop_while is_underscore s) ≡ true
drop_while-collapsed [] h = refl
drop_while-collapsed (c ∷ s) h = ground (arith, drop_while-plain s)

-- one more character in front of what is left of the rest
rstrip_step : ℕ → Text → Text
rstrip_step c r = if is_empty r then (if is_underscore c then [] else c ∷ []) else c ∷ r

rstrip_step-slug :
    (before : Bool) (c : ℕ) (r : Text)
    → (is_slug_char c || (before && is_underscore c)) ≡ true
    → (is_empty r ≡ true) ⊎ (is_slug_from (is_slug_char c) r ≡ true)
    → (is_empty (rstrip_step c r) ≡ true) ⊎ (is_slug_from before (rstrip_step c r) ≡ true)
unfolding rstrip_step
rstrip_step-slug before c [] h k = ground arith
rstrip_step-slug before c (d ∷ r) h k = ground arith

is_collapsed-tail :
    (before : Bool) (c : ℕ) (s : Text)
    → is_collapsed before (c ∷ s) ≡ true
    → (is_collapsed (is_slug_char c) s ≡ true)
      × ((is_slug_char c || (before && is_underscore c)) ≡ true)
is_collapsed-tail before c s h = ground arith

rstrip-slug :
    (before : Bool) (s : Text)
    → is_collapsed before s ≡ true
    → (is_empty (rstrip is_underscore s) ≡ true)
      ⊎ (is_slug_from before (rstrip is_underscore s) ≡ true)
unfolding rstrip_step
rstrip-slug before [] h = inl refl
rstrip-slug before (c ∷ s) h =
    let (tail, fits) = is_collapsed-tail before c s h in
    rw (rstrip-cons is_underscore c s) (
      rstrip_step-slug before c (rstrip is_underscore s) fits (rstrip-slug (is_slug_char c) s tail))

-- A slug that is made is non-empty, holds only lowercase letters, digits and single underscores,
-- and begins and ends with a letter or digit.
pub slugify_site_id-IsSlug :
    (u : Unicode) (name slug : Text) → slugify_site_id u name ≡ ok slug → IsSlug slug
unfolding slugify_site_id
slugify_site_id-IsSlug u name slug e =
    let collapsed =
      drop_while-collapsed (sub_runs false (u.lower name))
        (sub_runs-collapsed_out (u.lower name)) in
    elim (rstrip-slug false (drop_while is_underscore (sub_runs false (u.lower name))) collapsed) [
      | inl empty ↦ absurd (ground arith)
      | inr good ↦ ground arith
    ]

-- The converse: a slug passes through unchanged.
mutual
  unfolding sub_runs

  sub_runs_in_slug : (s : Text) → is_slug_from false s ≡ true → sub_runs true s ≡ s
  sub_runs_in_slug [] h = refl
  sub_runs_in_slug (c ∷ s) h = ground (arith, sub_runs_in_slug s, sub_runs_out_slug s)

  sub_runs_out_slug : (s : Text) → is_slug_from true s ≡ true → sub_runs false s ≡ s
  sub_runs_out_slug [] h = refl
  sub_runs_out_slug (c ∷ s) h = ground (arith, sub_runs_in_slug s, sub_runs_out_slug s)

rstrip_step-slug_same :
    (before : Bool) (c : ℕ) (s : Text)
    → is_slug_from before (c ∷ s) ≡ true
    → rstrip_step c s ≡ c ∷ s
unfolding rstrip_step
rstrip_step-slug_same before c [] h = ground arith
rstrip_step-slug_same before c (d ∷ s) h = refl

is_slug_from-tail :
    (before : Bool) (c : ℕ) (s : Text)
    → is_slug_from before (c ∷ s) ≡ true
    → is_slug_from (is_slug_char c) s ≡ true
is_slug_from-tail before c s h = ground arith

rstrip_slug_same :
    (before : Bool) (s : Text) → is_slug_from before s ≡ true → rstrip is_underscore s ≡ s
unfolding rstrip_step
rstrip_slug_same before [] h = refl
rstrip_slug_same before (c ∷ s) h =
    rw
      (
        rstrip-cons is_underscore c s,
        rstrip_slug_same (is_slug_char c) s (is_slug_from-tail before c s h),
      )
      (rstrip_step-slug_same before c s h)

slug-plain :
    (before : Bool) (s : Text) → is_slug_from before s ≡ true → All (λ c. is_plain c ≡ true) s
slug-plain before [] h = tt
slug-plain before (c ∷ s) h = (
  ground arith,
  elim (Bool-cases (is_slug_char c)) [
    | inl e ↦ slug-plain true s (ground arith)
    | inr e ↦ slug-plain false s (ground arith)
  ],
)

sub_runs_start : (t : Text) → is_slug_from false t ≡ true → sub_runs false t ≡ t
unfolding sub_runs
sub_runs_start [] k = refl
sub_runs_start (d ∷ t) k = ground (arith, sub_runs_out_slug t)

first_kept : (t : Text) → is_slug_from false t ≡ true → drop_while is_underscore t ≡ t
first_kept [] k = refl
first_kept (d ∷ t) k = ground arith

slug-stripped : (s : Text) → IsSlug s → strip is_underscore (sub_runs false s) ≡ s
slug-stripped s h = rw (sub_runs_start s h, first_kept s h) (rstrip_slug_same false s h)

-- A slug is its own slug.
slugify_site_id_of_slug : (u : Unicode) (s : Text) → IsSlug s → slugify_site_id u s ≡ ok s
unfolding slugify_site_id
slugify_site_id_of_slug u s h =
    rw (u.lower_plain s (slug-plain false s h), slug-stripped s h) (go s h)
  where
    go : (t : Text) → IsSlug t → (if is_empty t then err (empty_slug s) else ok t) ≡ ok t
    go [] k = cc
    go (c ∷ t) k = refl
