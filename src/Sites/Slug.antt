-- ===== src/Sites/Slug.antt =====
-- `_slugify_site_id` of src/orchestrator/orchestrator_service.py.
pub mod Laws
use platform_api.Prelude.{
  Bool, Result, Text, Unicode, [], ascii, err, false, if◌then◌else◌, is_digit, is_empty, is_lower,
  ok, refl, strip, text, true, ℕ, ◌==◌, ◌||◌, ◌∷◌, ◌≡◌,
}

abbrev pub is_slug_char : ℕ → Bool
is_slug_char c = is_lower c || is_digit c

-- `re.sub("[^a-z0-9]+", "_", s)`; the first argument says that a run has begun.
pub sub_runs : Bool → Text → Text
sub_runs run [] = []
sub_runs run (c ∷ s) =
    let plain = c ∷ sub_runs false s in
    let inside = sub_runs true s in
    if is_slug_char c then plain else if run then inside else b'_' ∷ inside

abbrev pub is_underscore : ℕ → Bool
is_underscore c = c == b'_'

pub data SlugError : Type 0 where
  empty_slug : Text → SlugError

unfoldable pub slugify_site_id : Unicode → Text → Result SlugError Text
unfolding sub_runs
slugify_site_id u name =
    let slug = strip is_underscore (sub_runs false (u.lower name)) in
    if is_empty slug then err (empty_slug name) else ok slug

slugify_tests :
    (slugify_site_id ascii (text "Nevada Facility 2") ≡ ok (text "nevada_facility_2"))
    × (slugify_site_id ascii (text "Café 🔥 Site") ≡ ok (text "caf_site"))
    × (slugify_site_id ascii (text "🔥💯") ≡ err (empty_slug (text "🔥💯")))
unfolding slugify_site_id
slugify_tests = (refl, refl, refl)
