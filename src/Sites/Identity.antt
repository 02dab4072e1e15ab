-- ===== src/Sites/Identity.antt =====
-- src/dns/site_identity.py: a site's DNS name and callback token.
pub mod Label
pub mod Apart
use platform_api.Prelude.{
  Bool, Option, Text, all, if◌then◌else◌, keep, length, ltb, map, none, not, refl, rstrip, some,
  strip, take, text, text_eq, ℕ, ◌&&◌, ◌++◌, ◌-◌, ◌==◌, ◌∷◌, ◌≡◌,
}

abbrev pub is_hyphen : ℕ → Bool
is_hyphen c = c == b'-'

abbrev pub max_label : ℕ
max_label = 63

-- `"-" + order_id.replace("-", "")[:6]`
unfoldable pub order_suffix : Text → Text
order_suffix order_id = b'-' ∷ take 6 (keep (λ c. not (is_hyphen c)) order_id)

-- `site_id.replace("_", "-")`
pub hyphenated : Text → Text
hyphenated site_id = map (λ c. if c == b'_' then b'-' else c) site_id

unfoldable pub site_host_label : Text → Text → Text
unfolding order_suffix hyphenated
site_host_label site_id order_id =
    let suffix = order_suffix order_id in
    rstrip is_hyphen (take (max_label - length suffix) (strip is_hyphen (hyphenated site_id)))
    ++ suffix

abbrev pub domain : Text
domain = text "arcnode.io"

unfoldable pub site_hostname : Text → Text → Text
unfolding site_host_label
site_hostname site_id order_id = site_host_label site_id order_id ++ (text "." ++ domain)

-- `hmac.compare_digest` of two texts; `none` is the TypeError for a text that is not ASCII.
abbrev pub is_ascii : Text → Bool
is_ascii s = all (λ c. ltb c 128) s

unfoldable pub compare_digest : Text → Text → Option Bool
compare_digest a b = if is_ascii a && is_ascii b then some (text_eq a b) else none

-- `hmac_hex` is the hex digest of HMAC-SHA256, under a secret.
module _ (hmac_hex : Text → Text → Text) where
  unfoldable pub site_token : Text → Text → Text
  site_token secret order_id = hmac_hex secret order_id

  unfoldable pub token_matches : Text → Text → Text → Option Bool
  unfolding site_token compare_digest
  token_matches secret order_id token = compare_digest (site_token secret order_id) token

site_host_label_test :
    site_host_label (text "nevada_facility_2") (text "6f1c2a9e-0000-4000-8000-000000000042")
    ≡ text "nevada-facility-2-6f1c2a"
unfolding site_host_label
site_host_label_test = refl
