-- ===== src/Sites/Examples.antt =====
-- Runs of src/sites and src/dns/site_identity.py on small inputs.
use platform_api.Prelude.{
  List, Option, Result, Text, [], arith, ascii, err, if◌then◌else◌, none, ok, refl, some, text,
  text_eq, true, ◌++◌, ◌∷◌, ◌≡◌, ◌≢◌, ◌⊎◌,
}
use platform_api.Dns.Client.{DnsError, DnsRecord}
use platform_api.Sites.Slug.{slugify_site_id}
use platform_api.Sites.Slug.Laws.{IsSlug, slugify_site_id-IsSlug}
use platform_api.Sites.Identity.{domain, is_ascii, site_host_label}
use platform_api.Sites.Identity.Label.{IsDnsLabel, IsOrderId, site_host_label-IsDnsLabel}
use platform_api.Sites.Identity.Apart.{site_host_label-apart}
use platform_api.Sites.Address.{
  IpAddress, SiteError, http_error, register, register_address, site_record,
}
use platform_api.Sites.Address.Guard.{IsGranted, register-writes, register_address_of_wrong_token}

abbrev nevada : Text
nevada = text "nevada_2"

abbrev first_order : Text
first_order = text "6f1c2a9e-0000-4000-8000-000000000042"

abbrev second_order : Text
second_order = text "7f1c2a9e-0000-4000-8000-000000000042"

nevada_slug : slugify_site_id ascii (text "Nevada 2") ≡ ok nevada
unfolding slugify_site_id
nevada_slug = refl

slugify_site_id-IsSlug_example : IsSlug nevada
slugify_site_id-IsSlug_example = slugify_site_id-IsSlug ascii (text "Nevada 2") nevada nevada_slug

nevada-IsSlug : IsSlug nevada
nevada-IsSlug = refl

first_order_id : IsOrderId first_order
first_order_id = record { chars = refl; some_alnum = refl }

site_host_label-IsDnsLabel_example : IsDnsLabel (site_host_label nevada first_order)
site_host_label-IsDnsLabel_example =
    site_host_label-IsDnsLabel nevada first_order nevada-IsSlug first_order_id

heads_apart : text "6f1c2a" ≢ text "7f1c2a"
heads_apart e = absurd (ground arith)

site_host_label-apart_example :
    site_host_label nevada (text "6f1c2a9e-0000-4000-8000-000000000042")
    ≢ site_host_label nevada (text "7f1c2a9e-0000-4000-8000-000000000042")
site_host_label-apart_example =
    site_host_label-apart nevada nevada (text "6f1c2a") (text "7f1c2a")
      (text "9e-0000-4000-8000-000000000042") (text "9e-0000-4000-8000-000000000042") refl refl refl
      refl heads_apart

-- A digest, an address book, an order book and a zone of hosts, in small.
abbrev digest : Text → Text → Text
digest secret order_id = secret ++ order_id

abbrev parse_address : Text → Option IpAddress
parse_address s =
    if text_eq s (text "8.8.8.8") then some (record { version = 4; is_global = true }) else none

abbrev site_of : Text → Result SiteError (Option Text)
site_of order_id = if text_eq order_id (text "42") then ok (some nevada) else ok none

abbrev write_host : Text → DnsRecord → List Text → Result DnsError (Unit {0}) × List Text
write_host zone new hosts = (ok tt, new.host ∷ hosts)

register-writes_example :
    ((e : SiteError) × (register digest parse_address site_of write_host
          (text "s")
          (text "42")
          (text "s42")
          (text "8.8.8.8")
          []
        ≡ (err e, [])))
    ⊎ ((site_id : Text) × IsGranted digest parse_address site_of
          (text "s")
          (text "42")
          (text "s42")
          (text "8.8.8.8")
          site_id
        × ((register digest parse_address site_of write_host
              (text "s")
              (text "42")
              (text "s42")
              (text "8.8.8.8")
              []).1
            ≡ (write_host domain (site_record site_id (text "42") (text "8.8.8.8")) []).1))
register-writes_example =
    register-writes digest parse_address site_of write_host (text "s") (text "42") (text "s42")
      (text "8.8.8.8") []

register_address_of_wrong_token_example :
    register_address digest parse_address site_of write_host
      (text "s")
      (text "42")
      (text "é")
      (text "8.8.8.8")
      []
    ≡ (http_error (if is_ascii (text "é") then 403 else 500), [])
register_address_of_wrong_token_example =
    register_address_of_wrong_token digest parse_address site_of write_host (text "s") (text "42")
      (text "é") (text "8.8.8.8") [] refl refl
