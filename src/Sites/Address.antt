-- ===== src/Sites/Address.antt =====
-- src/sites/: a cloud box reports its address and its site's record follows.
pub mod Guard
use platform_api.Prelude.{
  Bool, Option, Result, Text, and_then, err, if◌then◌else◌, none, not, ok, some, ℕ, ◌==◌, ◌||◌,
}
use platform_api.Dns.Client.{DnsError, DnsRecord, a}
use platform_api.Sites.Identity.{domain, site_host_label, site_hostname, token_matches}

pub data SiteError : Type 0 where
  invalid_site_token unknown_order invalid_site_address token_not_ascii : SiteError
  order_failed : SiteError
  dns_failed : DnsError → SiteError

-- What `ipaddress.ip_address` says of a text that it accepts.
pub record IpAddress : Type 0 where
  pub version : ℕ
  pub is_global : Bool

-- `SitesController.register_address`: the body, or the status of each refusal; another exception
-- is a 500.
pub data Response : Type 0 where
  success : Text → Response
  http_error : ℕ → Response

pub refusal_status : SiteError → ℕ
refusal_status invalid_site_token = 403
refusal_status unknown_order = 404
refusal_status invalid_site_address = 422
refusal_status _ = 500

-- the A record of a site, with the time to live and the preference that it is written with
abbrev pub site_record : Text → Text → Text → DnsRecord
site_record site_id order_id address = record {
  host = site_host_label site_id order_id;
  type = a;
  address = address;
  ttl = 60;
  mx_pref = 10;
}

-- `S` is the state of the DNS API. `ip_address` is `ipaddress.ip_address`, with `none` for the
-- ValueError; `site_id_of` finds the slug of an order, may fail and may find no order; `upsert` is
-- the DNS writer's `upsert_record`.
module _ {S : Type 0} (hmac_hex : Text → Text → Text) (ip_address : Text → Option IpAddress)
    (site_id_of : Text → Result SiteError (Option Text))
    (upsert : Text → DnsRecord → S → Result DnsError (Unit {0}) × S) where
  -- `_require_public_ipv4`
  pub require_public_ipv4 : Text → Result SiteError (Unit {0})
  require_public_ipv4 address = elim (ip_address address) [
    | none ↦ err invalid_site_address
    | some parsed ↦
        if not (parsed.version == 4) || not parsed.is_global
        then err invalid_site_address
        else ok tt
  ]

  pub check_token : Text → Text → Text → Result SiteError (Unit {0})
  check_token secret order_id token = elim (token_matches hmac_hex secret order_id token) [
    | none ↦ err token_not_ascii
    | some matches ↦ if matches then ok tt else err invalid_site_token
  ]

  -- all that `register` does before it writes: the site to point at the address, or the refusal
  pub checked : Text → Text → Text → Text → Result SiteError Text
  unfolding check_token require_public_ipv4
  checked secret order_id token address = and_then (check_token secret order_id token) λ _.
      and_then (site_id_of order_id) λ found. elim found [
        | none ↦ err unknown_order
        | some site_id ↦ and_then (require_public_ipv4 address) λ _. ok site_id
      ]

  unfoldable pub register : Text → Text → Text → Text → S → Result SiteError Text × S
  unfolding checked
  register secret order_id token address s = elim (checked secret order_id token address) [
    | err e ↦ (err e, s)
    | ok site_id ↦
        let (written, s') = upsert domain (site_record site_id order_id address) s in
        (
          elim written [ ok _ ↦ ok (site_hostname site_id order_id) | err e ↦ err (dns_failed e) ],
          s',
        )
  ]

  unfoldable pub register_address : Text → Text → Text → Text → S → Response × S
  unfolding register refusal_status
  register_address secret order_id token address s =
      let (result, s') = register secret order_id token address s in
      (elim result [ ok hostname ↦ success hostname | err e ↦ http_error (refusal_status e) ], s')
