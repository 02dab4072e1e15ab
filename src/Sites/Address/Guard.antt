-- ===== src/Sites/Address/Guard.antt =====
-- The guards of src/sites/site_address_service.py.
use platform_api.Prelude.{
  Option, Option-cases, Result, Result-cases, Text, arith, err, false, if◌then◌else◌, inl, inr,
  none, ok, some, text_eq, text_eq_iff, true, ◌≡◌, ◌⊎◌,
}
use platform_api.Dns.Client.{DnsError, DnsRecord}
use platform_api.Sites.Identity.{domain, is_ascii, token_matches}
use platform_api.Sites.Address.{
  IpAddress, SiteError, check_token, checked, http_error, register, register_address,
  require_public_ipv4, site_record,
}

-- The token is this order's, the order has a site, and the address is a public IPv4 address.
pub record IsGranted (hmac_hex : Text → Text → Text) (ip_address : Text → Option IpAddress)
    (site_id_of : Text → Result SiteError (Option Text))
    (secret order_id token address site_id : Text) : Type 0 where
  pub token_of_order : token ≡ hmac_hex secret order_id
  pub has_site : site_id_of order_id ≡ ok (some site_id)
  pub is_public :
      (ip : IpAddress) × (ip_address address ≡ some ip) × (ip.version ≡ 4) × (ip.is_global ≡ true)

module _ {S : Type 0} (hmac_hex : Text → Text → Text) (ip_address : Text → Option IpAddress)
    (site_id_of : Text → Result SiteError (Option Text))
    (upsert : Text → DnsRecord → S → Result DnsError (Unit {0}) × S) where
  require_public_ipv4-lem :
      (address : Text) (v : Unit {0})
      → require_public_ipv4 hmac_hex ip_address site_id_of upsert address ≡ ok v
      → (ip : IpAddress) × (ip_address address ≡ some ip) × (ip.version ≡ 4) × (ip.is_global ≡ true)
  unfolding require_public_ipv4
  require_public_ipv4-lem address v e = elim (Option-cases (ip_address address)) [
    | inl bad ↦ cc
    | inr (ip, parsed) ↦ (ip, parsed, ground arith, ground arith)
  ]

  check_token-eq :
      (secret order_id token : Text) (v : Unit {0})
      → check_token hmac_hex ip_address site_id_of upsert secret order_id token ≡ ok v
      → token ≡ hmac_hex secret order_id
  unfolding check_token token_matches
  check_token-eq secret order_id token v e =
      ground (arith, text_eq_iff (hmac_hex secret order_id) token)

  checked-IsGranted :
      (secret order_id token address site_id : Text)
      → checked hmac_hex ip_address site_id_of upsert secret order_id token address ≡ ok site_id
      → IsGranted hmac_hex ip_address site_id_of secret order_id token address site_id
  unfolding checked check_token require_public_ipv4
  checked-IsGranted secret order_id token address site_id e =
      elim (Result-cases
        (check_token hmac_hex ip_address site_id_of upsert secret order_id token)) [
          | inr (x, bad) ↦ cc
          | inl (t, good) ↦ elim (Result-cases (site_id_of order_id)) [
            | inr (x, bad) ↦ cc
            | inl (none, found) ↦ cc
            | inl (some i, found) ↦
                elim (Result-cases
                  (require_public_ipv4 hmac_hex ip_address site_id_of upsert address)) [
                    | inr (x, bad) ↦ cc
                    | inl (v, public) ↦ record {
                      token_of_order = check_token-eq secret order_id token t good;
                      has_site = ground arith;
                      is_public = require_public_ipv4-lem address v public;
                    }
                  ]
          ]
        ]

  -- A callback either leaves the zone as it is and is refused, or the token is the order's, the
  -- order has a site, the address is a public IPv4 address, and the one write is the A record of
  -- the site's host label with that address.
  pub register-writes :
      (secret order_id token address : Text) (s : S)
      → ((e : SiteError) × (register hmac_hex ip_address site_id_of upsert secret order_id token
              address s
            ≡ (err e, s)))
        ⊎ ((site_id : Text) × IsGranted hmac_hex ip_address site_id_of secret order_id token address
              site_id
            × ((register hmac_hex ip_address site_id_of upsert secret order_id token address s).1
                ≡ (upsert domain (site_record site_id order_id address) s).1))
  unfolding register
  register-writes secret order_id token address s =
      elim (Result-cases
        (checked hmac_hex ip_address site_id_of upsert secret order_id token address)) [
          | inr (e, refused) ↦ inl (e, rw (refused, register))
          | inl (site_id, granted) ↦ inr (
            site_id,
            checked-IsGranted secret order_id token address site_id granted,
            rw (granted, register),
          )
        ]

  -- A wrong token never changes the zone. It is answered with 403 only if it is ASCII: one with
  -- another character is answered with a server error, where the digest itself is ASCII.
  pub register_address_of_wrong_token :
      (secret order_id token address : Text) (s : S)
      → is_ascii (hmac_hex secret order_id) ≡ true
      → text_eq (hmac_hex secret order_id) token ≡ false
      → register_address hmac_hex ip_address site_id_of upsert secret order_id token address s
        ≡ (http_error (if is_ascii token then 403 else 500), s)
  unfolding register_address token_matches check_token
  register_address_of_wrong_token secret order_id token address s h wrong = ground arith
