-- ===== src/Dns/Examples.antt =====
-- Runs of src/dns/dns_client.py on small inputs.
use platform_api.Prelude.{List, String, [], if◌then◌else◌, keep, not, text, ◌∷◌, ◌≡◌}
use platform_api.Dns.Client.{DnsRecord, RecordType, a, mx, replaced, set_fields}
use platform_api.Dns.Client.Upsert.{is_at, records_at, records_at-replaced, replaced_keeps}
use platform_api.Dns.Client.Fields.{nth_as, read_at, set_fields-read_at}

abbrev at_host : String → RecordType → String → DnsRecord
at_host host type address = record {
  host = text host;
  type = type;
  address = text address;
  ttl = 60;
  mx_pref = 10;
}

abbrev zone : List DnsRecord
zone = at_host "www" a "1.1.1.1" ∷ at_host "@" mx "mail" ∷ at_host "site" a "2.2.2.2" ∷ []

records_at-replaced_example :
    records_at (text "site") a (replaced zone (at_host "site" a "3.3.3.3")) ≡ (
      if is_at (text "site") a (at_host "site" a "3.3.3.3")
      then at_host "site" a "3.3.3.3" ∷ []
      else records_at (text "site") a zone)
records_at-replaced_example = records_at-replaced zone (at_host "site" a "3.3.3.3") (text "site") a

replaced_keeps_example :
    (keep (λ r. not (is_at (text "www") a r)) (replaced zone (at_host "www" a "4.4.4.4"))
      ≡ keep (λ r. not (is_at (text "www") a r)) zone)
    × (replaced (replaced zone (at_host "www" a "4.4.4.4")) (at_host "www" a "4.4.4.4")
        ≡ replaced zone (at_host "www" a "4.4.4.4"))
replaced_keeps_example = replaced_keeps zone (at_host "www" a "4.4.4.4")

set_fields-read_at_example :
    read_at 2 (set_fields ((text "SLD", text "arcnode") ∷ (text "TLD", text "io") ∷ []) zone)
    ≡ nth_as 1 zone 2
set_fields-read_at_example = set_fields-read_at (text "arcnode") (text "io") zone 2
