-- ===== src/Dns/Client.antt =====
-- src/dns/dns_client.py: host records are written through an API that replaces the whole set.
pub mod Upsert
pub mod Fields
use platform_api.Prelude.{
  Bool, List, Option, Result, String, Text, [], and_then, any, decimal, err, if◌then◌else◌, join,
  keep, lookup, none, not, ok, some, text, text_eq, ℕ, ◌&&◌, ◌++◌, ◌+◌, ◌==◌, ◌∷◌,
}

pub data RecordType : Type 0 where
  a cname txt mx : RecordType

unfoldable pub type_value : RecordType → Text
type_value a = text "A"
type_value cname = text "CNAME"
type_value txt = text "TXT"
type_value mx = text "MX"

-- `RecordType(value)`; `none` is the ValueError of another value
unfoldable pub record_type : Text → Option RecordType
record_type v =
    if text_eq v (text "A")
    then some a
    else if text_eq v (text "CNAME")
    then some cname
    else if text_eq v (text "TXT")
    then some txt
    else if text_eq v (text "MX")
    then some mx
    else none

pub record DnsRecord : Type 0 where
  pub host : Text
  pub type : RecordType
  pub address : Text
  pub ttl : ℕ
  pub mx_pref : ℕ

abbrev pub Fields : Type 0
Fields = List (Text × Text)

-- What the client reads of an answer: whether the HTTP status is good, the root's `Status`, the
-- attributes of each host element, and the texts of the errors.
pub record Reply : Type 0 where
  pub http_ok : Bool
  pub status : Option Text
  pub hosts : List Fields
  pub errors : List Text

pub data DnsError : Type 0 where
  http_status : DnsError
  api_failed : Text → DnsError
  missing_attribute bad_type bad_number bad_domain : DnsError

abbrev pub get_hosts : Text
get_hosts = text "namecheap.domains.dns.getHosts"

abbrev pub set_hosts : Text
set_hosts = text "namecheap.domains.dns.setHosts"

-- `domain.split(".", 1)`; `none` is the ValueError of a domain with no dot.
abbrev pub split_dot : Text → Option (Text × Text)
split_dot [] = none
split_dot (c ∷ s) =
    let rest : Option (Text × Text) = elim (split_dot s) [
      | none ↦ none
      | some (sld, tld) ↦ some (c ∷ sld, tld)
    ] in
    if c == b'.' then some ([], s) else rest

abbrev pub domain_fields : Text → Option Fields
domain_fields domain = elim (split_dot domain) [
  | none ↦ none
  | some (sld, tld) ↦ some ((text "SLD", sld) ∷ (text "TLD", tld) ∷ [])
]

abbrev pub attribute : Text → Fields → Result DnsError Text
attribute name fields = elim (lookup name fields) [ none ↦ err missing_attribute | some v ↦ ok v ]

abbrev pub same_type : RecordType → RecordType → Bool
same_type s t = text_eq (type_value s) (type_value t)

abbrev pub numbered_field : String → ℕ → Text
numbered_field name n = text name ++ decimal n

-- the fields of one record, at its number
abbrev pub record_fields : ℕ → DnsRecord → Fields
record_fields n r =
    (numbered_field "HostName" n, r.host)
    ∷ (numbered_field "RecordType" n, type_value r.type)
    ∷ (numbered_field "Address" n, r.address)
    ∷ (numbered_field "MXPref" n, decimal r.mx_pref)
    ∷ (numbered_field "TTL" n, decimal r.ttl)
    ∷ []

pub all_record_fields : ℕ → List DnsRecord → Fields
all_record_fields n [] = []
all_record_fields n (r ∷ rs) = record_fields n r ++ all_record_fields (n + 1) rs

-- the fields of `_set_records`: every record, and the mail setting where one is an MX
unfoldable pub set_fields : Fields → List DnsRecord → Fields
unfolding all_record_fields
set_fields domain records =
    domain
    ++ (all_record_fields 1 records
        ++ (if any (λ (r : DnsRecord). same_type r.type mx) records
            then (text "EmailType", text "MX") ∷ []
            else []))

-- `(r.host, r.type) != (record.host, record.type)` keeps `r`
abbrev pub same_slot : DnsRecord → DnsRecord → Bool
same_slot r record' = text_eq r.host record'.host && same_type r.type record'.type

unfoldable pub replaced : List DnsRecord → DnsRecord → List DnsRecord
replaced current new = keep (λ r. not (same_slot r new)) current ++ new ∷ []

-- `S` is the state of the API, `post` its answer to one call and its next state, `auth` the
-- credentials, and `int_of` Python's `int` of a text.
module _ {S : Type 0} (post : S → Fields → Reply × S) (auth : Fields)
    (int_of : Text → Option ℕ) where
  abbrev pub number : Text → Result DnsError ℕ
  number s = elim (int_of s) [ none ↦ err bad_number | some n ↦ ok n ]

  pub parse_host : Fields → Result DnsError DnsRecord
  unfolding record_type
  parse_host host = and_then (attribute (text "Name") host) λ name.
      and_then (attribute (text "Type") host) λ type_text.
        and_then (elim (record_type type_text) [ none ↦ err bad_type | some t ↦ ok t ])
          λ t. and_then (attribute (text "Address") host) λ address.
            and_then (attribute (text "TTL") host) λ ttl_text. and_then (number ttl_text) λ ttl.
              and_then (attribute (text "MXPref") host) λ pref_text.
                and_then (number pref_text) λ pref.
                  ok
                    (record { host = name; type = t; address = address; ttl = ttl; mx_pref = pref })

  pub parse_hosts : List Fields → Result DnsError (List DnsRecord)
  unfolding parse_host
  parse_hosts [] = ok []
  parse_hosts (h ∷ hs) = and_then (parse_host h) λ r. and_then (parse_hosts hs) λ rs. ok (r ∷ rs)

  abbrev pub Call : Type 0 → Type 0
  Call A = S → Result DnsError A × S

  checked : Text → Reply → Result DnsError Reply
  checked command reply =
      if reply.http_ok
      then (if text_eq (elim reply.status [ none ↦ [] | some s ↦ s ]) (text "OK")
          then ok reply
          else err (
              api_failed (
                text "namecheap "
                ++ (command ++ (text " failed: " ++ join (text "; ") reply.errors)))))
      else err http_status

  -- `_call`
  pub call : Text → Fields → Call Reply
  unfolding checked
  call command fields s =
      let (reply, s') = post s (auth ++ ((text "Command", command) ∷ fields)) in
      (checked command reply, s')

  -- one step after another, on the API's state
  abbrev pub then_call :
      {A B : Type 0} → Result DnsError A × S → (A → Call B) → Result DnsError B × S
  then_call (ok x, s) f = f x s
  then_call (err e, s) f = (err e, s)

  pub list_records : Text → Call (List DnsRecord)
  unfolding call parse_hosts
  list_records domain s = elim (domain_fields domain) [
    | none ↦ (err bad_domain, s)
    | some fields ↦ then_call (call get_hosts fields s) λ reply s'. (parse_hosts reply.hosts, s')
  ]

  pub set_records : Text → List DnsRecord → Call (Unit {0})
  unfolding call set_fields
  set_records domain records s = elim (domain_fields domain) [
    | none ↦ (err bad_domain, s)
    | some fields ↦ then_call (call set_hosts (set_fields fields records) s) λ reply s'. (ok tt, s')
  ]

  -- Run under the client's lock, so no other upsert stands between the read and the write.
  unfoldable pub upsert_record : Text → DnsRecord → Call (Unit {0})
  unfolding list_records set_records replaced
  upsert_record domain new s =
      then_call (list_records domain s) λ current s'. set_records domain (replaced current new) s'
