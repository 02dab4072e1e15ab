-- ===== src/Dns/Client/Fields.antt =====
-- The numbered fields of a setHosts call of src/dns/dns_client.py.
use platform_api.Prelude.{
  ==_iff, Bool, Bool-cases, List, Option, Text, [], any, decimal, decimal_injective, false,
  false≢true, if◌then◌else◌, inl, inr, lookup, none, refl, some, subst, sym, text, text_eq,
  text_eq_of_ne, text_eq_refl, true, ℕ, ◌++◌, ◌+◌, ◌==◌, ◌∙◌, ◌∷◌, ◌≡◌, ◌≢◌,
}
use platform_api.Dns.Client.{
  DnsRecord, Fields, all_record_fields, mx, numbered_field, record_fields, same_type, set_fields,
  type_value,
}

-- What stands under one number, field by field.
pub record Numbered : Type 0 where
  pub host : Option Text
  pub type : Option Text
  pub address : Option Text
  pub mx_pref : Option Text
  pub ttl : Option Text

pub read_at : ℕ → Fields → Numbered
read_at n fields = record {
  host = lookup (numbered_field "HostName" n) fields;
  type = lookup (numbered_field "RecordType" n) fields;
  address = lookup (numbered_field "Address" n) fields;
  mx_pref = lookup (numbered_field "MXPref" n) fields;
  ttl = lookup (numbered_field "TTL" n) fields;
}

abbrev pub numbered_as : DnsRecord → Numbered
numbered_as r = record {
  host = some r.host;
  type = some (type_value r.type);
  address = some r.address;
  mx_pref = some (decimal r.mx_pref);
  ttl = some (decimal r.ttl);
}

abbrev pub nothing : Numbered
nothing = record { host = none; type = none; address = none; mx_pref = none; ttl = none }

decimal-ne : (m n : ℕ) → m ≢ n → text_eq (decimal m) (decimal n) ≡ false
decimal-ne m n h = text_eq_of_ne (decimal m) (decimal n) (λ e. h (decimal_injective m n e))

read_at-other :
    (n k : ℕ) (r : DnsRecord) (rest : Fields)
    → k ≢ n
    → read_at n (record_fields k r ++ rest) ≡ read_at n rest
unfolding read_at
read_at-other n k r rest h = rw (decimal-ne k n h)

read_at-same :
    (n : ℕ) (r : DnsRecord) (rest : Fields) → read_at n (record_fields n r ++ rest) ≡ numbered_as r
unfolding read_at
read_at-same n r rest = rw (text_eq_refl (decimal n))

abbrev mail_field : Bool → Fields
mail_field b = if b then (text "EmailType", text "MX") ∷ [] else []

read_at-mail : (n : ℕ) (b : Bool) → read_at n (mail_field b) ≡ nothing
unfolding read_at
read_at-mail n true = refl
read_at-mail n false = refl

-- the record under number `i`, where the first one has number `n`
pub nth_as : ℕ → List DnsRecord → ℕ → Numbered
nth_as n [] i = nothing
nth_as n (r ∷ rs) i = if n == i then numbered_as r else nth_as (n + 1) rs i

read_at-all :
    (i n : ℕ) (rs : List DnsRecord) (b : Bool)
    → read_at i (all_record_fields n rs ++ (mail_field b)) ≡ nth_as n rs i
unfolding all_record_fields nth_as
read_at-all i n [] b = read_at-mail i b
read_at-all i n (r ∷ rs) b =
    let rest = all_record_fields (n + 1) rs ++ mail_field b in
    elim (Bool-cases (n == i)) [
      | inl e ↦ rw e (
          subst (λ k. read_at k (record_fields n r ++ rest) ≡ numbered_as r) ((==_iff n i).0 e)
            (read_at-same n r rest))
      | inr e ↦ rw e (
          read_at-other i n r rest (λ q. false≢true (sym e ∙ (==_iff n i).1 q))
          ∙ read_at-all i (n + 1) rs b)
    ]

-- Field by field, a setHosts call carries under number i exactly the i-th of the records, counted
-- from 1, and nothing under any other number.
pub set_fields-read_at :
    (sld tld : Text) (rs : List DnsRecord) (i : ℕ)
    → read_at i (set_fields ((text "SLD", sld) ∷ (text "TLD", tld) ∷ []) rs) ≡ nth_as 1 rs i
unfolding set_fields
set_fields-read_at sld tld rs i =
    domain_skipped ∙ read_at-all i 1 rs (any (λ (r : DnsRecord). same_type r.type mx) rs)
  where
    domain_skipped :
        read_at i (
          (text "SLD", sld)
          ∷ (text "TLD", tld)
          ∷ (all_record_fields 1 rs
              ++ mail_field (any (λ (r : DnsRecord). same_type r.type mx) rs)))
        ≡ read_at i
            (all_record_fields 1 rs ++ mail_field (any (λ (r : DnsRecord). same_type r.type mx) rs))
    domain_skipped = unfold read_at in refl
