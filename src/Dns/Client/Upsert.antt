-- ===== src/Dns/Client/Upsert.antt =====
-- What an upsert of src/dns/dns_client.py does to the list of records.
use platform_api.Prelude.{
  Bool, Bool-cases, List, Text, [], ap, append-nil, arith, false, false≢true, if◌then◌else◌, inl,
  inr, keep, not, refl, sym, text_eq, text_eq_iff, text_eq_refl, true, ◌&&◌, ◌++◌, ◌∙◌, ◌∷◌, ◌≡◌,
}
use platform_api.Dns.Client.{
  DnsRecord, RecordType, a, cname, mx, replaced, same_slot, same_type, txt, type_value,
}

-- Two types compared by name, apart from their texts.
abbrev pub same_kind : RecordType → RecordType → Bool
same_kind a a = true
same_kind cname cname = true
same_kind txt txt = true
same_kind mx mx = true
same_kind s t = false

abbrev pub is_at : Text → RecordType → DnsRecord → Bool
is_at h t r = text_eq r.host h && same_kind r.type t

-- all records of a host and type
abbrev pub records_at : Text → RecordType → List DnsRecord → List DnsRecord
records_at h t rs = keep (is_at h t) rs

same_type-same_kind : (s t : RecordType) → same_type s t ≡ same_kind s t
unfolding type_value
same_type-same_kind s t = ground arith

same_kind-eq : (s t : RecordType) → same_kind s t ≡ true → s ≡ t
same_kind-eq s t h = ground arith

same_kind_refl : (t : RecordType) → same_kind t t ≡ true
same_kind_refl t = ground arith

same_slot-is_at : (r new : DnsRecord) → same_slot r new ≡ is_at new.host new.type r
same_slot-is_at r new = ap (λ k. text_eq r.host new.host && k) (same_type-same_kind r.type new.type)

same_slot_refl : (r : DnsRecord) → same_slot r r ≡ true
same_slot_refl r = same_slot-is_at r r ∙ ground (arith, text_eq_refl r.host, same_kind_refl r.type)

is_at-parts :
    (h : Text) (t : RecordType) (r : DnsRecord) → is_at h t r ≡ true → (r.host ≡ h) × (r.type ≡ t)
is_at-parts h t r e =
    (ground (arith, e, text_eq_iff r.host h), same_kind-eq r.type t (ground (arith, e)))

-- A record of the upsert's own host and type is one that it drops, and no other is.
same_slot-own :
    (h : Text) (t : RecordType) (new : DnsRecord)
    → is_at h t new ≡ true
    → (r : DnsRecord) → same_slot r new ≡ is_at h t r
same_slot-own h t new e r =
    let (hosts, types) = is_at-parts h t new e in same_slot-is_at r new ∙ cc (hosts, types)

same_slot-other :
    (h : Text) (t : RecordType) (new : DnsRecord)
    → is_at h t new ≡ false
    → (r : DnsRecord) → is_at h t r ≡ true
    → same_slot r new ≡ false
same_slot-other h t new e r there =
    let (hosts, types) = is_at-parts h t r there in
    elim (Bool-cases (same_slot r new)) [
      | inr k ↦ k
      | inl k ↦
          let (host, type) = is_at-parts new.host new.type r (sym (same_slot-is_at r new) ∙ k) in
          absurd (
            false≢true (
              sym e ∙ (cc (hosts, host, types, type, same_slot-is_at new new, same_slot_refl new))))
    ]

keep-dropped :
    (p q : DnsRecord → Bool) (rs : List DnsRecord)
    → ((r : DnsRecord) → q r ≡ p r)
    → keep p (keep (λ r. not (q r)) rs) ≡ []
keep-dropped p q [] h = refl
keep-dropped p q (r ∷ rs) h = ground (arith, keep-dropped p q rs h, h r)

keep-other :
    (p q : DnsRecord → Bool) (rs : List DnsRecord)
    → ((r : DnsRecord) → p r ≡ true → q r ≡ false)
    → keep p (keep (λ r. not (q r)) rs) ≡ keep p rs
keep-other p q [] h = refl
keep-other p q (r ∷ rs) h = ground (arith, keep-other p q rs h, h r)

keep-append :
    (p : DnsRecord → Bool) (xs ys : List DnsRecord) → keep p (xs ++ ys) ≡ keep p xs ++ keep p ys
keep-append p [] ys = refl
keep-append p (x ∷ xs) ys = ground (arith, keep-append p xs ys)

keep-keep : (p : DnsRecord → Bool) (xs : List DnsRecord) → keep p (keep p xs) ≡ keep p xs
keep-keep p [] = refl
keep-keep p (x ∷ xs) = ground (arith, keep-keep p xs)

-- After an upsert the given record is the only one of its host and type, and of every other host and
-- type the records are those that were there, in their order.
pub records_at-replaced :
    (current : List DnsRecord) (new : DnsRecord) (h : Text) (t : RecordType)
    → records_at h t (replaced current new)
      ≡ (if is_at h t new then new ∷ [] else records_at h t current)
unfolding replaced
records_at-replaced current new h t =
    rw (keep-append (is_at h t) (keep (λ r. not (same_slot r new)) current) (new ∷ []))
      (elim (Bool-cases (is_at h t new)) [
        | inl e ↦
            rw
              (keep-dropped (is_at h t) (λ r. same_slot r new) current (same_slot-own h t new e), e)
              refl
        | inr e ↦
            rw
              (keep-other (is_at h t) (λ r. same_slot r new) current (same_slot-other h t new e), e)
              (append-nil _)
      ])

kept-replaced :
    (current : List DnsRecord) (new : DnsRecord)
    → keep (λ r. not (same_slot r new)) (replaced current new)
      ≡ keep (λ r. not (same_slot r new)) current
unfolding replaced
kept-replaced current new =
    rw
      (keep-append (λ r. not (same_slot r new)) (keep (λ r. not (same_slot r new)) current)
        (new ∷ []))
      (rw (keep-keep (λ r. not (same_slot r new)) current, same_slot_refl new) (append-nil _))

keep-same :
    (p q : DnsRecord → Bool) (rs : List DnsRecord)
    → ((r : DnsRecord) → p r ≡ q r)
    → keep p rs ≡ keep q rs
keep-same p q [] h = refl
keep-same p q (r ∷ rs) h = ground (arith, keep-same p q rs h, h r)

dropped-same :
    (rs : List DnsRecord) (new : DnsRecord)
    → keep (λ r. not (same_slot r new)) rs ≡ keep (λ r. not (is_at new.host new.type r)) rs
dropped-same rs new = keep-same _ _ rs (λ r. ap not (same_slot-is_at r new))

-- All records that are not of the upsert's host and type stay as they are and in their order, and
-- setting the same record twice is setting it once.
pub replaced_keeps :
    (current : List DnsRecord) (new : DnsRecord)
    → (keep (λ r. not (is_at new.host new.type r)) (replaced current new)
        ≡ keep (λ r. not (is_at new.host new.type r)) current)
      × (replaced (replaced current new) new ≡ replaced current new)
replaced_keeps current new = (
  sym (dropped-same (replaced current new) new)
      ∙ (kept-replaced current new ∙ dropped-same current new),
  unfold replaced in ap (λ rs. rs ++ new ∷ []) (kept-replaced current new),
)
