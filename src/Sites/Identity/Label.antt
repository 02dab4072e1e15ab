-- ===== src/Sites/Identity/Label.antt =====
-- The host label of src/dns/site_identity.py, as DNS sees it.
use platform_api.Prelude.{
  Bool, Bool-cases, Text, [], all, arith, drop_while, false, inl, inr, is_empty, keep, length,
  length-append, length-take, not, refl, reverse, reverse-append, rstrip, rstrip-cons, strip, suc,
  take, true, zero, ℕ, ◌++◌, ◌-◌, ◌<◌, ◌||◌, ◌∷◌, ◌≡◌, ◌≤◌,
}
use platform_api.Sites.Slug.{is_slug_char}
use platform_api.Sites.Slug.Laws.{IsSlug, is_slug_from}
use platform_api.Sites.Identity.{hyphenated, is_hyphen, max_label, order_suffix, site_host_label}

-- RFC 1123: letters, digits and hyphens, with a letter or digit at both ends. Capitals are left out.
abbrev pub is_label_char : ℕ → Bool
is_label_char c = is_slug_char c || is_hyphen c

abbrev pub starts_alnum : Text → Bool
starts_alnum [] = false
starts_alnum (c ∷ s) = is_slug_char c

abbrev pub ends_alnum : Text → Bool
ends_alnum [] = false
ends_alnum (c ∷ []) = is_slug_char c
ends_alnum (c ∷ d ∷ s) = ends_alnum (d ∷ s)

pub record IsDnsLabel (s : Text) : Type 0 where
  pub fits : length s ≤ 63
  pub chars : all is_label_char s ≡ true
  pub starts : starts_alnum s ≡ true
  pub ends : ends_alnum s ≡ true

-- An order id holds letters, digits and hyphens, and not only hyphens.
pub record IsOrderId (s : Text) : Type 0 where
  pub chars : all is_label_char s ≡ true
  pub some_alnum : is_empty (keep (λ c. not (is_hyphen c)) s) ≡ false

length-order_suffix-le : (id : Text) → length (order_suffix id) ≤ 7
unfolding order_suffix
length-order_suffix-le id = omega (arith, length-take 6 (keep (λ c. not (is_hyphen c)) id))

length-drop_while-le : (p : ℕ → Bool) (s : Text) → length (drop_while p s) ≤ length s
length-drop_while-le p [] = omega arith
length-drop_while-le p (c ∷ s) = ground (arith, length-drop_while-le p s)

length-reverse : (s : Text) → length (reverse s) ≡ length s
length-reverse [] = refl
length-reverse (c ∷ s) =
    rw (reverse-append (c ∷ []) s)
      (omega (arith, length-append {0} (reverse s) (c ∷ []), length-reverse s))

length-rstrip-le : (p : ℕ → Bool) (s : Text) → length (rstrip p s) ≤ length s
length-rstrip-le p s = omega (
  arith,
  length-reverse (drop_while p (reverse s)),
  length-drop_while-le p (reverse s),
  length-reverse s,
)

length-site_host_label-le : (site_id id : Text) → length (site_host_label site_id id) ≤ 63
unfolding site_host_label
length-site_host_label-le site_id id =
    let body = take (max_label - length (order_suffix id)) (strip is_hyphen (hyphenated site_id)) in
    omega (
      arith,
      length-append {0} (rstrip is_hyphen body) (order_suffix id),
      length-rstrip-le is_hyphen body,
      length-take (max_label - length (order_suffix id)) (strip is_hyphen (hyphenated site_id)),
      length-order_suffix-le id,
    )

all-take : (p : ℕ → Bool) (n : ℕ) (s : Text) → all p s ≡ true → all p (take n s) ≡ true
all-take p zero s h = refl
all-take p (suc n) [] h = refl
all-take p (suc n) (c ∷ s) h = ground (arith, all-take p n s)

all-append : (p : ℕ → Bool) (s t : Text) → all p s ≡ true → all p t ≡ true → all p (s ++ t) ≡ true
all-append p [] t h k = k
all-append p (c ∷ s) t h k = ground (arith, all-append p s t)

all-rstrip : (p q : ℕ → Bool) (s : Text) → all q s ≡ true → all q (rstrip p s) ≡ true
all-rstrip p q [] h = refl
all-rstrip p q (c ∷ s) h = rw (rstrip-cons p c s) (ground (arith, all-rstrip p q s))

-- The hyphenated slug begins with a letter or digit.
hyphenated_chars :
    (before : Bool) (s : Text)
    → is_slug_from before s ≡ true
    → all is_label_char (hyphenated s) ≡ true
unfolding hyphenated
hyphenated_chars before [] h = refl
hyphenated_chars before (c ∷ s) h = elim (Bool-cases (is_slug_char c)) [
  | inl e ↦ ground (arith, hyphenated_chars true s)
  | inr e ↦ ground (arith, hyphenated_chars false s)
]

starts_alnum-hyphenated : (s : Text) → IsSlug s → starts_alnum (hyphenated s) ≡ true
unfolding hyphenated
starts_alnum-hyphenated [] h = cc
starts_alnum-hyphenated (c ∷ s) h = ground arith

drop_while-starts_alnum : (s : Text) → starts_alnum s ≡ true → drop_while is_hyphen s ≡ s
drop_while-starts_alnum [] h = refl
drop_while-starts_alnum (c ∷ s) h = ground arith

starts_alnum-rstrip : (s : Text) → starts_alnum s ≡ true → starts_alnum (rstrip is_hyphen s) ≡ true
starts_alnum-rstrip [] h = cc
starts_alnum-rstrip (c ∷ s) h = rw (rstrip-cons is_hyphen c s) (ground arith)

starts_alnum-take :
    (n : ℕ) (s : Text) → 0 < n → starts_alnum s ≡ true → starts_alnum (take n s) ≡ true
starts_alnum-take zero s h k = absurd (omega arith)
starts_alnum-take (suc n) [] h k = cc
starts_alnum-take (suc n) (c ∷ s) h k = k

starts_alnum-append : (s t : Text) → starts_alnum s ≡ true → starts_alnum (s ++ t) ≡ true
starts_alnum-append [] t h = cc
starts_alnum-append (c ∷ s) t h = h

-- The suffix is a hyphen and at least one letter or digit.
kept_alnum :
    (s : Text)
    → all is_label_char s ≡ true
    → all is_slug_char (keep (λ c. not (is_hyphen c)) s) ≡ true
kept_alnum [] h = refl
kept_alnum (c ∷ s) h = ground (arith, kept_alnum s)

ends_alnum-take :
    (n : ℕ) (s : Text)
    → all is_slug_char s ≡ true
    → is_empty s ≡ false
    → ends_alnum (take (suc n) s) ≡ true
ends_alnum-take n [] h k = cc
ends_alnum-take zero (c ∷ s) h k = ground arith
ends_alnum-take (suc n) (c ∷ []) h k = ground arith
ends_alnum-take (suc n) (c ∷ d ∷ s) h k = ends_alnum-take n (d ∷ s) (ground arith) refl

ends_alnum-append :
    (s : Text) (c : ℕ) (t : Text) → ends_alnum (c ∷ t) ≡ true → ends_alnum (s ++ c ∷ t) ≡ true
ends_alnum-append [] c t h = h
ends_alnum-append (d ∷ []) c t h = h
ends_alnum-append (d ∷ e ∷ s) c t h = ends_alnum-append (e ∷ s) c t h

ends_alnum-cons : (c : ℕ) (t : Text) → ends_alnum t ≡ true → ends_alnum (c ∷ t) ≡ true
ends_alnum-cons c [] h = cc
ends_alnum-cons c (d ∷ t) h = h

all_slug-label : (s : Text) → all is_slug_char s ≡ true → all is_label_char s ≡ true
all_slug-label [] h = refl
all_slug-label (c ∷ s) h = ground (arith, all_slug-label s)

-- The slug part of the label, before the suffix.
label_body : Text → Text → Text
label_body site_id id =
    rstrip is_hyphen
      (take (max_label - length (order_suffix id)) (strip is_hyphen (hyphenated site_id)))

label_body-starts :
    (site_id id : Text) → IsSlug site_id → starts_alnum (label_body site_id id) ≡ true
unfolding label_body
label_body-starts site_id id slug =
    let first = starts_alnum-hyphenated site_id slug in
    starts_alnum-rstrip
      (take (max_label - length (order_suffix id)) (strip is_hyphen (hyphenated site_id)))
      (starts_alnum-take (max_label - length (order_suffix id))
        (strip is_hyphen (hyphenated site_id)) (omega (arith, length-order_suffix-le id))
        (rw (drop_while-starts_alnum (hyphenated site_id) first)
          (starts_alnum-rstrip (hyphenated site_id) first)))

label_body-chars :
    (site_id id : Text) → IsSlug site_id → all is_label_char (label_body site_id id) ≡ true
unfolding label_body
label_body-chars site_id id slug =
    all-rstrip is_hyphen is_label_char
      (take (max_label - length (order_suffix id)) (strip is_hyphen (hyphenated site_id)))
      (all-take is_label_char (max_label - length (order_suffix id))
        (strip is_hyphen (hyphenated site_id))
        (rw (drop_while-starts_alnum (hyphenated site_id) (starts_alnum-hyphenated site_id slug)) (
          all-rstrip is_hyphen is_label_char (hyphenated site_id)
            (hyphenated_chars false site_id slug))))

order_suffix-chars :
    (id : Text) → all is_label_char id ≡ true → all is_label_char (order_suffix id) ≡ true
unfolding order_suffix
order_suffix-chars id h =
    all-take is_label_char 6 (keep (λ c. not (is_hyphen c)) id)
      (all_slug-label (keep (λ c. not (is_hyphen c)) id) (kept_alnum id h))

order_suffix-ends : (s id : Text) → IsOrderId id → ends_alnum (s ++ order_suffix id) ≡ true
unfolding order_suffix
order_suffix-ends s id order =
    let kept = keep (λ c. not (is_hyphen c)) id in
    ends_alnum-append s b'-' (take 6 kept) (
      ends_alnum-cons b'-' (take 6 kept)
        (ends_alnum-take 5 kept (kept_alnum id order.chars) order.some_alnum))

-- For a slug and an order id, the label that the site is reached under is a DNS label: at most 63
-- characters, letters, digits and hyphens only, and a letter or digit at both ends.
pub site_host_label-IsDnsLabel :
    (site_id order_id : Text)
    → IsSlug site_id
    → IsOrderId order_id
    → IsDnsLabel (site_host_label site_id order_id)
unfolding site_host_label label_body
site_host_label-IsDnsLabel site_id id slug order = record {
  fits = length-site_host_label-le site_id id;
  chars =
      all-append is_label_char (label_body site_id id) (order_suffix id)
        (label_body-chars site_id id slug) (order_suffix-chars id order.chars);
  starts =
      starts_alnum-append (label_body site_id id) (order_suffix id)
        (label_body-starts site_id id slug);
  ends = order_suffix-ends (label_body site_id id) id order;
}
