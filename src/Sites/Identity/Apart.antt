-- ===== src/Sites/Identity/Apart.antt =====
-- That the host labels of src/dns/site_identity.py tell orders apart.
use platform_api.Prelude.{
  Bool, Text, [], all, ap, arith, keep, length, length-append, not, refl, suc, sym, take, true,
  zero, ℕ, ◌++◌, ◌∙◌, ◌∷◌, ◌≡◌, ◌≢◌,
}
use platform_api.Sites.Identity.{is_hyphen, order_suffix, site_host_label}

-- the texts from the right: equal sums with equally long ends have the same ends
append_right_inj : (s t x y : Text) → length x ≡ length y → s ++ x ≡ t ++ y → x ≡ y
append_right_inj [] [] x y h e = e
append_right_inj [] (d ∷ t) x y h e =
    absurd (omega (arith, ap (λ (z : Text). length z) e, length-append {0} t y))
append_right_inj (c ∷ s) [] x y h e =
    absurd (omega (arith, ap (λ (z : Text). length z) e, length-append {0} s x))
append_right_inj (c ∷ s) (d ∷ t) x y h e = append_right_inj s t x y h (cc)

all-first : (p : ℕ → Bool) (c : ℕ) (x : Text) → all p (c ∷ x) ≡ true → p c ≡ true
all-first p c x k = ground (arith, k)

all-rest : (p : ℕ → Bool) (c : ℕ) (x : Text) → all p (c ∷ x) ≡ true → all p x ≡ true
all-rest p c x k = ground (arith, k)

-- Six characters that are no hyphens are what the suffix takes.
taken_six :
    (n : ℕ) (x rest : Text)
    → length x ≡ n
    → all (λ c. not (is_hyphen c)) x ≡ true
    → take n (keep (λ c. not (is_hyphen c)) (x ++ rest)) ≡ x
taken_six zero [] rest h k = refl
taken_six zero (c ∷ x) rest h k = absurd (omega (arith, h))
taken_six (suc n) [] rest h k = absurd (omega (arith, h))
taken_six (suc n) (c ∷ x) rest h k = rw (all-first (λ c. not (is_hyphen c)) c x k) (
    ap (λ s. c ∷ s)
      (taken_six n x rest (omega (arith, h)) (all-rest (λ c. not (is_hyphen c)) c x k)))

order_suffix-eq :
    (x rest : Text)
    → length x ≡ 6
    → all (λ c. not (is_hyphen c)) x ≡ true
    → order_suffix (x ++ rest) ≡ b'-' ∷ x
unfolding order_suffix
order_suffix-eq x rest h k = ap (λ s. b'-' ∷ s) (taken_six 6 x rest h k)

-- Two orders whose ids begin with six characters each, none of them a hyphen, and differ there, have
-- different host labels, whatever the sites are called and however the ids go on.
pub site_host_label-apart :
    (site_a site_b head_a head_b rest_a rest_b : Text)
    → length head_a ≡ 6
    → length head_b ≡ 6
    → all (λ c. not (is_hyphen c)) head_a ≡ true
    → all (λ c. not (is_hyphen c)) head_b ≡ true
    → head_a ≢ head_b
    → site_host_label site_a (head_a ++ rest_a) ≢ site_host_label site_b (head_b ++ rest_b)
unfolding site_host_label
site_host_label-apart site_a site_b head_a head_b rest_a rest_b la lb ha hb n e =
    let ea = order_suffix-eq head_a rest_a la ha in
    let eb = order_suffix-eq head_b rest_b lb hb in
    let same =
      append_right_inj _ _ (order_suffix (head_a ++ rest_a)) (order_suffix (head_b ++ rest_b))
        (omega (arith, la, lb, ap (λ (z : Text). length z) ea, ap (λ (z : Text). length z) eb)) e in
    n (tail-eq head_a head_b (sym ea ∙ (same ∙ eb)))
  where
    tail-eq : (x y : Text) → ◌≡◌ {A = Text} (b'-' ∷ x) (b'-' ∷ y) → x ≡ y
    tail-eq x y k = cc
