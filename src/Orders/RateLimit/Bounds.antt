-- ===== src/Orders/RateLimit/Bounds.antt =====
-- How many times src/orders/order_rate_limit.py keeps, and how long it asks a client to wait.
use platform_api.Prelude.{
  Bool-cases, List, Text, [], ap, arith, false, if◌then◌else◌, inl, inr, insert, length,
  length-append, lookup-insert, ltb, ltb→lt, max, ok, refl, subst, suc, text_eq, text_eq_iff, true,
  zero, ℕ, ◌%◌, ◌*◌, ◌+◌, ◌-◌, ◌/◌, ◌<◌, ◌∷◌, ◌≡◌, ◌≤◌, ◌⊎◌,
}
use platform_api.Orders.RateLimit.{Orders, check, expire, refused, round_div, times_of, window}

length-expire-le : (w now : ℕ) (times : List ℕ) → length (expire w now times) ≤ length times
unfolding expire
length-expire-le w now [] = omega arith
length-expire-le w now (t ∷ times) = ground (arith, length-expire-le w now times)

lookup-inserted :
    (client c : Text) (times : List ℕ) (orders : Orders)
    → times_of client (insert c times orders)
      ≡ (if text_eq c client then times else times_of client orders)
lookup-inserted client c times orders = ground (arith, lookup-insert c client times orders)

module _ (count : ℕ) (client c : Text) (times : List ℕ) (orders : Orders) where
  -- What a check stores for `c` is no longer than the count.
  stored :
      length (times_of client orders) ≤ count
      → (text_eq c client ≡ true → length times ≤ count)
      → length (times_of client (insert c times orders)) ≤ count
  stored b k =
      rw (lookup-inserted client c times orders)
        (elim (Bool-cases (text_eq c client)) [ inl e ↦ rw e (k e) | inr e ↦ rw e b ])

times_of-same :
    (client c : Text) (orders : Orders)
    → text_eq c client ≡ true
    → times_of c orders ≡ times_of client orders
times_of-same client c orders e = ap (λ d. times_of d orders) ((text_eq_iff c client).0 e)

-- A check keeps the number of times remembered for every client at most the count.
pub check-bounded :
    (count window_s ticks : ℕ) (client c : Text) (now : ℕ) (orders : Orders)
    → length (times_of client orders) ≤ count
    → length (times_of client (check count window_s ticks c now orders).1) ≤ count
unfolding check
check-bounded count window_s ticks client c now orders b =
    elim (Bool-cases
      (ltb (length (expire (window count window_s ticks) now (times_of c orders))) count)) [
        | inl e ↦ rw e (
            stored count client c _ orders b (λ k. omega (
              arith,
              ltb→lt (length (expire (window count window_s ticks) now (times_of c orders))) count
                  e,
              length-append (expire (window count window_s ticks) now (times_of c orders))
                  (now ∷ []),
            )))
        | inr e ↦ rw e (
            stored count client c _ orders b (λ k. omega (
              arith,
              length-expire-le (window count window_s ticks) now (times_of c orders),
              ap length (times_of-same client c orders k),
            )))
      ]

-- Within half a unit of the number divided.
abbrev pub IsNear : ℕ → ℕ → ℕ → Type 0
IsNear x n u = (2 * x ≤ 2 * (u * n) + n) × (2 * (u * n) ≤ 2 * x + n)

down-IsNear : (x n q r : ℕ) → x ≡ q * n + r → 2 * r ≤ n → IsNear x n q
down-IsNear x n q r e h = (omega arith, omega arith)

up-IsNear : (x n q r : ℕ) → x ≡ q * n + r → n ≤ 2 * r → r < n → IsNear x n (q + 1)
up-IsNear x n q r e h l = (omega arith, omega arith)

even-IsNear : (x n q r b : ℕ) → x ≡ q * n + r → 2 * r ≡ n → r < n → b < 2 → IsNear x n (q + b)
even-IsNear x n q r zero e h l k =
    subst (IsNear x n) (omega arith) (down-IsNear x n q r e (omega arith))
even-IsNear x n q r (suc zero) e h l k = up-IsNear x n q r e (omega arith) l
even-IsNear x n q r (suc (suc b)) e h l k = absurd (omega arith)

round_div-IsNear : (x n : ℕ) → 1 ≤ n → IsNear x n (round_div x n)
unfolding round_div
round_div-IsNear x n h = elim (Bool-cases (ltb (2 * (x % n)) n)) [
  | inl e ↦ rw e (down-IsNear x n (x / n) (x % n) (omega arith) (ground arith))
  | inr e ↦ rw e (elim (Bool-cases (ltb n (2 * (x % n)))) [
    | inl k ↦ rw k (up-IsNear x n (x / n) (x % n) (omega arith) (ground arith) (omega arith))
    | inr k ↦ rw k (
        even-IsNear x n (x / n) (x % n) (x / n % 2) (omega arith) (ground arith) (omega arith)
          (omega arith))
  ])
]

-- The greater of one and a rounded time is the rounded time, or one where the time is at most half a unit.
max_one-IsNear : (x n u : ℕ) → IsNear x n u → IsNear x n (max 1 u) ⊎ ((max 1 u ≡ 1) × (2 * x ≤ n))
max_one-IsNear x n zero (above, below) = inr (omega arith, omega (arith, above))
max_one-IsNear x n (suc u) near = inl (subst (IsNear x n) (omega arith) near)

-- A client whose window is full is refused, and told to wait for at least a second: for the time until
-- its oldest order leaves the window, to within half a second, or for one second where that time is
-- at most half a second.
pub check-wait :
    (count window_s ticks : ℕ) (c : Text) (now t : ℕ) (times : List ℕ) (orders : Orders)
    → 1 ≤ ticks
    → expire (window count window_s ticks) now (times_of c orders) ≡ t ∷ times
    → count ≤ length (t ∷ times)
    → (wait : ℕ) × ((check count window_s ticks c now orders).0
        ≡ ok (record { allowed = false; retry_after_s = wait }))
      × (1 ≤ wait)
      × (IsNear (t + window_s * ticks - now) ticks wait
          ⊎ ((wait ≡ 1) × (2 * (t + window_s * ticks - now) ≤ ticks)))
unfolding check refused
check-wait count window_s ticks c now t times orders h e full = (
  max 1 (round_div (t + window_s * ticks - now) ticks),
  rw (e, not_ltb) refl,
  omega arith,
  max_one-IsNear (t + window_s * ticks - now) ticks (round_div (t + window_s * ticks - now) ticks)
      (round_div-IsNear (t + window_s * ticks - now) ticks h),
)
  where
    not_ltb : ltb (length (t ∷ times)) count ≡ false
    not_ltb = ground arith
