-- ===== src/Orders/RateLimit.antt =====
-- src/orders/order_rate_limit.py: a sliding window per client. The clock counts ticks, `ticks` of
-- them to a second; `count` and `window_s` are the limiter's settings.
pub mod History
pub mod Answers
pub mod Bounds
use platform_api.Prelude.{
  Bool, List, Result, Text, [], err, false, if◌then◌else◌, insert, leb, length, lookup, ltb, max,
  none, ok, refl, some, text, true, ℕ, ◌%◌, ◌*◌, ◌++◌, ◌+◌, ◌-◌, ◌/◌, ◌∷◌, ◌≡◌,
}

pub record RateCheck : Type 0 where
  pub allowed : Bool
  pub retry_after_s : ℕ

-- the IndexError of `times[0]` on an empty deque
pub data RateError : Type 0 where
  index_error : RateError

-- `_orders`: the deque of each client that was seen, oldest first
abbrev pub Orders : Type 0
Orders = List (Text × List ℕ)

abbrev pub times_of : Text → Orders → List ℕ
times_of client orders = elim (lookup client orders) [ none ↦ [] | some times ↦ times ]

-- `now - t >= window`, in ticks
abbrev pub has_left : ℕ → ℕ → ℕ → Bool
has_left window now t = leb (t + window) now

-- the `while` loop that drops what has left the window
unfoldable pub expire : ℕ → ℕ → List ℕ → List ℕ
expire window now [] = []
expire window now (t ∷ times) =
    let rest = expire window now times in if has_left window now t then rest else t ∷ times

-- Python's `round` of x / n: to the nearest, a half to the even side.
unfoldable pub round_div : ℕ → ℕ → ℕ
round_div x n =
    let q = x / n in
    let r = x % n in if ltb (2 * r) n then q else if ltb n (2 * r) then q + 1 else q + q % 2

module _ (count window_s ticks : ℕ) where
  abbrev pub window : ℕ
  window = window_s * ticks

  unfoldable pub refused : ℕ → List ℕ → Result RateError RateCheck
  unfolding round_div
  refused now [] = err index_error
  refused now (t ∷ times) =
      ok (record { allowed = false; retry_after_s = max 1 (round_div (t + window - now) ticks) })

  unfoldable pub check : Text → ℕ → Orders → Result RateError RateCheck × Orders
  unfolding expire refused
  check client now orders =
      let times = expire window now (times_of client orders) in
      if ltb (length times) count
      then (
        ok (record { allowed = true; retry_after_s = 0 }),
        insert client (times ++ now ∷ []) orders,
      )
      else (refused now times, insert client times orders)

check_third :
    (check 2 600 1 (text "c") 100 ((text "c", 10 ∷ 90 ∷ []) ∷ [])).0
    ≡ ok (record { allowed = false; retry_after_s = 510 })
unfolding check
check_third = refl
