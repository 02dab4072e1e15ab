-- ===== src/Orders/RateLimit/Answers.antt =====
-- Runs of src/orders/order_rate_limit.py over a sequence of requests.
use platform_api.Prelude.{
  Bool, Bool-cases, List, Option, Result, Text, [], ap, arith, err, false, inl, inr, length, ltb,
  none, ok, refl, some, sym, true, ℕ, ◌∷◌, ◌≡◌, ◌≤◌,
}
use platform_api.Orders.RateLimit.{Orders, RateCheck, RateError, check, refused}
use platform_api.Orders.RateLimit.History.{
  History, IsOrdered, Remembers, Remembers-admitted, Remembers-refused, history_allows, kept,
  kept-eq-history, remember,
}

module _ (count window_s ticks : ℕ) where
  abbrev verdict : Result RateError RateCheck → Option Bool
  verdict (ok r) = some r.allowed
  verdict (err e) = none

  -- What the limiter answers to each request, none for an exception.
  abbrev pub answers : Orders → List (Text × ℕ) → List (Option Bool)
  answers orders [] = []
  answers orders ((c, now) ∷ events) =
      let (r, next) = check count window_s ticks c now orders in verdict r ∷ answers next events

  -- What one that remembers every admitted order answers.
  abbrev pub history_answers : History → List (Text × ℕ) → List (Option Bool)
  history_answers h [] = []
  history_answers h ((c, now) ∷ events) =
      let admitted = history_allows count window_s ticks h c now in
      some admitted ∷ history_answers (remember count window_s ticks admitted c now h) events

  refused-verdict :
      (now : ℕ) (times : List ℕ)
      → 1 ≤ count
      → ltb (length times) count ≡ false
      → verdict (refused count window_s ticks now times) ≡ some false
  unfolding refused
  refused-verdict now [] h e = ground arith
  refused-verdict now (t ∷ times) h e = refl

  answers-history :
      (early : ℕ) (orders : Orders) (h : History) (events : List (Text × ℕ))
      → 1 ≤ count
      → Remembers count window_s ticks early orders h
      → IsOrdered early events
      → answers orders events ≡ history_answers h events
  unfolding check
  answers-history early orders h [] p r o = refl
  answers-history early orders h ((c, now) ∷ events) p r (l, o) =
      rw (sym (kept-eq-history count window_s ticks early now c orders h r l))
        (elim (Bool-cases
          (ltb (length (kept count window_s ticks early now c orders h r l)) count)) [
            | inl e ↦ rw e (
                ap (λ xs. some true ∷ xs)
                  (answers-history now _ _ events p
                    (Remembers-admitted count window_s ticks early now c orders h r l) o))
            | inr e ↦
                rw (e, refused-verdict now (kept count window_s ticks early now c orders h r l) p e)
                  (ap (λ xs. some false ∷ xs)
                    (answers-history now _ _ events p
                      (Remembers-refused count window_s ticks early now c orders h r l) o))
          ])

  Remembers-start : Remembers count window_s ticks 0 [] []
  Remembers-start = record { same = λ client late k. refl; sorted = λ client. tt }

-- For requests in the order of the clock and a positive count, the limiter's answers are those of one
-- that keeps every order ever admitted and counts, at each request, the client's orders in the window.
pub check-answers :
    (count window_s ticks : ℕ) (events : List (Text × ℕ))
    → 1 ≤ count
    → IsOrdered 0 events
    → answers count window_s ticks [] events ≡ history_answers count window_s ticks [] events
check-answers count window_s ticks events p o =
    answers-history count window_s ticks 0 [] [] events p (Remembers-start count window_s ticks) o
