-- ===== src/Orders/Examples.antt =====
-- Runs of src/orders on small inputs.
use platform_api.Prelude.{
  List, Option, Result, Text, [], arith, ascii, false, if◌then◌else◌, length, none, ok, refl, some,
  text, text_eq, true, ℕ, ◌*◌, ◌++◌, ◌+◌, ◌-◌, ◌||◌, ◌∷◌, ◌≡◌, ◌≤◌, ◌⊎◌,
}
use platform_api.Orders.RateLimit.{Orders, RateCheck, RateError, check, expire, times_of, window}
use platform_api.Orders.RateLimit.History.{IsOrdered}
use platform_api.Orders.RateLimit.Answers.{answers, check-answers, history_answers}
use platform_api.Orders.RateLimit.Bounds.{IsNear, check-bounded, check-wait}
use platform_api.Orders.Service.{
  Answer, PostOrderResponse, Shop, accepted, client_address, execute_order, from_order, get_order,
  new_order, submit_order,
}
use platform_api.Orders.Service.Endpoints.{Accepts, Refuses, lets_in, submit_order-either}
use platform_api.Orders.Service.Tasks.{submit_order-executes}
use platform_api.Orders.Records.{Order}

-- The last of three orders in a window of ten stands in the way; the fourth comes later.
abbrev four_requests : List (Text × ℕ)
four_requests = (text "c", 1) ∷ (text "c", 5) ∷ (text "d", 5) ∷ (text "c", 6) ∷ (text "c", 11) ∷ []

in_order : IsOrdered 0 four_requests
in_order = (omega arith, (omega arith, (omega arith, (omega arith, (omega arith, tt)))))

check-answers_example : answers 2 10 1 [] four_requests ≡ history_answers 2 10 1 [] four_requests
check-answers_example = check-answers 2 10 1 four_requests (omega arith) in_order

abbrev one_order : Orders
one_order = (text "c", 1 ∷ []) ∷ []

check-bounded_example : length (times_of (text "c") (check 2 10 1 (text "c") 5 one_order).1) ≤ 2
check-bounded_example = check-bounded 2 10 1 (text "c") (text "c") 5 one_order (omega arith)

nothing_left : expire (window 1 10 1) 5 (times_of (text "c") one_order) ≡ 1 ∷ []
unfolding expire
nothing_left = refl

check-wait_example :
    (wait : ℕ) × ((check 1 10 1 (text "c") 5 one_order).0
      ≡ ok (record { allowed = false; retry_after_s = wait }))
    × (1 ≤ wait)
    × (IsNear (1 + 10 * 1 - 5) 1 wait ⊎ ((wait ≡ 1) × (2 * (1 + 10 * 1 - 5) ≤ 1)))
check-wait_example =
    check-wait 1 10 1 (text "c") 5 1 [] one_order (omega arith) nothing_left (omega arith)

abbrev empty_shop : Shop
empty_shop = record { limiter = []; rows = []; tasks = [] }

-- a parser of one UUID, in either case
abbrev one_uuid : Text → Option Text
one_uuid s = if text_eq s (text "2A") || text_eq s (text "2a") then some (text "2a") else none

abbrev first_outcome : Answer PostOrderResponse × Shop
first_outcome =
    submit_order ascii 2 10 1 none none (text "2a") (text "now") (text "{}") 5 empty_shop

abbrev first_limited : Result RateError RateCheck × Orders
first_limited = check 2 10 1 (client_address ascii none none) 5 []

submit_order-either_example :
    (Accepts (text "2a") (text "now") (text "{}") first_limited empty_shop first_outcome
      × (get_order one_uuid (text "2A") first_outcome.1
          ≡ accepted (from_order (new_order (text "2a") (text "now") (text "{}")))))
    ⊎ (Refuses first_limited empty_shop first_outcome
        × (get_order one_uuid (text "2A") first_outcome.1
            ≡ get_order one_uuid (text "2A") empty_shop))
submit_order-either_example =
    submit_order-either one_uuid ascii 2 10 1 none none (text "2a") (text "now") (text "{}") 5
      empty_shop (text "2A")

abbrev first_pending : Order
first_pending = new_order (text "2a") (text "now") (text "{}")

let_in : lets_in first_limited.0 ≡ true
unfolding check expire
let_in = refl

submit_order-executes_example :
    (first_outcome.1.tasks ≡ [] ++ text "2a" ∷ [])
    × (execute_order one_uuid (λ (o : Order) ids. o.id ∷ ids) (text "2a") first_outcome.1.rows []
        ≡ ok (text "2a" ∷ []))
    × (execute_order one_uuid (λ (o : Order) ids. o.id ∷ ids) (text "2A") first_outcome.1.rows []
        ≡ ok (text "2a" ∷ []))
submit_order-executes_example =
    submit_order-executes one_uuid (λ (o : Order) ids. o.id ∷ ids) ascii 2 10 1 none none
      (text "2a") (text "now") (text "{}") 5 empty_shop (text "2A") [] refl let_in
