-- ===== src/Orders/Service/Endpoints.antt =====
-- What the endpoints of src/orders/orders_controller.py do to the stored orders.
use platform_api.Prelude.{
  Bool, Bool-cases, List, Option, Option-cases, Result, Text, Unicode, [], answer, ap, err, false,
  if◌then◌else◌, inl, inr, insert, lookup, lookup-insert, none, ok, refl, some, sym, text, text_eq,
  true, ℕ, ◌++◌, ◌∙◌, ◌∷◌, ◌≡◌, ◌⊎◌,
}
use platform_api.Orders.RateLimit.{Orders, RateCheck, RateError, check}
use platform_api.Orders.Service.{
  Answer, GetOrderResponse, PostOrderResponse, Shop, accepted, admitted, client_address, from_order,
  get, get_or_none, get_order, new_order, refused_with, submit_order,
}
use platform_api.Orders.Records.{Order}

-- whether the limiter lets the order in
abbrev pub lets_in : Result RateError RateCheck → Bool
lets_in (ok verdict) = verdict.allowed
lets_in (err e) = false

-- the answer to an order that it does not let in
abbrev pub refusal : Result RateError RateCheck → Answer PostOrderResponse
refusal (ok verdict) = refused_with 429 (some verdict.retry_after_s)
refusal (err e) = refused_with 500 none

-- What `submit_order` makes of the limiter's verdict, the table, the tasks and the answer.
abbrev pub Accepts :
    Text
    → Text
    → Text
    → Result RateError RateCheck × Orders
    → Shop
    → Answer PostOrderResponse × Shop
    → Type 0
Accepts id when payload (verdict, orders) shop (answer, next) =
    (lets_in verdict ≡ true)
    × (answer
        ≡ accepted (record {
          order_id = id;
          status_url = text "/platform-api/orders/" ++ id;
          submitted_at = when;
        }))
    × (next.limiter ≡ orders)
    × (next.tasks ≡ shop.tasks ++ id ∷ [])
    × (next.rows ≡ insert id (new_order id when payload) shop.rows)

abbrev pub Refuses :
    Result RateError RateCheck × Orders → Shop → Answer PostOrderResponse × Shop → Type 0
Refuses (verdict, orders) shop (answer, next) =
    (lets_in verdict ≡ false)
    × (answer ≡ refusal verdict)
    × (next.limiter ≡ orders)
    × (next.tasks ≡ shop.tasks)
    × (next.rows ≡ shop.rows)

pub admitted-either :
    (u : Unicode) (count window_s ticks : ℕ) (id when payload : Text)
    (o : Result RateError RateCheck × Orders) (shop : Shop)
    → Accepts id when payload o shop (admitted u count window_s ticks id when payload o shop)
      ⊎ Refuses o shop (admitted u count window_s ticks id when payload o shop)
unfolding admitted
admitted-either u count window_s ticks id when payload (err e, orders) shop =
    inr (refl, refl, refl, refl, refl)
admitted-either u count window_s ticks id when payload (ok r, orders) shop =
    elim (Bool-cases r.allowed) [
      | inl e ↦ inl (
        e,
        rw (e, admitted) refl,
        rw (e, admitted) refl,
        rw (e, admitted) refl,
        rw (e, admitted) refl,
      )
      | inr e ↦ inr (
        e,
        rw (e, admitted) refl,
        rw (e, admitted) refl,
        rw (e, admitted) refl,
        rw (e, admitted) refl,
      )
    ]

-- whether an id, as its parser reads it, is this one
abbrev pub names_id : Text → Option Text → Bool
names_id id none = false
names_id id (some other) = text_eq id other

-- the answer for what the table holds under the id that was read
abbrev answer_of : Option Order → Answer GetOrderResponse
answer_of none = refused_with 404 none
answer_of (some order) = accepted (from_order order)

abbrev answer_at : Option Text → List (Text × Order) → Answer GetOrderResponse
answer_at none rows = refused_with 500 none
answer_at (some id) rows = answer_of (lookup id rows)

module _ (uuid_of : Text → Option Text) where
  get_order-eq-answer_at :
      (order_id : Text) (shop : Shop)
      → get_order uuid_of order_id shop ≡ answer_at (uuid_of order_id) shop.rows
  unfolding get_order get get_or_none
  get_order-eq-answer_at order_id shop = elim (Option-cases (uuid_of order_id)) [
    | inl e ↦ rw (e, get_order, get, get_or_none) refl
    | inr (id, e) ↦ elim (Option-cases (lookup id shop.rows)) [
      | inl k ↦ rw (e, k, get_order, get, get_or_none) refl
      | inr (order, k) ↦ rw (e, k, get_order, get, get_or_none) refl
    ]
  ]

  get_order-rows :
      (order_id : Text) (shop next : Shop)
      → next.rows ≡ shop.rows
      → get_order uuid_of order_id next ≡ get_order uuid_of order_id shop
  get_order-rows order_id shop next e =
      get_order-eq-answer_at order_id next
      ∙ (ap (λ rows. answer_at (uuid_of order_id) rows) e
          ∙ sym (get_order-eq-answer_at order_id shop))

  answer_at-inserted :
      (id when payload : Text) (read : Option Text) (rows : List (Text × Order))
      → answer_at read (insert id (new_order id when payload) rows) ≡ (
          if names_id id read
          then accepted (from_order (new_order id when payload))
          else answer_at read rows)
  answer_at-inserted id when payload none rows = refl
  answer_at-inserted id when payload (some other) rows =
      ap answer_of (lookup-insert id other (new_order id when payload) rows)
      ∙ elim (Bool-cases (text_eq id other)) [ inl k ↦ rw k refl | inr k ↦ rw k refl ]

  get_order-inserted :
      (id order_id when payload : Text) (shop next : Shop)
      → next.rows ≡ insert id (new_order id when payload) shop.rows
      → get_order uuid_of order_id next ≡ (
          if names_id id (uuid_of order_id)
          then accepted (from_order (new_order id when payload))
          else get_order uuid_of order_id shop)
  get_order-inserted id order_id when payload shop next e =
      rw (get_order-eq-answer_at order_id shop) (
        get_order-eq-answer_at order_id next
        ∙ (ap (λ rows. answer_at (uuid_of order_id) rows) e
            ∙ answer_at-inserted id when payload (uuid_of order_id) shop.rows))

  -- A submitted order is accepted where the limiter lets the client in, and refused where it does not.
  -- Accepted, it is answered with its id, its task is the one task added, and from then on `get_order`
  -- answers each spelling of its id with the order as pending, and every other text as before.
  -- Refused, with 429 and the limiter's wait or with 500 where the limiter raised, no row and no task
  -- is added, and every text is answered as before. Both times the limiter's own state is kept.
  pub submit_order-either :
      (u : Unicode) (count window_s ticks : ℕ) (forwarded_for socket : Option Text)
      (id when payload : Text) (now : ℕ) (shop : Shop) (order_id : Text)
      → (let limited =
            check count window_s ticks (client_address u forwarded_for socket) now shop.limiter in
          let outcome =
            submit_order u count window_s ticks forwarded_for socket id when payload now shop in
          (Accepts id when payload limited shop outcome
            × (get_order uuid_of order_id outcome.1 ≡ (
                if names_id id (uuid_of order_id)
                then accepted (from_order (new_order id when payload))
                else get_order uuid_of order_id shop)))
          ⊎ (Refuses limited shop outcome
              × (get_order uuid_of order_id outcome.1 ≡ get_order uuid_of order_id shop)))
  unfolding submit_order
  submit_order-either u count window_s ticks forwarded_for socket id when payload now shop
        order_id =
      elim (admitted-either u count window_s ticks id when payload
        (check count window_s ticks (client_address u forwarded_for socket) now shop.limiter)
        shop) [
          | inl (v, a, l, t, r) ↦
              inl ((v, a, l, t, r), get_order-inserted id order_id when payload shop _ r)
          | inr (v, a, l, t, r) ↦ inr ((v, a, l, t, r), get_order-rows order_id shop _ r)
        ]
