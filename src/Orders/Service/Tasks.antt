-- ===== src/Orders/Service/Tasks.antt =====
-- What the scheduled task of src/orders/orders_service.py (OrdersService.execute) finds.
use platform_api.Prelude.{
  Bool-cases, List, Option, Option-cases, Result, Text, Unicode, [], ap, err, false≢true,
  if◌then◌else◌, inl, inr, insert, lookup, lookup-insert, none, ok, refl, some, sym, text_eq,
  text_eq_refl, true, ℕ, ◌++◌, ◌∙◌, ◌∷◌, ◌≡◌,
}
use platform_api.Orders.RateLimit.{check}
use platform_api.Orders.Records.{Order}
use platform_api.Orders.Service.{
  Shop, UuidError, bad_uuid, client_address, execute_order, get_or_none, new_order, run_found,
  submit_order,
}
use platform_api.Orders.Service.Endpoints.{admitted-either, lets_in, names_id}

-- What a task does with the id that it read.
abbrev task_of :
    {X : Type 0} → (Order → X → X) → Option Text → List (Text × Order) → X → Result UuidError X
task_of run none rows x = err bad_uuid
task_of run (some id) rows x = ok (run_found run (lookup id rows) x)

module _ {X : Type 0} (uuid_of : Text → Option Text) (run : Order → X → X) where
  execute_order-eq-task_of :
      (order_id : Text) (rows : List (Text × Order)) (x : X)
      → execute_order uuid_of run order_id rows x ≡ task_of run (uuid_of order_id) rows x
  unfolding execute_order get_or_none
  execute_order-eq-task_of order_id rows x = elim (Option-cases (uuid_of order_id)) [
    | inl e ↦ rw (e, execute_order, get_or_none) refl
    | inr (id, e) ↦ rw (e, execute_order, get_or_none) refl
  ]

  task_of-inserted :
      (id when payload : Text) (read : Option Text) (rows : List (Text × Order)) (x : X)
      → task_of run read (insert id (new_order id when payload) rows) x ≡ (
          if names_id id read
          then ok (run (new_order id when payload) x)
          else task_of run read rows x)
  task_of-inserted id when payload none rows x = refl
  task_of-inserted id when payload (some other) rows x =
      ap (λ o. ok (run_found run o x)) (lookup-insert id other (new_order id when payload) rows)
      ∙ elim (Bool-cases (text_eq id other)) [ inl k ↦ rw k refl | inr k ↦ rw k refl ]

  execute_order-inserted :
      (id order_id when payload : Text) (rows next : List (Text × Order)) (x : X)
      → next ≡ insert id (new_order id when payload) rows
      → execute_order uuid_of run order_id next x ≡ (
          if names_id id (uuid_of order_id)
          then ok (run (new_order id when payload) x)
          else execute_order uuid_of run order_id rows x)
  execute_order-inserted id order_id when payload rows next x e =
      rw (execute_order-eq-task_of order_id rows x) (
        execute_order-eq-task_of order_id next x
        ∙ (ap (λ r. task_of run (uuid_of order_id) r x) e
            ∙ task_of-inserted id when payload (uuid_of order_id) rows x))

  execute_order-own :
      (id when payload : Text) (rows next : List (Text × Order)) (x : X)
      → uuid_of id ≡ some id
      → next ≡ insert id (new_order id when payload) rows
      → execute_order uuid_of run id next x ≡ ok (run (new_order id when payload) x)
  execute_order-own id when payload rows next x plain e =
      execute_order-inserted id id when payload rows next x e ∙ rw (plain, text_eq_refl id) refl

  -- Where the limiter lets an order in, and its id is the plain spelling of a UUID, the task that is added
  -- runs the orchestrator on the order as it was submitted, pending. A task for any other text
  -- runs this order where the text is another spelling of its id, and else does what it did before.
  pub submit_order-executes :
      (u : Unicode) (count window_s ticks : ℕ) (forwarded_for socket : Option Text)
      (id when payload : Text) (now : ℕ) (shop : Shop) (order_id : Text) (x : X)
      → uuid_of id ≡ some id
      → lets_in
          (check count window_s ticks (client_address u forwarded_for socket) now shop.limiter).0
        ≡ true
      → (let next =
            (submit_order u count window_s ticks forwarded_for socket id when payload now shop).1 in
          (next.tasks ≡ shop.tasks ++ id ∷ [])
          × (execute_order uuid_of run id next.rows x ≡ ok (run (new_order id when payload) x))
          × (execute_order uuid_of run order_id next.rows x ≡ (
              if names_id id (uuid_of order_id)
              then ok (run (new_order id when payload) x)
              else execute_order uuid_of run order_id shop.rows x)))
  unfolding submit_order
  submit_order-executes u count window_s ticks forwarded_for socket id when payload now shop
        order_id x plain allowed =
      elim (admitted-either u count window_s ticks id when payload
        (check count window_s ticks (client_address u forwarded_for socket) now shop.limiter)
        shop) [
          | inr (barred, _, _, _, _) ↦ absurd (false≢true (sym barred ∙ allowed))
          | inl (_, _, _, tasks, rows) ↦ (
            tasks,
            execute_order-own id when payload shop.rows _ x plain rows,
            execute_order-inserted id order_id when payload shop.rows _ x rows,
          )
        ]
