-- ===== src/Orders/RateLimit/History.antt =====
-- The limiter of src/orders/order_rate_limit.py beside a list of every admitted order.
use platform_api.Prelude.{
  Bool, Bool-cases, List, Text, [], ap, append-nil, arith, false, if◌then◌else◌, inl, inr, insert,
  keep, length, lookup-insert, ltb, not, refl, subst, text_eq, text_eq_iff, true, ℕ, ◌++◌, ◌∙◌, ◌∷◌,
  ◌≡◌, ◌≤◌,
}
use platform_api.Orders.RateLimit.{Orders, expire, has_left, times_of, window}

-- The orders admitted so far, oldest first: whose, and when.
abbrev pub History : Type 0
History = List (Text × ℕ)

-- the times of one client's admitted orders
abbrev pub client_times : Text → History → List ℕ
client_times client [] = []
client_times client ((c, t) ∷ h) =
    let rest = client_times client h in if text_eq c client then t ∷ rest else rest

abbrev pub in_window : ℕ → ℕ → ℕ → Bool
in_window window now t = not (has_left window now t)

-- Sorted from `low` on, and not past `high`.
abbrev pub IsBetween : ℕ → ℕ → List ℕ → Type 0
IsBetween low high [] = Unit
IsBetween low high (t ∷ times) = (low ≤ t) × (t ≤ high) × IsBetween t high times

-- the times of the requests do not go back
abbrev pub IsOrdered : ℕ → List (Text × ℕ) → Type 0
IsOrdered low [] = Unit
IsOrdered low ((c, t) ∷ events) = (low ≤ t) × IsOrdered t events

keep_all_in_window :
    (window now low high : ℕ) (times : List ℕ)
    → IsBetween low high times
    → has_left window now low ≡ false
    → keep (in_window window now) times ≡ times
keep_all_in_window window now low high [] b h = refl
keep_all_in_window window now low high (t ∷ times) (p, q, b) h =
    ground (arith, keep_all_in_window window now t high times b)

expire-eq-keep :
    (window now low high : ℕ) (times : List ℕ)
    → IsBetween low high times
    → expire window now times ≡ keep (in_window window now) times
unfolding expire
expire-eq-keep window now low high [] b = refl
expire-eq-keep window now low high (t ∷ times) (p, q, b) =
    ground (
      arith,
      expire-eq-keep window now t high times b,
      keep_all_in_window window now t high times b,
    )

-- Where an earlier moment has dropped a time, so has a later one.
keep-keep_later :
    (window early late : ℕ) (times : List ℕ)
    → early ≤ late
    → keep (in_window window late) (keep (in_window window early) times)
      ≡ keep (in_window window late) times
keep-keep_later window early late [] h = refl
keep-keep_later window early late (t ∷ times) h =
    ground (arith, keep-keep_later window early late times h)

keep-append_one :
    (p : ℕ → Bool) (xs : List ℕ) (x : ℕ) → keep p (xs ++ x ∷ []) ≡ keep p xs ++ keep p (x ∷ [])
keep-append_one p [] x = refl
keep-append_one p (y ∷ xs) x = ground (arith, keep-append_one p xs x)

client_times-append :
    (client c : Text) (t : ℕ) (h : History)
    → client_times client (h ++ (c, t) ∷ [])
      ≡ client_times client h ++ (if text_eq c client then t ∷ [] else [])
client_times-append client c t [] = refl
client_times-append client c t ((d, s) ∷ h) = ground (arith, client_times-append client c t h)

IsBetween-append_one :
    (low high now : ℕ) (times : List ℕ)
    → IsBetween low high times
    → low ≤ now
    → high ≤ now
    → IsBetween low now (times ++ now ∷ [])
IsBetween-append_one low high now [] b l h = (l, omega arith, tt)
IsBetween-append_one low high now (t ∷ times) (p, q, b) l h =
    (p, omega arith, IsBetween-append_one t high now times b (omega arith) h)

IsBetween-low :
    (low low' high : ℕ) (times : List ℕ)
    → IsBetween low' high times
    → low ≤ low'
    → IsBetween low high times
IsBetween-low low low' high [] b h = tt
IsBetween-low low low' high (t ∷ times) (p, q, b) h = (omega arith, q, b)

IsBetween-keep :
    (low high : ℕ) (p : ℕ → Bool) (times : List ℕ)
    → IsBetween low high times
    → IsBetween low high (keep p times)
IsBetween-keep low high p [] b = tt
IsBetween-keep low high p (t ∷ times) (l, h, b) = elim (Bool-cases (p t)) [
  | inl e ↦ rw e (l, h, IsBetween-keep t high p times b)
  | inr e ↦ rw e (IsBetween-low low t high (keep p times) (IsBetween-keep t high p times b) l)
]

IsBetween-high :
    (low high high' : ℕ) (times : List ℕ)
    → IsBetween low high times
    → high ≤ high'
    → IsBetween low high' times
IsBetween-high low high high' [] b h = tt
IsBetween-high low high high' (t ∷ times) (p, q, b) h =
    (p, omega arith, IsBetween-high t high high' times b h)

times_of-insert :
    (client c : Text) (times : List ℕ) (orders : Orders)
    → times_of client (insert c times orders)
      ≡ (if text_eq c client then times else times_of client orders)
times_of-insert client c times orders = ground (arith, lookup-insert c client times orders)

module _ (count window_s ticks : ℕ) where
  abbrev frame : ℕ
  frame = window count window_s ticks

  -- The limiter's deques hold what the history has in the window, now and at every later moment.
  pub record Remembers (now : ℕ) (orders : Orders) (h : History) : Type 0 where
    pub same :
        (client : Text) (late : ℕ)
        → now ≤ late
        → keep (in_window frame late) (times_of client orders)
          ≡ keep (in_window frame late) (client_times client h)
    pub sorted : (client : Text) → IsBetween 0 now (times_of client orders)

  -- A client is admitted where fewer than `count` of its orders stand in the window.
  abbrev pub history_allows : History → Text → ℕ → Bool
  history_allows h client now =
      ltb (length (keep (in_window frame now) (client_times client h))) count

  abbrev pub remember : Bool → Text → ℕ → History → History
  remember admitted client now h = if admitted then h ++ (client, now) ∷ [] else h

  module _ (early now : ℕ) (c : Text) (orders : Orders) (h : History) (r : Remembers early orders h)
      (later : early ≤ now) where
    abbrev pub kept : List ℕ
    kept = expire frame now (times_of c orders)

    kept-eq : kept ≡ keep (in_window frame now) (times_of c orders)
    kept-eq = expire-eq-keep frame now 0 early (times_of c orders) (r.sorted c)

    pub kept-eq-history : kept ≡ keep (in_window frame now) (client_times c h)
    kept-eq-history = kept-eq ∙ r.same c now later

    kept-later :
        (late : ℕ)
        → now ≤ late
        → keep (in_window frame late) kept ≡ keep (in_window frame late) (client_times c h)
    kept-later late k =
        ap (λ ts. keep (in_window frame late) ts) kept-eq
        ∙ (keep-keep_later frame now late (times_of c orders) k ∙ r.same c late (omega arith))

    kept-sorted : IsBetween 0 now kept
    kept-sorted = rw kept-eq (
        IsBetween-keep 0 now (in_window frame now) (times_of c orders)
          (IsBetween-high 0 early now (times_of c orders) (r.sorted c) later))

    kept-admitted :
        (client : Text) (late : ℕ)
        → now ≤ late
        → text_eq c client ≡ true
        → keep (in_window frame late) (kept ++ now ∷ [])
          ≡ keep (in_window frame late) (client_times client h ++ now ∷ [])
    kept-admitted client late k e =
        subst
          (λ d.
            keep (in_window frame late) (kept ++ now ∷ [])
            ≡ keep (in_window frame late) (client_times d h ++ now ∷ []))
          ((text_eq_iff c client).0 e)
          (rw
            (
              keep-append_one (in_window frame late) kept now,
              keep-append_one (in_window frame late) (client_times c h) now,
              kept-later late k,
            )
            refl)

    kept-refused :
        (client : Text) (late : ℕ)
        → now ≤ late
        → text_eq c client ≡ true
        → keep (in_window frame late) kept ≡ keep (in_window frame late) (client_times client h)
    kept-refused client late k e =
        subst
          (λ d. keep (in_window frame late) kept ≡ keep (in_window frame late) (client_times d h))
          ((text_eq_iff c client).0 e) (kept-later late k)

    pub Remembers-admitted : Remembers now (insert c (kept ++ now ∷ []) orders) (h ++ (c, now) ∷ [])
    Remembers-admitted = record {
      same = λ client late k.
          rw
            (times_of-insert client c (kept ++ now ∷ []) orders, client_times-append client c now h)
            (elim (Bool-cases (text_eq c client)) [
              | inl e ↦ rw e (kept-admitted client late k e)
              | inr e ↦
                  rw e (rw (append-nil (client_times client h)) (r.same client late (omega arith)))
            ]);
      sorted = λ client.
          rw (times_of-insert client c (kept ++ now ∷ []) orders)
            (elim (Bool-cases (text_eq c client)) [
              | inl e ↦
                  rw e (IsBetween-append_one 0 now now kept kept-sorted (omega arith) (omega arith))
              | inr e ↦
                  rw e (IsBetween-high 0 early now (times_of client orders) (r.sorted client) later)
            ]);
    }

    pub Remembers-refused : Remembers now (insert c kept orders) h
    Remembers-refused = record {
      same = λ client late k.
          rw (times_of-insert client c kept orders) (elim (Bool-cases (text_eq c client)) [
            | inl e ↦ rw e (kept-refused client late k e)
            | inr e ↦ rw e (r.same client late (omega arith))
          ]);
      sorted = λ client.
          rw (times_of-insert client c kept orders) (elim (Bool-cases (text_eq c client)) [
            | inl e ↦ rw e kept-sorted
            | inr e ↦
                rw e (IsBetween-high 0 early now (times_of client orders) (r.sorted client) later)
          ]);
    }
