-- ===== src/Orchestrator/Effects/Outcomes.antt =====
-- How an action of src/orchestrator/orchestrator_service.py ends, and what that says of its parts.
use platform_api.Prelude.{Result, arith, err, inl, inr, ok, refl, ◌∷◌, ◌≡◌, ◌⊎◌}
use platform_api.Orders.Records.{Order}
use platform_api.Orchestrator.Effects.{
  Action, Failure, Mail, World, bind, continue, done, failing, raised, saved, sent,
}

pub outcome :
    {S X A : Type 0} (o : Result (Failure X) A × World S)
    → ((x : A) × (v : World S) × (o ≡ (ok x, v)))
      ⊎ ((e : Failure X) × (v : World S) × (o ≡ (err e, v)))
outcome (ok x, v) = inl (x, v, refl)
outcome (err e, v) = inr (e, v, refl)

continue-ok :
    {S X A B : Type 0} (o : Result (Failure X) A × World S) (f : A → Action S X B) (y : B)
    (v : World S)
    → continue o f ≡ (ok y, v)
    → (x : A) × (u : World S) × (o ≡ (ok x, u)) × (f x u ≡ (ok y, v))
continue-ok (ok x, u) f y v h = (x, u, refl, h)
continue-ok (err e, u) f y v h = absurd (ground arith)

-- A chain that ends well: its first part ended well, and so did the rest from there.
pub bind-ok :
    {S X A B : Type 0} (m : Action S X A) (f : A → Action S X B) (w : World S) (y : B) (v : World S)
    → bind m f w ≡ (ok y, v)
    → (x : A) × (u : World S) × (m w ≡ (ok x, u)) × (f x u ≡ (ok y, v))
unfolding bind
bind-ok m f w y v h = continue-ok (m w) f y v h

pub saved-ok :
    {S X : Type 0} (order : Order) (r : Result X (Unit {0}) × S) (w : World S)
    → r.0 ≡ ok tt
    → saved order r w ≡ (ok tt, record { services = r.1; saves = order ∷ w.saves; mails = w.mails })
saved-ok order (ok u, s) w h = refl
saved-ok order (err e, s) w h = absurd (ground arith)

pub sent-ok :
    {S X : Type 0} (mail : Mail) (r : Result X (Unit {0}) × S) (w : World S)
    → r.0 ≡ ok tt
    → sent mail r w ≡ (ok tt, record { services = r.1; saves = w.saves; mails = mail ∷ w.mails })
sent-ok mail (ok u, s) w h = refl
sent-ok mail (err e, s) w h = absurd (ground arith)

pub done-ok : {S X A : Type 0} (x y : A) (w v : World S) → done {X = X} x w ≡ (ok y, v) → x ≡ y
unfolding done
done-ok x y w v h = ground arith

pub failing-ok :
    {S X A : Type 0} (r : Result X A) (x : A) (w v : World S)
    → ◌≡◌ {A = Result (Failure X) A × World S} (failing r, w) (ok x, v)
    → r ≡ ok x
failing-ok (ok y) x w v h = ground arith
failing-ok (err e) x w v h = absurd (ground arith)

-- A mail is sent and recorded, or the service raises and nothing is recorded.
pub sent-ends :
    {S X : Type 0} (mail : Mail) (r : Result X (Unit {0}) × S) (w : World S)
    → ((sent mail r w).1.saves ≡ w.saves)
      × ((((sent mail r w).0 ≡ ok tt) × ((sent mail r w).1.mails ≡ mail ∷ w.mails))
          ⊎ ((e : Failure X) × ((sent mail r w).0 ≡ err e) × ((sent mail r w).1.mails ≡ w.mails)))
sent-ends mail (ok u, s) w = (refl, inl (refl, refl))
sent-ends mail (err e, s) w = (refl, inr (raised e, refl, refl))
