-- ===== src/Orchestrator/Effects/Quiet.antt =====
-- Actions of src/orchestrator/orchestrator_service.py that save no row and send no mail.
use platform_api.Prelude.{Result, err, ok, refl, ◌∙◌, ◌≡◌}
use platform_api.Orchestrator.Effects.{
  Action, Failure, World, bind, continue, done, raise, reading, service,
}

-- The record of saves and mails is as it was.
abbrev pub IsSame : {S X A : Type 0} → World S → Result (Failure X) A × World S → Type 0
IsSame w o = (o.1.saves ≡ w.saves) × (o.1.mails ≡ w.mails)

pub record IsQuiet {S X A : Type 0} (m : Action S X A) : Type 0 where
  pub same : (w : World S) → IsSame w (m w)

IsSame-continue :
    {S X A B : Type 0} (w : World S) (o : Result (Failure X) A × World S) (f : A → Action S X B)
    → IsSame w o
    → ((x : A) → IsQuiet (f x))
    → IsSame w (continue o f)
IsSame-continue w (ok x, v) f (p, q) k = let (p', q') = (k x).same v in (p' ∙ p, q' ∙ q)
IsSame-continue w (err e, v) f h k = h

pub IsQuiet-bind :
    {S X A B : Type 0} (m : Action S X A) (f : A → Action S X B)
    → IsQuiet m
    → ((x : A) → IsQuiet (f x))
    → IsQuiet (bind m f)
unfolding bind
IsQuiet-bind m f h k = record { same = λ w. IsSame-continue w (m w) f (h.same w) k }

pub IsQuiet-done : {S A : Type 0} (X : Type 0) (x : A) → IsQuiet (done {S = S} {X = X} x)
unfolding done
IsQuiet-done X x = record { same = λ w. (refl, refl) }

pub IsQuiet-raise :
    {S X : Type 0} (A : Type 0) (e : Failure X) → IsQuiet (raise {S = S} {X = X} {A = A} e)
unfolding raise
IsQuiet-raise A e = record { same = λ w. (refl, refl) }

pub IsQuiet-service : {S X A : Type 0} (call : S → Result X A × S) → IsQuiet (service call)
unfolding service
IsQuiet-service call = record { same = λ w. (refl, refl) }

pub IsQuiet-reading :
    {S A : Type 0} (X : Type 0) (call : S → A × S) → IsQuiet (reading {S = S} {X = X} call)
unfolding reading
IsQuiet-reading X call = record { same = λ w. (refl, refl) }
