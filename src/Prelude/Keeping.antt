-- ===== src/Prelude/Keeping.antt =====
-- What methods keep: a predicate of the state that each step keeps is kept by the sequence of them,
-- whether it comes to an end or not.
use mathlib.Core.Bool.{Bool, true, false}
use platform_api.Prelude.Tests.{if◌then◌else◌}
use platform_api.Prelude.Results.{Result, err}
use platform_api.Prelude.Methods.{Method, pure, follow, ◌>>=◌, ◌>>◌, change, answer}

module _ {S E : Type 0} (P : S → Type 0) where
  pub record Keeps {A : Type 0} (step : Method S E A) : Type 0 where
    pub kept : (s : S) → P s → P (step s).1

  pub Keeps-pure : {A : Type 0} (a : A) → Keeps (pure a)
  unfolding pure
  Keeps-pure a = record { kept = λ s h. h }

  pub Keeps-change : (f : S → S) → ((s : S) → P s → P (f s)) → Keeps (change f)
  unfolding change
  Keeps-change f k = record { kept = k }

  pub Keeps-answer : {A : Type 0} (f : S → A × S) → ((s : S) → P s → P (f s).1) → Keeps (answer f)
  unfolding answer
  Keeps-answer f k = record { kept = k }

  follow-kept :
      {A B : Type 0} (r : Result E A × S) (f : A → Method S E B)
      → P r.1
      → ((a : A) → Keeps (f a))
      → P (follow r f).1
  follow-kept (Result.ok a, s) f h k = (k a).kept s h
  follow-kept (err e, s) f h k = h

  pub Keeps->>= :
      {A B : Type 0} (step : Method S E A) (f : A → Method S E B)
      → Keeps step
      → ((a : A) → Keeps (f a))
      → Keeps (step >>= f)
  unfolding ◌>>=◌
  Keeps->>= step f h k = record { kept = λ s p. follow-kept (step s) f (h.kept s p) k }

  pub Keeps->> :
      {A B : Type 0} (step : Method S E A) (next : Method S E B)
      → Keeps step
      → Keeps next
      → Keeps (step >> next)
  unfolding ◌>>◌
  Keeps->> step next h k = record {
    kept = λ s p. follow-kept (step s) (λ _. next) (h.kept s p) (λ _. k);
  }

  pub Keeps-if :
      {A : Type 0} (b : Bool) (x y : Method S E A) → Keeps x → Keeps y → Keeps (if b then x else y)
  Keeps-if true x y h k = h
  Keeps-if false x y h k = k
