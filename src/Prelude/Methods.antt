-- ===== src/Prelude/Methods.antt =====
-- Methods that change a state and may raise, in sequence. The state comes back after a raise too.
use platform_api.Prelude.Results.{Result, ok, err}

abbrev pub Method : Type 0 → Type 0 → Type 0 → Type 0
Method S E A = S → Result E A × S

unfoldable pub pure : {S E A : Type 0} → A → Method S E A
pure a s = (ok a, s)

unfoldable pub raise_error : {S E A : Type 0} → E → Method S E A
raise_error e s = (err e, s)

abbrev pub follow : {S E A B : Type 0} → Result E A × S → (A → Method S E B) → Result E B × S
follow (ok a, s) f = f a s
follow (err e, s) f = (err e, s)

infixl 5 ◌>>=◌ ◌>>◌
unfoldable pub ◌>>=◌ : {S E A B : Type 0} → Method S E A → (A → Method S E B) → Method S E B
◌>>=◌ m f s = follow (m s) f

unfoldable pub ◌>>◌ : {S E A B : Type 0} → Method S E A → Method S E B → Method S E B
◌>>◌ m k s = follow (m s) (λ _. k)

-- a change of the state
unfoldable pub change : {S E : Type 0} → (S → S) → Method S E (Unit {0})
change f s = (ok tt, f s)

-- an answer of the state
unfoldable pub answer : {S E A : Type 0} → (S → A × S) → Method S E A
answer f s = let (a, t) = f s in (ok a, t)

-- a reading of the state
unfoldable pub gets : {S E A : Type 0} → (S → A) → Method S E A
gets f s = (ok (f s), s)
