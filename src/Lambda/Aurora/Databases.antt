-- ===== src/Lambda/Aurora/Databases.antt =====
-- The databases that src/cfn/persistence/lambda_code/aurora_bootstrap.py makes.
use platform_api.Prelude.{
  Bool, Distinct, List, Option, Option-cases, Result, Result-cases, Text, [], all, ap, arith,
  contains, err, false, false≢true, follow, if◌then◌else◌, inl, inr, lookup, none, ok, pure, refl,
  some, subst, sym, text, text_eq, text_eq→eq, true, ◌&&◌, ◌++◌, ◌>>=◌, ◌>>◌, ◌||◌, ◌∙◌, ◌∷◌, ◌≡◌,
}
use platform_api.Lambda.Respond.{Call, World, passed_on, service}
use platform_api.Lambda.Aurora.{
  Services, create_databases, create_db_if_missing, postgres, slice_specs, spec,
}

-- the databases of the slices
pub database_names : List Text → List Text
database_names [] = []
database_names (slice ∷ slices) = named (lookup slice slice_specs) ++ database_names slices
  where
    named : Option (Text × Option Text) → List Text
    named none = []
    named (some (database, extension)) = database ∷ []

absorb : (a b c : Bool) → (b ≡ true → a ≡ true) → (a || c) ≡ (a || (b || c))
absorb a b c h = ground arith

or-turn : (a b c : Bool) → ((a || b) || c) ≡ (b || (a || c))
or-turn a b c = ground arith

and_left : (a b : Bool) → (a && b) ≡ true → a ≡ true
and_left a b h = ground arith

and_right : (a b : Bool) → (a && b) ≡ true → b ≡ true
and_right a b h = ground arith

or_false : (a : Bool) → a ≡ (a || false)
or_false a = ground arith

-- PostgreSQL's documented answers: whether a database is in its catalogue, and a creation that adds one
-- or fails.
pub record IsCluster {S : Type 0} (services : Services S) (databases : S → List Text) : Type 0 where
  pub says :
      (db : Text) (s : S) (b : Bool)
      → (services.database_exists db s).0 ≡ ok b
      → b ≡ contains db (databases s)
  pub says_keeps : (db : Text) (s : S) → databases (services.database_exists db s).1 ≡ databases s
  pub creates :
      (db : Text) (s : S)
      → (services.execute postgres (text "CREATE DATABASE " ++ db) s).0 ≡ ok tt
      → databases (services.execute postgres (text "CREATE DATABASE " ++ db) s).1 ≡ db ∷ databases s
  pub fails :
      (db : Text) (s : S) (e : Text)
      → (services.execute postgres (text "CREATE DATABASE " ++ db) s).0 ≡ err e
      → databases (services.execute postgres (text "CREATE DATABASE " ++ db) s).1 ≡ databases s

module _ {S : Type 0} (services : Services S) (databases : S → List Text)
    (cluster : IsCluster services databases) where
  -- How the creation of one database ends: it was there, it is new, or a call raised.
  pub data Ended (db : Text) (w : World S) (r : Result Text (Unit {0}) × World S) : Type 0 where
    was_there :
        r.0 ≡ ok tt
        → contains db (databases w.services) ≡ true
        → databases r.1.services ≡ databases w.services
        → Ended db w r
    is_new :
        r.0 ≡ ok tt
        → contains db (databases w.services) ≡ false
        → databases r.1.services ≡ db ∷ databases w.services
        → Ended db w r
    raised : (e : Text) → r.0 ≡ err e → databases r.1.services ≡ databases w.services → Ended db w r

  executed-Ended :
      (db : Text) (w w1 : World S)
      → databases w1.services ≡ databases w.services
      → contains db (databases w.services) ≡ false
      → Ended db w (service (services.execute postgres (text "CREATE DATABASE " ++ db)) w1)
  unfolding service
  executed-Ended db w w1 same absent =
      elim (Result-cases
        (services.execute postgres (text "CREATE DATABASE " ++ db) w1.services).0) [
          | inl (u, e) ↦ is_new e absent (cluster.creates db w1.services e ∙ ap (λ l. db ∷ l) same)
          | inr (x, e) ↦ raised x e (cluster.fails db w1.services x e ∙ same)
        ]

  answered-Ended :
      (db : Text) (w : World S) (r : Result Text Bool × S)
      → ((b : Bool) → r.0 ≡ ok b → b ≡ contains db (databases w.services))
      → databases r.1 ≡ databases w.services
      → Ended db w (
          follow (passed_on w r) (λ exists.
            if exists
            then pure tt
            else service (services.execute postgres (text "CREATE DATABASE " ++ db))))
  unfolding pure
  answered-Ended db w (ok true, s) says keeps = was_there refl (sym (says true refl)) keeps
  answered-Ended db w (ok false, s) says keeps =
      executed-Ended db w (record { services = s; sent = w.sent; opened = w.opened }) keeps
        (sym (says false refl))
  answered-Ended db w (err x, s) says keeps = raised x refl keeps

  create_db_if_missing-Ended :
      (db : Text) (w : World S) → Ended db w (create_db_if_missing services db w)
  unfolding create_db_if_missing service ◌>>=◌ pure
  create_db_if_missing-Ended db w =
      answered-Ended db w (services.database_exists db w.services) (cluster.says db w.services)
        (cluster.says_keeps db w.services)

  -- What the loop leaves, from databases `before`: each still once, those of the slices too where it
  -- came to an end, and no change where those were all there.
  abbrev Made : List Text → List Text → Result Text (Unit {0}) × World S → Type 0
  Made slices before r =
      (Distinct before → Distinct (databases r.1.services))
      × (r.0 ≡ ok tt
          → (db : Text)
          → contains db (databases r.1.services)
            ≡ (contains db before || contains db (database_names slices)))
      × (all (λ d. contains d before) (database_names slices) ≡ true
          → databases r.1.services ≡ before)

  step-Made :
      (db : Text) (w : World S) (r : Result Text (Unit {0}) × World S) (slices : List Text)
      (rest : Call S (Unit {0}))
      → ((v : World S) → Made slices (databases v.services) (rest v))
      → Ended db w r
      → (Distinct (databases w.services) → Distinct (databases (follow r (λ _. rest)).1.services))
        × ((follow r (λ _. rest)).0 ≡ ok tt
            → (d : Text)
            → contains d (databases (follow r (λ _. rest)).1.services) ≡ (
                contains d (databases w.services)
                || (text_eq db d || contains d (database_names slices))))
        × ((contains db (databases w.services)
                && all (λ d. contains d (databases w.services)) (database_names slices))
              ≡ true
            → databases (follow r (λ _. rest)).1.services ≡ databases w.services)
  step-Made db w (err x, v) slices rest made (was_there e h k) = absurd cc
  step-Made db w (err x, v) slices rest made (is_new e h k) = absurd cc
  step-Made db w (ok u, v) slices rest made (raised x e k) = absurd cc
  step-Made db w (err x, v) slices rest made (raised y e k) =
      (λ d. subst Distinct (sym k) d, λ o. absurd cc, λ a. k)
  step-Made db w (ok u, v) slices rest made (was_there e h k) =
      let (distinct, now, same) = made v in
      (
        λ d. distinct (subst Distinct (sym k) d),
        λ o d.
            now o d
            ∙ (ap (λ l. contains d l || contains d (database_names slices)) k
                ∙ absorb (contains d (databases w.services)) (text_eq db d)
                    (contains d (database_names slices))
                    (λ e.
                      subst (λ x. contains x (databases w.services) ≡ true) (text_eq→eq db d e) h)),
        λ a.
            same (
              subst (λ l. all (λ d. contains d l) (database_names slices) ≡ true) (sym k)
                (and_right _ _ a))
            ∙ k,
      )
  step-Made db w (ok u, v) slices rest made (is_new e h k) =
      let (distinct, now, same) = made v in
      (
        λ d. distinct (subst Distinct (sym k) (h, d)),
        λ o d.
            now o d
            ∙ (ap (λ l. contains d l || contains d (database_names slices)) k
                ∙ or-turn (text_eq db d) (contains d (databases w.services))
                    (contains d (database_names slices))),
        λ a. absurd (false≢true (sym h ∙ and_left _ _ a)),
      )

  -- The first phase, however it ends, leaves each database once if each was there once. Where it comes to
  -- an end, the databases are those from before and those of the slices; and where those were all there,
  -- as in a second run, it changes none.
  pub create_databases-databases :
      (slices : List Text) (w : World S)
      → (Distinct (databases w.services)
          → Distinct (databases (create_databases services slices w).1.services))
        × ((create_databases services slices w).0 ≡ ok tt
            → (db : Text)
            → contains db (databases (create_databases services slices w).1.services)
              ≡ (contains db (databases w.services) || contains db (database_names slices)))
        × (all (λ d. contains d (databases w.services)) (database_names slices) ≡ true
            → databases (create_databases services slices w).1.services ≡ databases w.services)
  unfolding create_databases database_names spec ◌>>=◌ ◌>>◌ pure
  create_databases-databases [] w = (λ d. d, λ o db. or_false _, λ a. refl)
  create_databases-databases (slice ∷ slices) w = elim (Option-cases (lookup slice slice_specs)) [
    | inl e ↦ rw e (λ d. d, λ o. absurd cc, λ a. refl)
    | inr ((db, extension), e) ↦ rw e (
        step-Made db w (create_db_if_missing services db w) slices
          (create_databases services slices) (create_databases-databases slices)
          (create_db_if_missing-Ended db w))
  ]
