-- ===== src/Wizard/Pages/Marking.antt =====
-- What the pages of src/wizard/ that may raise do to the done markers.
use platform_api.Prelude.{
  Bool, Bool-cases, List, Result, Text, ap, arith, contains, err, false, if◌then◌else◌, inl, inr,
  refl, text_eq, text_eq_refl, true, ◌&&◌, ◌||◌, ◌∙◌, ◌≡◌,
}
use platform_api.Wizard.Steps.{
  Box, Markers, StepResult, VerifyCheck, all_ok, conclude, is_done, step_already_done,
}
use platform_api.Wizard.Steps.Laws.{bool-or_false, contains-mark_done, or-swap}
use platform_api.Wizard.Machine.{Halt, Step, refused}
use platform_api.Wizard.Pages.{finish, page}

-- the answer came, and each of its checks passed
abbrev pub passed : Result Halt (List VerifyCheck) → Bool
passed (Result.ok checks) = all_ok checks
passed (err e) = false

-- the marker of a page after its work
finish-marks :
    {S : Type 0} (step : Text) (markers : Markers) (r : Result Halt (List VerifyCheck) × S)
    (other : Text)
    → is_done other (finish step markers r).1.markers
      ≡ (is_done other markers || (text_eq step other && passed r.0))
unfolding conclude is_done
finish-marks step markers (Result.ok checks, s) other = elim (Bool-cases (all_ok checks)) [
  | inl e ↦ rw e (
      contains-mark_done step other markers ∙ or-swap (text_eq step other) (contains other markers))
  | inr e ↦ rw e (bool-or_false (contains other markers) (text_eq step other))
]
finish-marks step markers (err e, s) other =
    bool-or_false (contains other markers) (text_eq step other)

-- A page that is not done, and whose work comes to an end, answers its checks and marks itself by them.
pub page-answers :
    {S : Type 0} (step already : Text) (work : Step S (List VerifyCheck)) (box : Box S)
    (checks : List VerifyCheck) (t : S)
    → is_done step box.markers ≡ false
    → work box.system ≡ (Result.ok checks, t)
    → ((page step already work box).0
        ≡ Result.ok (record { verified = all_ok checks; checks = checks }))
      × (is_done step (page step already work box).1.markers ≡ all_ok checks)
unfolding page conclude
page-answers step already work box checks t d e =
    rw (d, e)
      (
        refl,
        finish-marks step box.markers (Result.ok checks, t) step
            ∙ marked (is_done step box.markers) (text_eq step step) (all_ok checks) d
                (text_eq_refl step),
      )
  where
    marked : (before same p : Bool) → before ≡ false → same ≡ true → (before || (same && p)) ≡ p
    marked before same p h k = ground arith

answered_as :
    (r result : StepResult)
    → ◌≡◌ {A = Result Halt StepResult} (Result.ok r) (Result.ok result)
    → r ≡ result
answered_as r result e = cc

finish-unverified :
    {S : Type 0} (step : Text) (markers : Markers) (r : Result Halt (List VerifyCheck) × S)
    (result : StepResult)
    → (finish step markers r).0 ≡ Result.ok result
    → result.verified ≡ false
    → ((checks : List VerifyCheck) × (r.0 ≡ Result.ok checks))
      × ((finish step markers r).1 ≡ record { markers = markers; system = r.1 })
unfolding conclude
finish-unverified step markers (Result.ok checks, s) result e v =
    rw (ap (λ (c : StepResult). c.verified) (answered_as _ result e) ∙ v) ((checks, refl), refl)
finish-unverified step markers (err x, s) result e v = absurd cc

unless_refused :
    {S : Type 0} (b : Bool) (x y : Result Halt StepResult × Box S) (result : StepResult)
    → (if b then x else y).0 ≡ Result.ok result
    → (x.0 ≡ Result.ok result → ⊥)
    → (b ≡ false) × (y.0 ≡ Result.ok result) × ((if b then x else y) ≡ y)
unless_refused true x y result e n = absurd (n e)
unless_refused false x y result e n = (refl, e, refl)

-- A page that came back unverified was not done, its work came to an end, and only the rest of the box
-- is changed.
pub page-unverified :
    {S : Type 0} (step already : Text) (work : Step S (List VerifyCheck)) (box : Box S)
    (result : StepResult)
    → (page step already work box).0 ≡ Result.ok result
    → result.verified ≡ false
    → (is_done step box.markers ≡ false)
      × ((checks : List VerifyCheck) × ((work box.system).0 ≡ Result.ok checks))
      × ((page step already work box).1
          ≡ record { markers = box.markers; system = (work box.system).1 })
unfolding page
page-unverified step already work box result e v =
    let (d, f, same) =
      unless_refused (is_done step box.markers) (err (refused (step_already_done already)), box)
        (finish step box.markers (work box.system)) result e cc in
    let (came, left) = finish-unverified step box.markers (work box.system) result f v in
    (d, came, ap (λ r. r.1) same ∙ left)

-- A page that is not done raises what its work raises.
pub page-raises :
    {S : Type 0} (step already : Text) (work : Step S (List VerifyCheck)) (box : Box S) (x : Halt)
    → is_done step box.markers ≡ false
    → (work box.system).0 ≡ err x
    → (page step already work box).0 ≡ err x
unfolding page
page-raises {S = S} step already work box x d e = rw d (finished (work box.system) e)
  where
    finished :
        (r : Result Halt (List VerifyCheck) × S)
        → r.0 ≡ err x
        → (finish step box.markers r).0 ≡ err x
    finished (Result.ok checks, s) e = absurd cc
    finished (err y, s) e = cc

-- A page that raises changes only the rest of the box.
pub page-raises_box :
    {S : Type 0} (step already : Text) (work : Step S (List VerifyCheck)) (box : Box S) (x : Halt)
    → is_done step box.markers ≡ false
    → (work box.system).0 ≡ err x
    → (page step already work box).1
      ≡ record { markers = box.markers; system = (work box.system).1 }
unfolding page
page-raises_box {S = S} step already work box x d e = rw d (finished (work box.system) e)
  where
    finished :
        (r : Result Halt (List VerifyCheck) × S)
        → r.0 ≡ err x
        → (finish step box.markers r).1 ≡ record { markers = box.markers; system = r.1 }
    finished (Result.ok checks, s) e = let no : ⊥ = cc in absurd no
    finished (err y, s) e = refl
