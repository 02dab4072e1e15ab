-- ===== src/Wizard/Steps/Laws.antt =====
-- What a page of src/wizard/ does to the markers.
use platform_api.Prelude.{
  Bool, Bool-cases, List, Text, ap, arith, contains, false, inl, inr, sym, text_eq, text_eq_iff,
  true, ◌&&◌, ◌||◌, ◌∙◌, ◌≡◌,
}
use platform_api.Wizard.Steps.{
  Box, Markers, VerifyCheck, all_ok, apply_page, conclude, is_done, mark_done,
}

pub contains-mark_done :
    (step other : Text) (markers : Markers)
    → contains other (mark_done step markers) ≡ (text_eq step other || contains other markers)
unfolding mark_done
contains-mark_done step other markers =
    ground (arith, text_eq_iff step other, text_eq_iff other step)

pub contains-same :
    (s t : Text) (xs : List Text) → text_eq s t ≡ true → contains t xs ≡ contains s xs
contains-same s t xs e = ap (λ u. contains u xs) (sym ((text_eq_iff s t).0 e))

pub bool-or_false : (b c : Bool) → b ≡ (b || (c && false))
bool-or_false b c = ground arith

pub or-swap : (a b : Bool) → (a || b) ≡ (b || (a && true))
or-swap a b = ground arith

-- Running a page leaves every other page's marker as it was. Its own marker stands afterwards exactly
-- where it stood before or each check that the page ran passed.
pub apply_page-marks :
    {S : Type 0} (step already : Text) (work : S → List VerifyCheck × S) (box : Box S)
    (other : Text)
    → is_done other (apply_page step already work box).1.markers
      ≡ (is_done other box.markers || (text_eq step other && all_ok (work box.system).0))
unfolding apply_page conclude is_done
apply_page-marks step already work box other = elim (Bool-cases (contains step box.markers)) [
  | inl e ↦ rw e (ground (arith, text_eq_iff step other, contains-same step other box.markers))
  | inr e ↦ rw e (elim (Bool-cases (all_ok (work box.system).0)) [
    | inl k ↦ rw k (
        contains-mark_done step other box.markers
        ∙ or-swap (text_eq step other) (contains other box.markers))
    | inr k ↦ rw k (bool-or_false (contains other box.markers) (text_eq step other))
  ])
]
