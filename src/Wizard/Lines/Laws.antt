-- ===== src/Wizard/Lines/Laws.antt =====
-- Lines of the files of src/wizard/, as written and as read.
use platform_api.Prelude.{
  All, All-append, Bool, Bool-cases, List, Text, [], ap, append-nil, append_assoc, false, inl, inr,
  refl, ◌&&◌, ◌++◌, ◌==◌, ◌∙◌, ◌∷◌, ◌≡◌,
}
use platform_api.Wizard.Lines.{is_break, lines_from, splitlines}

abbrev pub IsLine : Text → Type 0
IsLine s = All (λ c. is_break c ≡ false) s

-- each line with its line feed
abbrev pub with_breaks : List Text → Text
with_breaks [] = []
with_breaks (l ∷ ls) = l ++ 10 ∷ with_breaks ls

lines_from-line :
    (cur l rest : Text)
    → IsLine l
    → lines_from false cur (l ++ 10 ∷ rest) ≡ (cur ++ l) ∷ lines_from false [] rest
unfolding lines_from
lines_from-line cur [] rest h = rw append-nil refl
lines_from-line cur (c ∷ l) rest (p, h) = rw p (
    lines_from-line (cur ++ c ∷ []) l rest h
    ∙ ap (λ x. x ∷ lines_from false [] rest) (append_assoc cur (c ∷ []) l))

pub splitlines-with_breaks : (ls : List Text) → All IsLine ls → splitlines (with_breaks ls) ≡ ls
unfolding splitlines lines_from
splitlines-with_breaks [] h = refl
splitlines-with_breaks (l ∷ ls) (p, h) =
    lines_from-line [] l (with_breaks ls) p ∙ ap (λ x. l ∷ x) (splitlines-with_breaks ls h)

-- No line that is read holds a break.
lines_from-IsLine : (cr : Bool) (cur s : Text) → IsLine cur → All IsLine (lines_from cr cur s)
unfolding lines_from
lines_from-IsLine cr [] [] h = tt
lines_from-IsLine cr (d ∷ cur) [] h = (h, tt)
lines_from-IsLine cr cur (c ∷ s) h = elim (Bool-cases (cr && c == 10)) [
  | inl e ↦ rw e (lines_from-IsLine false cur s h)
  | inr e ↦ rw e (elim (Bool-cases (is_break c)) [
    | inl k ↦ rw k (h, lines_from-IsLine (c == 13) [] s tt)
    | inr k ↦ rw k (
        lines_from-IsLine false (cur ++ c ∷ []) s
          (All-append (λ d. is_break d ≡ false) cur (c ∷ []) h (k, tt)))
  ])
]

pub splitlines-IsLine : (s : Text) → All IsLine (splitlines s)
unfolding splitlines
splitlines-IsLine s = lines_from-IsLine false [] s tt
