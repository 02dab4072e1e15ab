-- ===== src/Wizard/Lines.antt =====
-- Python's `str.splitlines`, which the pages of src/wizard/ read files and command output with.
pub mod Laws
use platform_api.Prelude.{
  Bool, List, Text, [], false, if◌then◌else◌, is_empty, leb, refl, text, ℕ, ◌&&◌, ◌++◌, ◌==◌, ◌||◌,
  ◌∷◌, ◌≡◌,
}

-- the characters that end a line
abbrev pub is_break : ℕ → Bool
is_break c =
    (leb 10 c && leb c 13) || ((leb 28 c && leb c 30) || (c == 133 || (c == 8232 || c == 8233)))

-- `cr` where the last character was a carriage return, whose line feed goes with it
unfoldable pub lines_from : Bool → Text → Text → List Text
lines_from cr cur [] = if is_empty cur then [] else cur ∷ []
lines_from cr cur (c ∷ s) =
    let same_break = lines_from false cur s in
    let closed = cur ∷ lines_from (c == 13) [] s in
    let longer = lines_from false (cur ++ c ∷ []) s in
    if cr && c == 10 then same_break else if is_break c then closed else longer

unfoldable pub splitlines : Text → List Text
unfolding lines_from
splitlines s = lines_from false [] s

splitlines_test : splitlines (text "a\r\nb\n\nc") ≡ text "a" ∷ text "b" ∷ [] ∷ text "c" ∷ []
unfolding splitlines
splitlines_test = refl
