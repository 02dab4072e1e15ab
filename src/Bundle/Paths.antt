-- ===== src/Bundle/Paths.antt =====
-- `unique_path` of src/bundle/bundle_service.py, with the parts of `PurePosixPath` that it calls.
pub mod First
pub mod Fresh
use platform_api.Prelude.{
  Bool, List, Option, Result, Text, [], contains, decimal, err, if◌then◌else◌, is_empty, join, keep,
  last_or, length, none, not, ok, refl, some, split, starts_with, suc, text, text_eq, zero, ℕ, ◌&&◌,
  ◌++◌, ◌+◌, ◌==◌, ◌||◌, ◌∷◌, ◌≡◌,
}

-- A parsed `PurePosixPath`: its root ("", "/" or "//") and its parts.
pub record PosixPath : Type 0 where
  pub root : Text
  pub tail : List Text

abbrev pub slash : ℕ
slash = b'/'

-- Two leading slashes are kept, three or more count as one.
abbrev pub root_of : Text → Text
root_of s =
    if starts_with s (text "//") && not (starts_with s (text "///"))
    then text "//"
    else if starts_with s (text "/")
    then text "/"
    else []

-- empty parts and "." are dropped
abbrev pub is_part : Text → Bool
is_part p = not (is_empty p || text_eq p (text "."))

pub posix_path : Text → PosixPath
posix_path s = record { root = root_of s; tail = keep is_part (split slash s) }

-- the text before the last ".", and the text from it on
pub last_dot : Text → Option (Text × Text)
last_dot [] = none
last_dot (c ∷ s) = elim (last_dot s) [
  | some (a, b) ↦ some (c ∷ a, b)
  | none ↦ if c == b'.' then some ([], c ∷ s) else none
]

-- `stem` and `suffix` of a name: a dot at either end starts no suffix.
pub stem_suffix : Text → Text × Text
unfolding last_dot
stem_suffix name = elim (last_dot name) [
  | some (a, b) ↦ if is_empty a || length b == 1 then (name, []) else (a, b)
  | none ↦ (name, [])
]

abbrev pub replace_last : Text → List Text → List Text
replace_last n [] = []
replace_last n (x ∷ []) = n ∷ []
replace_last n (x ∷ y ∷ r) = x ∷ replace_last n (y ∷ r)

-- `str(posix.with_name(f"{posix.stem}-{count}{posix.suffix}"))`; `none` is the ValueError for a
-- path with an empty name.
pub numbered : PosixPath → ℕ → Option Text
unfolding stem_suffix decimal
numbered p count =
    if is_empty p.tail
    then none
    else let parts = stem_suffix (last_or [] p.tail) in
      some (
        p.root
        ++ join (text "/")
            (replace_last (parts.0 ++ (text "-" ++ (decimal count ++ parts.1))) p.tail))

pub data PathError : Type 0 where
  empty_name out_of_fuel : PathError

-- the `while` loop, with fuel
pub first_free : ℕ → PosixPath → ℕ → List Text → Result PathError Text
unfolding numbered
first_free zero p count taken = err out_of_fuel
first_free (suc f) p count taken =
    let rest = first_free f p (count + 1) taken in
    elim (numbered p count) [
      | none ↦ err empty_name
      | some s ↦ if contains s taken then rest else ok s
    ]

-- One round more than there are taken names is always enough.
unfoldable pub unique_path : Text → List Text → Result PathError Text
unfolding first_free posix_path
unique_path path taken =
    if contains path taken then first_free (length taken + 1) (posix_path path) 2 taken else ok path

unique_path_test :
    unique_path (text "D3/plate.dxf") (text "D3/plate-2.dxf" ∷ text "D3/plate.dxf" ∷ [])
    ≡ ok (text "D3/plate-3.dxf")
unfolding unique_path
unique_path_test = refl

unique_path_dotfile :
    unique_path (text "assembly.") (text "assembly." ∷ []) ≡ ok (text "assembly.-2")
unfolding unique_path
unique_path_dotfile = refl
