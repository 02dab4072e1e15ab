-- ===== src/Wizard/Machine.antt =====
-- src/wizard/system_runner.py and the Path methods: what the pages ask of the box, with the documented
-- behaviour of files, and the steps of a page that stops early.
use platform_api.Prelude.{
  Bool, List, Method, Option, Result, Text, [], err, false, if◌then◌else◌, is_empty, none, some,
  text_eq, ℕ, ◌++◌, ◌∷◌, ◌≡◌,
}
use platform_api.Wizard.Steps.{CommandOutput, PageError}

pub record Command : Type 0 where
  pub args : List Text
  pub input : Option Text
  pub env : List (Text × Text)

abbrev pub plain : List Text → Command
plain args = record { args = args; input = none; env = [] }

abbrev pub with_input : List Text → Text → Command
with_input args stdin = record { args = args; input = some stdin; env = [] }

-- The box: a runner of commands, its files by path, and `time.sleep`. A path is read as `none` where no
-- file is.
pub record Machine (S : Type 0) : Type 0 where
  pub run : Command → S → CommandOutput × S
  pub read_text : Text → S → Option Text
  pub write_text : Text → Text → S → S
  pub touch : Text → ℕ → S → S
  pub chmod : Text → ℕ → S → S
  pub mkdir : Text → S → S
  pub unlink : Text → S → S
  pub sleep : S → S
  pub read-write : (p t : Text) (s : S) → read_text p (write_text p t s) ≡ some t
  pub read-write_other :
      (p q t : Text) (s : S) → text_eq p q ≡ false → read_text q (write_text p t s) ≡ read_text q s
  pub read-touch_other :
      (p q : Text) (mode : ℕ) (s : S)
      → text_eq p q ≡ false
      → read_text q (touch p mode s) ≡ read_text q s
  pub read-chmod : (p q : Text) (mode : ℕ) (s : S) → read_text q (chmod p mode s) ≡ read_text q s
  pub read-mkdir : (p q : Text) (s : S) → read_text q (mkdir p s) ≡ read_text q s
  pub read-unlink : (p : Text) (s : S) → read_text p (unlink p s) ≡ none
  pub read-unlink_other :
      (p q : Text) (s : S) → text_eq p q ≡ false → read_text q (unlink p s) ≡ read_text q s

-- How a page's work ends early: another exception, or a loop that is still waiting when its fuel is used.
pub data Halt : Type 0 where
  refused : PageError → Halt
  crashed : Text → Halt
  waiting : Halt

abbrev pub Step : Type 0 → Type 0 → Type 0
Step S A = Method S Halt A

-- an answer that a loop on fuel may still be waiting for
abbrev pub awaited : {S A : Type 0} → Option A × S → Result Halt A × S
awaited (some a, s) = (Result.ok a, s)
awaited (none, s) = (err waiting, s)

unfoldable pub await : {S A : Type 0} → (S → Option A × S) → Step S A
await f s = awaited (f s)

-- `directory / name`
abbrev pub child_path : Text → Text → Text
child_path directory name = directory ++ b'/' ∷ name

-- `text.split()`
abbrev pub words_after : (ℕ → Bool) → Text → Text → List Text
words_after p cur [] = if is_empty cur then [] else cur ∷ []
words_after p cur (c ∷ s) =
    let fresh = words_after p [] s in
    let longer = words_after p (cur ++ c ∷ []) s in
    if p c then (if is_empty cur then fresh else cur ∷ fresh) else longer

abbrev pub words : (ℕ → Bool) → Text → List Text
words p s = words_after p [] s
