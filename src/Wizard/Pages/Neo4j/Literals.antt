-- ===== src/Wizard/Pages/Neo4j/Literals.antt =====
-- Reading back the literals of src/wizard/neo4j_service.py.
use platform_api.Prelude.{
  ==_iff, Bool, Bool-cases, Option, Text, [], ap, append_assoc, false, if◌then◌else◌, inl, inr,
  none, refl, some, sym, true, ℕ, ◌++◌, ◌==◌, ◌||◌, ◌∙◌, ◌∷◌, ◌≡◌,
}
use platform_api.Wizard.Pages.Neo4jTexts.{backslash, cypher_string, quote_mark, replace_char}

abbrev push : ℕ → Option (Text × Text) → Option (Text × Text)
push c none = none
push c (some (value, rest)) = some (c ∷ value, rest)

-- How a reader takes a quoted literal: its value, and the text after the closing quote. An escaped quote
-- or backslash stands for itself; the reader's other escapes are a parameter.
module _ (other : ℕ → Text → Option (Text × Text)) where
  abbrev read_quoted : Bool → Text → Option (Text × Text)
  read_quoted escaped [] = none
  read_quoted true (c ∷ s) =
      let rest = read_quoted false s in
      if c == quote_mark || c == backslash then push c rest else other c s
  read_quoted false (c ∷ s) =
      let escape = read_quoted true s in
      let rest = read_quoted false s in
      if c == quote_mark then some ([], s) else if c == backslash then escape else push c rest

  pub read_literal : Text → Option (Text × Text)
  read_literal [] = none
  read_literal (c ∷ s) = let rest = read_quoted false s in if c == quote_mark then rest else none

  -- the two replacements, one character at a time
  abbrev escaped_text : Text → Text
  escaped_text value =
      replace_char quote_mark (backslash ∷ quote_mark ∷ [])
        (replace_char backslash (backslash ∷ backslash ∷ []) value)

  read_quoted-escaped :
      (value rest : Text)
      → read_quoted false (escaped_text value ++ quote_mark ∷ rest) ≡ some (value, rest)
  unfolding replace_char
  read_quoted-escaped [] rest = refl
  read_quoted-escaped (c ∷ value) rest = elim (Bool-cases (c == backslash)) [
    | inl e ↦
        rw (e, read_quoted-escaped value rest)
          (ap (λ d. some (d ∷ value, rest)) (sym ((==_iff c backslash).0 e)))
    | inr e ↦ elim (Bool-cases (c == quote_mark)) [
      | inl f ↦
          rw (e, f, read_quoted-escaped value rest)
            (ap (λ d. some (d ∷ value, rest)) (sym ((==_iff c quote_mark).0 f)))
      | inr f ↦ rw (e, f, e, f, read_quoted-escaped value rest) refl
    ]
  ]

  -- A Cypher literal is read back as the value it was made of, whatever the value, and what follows it
  -- is left: no value closes its own quotes.
  pub read_literal-cypher_string :
      (value rest : Text) → read_literal (cypher_string value ++ rest) ≡ some (value, rest)
  unfolding read_literal cypher_string
  read_literal-cypher_string value rest =
      ap (read_quoted false) (append_assoc (escaped_text value) (quote_mark ∷ []) rest)
      ∙ read_quoted-escaped value rest
