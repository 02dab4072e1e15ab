-- ===== src/Wizard/Pages/Neo4j/Password.antt =====
-- Which password src/wizard/neo4j_service.py leaves on the server.
use platform_api.Prelude.{
  Bool, Bool-cases, List, Option, Result, Text, Unicode, [], answer, ap, arith, contains, false,
  gets, if◌then◌else◌, inl, inr, not, pure, refl, subst, sym, text_eq, text_eq_iff, text_eq_refl,
  text_eq→eq, true, ◌&&◌, ◌==◌, ◌>>=◌, ◌∙◌, ◌∷◌, ◌≡◌,
}
use platform_api.Wizard.Machine.{Halt, Machine}
use platform_api.Wizard.Pages.{DockerNetwork, run_for}
use platform_api.Wizard.Pages.Neo4j.{set_password, try_old}
use platform_api.Wizard.Secrets.{read_secret}
use platform_api.Wizard.Pages.Neo4jTexts.{graph_url_name, old_passwords, password_command}

-- Neo4j's documented answer to the change of a password: the old one must be the current one, and the
-- new one another; only then is it changed.
pub record IsServer {S : Type 0} (m : Machine S) (network : DockerNetwork) (current : S → Text)
    : Type 0 where
  pub accepts :
      (old new : Text) (s : S)
      → text_eq old (current s) ≡ true
      → text_eq old new ≡ false
      → ((m.run (password_command network old new) s).0.returncode ≡ 0)
        × (current (m.run (password_command network old new) s).1 ≡ new)
  pub refuses :
      (old new : Text) (s : S)
      → text_eq old (current s) ≡ false
      → (((m.run (password_command network old new) s).0.returncode == 0) ≡ false)
        × (current (m.run (password_command network old new) s).1 ≡ current s)
  pub same :
      (old : Text) (s : S)
      → text_eq old (current s) ≡ true
      → (((m.run (password_command network old old) s).0.returncode == 0) ≡ false)
        × (current (m.run (password_command network old old) s).1 ≡ current s)

same_or : (b : Bool) (s t : Text) → t ≡ s → (if b then s else t) ≡ s
same_or true s t e = refl
same_or false s t e = e

and_never : (b c : Bool) → c ≡ true → (b && not c) ≡ not c
and_never b c e = ground arith

other_way : (s t : Text) → text_eq s t ≡ false → text_eq t s ≡ false
other_way s t h = ground (arith, text_eq_iff s t, text_eq_iff t s)

module _ {S : Type 0} (u : Unicode) (m : Machine S) (network : DockerNetwork) (current : S → Text)
    (server : IsServer m network current) where
  -- What the tries come to, where the server's password was `before`.
  abbrev Changed : Text → List Text → Text → Result Halt Bool × S → Type 0
  Changed password olds before r =
      (r.0 ≡ Result.ok (contains before olds && not (text_eq password before)))
      × (current r.1 ≡ (if contains before olds then password else before))

  -- an old password that is also the new one: it is refused
  not_new-Changed :
      (password old : Text) (olds : List Text) (s : S) (r : Result Halt Bool × S)
      → text_eq old (current s) ≡ true
      → text_eq old password ≡ true
      → Changed password olds (current s) r
      → Changed password (old ∷ olds) (current s) r
  not_new-Changed password old olds s r e f (result, now) =
      let new =
        text_eq→eq password (current s)
          (subst (λ w. text_eq w (current s) ≡ true) (text_eq→eq old password f) e) in
      rw e (
        result
            ∙ ap Result.ok (
                and_never (contains (current s) olds) (text_eq password (current s))
                  (subst (λ w. text_eq password w ≡ true) new (text_eq_refl password))),
        now ∙ same_or (contains (current s) olds) password (current s) (sym new),
      )

  try_old-current :
      (password : Text) (olds : List Text) (s : S)
      → ((try_old u m network password olds s).0
          ≡ Result.ok (contains (current s) olds && not (text_eq password (current s))))
        × (current (try_old u m network password olds s).1
            ≡ (if contains (current s) olds then password else current s))
  unfolding try_old run_for answer ◌>>=◌ pure
  try_old-current password [] s = (refl, refl)
  try_old-current password (old ∷ olds) s =
      let next = (m.run (password_command network old password) s).1 in
      let later = (λ (kept : current next ≡ current s).
        subst (λ c. Changed password olds c (try_old u m network password olds next)) kept
          (try_old-current password olds next)) in
      elim (Bool-cases (text_eq old (current s))) [
        | inl e ↦ elim (Bool-cases (text_eq old password)) [
          | inl f ↦
              let (nonzero, kept) =
                subst
                  (λ new.
                    (((m.run (password_command network old new) s).0.returncode == 0) ≡ false)
                    × (current (m.run (password_command network old new) s).1 ≡ current s))
                  (text_eq→eq old password f) (server.same old s e) in
              rw nonzero (
                not_new-Changed password old olds s (try_old u m network password olds next) e f
                  (later kept))
          | inr f ↦
              let (zero_code, changed) = server.accepts old password s e f in
              rw (e, zero_code)
                (
                  ap (λ b. Result.ok (not b))
                      (sym (
                        subst (λ w. text_eq password w ≡ false) (text_eq→eq old (current s) e)
                          (other_way old password f))),
                  changed,
                )
        ]
        | inr e ↦
            let (nonzero, kept) = server.refuses old password s e in rw (e, nonzero) (later kept)
      ]

  -- On a server that behaves as documented, the password is the customer's afterwards where the one
  -- before was the default or that of the saved URL, and else as it was; the answer is true exactly
  -- where, besides, the customer's is not the one from before.
  pub set_password-current :
      (url_password : Text → Option Text) (secrets password : Text) (s : S)
      → (let olds =
            old_passwords url_password (read_secret graph_url_name (m.read_text secrets s)) in
          ((set_password u m url_password secrets password network s).0
            ≡ Result.ok (contains (current s) olds && not (text_eq password (current s))))
          × (current (set_password u m url_password secrets password network s).1
              ≡ (if contains (current s) olds then password else current s)))
  unfolding set_password gets ◌>>=◌
  set_password-current url_password secrets password s =
      try_old-current password
        (old_passwords url_password (read_secret graph_url_name (m.read_text secrets s))) s
