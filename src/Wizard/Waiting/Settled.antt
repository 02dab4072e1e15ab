-- ===== src/Wizard/Waiting/Settled.antt =====
-- When the loops of src/wizard/containers_compose.py and neo4j_service.py come back, and with what.
use platform_api.Prelude.{
  Bool, Bool-cases, Text, Unicode, answer, ap, arith, false, false≢true, inl, inr, none, refl, some,
  suc, sym, true, zero, ℕ, ◌<◌, ◌∙◌, ◌≡◌, ◌≤◌, ◌⊎◌,
}
use platform_api.Wizard.Waiting.{
  after_alive, after_look, container_alive, line_logged, round, unless_ended, wait_for_log,
  wait_until,
}
use platform_api.Wizard.Machine.{Machine}

-- What two questions and a sleep say of a box, apart from the loop that asks them.
module _ {S : Type 0} (look alive : S → Bool × S) (sleep : S → S) where
  -- the box after both questions and a sleep
  abbrev pub pause : S → S
  pause s = sleep (alive (look s).1).1

  abbrev pub pauses : ℕ → S → S
  pauses zero s = s
  pauses (suc n) s = pauses n (pause s)

  -- What is looked for is not there, and it is not gone.
  abbrev pub Idle : S → Type 0
  Idle s = ((look s).0 ≡ false) × ((alive (look s).1).0 ≡ true)

  abbrev pub IdleFor : ℕ → S → Type 0
  IdleFor zero s = Unit {0}
  IdleFor (suc n) s = Idle s × IdleFor n (pause s)

  -- What is looked for is there, or gone.
  abbrev pub Ends : S → Type 0
  Ends s = ((look s).0 ≡ true) ⊎ ((alive (look s).1).0 ≡ false)

  -- The answer is true as it was there, or false as it was not there and gone; and the box after it.
  abbrev pub AnswersAt : S → Bool → S → Type 0
  AnswersAt s found t =
      ((found ≡ true) × ((look s).0 ≡ true) × (t ≡ (look s).1))
      ⊎ ((found ≡ false)
          × ((look s).0 ≡ false)
          × ((alive (look s).1).0 ≡ false)
          × (t ≡ (alive (look s).1).1))

  looked : (r : Bool × S) → r.0 ≡ true → after_look look alive sleep r ≡ (some true, r.1)
  looked (true, t) h = refl
  looked (false, t) h = absurd (false≢true h)

  not_looked :
      (r : Bool × S)
      → r.0 ≡ false
      → after_look look alive sleep r ≡ after_alive look alive sleep (alive r.1)
  not_looked (true, t) h = absurd (false≢true (sym h))
  not_looked (false, t) h = refl

  lives : (r : Bool × S) → r.0 ≡ true → after_alive look alive sleep r ≡ (none, sleep r.1)
  lives (true, t) h = refl
  lives (false, t) h = absurd (false≢true h)

  is_gone : (r : Bool × S) → r.0 ≡ false → after_alive look alive sleep r ≡ (some false, r.1)
  is_gone (true, t) h = absurd (false≢true (sym h))
  is_gone (false, t) h = refl

  round-Idle : (s : S) → Idle s → round look alive sleep s ≡ (none, pause s)
  unfolding round
  round-Idle s (l, a) = not_looked (look s) l ∙ lives (alive (look s).1) a

  -- the first of the boxes up to the `n`-th pause at which the wait ends
  abbrev FirstEnd : ℕ → S → Type 0
  FirstEnd n s =
      (k : ℕ) × (k ≤ n)
      × IdleFor k s
      × ((found : Bool) × (t : S) × AnswersAt (pauses k s) found t
          × (round look alive sleep (pauses k s) ≡ (some found, t)))

  now-Ends : (n : ℕ) (s : S) → Ends s → FirstEnd n s
  unfolding round
  now-Ends n s h = elim (Bool-cases (look s).0) [
    | inl l ↦ (zero, omega arith, tt, (true, (look s).1, inl (refl, l, refl), looked (look s) l))
    | inr l ↦
        let gone : (alive (look s).1).0 ≡ false = elim h [
          | inl e ↦ absurd (false≢true (sym l ∙ e))
          | inr e ↦ e
        ] in
        (
          zero,
          omega arith,
          tt,
          (
            false,
            (alive (look s).1).1,
            inr (refl, l, gone, refl),
            not_looked (look s) l ∙ is_gone (alive (look s).1) gone,
          ),
        )
  ]

  first_end : (n : ℕ) (s : S) → Ends (pauses n s) → FirstEnd n s
  first_end zero s h = now-Ends zero s h
  first_end (suc n) s h = elim (Bool-cases (look s).0) [
    | inl l ↦ now-Ends (suc n) s (inl l)
    | inr l ↦ elim (Bool-cases (alive (look s).1).0) [
      | inr a ↦ now-Ends (suc n) s (inr a)
      | inl a ↦
          let (k, le, idle, end) = first_end n (pause s) h in
          (suc k, omega (arith, le), ((l, a), idle), end)
    ]
  ]

  wait_until-first :
      (k fuel : ℕ) (found : Bool) (s t : S)
      → IdleFor k s
      → round look alive sleep (pauses k s) ≡ (some found, t)
      → k < fuel
      → wait_until look alive sleep fuel s ≡ (some found, t)
  unfolding wait_until
  wait_until-first k zero found s t h e l = elim l [ ]
  wait_until-first zero (suc fuel) found s t h e l =
      ap (λ r. unless_ended r (wait_until look alive sleep fuel)) e
  wait_until-first (suc k) (suc fuel) found s t (p, h) e l =
      ap (λ r. unless_ended r (wait_until look alive sleep fuel)) (round-Idle s p)
      ∙ wait_until-first k fuel found (pause s) t h e (omega (arith, l))

  -- The loop comes back at the first box that ends it, with any fuel above the pauses before it.
  pub wait_until-settles :
      (n : ℕ) (s : S)
      → Ends (pauses n s)
      → (k : ℕ) × (k ≤ n)
        × IdleFor k s
        × ((found : Bool) × (t : S) × AnswersAt (pauses k s) found t
            × ((fuel : ℕ) → k < fuel → wait_until look alive sleep fuel s ≡ (some found, t)))
  wait_until-settles n s h =
      let (k, le, idle, (found, t, answer, e)) = first_end n s h in
      (k, le, idle, (found, t, answer, λ fuel more. wait_until-first k fuel found s t idle e more))

-- Where, after some `n` pauses, the line is in the service's logs or its container is gone, the wait comes
-- back: at the first such moment, before which the line was not logged and the container alive at
-- each look, and with any fuel above the number `k` of pauses until then. It answers true if the line
-- is logged then, and false if it is not and the container is gone.
pub wait_for_log-settles :
    {S : Type 0} (u : Unicode) (m : Machine S) (ems_dir service line : Text) (n : ℕ) (s : S)
    → (let look = line_logged u m ems_dir service line in
        let alive = container_alive u m ems_dir service in
        Ends look alive m.sleep (pauses look alive m.sleep n s))
    → (let look = line_logged u m ems_dir service line in
        let alive = container_alive u m ems_dir service in
        (k : ℕ) × (k ≤ n)
        × IdleFor look alive m.sleep k s
        × ((found : Bool) × (t : S) × AnswersAt look alive m.sleep
              (pauses look alive m.sleep k s)
              found
              t
            × ((fuel : ℕ)
                → k < fuel
                → wait_for_log u m ems_dir service line fuel s ≡ (some found, t))))
unfolding wait_for_log
wait_for_log-settles u m ems_dir service line n s h =
    wait_until-settles (line_logged u m ems_dir service line) (container_alive u m ems_dir service)
      m.sleep n s h
