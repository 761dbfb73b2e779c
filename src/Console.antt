-- ===== src/Console.antt =====
-- What the consoles of server and client share: `ShowHelp` and `run` of their `CActionManager`
-- (server/src/CActionManager.cpp, client/src/CActionManager.cpp), given what `GetAction` does with
-- the input behind a menu.
use poco_echo.Base.{
  ℕ, zero, suc, ◌<◌, ◌≡◌, refl, List, [], ◌∷◌, length, Outcome, done, ◌>>=◌, arith, Outcome-cases,
  inl, inr,
}

-- How `GetAction` ends: it answers true or false, it calls `exit`, or it waits for more input.
pub data Answer : Type 0 where
  agrees refuses quits starves : Answer

-- Where a console stands, with its state: it waits for input, it has called `exit`, or `ShowHelp` has
-- returned with input left.
pub data Console (D P : Type 0) : Type 0 where
  waits exits : D → Console D P
  returns : D → List P → Console D P

module _ {D P : Type 0} (get_action : D → P → Outcome (D × Answer)) where
  -- The end of `ShowHelp`, given what another call of it would do.
  abbrev pub after_answer :
      List P → (D → Outcome (Console D P)) → D × Answer → Outcome (Console D P)
  after_answer ps again (d, agrees) = done (returns d ps)
  after_answer ps again (d, refuses) = again d
  after_answer ps again (d, quits) = done (exits d)
  after_answer ps again (d, starves) = done (waits d)

  unfoldable pub show_help : D → List P → Outcome (Console D P)
  show_help d [] = done (waits d)
  show_help d (p ∷ ps) = get_action d p >>= after_answer ps (λ d'. show_help d' ps)

  -- The loop of `run`, given what its further rounds do.
  abbrev pub next_round : (D → List P → Outcome (Console D P)) → Console D P → Outcome (Console D P)
  next_round again (waits d) = done (waits d)
  next_round again (exits d) = done (exits d)
  next_round again (returns d ps) = again d ps

  -- The first rounds of `run`.
  unfoldable pub run : ℕ → D → List P → Outcome (Console D P)
  run zero d ps = done (returns d ps)
  run (suc n) d ps = show_help d ps >>= next_round (run n)

  -- The actions one by one, with no rounds and no retries.
  abbrev pub after_action : (D → Outcome (Console D P)) → D × Answer → Outcome (Console D P)
  after_action later (d, agrees) = later d
  after_action later (d, refuses) = later d
  after_action later (d, quits) = done (exits d)
  after_action later (d, starves) = done (waits d)

  abbrev pub replay : D → List P → Outcome (Console D P)
  replay d [] = done (waits d)
  replay d (p ∷ ps) = get_action d p >>= after_action (λ d'. replay d' ps)

  after_answer-next_round :
      (n : ℕ) (ps : List P) (r : D × Answer)
      → ((d : D) → run n d ps ≡ replay d ps)
      → ((d : D) → run (suc n) d ps ≡ replay d ps)
      → (after_answer ps (λ d. show_help d ps) r >>= next_round (run n))
        ≡ after_action (λ d. replay d ps) r
  unfolding run
  after_answer-next_round n ps (d, agrees) h k = h d
  after_answer-next_round n ps (d, refuses) h k = k d
  after_answer-next_round n ps (d, quits) h k = refl
  after_answer-next_round n ps (d, starves) h k = refl

  -- With more rounds than there are prompts, the loop performs the actions one by one.
  pub run-replay : (ps : List P) (n : ℕ) (d : D) → length ps < n → run n d ps ≡ replay d ps
  unfolding run show_help
  run-replay [] zero d fuel = absurd (omega arith)
  run-replay [] (suc n) d fuel = refl
  run-replay (p ∷ ps) zero d fuel = absurd (omega arith)
  run-replay (p ∷ ps) (suc n) d fuel = elim (Outcome-cases (get_action d p)) [
    | inl (r, now) ↦ rw now (
        after_answer-next_round n ps r (λ d'. run-replay ps n d' (omega arith))
          (λ d'. run-replay ps (suc n) d' (omega arith)))
    | inr (x, failed) ↦ rw failed refl
  ]
