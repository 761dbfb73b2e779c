-- ===== src/Server/Console/Overflow.antt =====
-- The administrator's console (server/src/CActionManager.cpp) on a word that does not fit.
use poco_echo.Base.{
  ℕ, ◌==◌, ◌≤◌, ◌<◌, ◌≡◌, ◌⊎◌, refl, false, List, [], ◌∷◌, ◌++◌, length, done, fault, over_write,
  ◌>>=◌, arith, All, inl, inr, Bool-cases, ◌∙◌, lt→ltb, le→ltb, until_nul, >>=-ap,
}
use poco_echo.Sqlite.{Sqlite}
use poco_echo.WhiteList.{WhiteList, add, remove}
use poco_echo.WhiteList.Session.{perform, perform_all}
use poco_echo.Console.{replay, run-replay}
use poco_echo.Server.Console.{Prompt, read_ip, get_action, run}
use poco_echo.Server.Console.Laws.{commands, leaves, after_command}

module _ {S : Sqlite} where
  -- Prompts that do not ask for the end, and then others.
  replay-append :
      (ps qs : List Prompt) (w : WhiteList S)
      → All (λ p. length p.word < 16) ps
      → leaves ps ≡ false
      → replay (get_action S) w (ps ++ qs)
        ≡ (perform_all S w (commands ps) >>= λ w'. replay (get_action S) w' qs)
  unfolding get_action perform_all perform commands leaves
  replay-append [] qs w short stays = refl
  replay-append (p ∷ ps) qs w short stays =
      let fits : read_ip p.word ≡ done (until_nul p.word) =
        rw (lt→ltb (length p.word) 16 short.0) refl in
      elim (Bool-cases (p.action == 3)) [
        | inl e3 ↦ absurd (ground (arith, e3))
        | inr e3 ↦
            let later : (v : WhiteList S)
                → replay (get_action S) v (ps ++ qs)
                  ≡ (perform_all S v (commands ps) >>= λ w'. replay (get_action S) w' qs) =
              λ v. replay-append ps qs v short.1 (ground (arith, e3)) in
            elim (Bool-cases (p.action == 1)) [
              | inl e ↦
                  rw (e, fits)
                    (after_command (ps ++ qs) (add S w (until_nul p.word)) (commands ps) _ later)
              | inr e ↦ elim (Bool-cases (p.action == 2)) [
                | inl e2 ↦
                    rw (e, e2, fits)
                      (after_command (ps ++ qs) (remove S w (until_nul p.word)) (commands ps) _
                        later)
                | inr e2 ↦ rw (e, e2, e3) (later w)
              ]
            ]
      ]

  replay_overflow :
      (p : Prompt) (qs : List Prompt) (w : WhiteList S)
      → (p.action ≡ 1) ⊎ (p.action ≡ 2)
      → 16 ≤ length p.word
      → replay (get_action S) w (p ∷ qs) ≡ fault over_write
  unfolding get_action
  replay_overflow p qs w asks long =
      rw (le→ltb (length p.word) 16 long) (elim asks [ inl e ↦ rw (e) refl | inr e ↦ rw (e) refl ])

  -- On input of prompts that do not ask for the end, with words of fewer than 16 bytes, then a
  -- prompt for action 1 or 2 with a word of 16 bytes or more, and then any others, and with more
  -- rounds than there are prompts, the console's loop performs the Add and Remove commands of the
  -- first prompts in their order, and if none of them faults writes past the end of its buffer,
  -- whatever the database holds.
  pub run_overflow :
      (ps qs : List Prompt) (p : Prompt) (n : ℕ) (w : WhiteList S)
      → length (ps ++ (p ∷ qs)) < n
      → All (λ p. length p.word < 16) ps
      → leaves ps ≡ false
      → (p.action ≡ 1) ⊎ (p.action ≡ 2)
      → 16 ≤ length p.word
      → run S n w (ps ++ (p ∷ qs)) ≡ (perform_all S w (commands ps) >>= λ w'. fault over_write)
  unfolding run
  run_overflow ps qs p n w fuel short stays asks long =
      run-replay (get_action S) (ps ++ (p ∷ qs)) n w fuel
      ∙ replay-append ps (p ∷ qs) w short stays
      ∙ >>=-ap (perform_all S w (commands ps)) _ _ λ w'. replay_overflow p qs w' asks long
