-- ===== src/Server/Console/Laws.antt =====
-- The console against the history of commands that its input asks for.
use poco_echo.Base.{
  ℕ, ◌==◌, ◌≤◌, ◌<◌, ◌≡◌, refl, if◌then◌else◌, Bool, true, false, some, List, [], ◌∷◌, length,
  Outcome, done, fault, ◌>>=◌, arith, All, inl, inr, Bool-cases, ◌∙◌, lt→ltb, until_nul,
  length-until_nul-le,
}
use poco_echo.Sqlite.{Sqlite}
use poco_echo.WhiteList.{WhiteList, add, remove}
use poco_echo.WhiteList.Session.{
  Command, adds, removes, address, perform, perform_all, perform_all_total,
}
use poco_echo.Console.{Console, waits, exits, after_action, replay, run-replay}
use poco_echo.Server.Console.{Prompt, answer, read_ip, get_action, run}

-- The commands that the input asks for before its first request to end, each on its word up to a
-- NUL.
unfoldable pub commands : List Prompt → List Command
commands [] = []
commands (p ∷ ps) =
    let rest = commands ps in
    if p.action == 1
    then adds (until_nul p.word) ∷ rest
    else if p.action == 2
    then removes (until_nul p.word) ∷ rest
    else if p.action == 3
    then []
    else rest

-- Whether the input asks for the end.
unfoldable pub leaves : List Prompt → Bool
leaves [] = false
leaves (p ∷ ps) = let rest = leaves ps in if p.action == 3 then true else rest

pub ==-else : (a b c : ℕ) → (b == c) ≡ false → (a == b) ≡ true → (a == c) ≡ false
==-else a b c h e = ground arith

-- Words that fit the buffer are short enough for a statement.
All-commands :
    (ps : List Prompt)
    → All (λ p. length p.word < 16) ps
    → All (λ c. length (address c) ≤ 20) (commands ps)
unfolding commands
All-commands [] short = tt
All-commands (p ∷ ps) short = ground (arith, length-until_nul-le p.word, All-commands ps short.1)

module _ {S : Sqlite} where
  -- Where a history ends.
  abbrev pub stop : Bool → WhiteList S → Console (WhiteList S) Prompt
  stop left w = if left then exits w else waits w

  -- A command, and whatever its answer the actions behind it.
  pub after_command :
      (ps : List Prompt) (m : Outcome (WhiteList S × Bool)) (cs : List Command)
      (k : WhiteList S → Outcome (Console (WhiteList S) Prompt))
      → ((w : WhiteList S) → replay (get_action S) w ps ≡ (perform_all S w cs >>= k))
      → ((m >>= λ r. done (answer S r))
          >>= after_action (get_action S) (λ w. replay (get_action S) w ps))
        ≡ ((m >>= λ r. perform_all S r.0 cs) >>= k)
  after_command ps (done (w, true)) cs k h = h w
  after_command ps (done (w, false)) cs k h = h w
  after_command ps (fault x) cs k h = refl

  replay-perform_all :
      (ps : List Prompt) (w : WhiteList S)
      → All (λ p. length p.word < 16) ps
      → replay (get_action S) w ps
        ≡ (perform_all S w (commands ps) >>= λ w'. done (stop (leaves ps) w'))
  unfolding get_action perform_all perform commands leaves
  replay-perform_all [] w short = refl
  replay-perform_all (p ∷ ps) w short =
      let fits : read_ip p.word ≡ done (until_nul p.word) =
        rw (lt→ltb (length p.word) 16 short.0) in
      let later : (v : WhiteList S)
          → replay (get_action S) v ps
            ≡ (perform_all S v (commands ps) >>= λ w'. done (stop (leaves ps) w')) =
        λ v. replay-perform_all ps v short.1 in
      elim (Bool-cases (p.action == 1)) [
        | inl e ↦
            rw (e, fits, ==-else (p.action) 1 3 refl e)
              (after_command ps (add S w (until_nul p.word)) (commands ps) _ later)
        | inr e ↦ elim (Bool-cases (p.action == 2)) [
          | inl e2 ↦
              rw (e, e2, fits, ==-else (p.action) 2 3 refl e2)
                (after_command ps (remove S w (until_nul p.word)) (commands ps) _ later)
          | inr e2 ↦ elim (Bool-cases (p.action == 3)) [
            | inl e3 ↦ rw (e, e2, e3) refl
            | inr e3 ↦ rw (e, e2, e3) (later w)
          ]
        ]
      ]

  -- The console's loop, on input of words of fewer than 16 bytes and with more rounds than there
  -- are prompts, performs the Add and Remove commands that stand before the first request to end,
  -- each on its word up to the first NUL, in their order, retries included, and then has ended or
  -- waits.
  pub run-perform_all :
      (ps : List Prompt) (n : ℕ) (w : WhiteList S)
      → length ps < n
      → All (λ p. length p.word < 16) ps
      → run S n w ps ≡ (perform_all S w (commands ps) >>= λ w'. done (stop (leaves ps) w'))
  unfolding run
  run-perform_all ps n w fuel short =
      run-replay (get_action S) ps n w fuel ∙ replay-perform_all ps w short

  -- On an open database and words of fewer than 16 bytes the console's loop, with more rounds than
  -- there are prompts, comes without a fault to the end asked for, or else to where it waits.
  pub run_total :
      (ps : List Prompt) (n : ℕ) (w : WhiteList S) (d : S.Db)
      → w.database ≡ some d
      → length ps < n
      → All (λ p. length p.word < 16) ps
      → (w' : WhiteList S) × (run S n w ps ≡ done (stop (leaves ps) w'))
  run_total ps n w d opened fuel short =
      let (w', ran) = perform_all_total (commands ps) w d opened (All-commands ps short) in
      (w', rw (run-perform_all ps n w fuel short, ran) refl)
