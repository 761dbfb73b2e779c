-- ===== src/Server/Program.antt =====
-- The server's program (server/src/main.cpp): the start of `main`, and the console that `Run` waits for.
-- The update thread beside it only reads the white list.
use poco_echo.Base.{
  ℕ, ◌<◌, ◌≡◌, refl, sym, ap, ◌∙◌, Option, List, All, length, Outcome, done, ◌>>=◌, >>=-eq-done,
  done-injective, arith,
}
use poco_echo.Poco.{Socket}
use poco_echo.Effect.{Effect}
use poco_echo.Sqlite.{Sqlite, IsSqlite, IsQuotable}
use poco_echo.WhiteList.{WhiteList}
use poco_echo.WhiteList.Mirror.{IsMirror}
use poco_echo.WhiteList.Session.{address, perform_all, perform_all-IsMirror}
use poco_echo.Console.{Console}
use poco_echo.Singleton.{Objects, ServerObject}
use poco_echo.Server.Control.{Server}
use poco_echo.Server.Console.{Prompt, run}
use poco_echo.Server.Console.Laws.{commands, leaves, stop, run-perform_all}
use poco_echo.Server.Start
use poco_echo.Server.Start.{Started, server_main, server_main-runs}

-- The end of `main` with what it has closed, or the objects, their registry and the server, and where
-- the console stands.
pub data Program (S : Sqlite) : Type 0 where
  ended : List Effect → Program S
  serves : ServerObject → Objects → Server → Console (WhiteList S) Prompt → Program S

module _ (S : Sqlite) where
  -- `actionThread.start` and `join`.
  abbrev pub enter : ℕ → List Prompt → Started S → Outcome (Program S)
  enter rounds ps (Start.leaves effects) = done (ended effects)
  enter rounds ps (Start.runs w s o server) = run S rounds w ps >>= λ c. done (serves s o server c)

  unfoldable pub server_program : Option Socket → ℕ → List Prompt → Outcome (Program S)
  server_program bound rounds ps = server_main S bound >>= enter rounds ps

module _ {S : Sqlite} (L : IsSqlite S) where
  enter-IsMirror :
      (rounds : ℕ) (ps : List Prompt) (r : Started S) (s : ServerObject) (o : Objects)
      (server : Server) (c : Console (WhiteList S) Prompt)
      → ((w : WhiteList S) (s' : ServerObject) (o' : Objects) (server' : Server)
          → r ≡ Start.runs w s' o' server'
          → IsMirror w)
      → length ps < rounds
      → All (λ p. length p.word < 16) ps
      → All (λ a. IsQuotable (address a)) (commands ps)
      → enter S rounds ps r ≡ done (serves s o server c)
      → (w : WhiteList S) × (c ≡ stop (leaves ps) w) × IsMirror w
  enter-IsMirror rounds ps (Start.leaves effects) s o server c v fuel short quotable e =
      absurd (ground arith)
  enter-IsMirror rounds ps (Start.runs w s' o' server') s o server c v fuel short quotable e =
      let (c', ran, is) = >>=-eq-done (run S rounds w ps) (λ c. done (serves s' o' server' c)) e in
      let (w', performed, stopped) =
        >>=-eq-done (perform_all S w (commands ps)) (λ w'. done (stop (leaves ps) w'))
          (sym (run-perform_all ps rounds w fuel short) ∙ ran) in
      (
        w',
        sym (done-injective (ground arith)) ∙ sym (done-injective stopped),
        perform_all-IsMirror L (commands ps) w w' quotable (v w s' o' server' refl) performed,
      )

  -- The server's program, on console words of fewer than 16 bytes, addresses in its commands
  -- without a quote, and more rounds than there are prompts: where it has come to its console, the
  -- console has ended or waits as the input says, and the white list then accepts just the
  -- addresses of the database.
  pub server_program-IsMirror :
      (bound : Option Socket) (rounds : ℕ) (ps : List Prompt) (s : ServerObject) (o : Objects)
      (server : Server) (c : Console (WhiteList S) Prompt)
      → length ps < rounds
      → All (λ p. length p.word < 16) ps
      → All (λ a. IsQuotable (address a)) (commands ps)
      → server_program S bound rounds ps ≡ done (serves s o server c)
      → (w : WhiteList S) × (c ≡ stop (leaves ps) w) × IsMirror w
  unfolding server_program
  server_program-IsMirror bound rounds ps s o server c fuel short quotable e =
      let (r, started, entered) = >>=-eq-done (server_main S bound) (enter S rounds ps) e in
      enter-IsMirror rounds ps r s o server c
        (λ w s' o' server' is. (server_main-runs L bound w s' o' server' (started ∙ ap done is)).0)
        fuel short quotable entered
