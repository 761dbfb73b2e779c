-- ===== src/Tests/Consoles.antt =====
-- The consoles.
use poco_echo.Base.{
  inl, ◌≡◌, refl, List, [], ◌∷◌, done, fault, over_write, ◌>>=◌, arith, codes, some,
}
use poco_echo.Sqlite.Table.{table}
use poco_echo.WhiteList.{WhiteList, add, remove}
use poco_echo.WhiteList.Session.{adds, removes, perform_all}
use poco_echo.Console
use poco_echo.Console.{exits}
use poco_echo.Server.Console.{Prompt, run, get_action}
use poco_echo.Server.Console.Laws.{run-perform_all, run_total, commands, leaves}
use poco_echo.Server.Console.Overflow.{run_overflow}
use poco_echo.Tests.Data.{home, white}

-- An address is added, a wrong number typed, and another address removed before the end.
abbrev typed : List Prompt
typed =
    record { action = 1; word = codes "10.0.0.2" }
    ∷ record { action = 7; word = [] }
    ∷ record { action = 2; word = home }
    ∷ record { action = 3; word = [] }
    ∷ record { action = 2; word = codes "10.0.0.2" }
    ∷ []

abbrev only_new : WhiteList table
only_new = record { accept_list = codes "10.0.0.2" ∷ []; database = some (codes "10.0.0.2" ∷ []) }

ran : run table 6 white typed ≡ done (exits only_new)
unfolding run get_action Console.run Console.show_help add remove
ran = refl

run-perform_all_example : run table 6 white typed ≡ (
    perform_all table white (adds (codes "10.0.0.2") ∷ removes home ∷ []) >>= λ w. done (exits w))
unfolding commands leaves
run-perform_all_example = run-perform_all typed 6 white (omega arith) (omega arith)

run_total_example : (w : WhiteList table) × (run table 6 white typed ≡ done (exits w))
unfolding leaves
run_total_example = run_total typed 6 white (home ∷ []) refl (omega arith) (omega arith)

-- An address is removed before a word that is too long.
run_overflow_example :
    run table 4 white (
      record { action = 2; word = home }
      ∷ record { action = 1; word = codes "192.168.100.100 " }
      ∷ record { action = 3; word = [] }
      ∷ [])
    ≡ (perform_all table white (removes home ∷ []) >>= λ w. fault over_write)
unfolding commands leaves
run_overflow_example =
    run_overflow (record { action = 2; word = home } ∷ []) (record { action = 3; word = [] } ∷ [])
      (record { action = 1; word = codes "192.168.100.100 " }) 4 white (omega arith) (omega arith)
      refl (inl refl) (omega arith)
