-- ===== src/Server/Console.antt =====
-- The server's `CActionManager` (server/src/CActionManager.cpp), the console of the administrator.
pub mod Laws
pub mod Overflow
use poco_echo.Base.{
  ℕ, zero, suc, ◌==◌, if◌then◌else◌, ltb, Bool, true, false, Option, none, some, List, [], ◌∷◌,
  Bytes, until_nul, length, Outcome, done, fault, over_write, ◌>>=◌,
}
use poco_echo.Console
use poco_echo.Console.{Console, Answer, agrees, refuses, quits}
use poco_echo.Sqlite.{Sqlite}
use poco_echo.WhiteList.{WhiteList, add, remove}

-- What `cin` gives after the menu is shown: the number, and the word that follows where the action
-- asks for one. A read that fails leaves them arbitrary.
pub record Prompt : Type 0 where
  pub action : ℕ
  pub word : Bytes

-- `std::cin >> szIp` into `char szIp[16]`, which is written with a NUL and without a bound, and the
-- string that `Add` and `Remove` are then given, made of the characters before the first NUL.
abbrev pub read_ip : Bytes → Outcome Bytes
read_ip word = if ltb (length word) 16 then done (until_nul word) else fault over_write

module _ (S : Sqlite) where
  -- The answer of `Add` or `Remove` is that of `GetAction`.
  abbrev pub answer : WhiteList S × Bool → WhiteList S × Answer
  answer (w, ok) = (w, if ok then agrees else refuses)

  unfoldable pub get_action : WhiteList S → Prompt → Outcome (WhiteList S × Answer)
  get_action w p =
      if p.action == 1
      then (read_ip p.word >>= λ ip. add S w ip >>= λ r. done (answer r))
      else if p.action == 2
      then (read_ip p.word >>= λ ip. remove S w ip >>= λ r. done (answer r))
      else if p.action == 3
      then done (w, quits)
      else done (w, refuses)

  unfoldable pub show_help : WhiteList S → List Prompt → Outcome (Console (WhiteList S) Prompt)
  show_help = Console.show_help get_action

  -- The first rounds of `run`.
  unfoldable pub run : ℕ → WhiteList S → List Prompt → Outcome (Console (WhiteList S) Prompt)
  run = Console.run get_action
