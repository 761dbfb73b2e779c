-- ===== src/Client/Console.antt =====
-- The client's `CActionManager` (client/src/CActionManager.cpp), the console of the user, with the
-- client that it acts on.
pub mod Laws
pub mod Faults
pub mod Prompts
use poco_echo.Base.{
  ℕ, ◌==◌, if◌then◌else◌, Bool, true, false, Option, none, some, List, [], ◌∷◌, ◌++◌, Bytes, length,
  Outcome, done, bad_pointer, or_fault, ◌>>=◌,
}
use poco_echo.Poco.{Fifo, Memory, Socket}
use poco_echo.Effect.{Effect}
use poco_echo.Console
use poco_echo.Console.{Console, Answer, agrees, refuses, quits, starves}
use poco_echo.Client.Action.{
  ActionManager, new_action_manager, read_message, store_message, listen_action,
}
use poco_echo.Client.Connect.{Client, disconnect}

-- What `cin` gives after the menu is shown: the number, and the words for the calls of
-- `cin >> szMessage` that it leads to. An empty word is what a read that finds nothing leaves; one
-- that begins with a NUL is as empty to `strlen`.
pub record Prompt : Type 0 where
  pub action : ℕ
  pub words : List Bytes

-- The action manager, `m_pClient`, and the effects so far.
pub record Desk : Type 0 where
  pub manager : ActionManager
  pub client : Client
  pub log : List Effect

-- `m_pNetwork->GetSocket()`, through which `ListenAction` goes on without a test.
abbrev pub connection : Client → Outcome Socket
connection client = do
  network ← or_fault bad_pointer client.network
  or_fault bad_pointer network.socket

module _ (F : Fifo) (m : Memory) where
  -- A message, a C string, from its block on: the result is stored, and `ListenAction` called.
  unfoldable pub tell : Bytes → Desk → Outcome (Desk × Bool)
  tell message d = do
    manager ← store_message m message d.manager
    server ← connection d.client
    let (manager', ok, effects) = listen_action F m server manager
    done (record d { manager = manager'; log = d.log ++ effects }, true)

  -- The rest of case 1 where the inner call of `GetAction(1)` for an empty word has returned.
  abbrev pub after_retry : Bytes → Desk × Bool → Outcome (Desk × Bool)
  after_retry message (d, true) = tell message d
  after_retry message (d, false) = done (d, false)

  -- Case 1 of `GetAction` from `strlen` on, with what the inner call of `GetAction(1)` comes to.
  abbrev pub measured : Outcome (Desk × Bool) → Desk → Bytes → Outcome (Desk × Bool)
  measured retried d message =
      if length message == 0 then (retried >>= after_retry message) else tell message d

  -- Case 1 of `GetAction`. The answer false says that `cin` still waits.
  unfoldable pub enter_message : List Bytes → Desk → Outcome (Desk × Bool)
  enter_message [] d = done (d, false)
  enter_message (word ∷ words) d =
      let retried = enter_message words d in read_message word >>= measured retried d

  abbrev pub entered : Desk × Bool → Desk × Answer
  entered (d, heard) = (d, if heard then agrees else starves)

  unfoldable pub get_action : Desk → Prompt → Outcome (Desk × Answer)
  get_action d p =
      if p.action == 1
      then (enter_message p.words d >>= λ r. done (entered r))
      else if p.action == 2
      then (do
        (client, ok, closing, effects) ← disconnect d.client
        done (record d { client = client; log = d.log ++ effects }, quits))
      else done (d, refuses)

  unfoldable pub show_help : Desk → List Prompt → Outcome (Console Desk Prompt)
  show_help = Console.show_help get_action

  -- The first rounds of `run`.
  unfoldable pub run : ℕ → Desk → List Prompt → Outcome (Console Desk Prompt)
  run = Console.run get_action

  -- An action manager from its constructor on, with the client that it is made for.
  abbrev pub console : ℕ → Client → List Prompt → Outcome (Console Desk Prompt)
  console rounds client ps =
      run rounds (record { manager = new_action_manager; client = client; log = [] }) ps
