-- ===== src/Client/Program.antt =====
-- The client's program (client/src/main.cpp): the start of `main`, and the console that `Run` waits for.
use poco_echo.Base.{ℕ, some, List, [], ◌∷◌, Bytes, Outcome, done, ◌>>=◌, ℤ}
use poco_echo.Poco.{Receipt, Fifo, Memory, Socket}
use poco_echo.Effect.{Effect}
use poco_echo.Console.{Console}
use poco_echo.Network.LifeCycle.{Network, new_network, live}
use poco_echo.Singleton.{Objects, ClientObject}
use poco_echo.Client.Connect.{client_handler_address}
use poco_echo.Client.Console.{Prompt, Desk, console}
use poco_echo.Client.Start
use poco_echo.Client.Start.{ClientStarted, client_main}

-- The end of `main` with what it has closed, or the objects, their registry, and where the console
-- stands.
pub data Program : Type 0 where
  ended : List Effect → Program
  talks : ClientObject → Objects → Console Desk Prompt → Program

module _ (F : Fifo) (m : Memory) where
  -- `actionThread.start` and `join`.
  abbrev pub enter : ℕ → List Prompt → ClientStarted → Outcome Program
  enter rounds ps (Start.leaves effects) = done (ended effects)
  enter rounds ps (Start.runs c o client) = console F m rounds client ps >>= λ d. done (talks c o d)

  unfoldable pub client_program :
      (Bytes → ℤ)
      → List Bytes
      → Socket
      → Bytes
      → (Bytes → ℕ → Receipt)
      → ℕ
      → List Prompt
      → Outcome Program
  client_program overflow argv s junk dial rounds ps =
      client_main m overflow argv s junk dial >>= enter rounds ps

-- The network of the client that runs.
abbrev pub online : Socket → Network
online s = record new_network {
  socket = some s;
  thread = live;
  packet_handlers = client_handler_address ∷ [];
}
