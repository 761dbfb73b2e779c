-- ===== src/Tests/Users.antt =====
-- The console of the client.
use poco_echo.Base.{◌≡◌, refl, some, List, [], ◌∷◌, done, arith}
use poco_echo.Poco.Ring.{ring, ring-IsFifo}
use poco_echo.Effect.{sent}
use poco_echo.Console.{exits}
use poco_echo.Network.LifeCycle.{Network, new_network, live}
use poco_echo.Client.Action.{new_action_manager, message_limit}
use poco_echo.Client.Packet.{request}
use poco_echo.Client.Connect.{new_client}
use poco_echo.Client.Console.{Prompt, Desk, run}
use poco_echo.Client.Console.Laws.{run-speak}
use poco_echo.Tests.Data.{heap, heap-IsMemory, heap-HasRoom, hello}

abbrev connected : Network
connected = record new_network { socket = some 4; thread = live }

abbrev desk : Desk
desk = record {
  manager = new_action_manager;
  client = record { network = some connected };
  log = [];
}

-- A wrong number, a message after an empty word, and the end.
abbrev typed : List Prompt
typed =
    record { action = 9; words = [] }
    ∷ record { action = 1; words = [] ∷ hello ∷ [] }
    ∷ record { action = 2; words = [] }
    ∷ []

run-speak_example :
    run ring heap 4 desk typed
    ≡ done (
        exits (record {
          manager = new_action_manager;
          client = new_client;
          log = sent 4 (request heap hello) ∷ sent 4 (request heap []) ∷ [];
        }))
run-speak_example =
    run-speak ring-IsFifo heap-IsMemory (heap-HasRoom message_limit)
      (record { network = some connected }) connected 4 refl refl [] refl typed 4 (omega arith)
      (omega arith)
