-- ===== src/Tests/Systems.antt =====
-- A run of the server with its console, and its end by an exception.
use poco_echo.Base.{◌≡◌, ◌⊎◌, ◌<◌, refl, true, false, Option, some, [], ◌∷◌, bytes32, arith}
use poco_echo.Poco.{Socket}
use poco_echo.Poco.Ring.{ring}
use poco_echo.Sqlite.Table.{table}
use poco_echo.WhiteList.{is_ip_can_connect}
use poco_echo.WhiteList.Session.{removes, perform}
use poco_echo.Network.Handlers.{add_packet_handler, get_list_index_of_packet_handler}
use poco_echo.Network.LifeCycle.{Network, new_network, live, try_start, close}
use poco_echo.Network.Closing.{Owner, adds, opens, waits}
use poco_echo.Network.Update.{Loop, start, visit, accept_client}
use poco_echo.Server.Callbacks.{connect_handler}
use poco_echo.Server.System.{
  System, Step, Reach, begins, later, owns, starts, selects, visits_one, commands_list, dead, heads,
  visits,
}
use poco_echo.Server.System.Safety.{IsSafe, Reach-IsSafe}
use poco_echo.Server.System.Bound.{ahead}
use poco_echo.Server.System.Close.{Next, Reach-joining}
use poco_echo.Server.System.Stuck.{IsStuck, Unstarted, dead-IsStuck}
use poco_echo.Tests.Data.{heap, home, hosts, white}
use poco_echo.Tests.Access.{knock, after_knock, removed}
use poco_echo.Tests.Sessions.{nobody}

abbrev network : Network
network = record new_network { socket = some 3; thread = live; packet_handlers = 1 ∷ [] }

-- The server on socket 3, with its thread at the head of the loop.
abbrev serving : Loop → System table
serving l = record {
  threads = record { network = network; owner = Owner.outside; updates = true };
  list = white;
  phase = heads 3 l;
  died = false;
  past = [];
  commands = [];
}

serving_reached : Reach ring heap hosts white (serving (start 3 (bytes32 0)))
unfolding try_start add_packet_handler get_list_index_of_packet_handler
serving_reached =
    later
      (later (later begins (owns _ (adds 1 refl (omega arith)) refl)) (
        owns _
          (opens (record new_network { socket = some 3; packet_handlers = 1 ∷ [] }) (some 3) true []
            refl refl)
          refl))
      (starts 3 (bytes32 0) refl refl refl)

-- The client of 10.0.0.1 was let in, and its address then removed before the round was over.
abbrev half : System table
half = record (serving after_knock) {
  list = nobody;
  phase = visits 3 knock [] after_knock;
  commands = removes home ∷ [];
}

half_reached : Reach ring heap hosts white half
unfolding visit accept_client connect_handler is_ip_can_connect perform
half_reached =
    later
      (later
        (later serving_reached (selects 3 knock (start 3 (bytes32 0)) refl refl refl (refl, tt)))
        (visits_one 3 knock 3 [] (start 3 (bytes32 0)) after_knock refl refl))
      (commands_list (removes home) nobody true removed)

Reach-IsSafe_example : IsSafe ring heap hosts white half
Reach-IsSafe_example = Reach-IsSafe ring heap hosts white half half_reached

dead-IsStuck_example :
    (server : Socket) × (Path (Option Socket) (some 3) (some server))
    × IsStuck ring heap hosts server half (dead half)
dead-IsStuck_example =
    dead-IsStuck ring heap hosts white half (dead half) half_reached refl refl Unstarted.here

-- The owner calls Close in the middle of the round.
abbrev closing : System table
closing = record half {
  threads = record {
    network = record network { close_requested = true };
    owner = Owner.joining;
    updates = true;
  };
}

closing_reached : Reach ring heap hosts white closing
unfolding close
closing_reached =
    later half_reached
      (owns _ (waits (record network { close_requested = true }) [] refl refl) refl)

Reach-joining_example :
    Next ring heap hosts white closing closing.phase
    × ((t : System table)
        → Step ring heap hosts closing t
        → ((t.threads ≡ closing.threads) × (t.phase ≡ closing.phase)) ⊎ (ahead t < ahead closing))
Reach-joining_example = Reach-joining ring heap hosts white closing closing_reached refl (λ _. refl)
