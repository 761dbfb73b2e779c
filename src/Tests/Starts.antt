-- ===== src/Tests/Starts.antt =====
-- The start of server and client.
use poco_echo.Base.{
  Bytes, ℕ, ◌++◌, ◌≡◌, refl, [], ◌∷◌, some, done, fault, assertion, arith, bytes32, true, Option,
}
use poco_echo.Poco.{Receipt, brings, Socket}
use poco_echo.Tests.Data.{home}
use poco_echo.Packets.PacketType
use poco_echo.Effect.{closed}
use poco_echo.Sqlite.{Sqlite}
use poco_echo.Sqlite.Table.{table, table-IsSqlite}
use poco_echo.WhiteList.{WhiteList, initialize, try_get_list}
use poco_echo.WhiteList.Mirror.{IsMirror}
use poco_echo.Network.LifeCycle.{try_start}
use poco_echo.Network.Handlers.{add_packet_handler, get_list_index_of_packet_handler}
use poco_echo.Singleton.{
  Class, Objects, ServerObject, create, get_instance, construct_server, construct_packet_handler,
  construct_packet_translator, construct_server_actions,
}
use poco_echo.Singleton.Once.{IsWired, create-once, same, creates}
use poco_echo.Server.Control.{server_try_start}
use poco_echo.Server.Start.{runs, running, server_main, server_main-runs, server_main-fault}
use poco_echo.Client.Connect.{
  Client, new_client, client_run, try_connect, lets_in, try_connect-client_run,
}

abbrev empty_list : WhiteList table
empty_list = record { accept_list = []; database = some [] }

-- The objects of the server, after the white list of address 1.
abbrev pub objects : ServerObject
objects = record {
  this = 2;
  white_list = 1;
  packet_handler = record {
    this = 3;
    server = 2;
    packet_translator = record { this = 4; packet_handler = 3 };
  };
  action_manager = record { this = 5; white_list = 1 };
}

abbrev pub registry : Objects
registry = record {
  next = 6;
  instances =
      (Class.server_actions, 5)
      ∷ (Class.packet_translator, 4)
      ∷ (Class.packet_handler, 3)
      ∷ (Class.server, 2)
      ∷ (Class.white_list, 1)
      ∷ [];
}

started : server_main table (some 3) ≡ done (runs empty_list objects registry (running table 3))
unfolding server_main server_try_start try_start initialize try_get_list add_packet_handler
    get_list_index_of_packet_handler create construct_server construct_packet_handler
    construct_packet_translator construct_server_actions
started = refl

server_main-runs_example :
    IsMirror empty_list
    × IsWired 1 objects registry
    × ((s : Socket) × (Path (Option Socket) (some 3) (some s))
        × (running table 3 ≡ running table s))
server_main-runs_example =
    server_main-runs table-IsSqlite (some 3) empty_list objects registry (running table 3) started

-- A second server fails, also where the first is deleted.
create-once_example :
    (get_instance Class.server registry ≡ some 2) × (create Class.server registry ≡ fault assertion)
unfolding create
create-once_example =
    create-once Class.server (record { next = 2; instances = (Class.white_list, 1) ∷ [] })
      (record { next = 3; instances = (Class.server, 2) ∷ (Class.white_list, 1) ∷ [] }) registry 2
      refl
      (creates Class.server_actions 5
        (creates Class.packet_translator 4 (creates Class.packet_handler 3 same refl) refl) refl)

-- A database file that cannot be opened.
abbrev locked : Sqlite
locked = record table { open_file = λ path. (14, []) }

server_main-fault_example : server_main locked (some 3) ≡ fault assertion
server_main-fault_example = server_main-fault locked (some 3) (ground arith)

abbrev kicking : Bytes → ℕ → Receipt
kicking address server_port = brings (bytes32 PacketType.kick)

try_connect-client_run_example :
    (c : Client) × (try_connect (some (home ++ (0 ∷ []))) 28220 4 (bytes32 0) kicking new_client
      ≡ done (c, true, closed 4 ∷ []))
    × ((client_run c).1 ≡ lets_in (bytes32 0) (brings (bytes32 PacketType.kick)))
try_connect-client_run_example =
    try_connect-client_run (home ++ (0 ∷ [])) 28220 4 (bytes32 0) kicking new_client (omega arith)
      (omega arith)
