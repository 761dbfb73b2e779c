-- ===== src/Tests/Programs.antt =====
-- The programs of server and client, from their start to their consoles.
use poco_echo.Base.{◌≡◌, refl, some, List, [], ◌∷◌, Bytes, ℕ, done, arith, bytes32}
use poco_echo.Poco.{Receipt, brings}
use poco_echo.Packets.PacketType
use poco_echo.Sqlite.Table.{table, table-IsSqlite}
use poco_echo.WhiteList.{WhiteList, initialize, try_get_list, add}
use poco_echo.WhiteList.Mirror.{IsMirror}
use poco_echo.Console
use poco_echo.Console.{exits}
use poco_echo.Network.LifeCycle.{try_start}
use poco_echo.Network.Handlers.{add_packet_handler, get_list_index_of_packet_handler}
use poco_echo.Singleton.{
  create, construct_server, construct_packet_handler, construct_packet_translator,
  construct_server_actions,
}
use poco_echo.Server.Control.{server_try_start}
use poco_echo.Server.Console.{Prompt, run, get_action}
use poco_echo.Server.Console.Laws.{commands, leaves}
use poco_echo.Server.Start.{server_main, running}
use poco_echo.Server.Program.{server_program, serves, server_program-IsMirror}
use poco_echo.Client.Start
use poco_echo.Tests.Data.{home}
use poco_echo.Tests.Starts.{objects, registry}

-- An address is added before the end.
abbrev commanded : List Prompt
commanded = record { action = 1; word = home } ∷ record { action = 3; word = [] } ∷ []

abbrev with_home : WhiteList table
with_home = record { accept_list = home ∷ []; database = some (home ∷ []) }

served :
    server_program table (some 3) 4 commanded
    ≡ done (serves objects registry (running table 3) (exits with_home))
unfolding server_program server_main server_try_start try_start initialize try_get_list add
    add_packet_handler get_list_index_of_packet_handler create construct_server
    construct_packet_handler construct_packet_translator construct_server_actions run get_action
    Console.run Console.show_help
served = refl

server_program-IsMirror_example :
    (w : WhiteList table) × (Path
      (Console.Console (WhiteList table) Prompt)
      (exits with_home)
      (exits w))
    × IsMirror w
unfolding commands leaves
server_program-IsMirror_example =
    server_program-IsMirror table-IsSqlite (some 3) 4 commanded objects registry (running table 3)
      (exits with_home) (omega arith) (omega arith) (refl, tt) served

-- A server that lets all clients in.
abbrev welcoming : Bytes → ℕ → Receipt
welcoming address server_port = brings (bytes32 PacketType.accept)
