-- ===== src/Tests/Events.antt =====
-- Calls and callbacks of the server.
use poco_echo.Base.{[], ◌∷◌, ◌++◌, some, none, bytes32, All, Ensures}
use poco_echo.Poco.Ring.{Ring, ring}
use poco_echo.Packets.{max_buffer_length}
use poco_echo.Packets.PacketType
use poco_echo.Network.LifeCycle.{new_network, live}
use poco_echo.Client.Connect.{Client}
use poco_echo.Server.Control.{Server}
use poco_echo.Server.Events as Host
use poco_echo.Server.Events.{respond-IsOwed}
use poco_echo.Tests.Data.{heap, hosts, hello, white}

abbrev serving : Server
serving = record {
  network = some (record {
    network = record new_network { socket = some 3; thread = live };
    registered = none;
  });
}

-- A message from socket 5.
abbrev message : Ring
message = record { cells = bytes32 6 ++ (hello ++ (0 ∷ [])); capacity = max_buffer_length }

respond-IsOwed_example :
    Ensures
      (λ r. All (Host.IsOwed ring (Host.receives 5 message PacketType.message)) r.1)
      (Host.respond ring heap hosts white serving (Host.receives 5 message PacketType.message))
respond-IsOwed_example =
    respond-IsOwed ring heap hosts white serving (Host.receives 5 message PacketType.message)

-- A connected client.
abbrev pub online : Client
online = record { network = some (record new_network { socket = some 4; thread = live }) }
