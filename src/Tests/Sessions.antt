-- ===== src/Tests/Sessions.antt =====
-- The console and the update loop of the server together.
use poco_echo.Base.{List, none, done, ◌≡◌, refl, true, some, [], ◌∷◌, bytes32}
use poco_echo.Poco.Ring.{ring}
use poco_echo.Sqlite.Table.{table}
use poco_echo.WhiteList.{WhiteList, initialize, try_get_list, add, is_ip_can_connect}
use poco_echo.WhiteList.Life.{
  Operation, initializes, loads, asks, operate, operate_all, live_through,
}
use poco_echo.WhiteList.Session.{removes, perform}
use poco_echo.Server.Callbacks.{packet_handler_address}
use poco_echo.Server.Sessions.{Sessions, begins, commands, rounds}
use poco_echo.Tests.Data.{heap, home, hosts, white}
use poco_echo.Tests.Access.{knock, after_knock, knocked, removed}

abbrev pub nobody : WhiteList table
nobody = record { accept_list = []; database = some [] }

-- A life in which the table is loaded twice.
abbrev life : List Operation
life = initializes ∷ loads ∷ Operation.adds home ∷ asks home ∷ loads ∷ []

lived : live_through table life ≡ done (record { accept_list = home ∷ []; database = none })
unfolding live_through operate_all operate initialize try_get_list add is_ip_can_connect
lived = refl

-- The client of 10.0.0.1 is let in, and its address removed then: it stays.
session :
    Sessions ring heap
      (packet_handler_address ∷ [])
      hosts
      3
      (bytes32 0)
      white
      (removes home ∷ [])
      nobody
      after_knock
unfolding perform
session = commands (removes home) true (rounds knock begins (refl, tt) knocked) removed
