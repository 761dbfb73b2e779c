-- ===== src/Tests/Access.antt =====
-- The white list and the update loop of the server.
use poco_echo.Base.{
  ◌≡◌, refl, ◌⊎◌, true, none, some, List, [], ◌∷◌, All, Bytes, done, fault, over_write, codes,
  bytes32, bytes_eq, ◌||◌, elem, arith,
}
use poco_echo.Poco.Ring.{ring}
use poco_echo.Effect.{printed, asks_to_connect, allowed}
use poco_echo.Network.Update.{
  Turn, Loop, start, let_in, update_round, accept_client, visit, visit_all, drop_clients,
}
use poco_echo.Network.Reach.{starts, rounds}
use poco_echo.Server.Callbacks.{
  server_invoke, server_connect, connect_handler, packet_handler_address,
}
use poco_echo.Server.Access.{Reach-IsServed, IsServed, IsWhite}
use poco_echo.Sqlite.Table.{table, table-IsSqlite}
use poco_echo.WhiteList.{WhiteList, is_ip_can_connect, try_get_list, add, remove}
use poco_echo.WhiteList.Laws.{add_overflow}
use poco_echo.WhiteList.Mirror.{IsMirror, try_get_list-IsMirror}
use poco_echo.WhiteList.Session.{
  perform, perform-is_ip_can_connect, Command, adds, perform_all, perform_all-IsMirror,
  perform_all_total, restart-is_ip_can_connect,
}
use poco_echo.Tests.Data.{heap, home, hosts, white}

-- The client of 10.0.0.1 asks the server socket 3 to be let in.
abbrev pub knock : Turn
knock = record { count = 1; ready = 3 ∷ []; accepted = some 5; received = λ s. none }

abbrev pub after_knock : Loop
after_knock = let_in 5 (printed (asks_to_connect home) ∷ printed allowed ∷ []) (start 3 (bytes32 0))

pub knocked :
    update_round ring
      (server_invoke ring heap hosts)
      (packet_handler_address ∷ [])
      (server_connect white hosts)
      hosts
      3
      knock
      (start 3 (bytes32 0))
    ≡ done after_knock
unfolding update_round visit_all visit accept_client connect_handler drop_clients is_ip_can_connect
knocked = refl

Reach-IsServed_example :
    (elem 3 (3 ∷ 5 ∷ []) ≡ true)
    × All (λ c. (c ≡ 3) ⊎ IsWhite ring heap white hosts c) (3 ∷ 5 ∷ [])
    × All (IsServed ring heap white hosts) after_knock.log
Reach-IsServed_example =
    Reach-IsServed ring heap white hosts (packet_handler_address ∷ []) 3 (bytes32 0) after_knock
      (rounds knock starts (refl, tt) knocked)

abbrev new_ip : Bytes
new_ip = codes "10.0.0.2"

abbrev two_hosts : WhiteList table
two_hosts = record { accept_list = new_ip ∷ home ∷ []; database = some (home ∷ new_ip ∷ []) }

added : add table white new_ip ≡ done (two_hosts, true)
unfolding add
added = refl

pub removed : remove table white home ≡ done (record { accept_list = []; database = some [] }, true)
unfolding remove
removed = refl

perform-is_ip_can_connect_example :
    is_ip_can_connect table two_hosts home
    ≡ (bytes_eq home new_ip || is_ip_can_connect table white home)
unfolding perform
perform-is_ip_can_connect_example =
    perform-is_ip_can_connect white two_hosts (adds new_ip) true home added

add_overflow_example : add table white (codes "2001:db8:0:0:0:0:0:10") ≡ fault over_write
unfolding is_ip_can_connect
add_overflow_example = add_overflow white (codes "2001:db8:0:0:0:0:0:10") refl (omega arith)

loaded :
    try_get_list table (record { accept_list = []; database = some (home ∷ []) })
    ≡ done (white, true)
unfolding try_get_list
loaded = refl

try_get_list-IsMirror_example : IsMirror white
try_get_list-IsMirror_example =
    try_get_list-IsMirror table-IsSqlite (record { accept_list = []; database = some (home ∷ []) })
      white refl loaded

abbrev commands : List Command
commands = adds new_ip ∷ adds home ∷ []

performed : perform_all table white commands ≡ done two_hosts
unfolding perform_all perform add
performed = refl

perform_all-IsMirror_example : IsMirror two_hosts
perform_all-IsMirror_example =
    perform_all-IsMirror table-IsSqlite commands white two_hosts (refl, (refl, tt))
      (try_get_list-IsMirror table-IsSqlite
        (record { accept_list = []; database = some (home ∷ []) }) white refl loaded)
      performed

abbrev reloaded : WhiteList table
reloaded = record { accept_list = new_ip ∷ home ∷ []; database = some (home ∷ new_ip ∷ []) }

loaded_again :
    try_get_list table (record { accept_list = []; database = two_hosts.database })
    ≡ done (reloaded, true)
unfolding try_get_list
loaded_again = refl

restart-is_ip_can_connect_example :
    is_ip_can_connect table reloaded new_ip ≡ is_ip_can_connect table two_hosts new_ip
restart-is_ip_can_connect_example =
    restart-is_ip_can_connect table-IsSqlite commands
      (record { accept_list = []; database = some (home ∷ []) }) white two_hosts reloaded new_ip
      (refl, (refl, tt)) refl loaded performed loaded_again

perform_all_total_example : (w : WhiteList table) × (perform_all table white commands ≡ done w)
perform_all_total_example = perform_all_total commands white (home ∷ []) refl (omega arith)
