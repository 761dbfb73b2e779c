-- ===== src/Tests/Handshakes.antt =====
-- A client that asks to be let in.
use poco_echo.Base.{true, ◌≡◌, refl, some, [], ◌∷◌, ◌++◌, bytes32, done, arith, if◌then◌else◌}
use poco_echo.Poco.{brings}
use poco_echo.Poco.Ring.{ring}
use poco_echo.Effect.{closed, printed, sent, asks_to_connect, allowed, not_allowed}
use poco_echo.WhiteList.{is_ip_can_connect}
use poco_echo.Sqlite.Table.{table}
use poco_echo.Network.Update.{visit, start}
use poco_echo.Server.Callbacks.{server_invoke, server_connect, packet_handler_address}
use poco_echo.Client.Connect.{new_client, try_connect, client_run, afterwards}
use poco_echo.Echo.Handshake.{verdict, handshake}
use poco_echo.Tests.Data.{heap, home, hosts, white}
use poco_echo.Tests.Access.{knock}

handshake_example :
    let can = is_ip_can_connect table white home in
    (visit ring
        (server_invoke ring heap hosts)
        (packet_handler_address ∷ [])
        (server_connect white hosts)
        hosts
        3
        knock
        3
        (start 3 (bytes32 0))
      ≡ done (record (start 3 (bytes32 0)) {
        clients = if can then 3 ∷ 5 ∷ [] else 3 ∷ [];
        packet_type = verdict can;
        log =
            printed (asks_to_connect home)
            ∷ printed (if can then allowed else not_allowed)
            ∷ sent 5 (verdict can)
            ∷ (if can then [] else closed 5 ∷ []);
      }))
    × (try_connect
          (some (home ++ (0 ∷ [])))
          28220
          4
          (bytes32 0)
          (λ a p. brings (verdict can))
          new_client
        ≡ done (afterwards can 4, true, if can then [] else closed 4 ∷ []))
    × ((client_run (afterwards can 4)).1 ≡ can)
handshake_example =
    handshake white ring heap hosts (packet_handler_address ∷ []) 3 5 home refl knock refl
      (start 3 (bytes32 0)) (home ++ (0 ∷ [])) 28220 4 (bytes32 0) new_client (omega arith)
      (omega arith) refl
