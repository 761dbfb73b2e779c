-- ===== src/Tests/Clients.antt =====
-- A client that sends a line and is then left by its server.
use poco_echo.Base.{◌≡◌, refl, false, some, [], ◌∷◌, fault, bad_pointer, replicate, arith, bytes32}
use poco_echo.Poco.{throws, brings}
use poco_echo.Poco.Ring.{ring, ring-IsFifo}
use poco_echo.Effect.{sent, closed}
use poco_echo.Console.{agrees}
use poco_echo.Network.LifeCycle.{Network, new_network, live, exit}
use poco_echo.Client.Action.{
  new_action_manager, read_message, store_message, listen_action, pop_action_result, send_result,
}
use poco_echo.Client.Packet.{request}
use poco_echo.Client.Receive.{client_pass}
use poco_echo.Client.Console.{Prompt, tell, enter_message, get_action}
use poco_echo.Client.System.{System, Reach, begins, later, acts, leaves, left}
use poco_echo.Client.System.Safety.{IsSound, Reach-IsSound, Reach-offline}
use poco_echo.Tests.Data.{heap, heap-IsMemory, hello}

abbrev network : Network
network = record new_network { socket = some 4; thread = live }

abbrev says_hello : Prompt
says_hello = record { action = 1; words = hello ∷ [] }

-- After the line and the end of the connection.
abbrev left_alone : System
left_alone = record {
  desk = record {
    manager = new_action_manager;
    client = record { network = some new_network };
    log = sent 4 (request heap hello) ∷ [];
  };
  disconnects = false;
  phase = left;
  shown = closed 4 ∷ [];
}

left_alone_reached : Reach ring heap network (bytes32 0) left_alone
unfolding get_action enter_message read_message tell store_message listen_action pop_action_result
    send_result client_pass exit
left_alone_reached =
    later
      (later begins (
        acts says_hello
          (record {
            manager = new_action_manager;
            client = record { network = some network };
            log = sent 4 (request heap hello) ∷ [];
          })
          agrees refl refl refl))
      (leaves (record { close_requested = false; type_bytes = brings []; rest = throws }) network
        new_network (bytes32 0) (closed 4 ∷ []) refl refl refl refl refl)

Reach-IsSound_example : IsSound ring-IsFifo heap-IsMemory 4 left_alone
Reach-IsSound_example =
    Reach-IsSound ring-IsFifo heap-IsMemory 4 network (bytes32 0) left_alone refl refl
      left_alone_reached

Reach-offline_example : get_action ring heap left_alone.desk says_hello ≡ fault bad_pointer
Reach-offline_example =
    Reach-offline ring-IsFifo heap-IsMemory 4 network (bytes32 0) left_alone says_hello hello []
      (replicate 6 170) refl refl left_alone_reached refl refl refl (omega arith) (omega arith) refl
