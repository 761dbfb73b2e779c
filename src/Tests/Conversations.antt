-- ===== src/Tests/Conversations.antt =====
-- Two lines on their way to the server and back.
use poco_echo.Base.{◌≡◌, refl, none, List, [], ◌∷◌, map, All, Bytes, done, arith, codes, bytes32}
use poco_echo.Poco.Ring.{ring, ring-IsFifo}
use poco_echo.Packets.{max_buffer_length}
use poco_echo.Effect.{printed, sent, message_shown}
use poco_echo.Console.{waits}
use poco_echo.Network.Update.{Loop, update_rounds}
use poco_echo.Server.Callbacks.{server_invoke, packet_handler_address}
use poco_echo.Client.Action.{new_action_manager}
use poco_echo.Client.Console.{console}
use poco_echo.Client.Packet.{request}
use poco_echo.Client.Receive.{client_on_update}
use poco_echo.Echo.Conversation.{IsLine, say, hears, answers, returns, conversation}
use poco_echo.Tests.Data.{heap, heap-IsMemory, heap-HasRoom, home, hosts, hello}
use poco_echo.Tests.Events.{online}
use poco_echo.Tests.Packets.{listening}

abbrev bye : Bytes
bye = codes "bye"

abbrev lines : List Bytes
lines = hello ∷ bye ∷ []

lines-IsLine : All IsLine lines
lines-IsLine = (
  record { plain = omega arith; short = omega arith; full = refl },
  (record { plain = omega arith; short = omega arith; full = refl }, tt),
)

conversation_example :
    (console ring heap 3 online (map say lines)
      ≡ done (
          waits (record {
            manager = new_action_manager;
            client = online;
            log = sent 4 (request heap hello) ∷ sent 4 (request heap bye) ∷ [];
          })))
    × ((l : Loop) × (update_rounds ring
            (server_invoke ring heap hosts)
            (packet_handler_address ∷ [])
            none
            hosts
            3
            (map (hears heap 5) lines)
            listening
          ≡ done l)
        × (l.clients ≡ 3 ∷ 5 ∷ [])
        × (l.log ≡ answers home 5 lines))
    × (client_on_update ring heap 4 (bytes32 16) (map returns lines)
        ≡ done (printed (message_shown hello) ∷ printed (message_shown bye) ∷ []))
conversation_example =
    conversation ring-IsFifo heap-IsMemory heap-IsMemory hosts none online _ 4 3 5 home (bytes32 16)
      listening 3 lines lines-IsLine (omega arith) refl refl refl (omega arith)
      (heap-HasRoom max_buffer_length) (heap-HasRoom max_buffer_length) refl refl refl refl
