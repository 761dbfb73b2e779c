-- ===== src/Tests/Packets.antt =====
-- Messages in the packets of client and server.
use poco_echo.Base.{
  ◌≡◌, refl, false, true, some, List, [], ◌∷◌, ◌++◌, take, Bytes, done, codes, bytes32, arith, pos,
  ℤ,
}
use poco_echo.Poco.Ring.{ring, ring-IsFifo}
use poco_echo.Packets.{max_buffer_length}
use poco_echo.Packets.PacketType
use poco_echo.Effect.{printed, sent, message_from}
use poco_echo.Network.Update.{Loop, handle_bytes}
use poco_echo.Server.Callbacks.{server_invoke, packet_handler_address}
use poco_echo.Server.Echo.{reply}
use poco_echo.Server.Respond.{handle_bytes-reply}
use poco_echo.Client.Option.{Options, new_options, parse_options, valid_port, copy_address}
use poco_echo.Client.Option.Laws.{parse_options-kept, valid_port-show_decimal}
use poco_echo.Tests.Data.{heap, heap-IsMemory, heap-HasRoom, home, hosts, hello}

abbrev pub listening : Loop
listening = record {
  clients = 3 ∷ 5 ∷ [];
  packet_type = bytes32 PacketType.accept;
  drop_list = [];
  log = [];
}

abbrev hello_bytes : Bytes
hello_bytes = bytes32 7 ++ (hello ++ (0 ∷ 7 ∷ []))

-- A second packet in one receive is lost.
handle_bytes-reply_example :
    handle_bytes ring
      (server_invoke ring heap hosts)
      (packet_handler_address ∷ [])
      5
      (bytes32 17 ++ (hello_bytes ++ (bytes32 17 ++ hello_bytes)))
      listening
    ≡ done (record listening {
      packet_type = bytes32 17;
      log = printed (message_from home hello) ∷ sent 5 (take max_buffer_length (reply hello)) ∷ [];
    })
handle_bytes-reply_example =
    handle_bytes-reply ring-IsFifo heap-IsMemory hosts listening 5 7
      ((hello ++ (0 ∷ 7 ∷ [])) ++ (bytes32 17 ++ hello_bytes)) home hello refl (omega arith)
      (omega arith) refl (omega arith) (heap-HasRoom max_buffer_length) refl

abbrev atoi_junk : Bytes → ℤ
atoi_junk s = pos 1

abbrev argv : List Bytes
argv = codes "echo-client" ∷ codes "10.0.0.9" ∷ codes "28210" ∷ []

abbrev with_address : Options
with_address = record new_options { server_address = some (codes "10.0.0.9" ++ (0 ∷ [])) }

parse_argv : parse_options heap atoi_junk argv new_options ≡ done (with_address, true)
unfolding parse_options copy_address
parse_argv = refl

parse_options-kept_example :
    parse_options heap atoi_junk argv new_options ≡ done (with_address, true)
parse_options-kept_example = parse_options-kept heap atoi_junk argv new_options heap-IsMemory

valid_port-show_decimal_example : valid_port atoi_junk (codes "70000") ≡ false
valid_port-show_decimal_example = valid_port-show_decimal atoi_junk 70000 (omega arith)
