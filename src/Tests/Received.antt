-- ===== src/Tests/Received.antt =====
-- Bytes of any kind, as server and client receive them.
use poco_echo.Base.{
  false, bad_pointer, codes, refl, ℕ, ◌-◌, ◌<◌, ◌≡◌, ◌^◌, ltb, if◌then◌else◌, Bool-cases, inl, inr,
  none, some, List, [], ◌∷◌, ◌++◌, map, Bytes, bytes32, done, fault, bad_alloc, arith,
}
use poco_echo.Poco.{Memory, IsMemory}
use poco_echo.Client.Receive.Ended.{client_on_update_ended, client_on_update_thrown}
use poco_echo.Client.Receive.{ClientTurn}
use poco_echo.Poco.{throws, brings}
use poco_echo.Poco.Ring.{ring, ring-IsFifo}
use poco_echo.Effect.{closed, sent, message_from, printed, message_shown, connected}
use poco_echo.Network.Update.{handle_bytes}
use poco_echo.Server.Callbacks.{server_invoke, packet_handler_address}
use poco_echo.Packets.{max_buffer_length}
use poco_echo.Server.Echo.{reply}
use poco_echo.Server.Leak.{handle_bytes-same, handle_bytes-leak}
use poco_echo.Server.Handled.{handle_bytes-handled}
use poco_echo.Client.Receive.{client_on_update}
use poco_echo.Client.Receive.Handled.{gives, client_on_update-told}
use poco_echo.Tests.Data.{heap-HasRoom, home, heap, heap-IsMemory, hosts, hello}
use poco_echo.Tests.Packets.{listening}

-- A memory with blocks of fewer than 4096 bytes.
abbrev page : Memory
page = record heap { fresh = λ n. if ltb n 4096 then heap.fresh n else none }

page-fresh :
    (n : ℕ) (block : Bytes) → page.fresh n ≡ some block → (n < 4096) × (heap.fresh n ≡ some block)
page-fresh n block e = elim (Bool-cases (ltb n 4096)) [
  | inl small ↦ (ground arith, (rw small at e))
  | inr large ↦ absurd (ground arith)
]

page-IsMemory : IsMemory page
page-IsMemory = record {
  length-fresh = λ n block e. heap-IsMemory.length-fresh n block (page-fresh n block e).1;
  length-stack = heap-IsMemory.length-stack;
}

-- A message packet of length -1.
abbrev negative : Bytes
negative = bytes32 17 ++ (bytes32 (2 ^ 32 - 1) ++ hello)

handle_bytes-handled_example :
    handle_bytes ring
      (server_invoke ring page hosts)
      (packet_handler_address ∷ [])
      5
      negative
      listening
    ≡ fault bad_alloc
handle_bytes-handled_example =
    handle_bytes-handled ring-IsFifo page-IsMemory hosts 5 listening negative (omega arith)
      (λ n block e. omega (arith, (page-fresh n block e).0))

-- The same answer from another memory.
abbrev elsewhere : Memory
elsewhere = record heap { beyond = 115 ∷ 101 ∷ 0 ∷ [] }

elsewhere-IsMemory : IsMemory elsewhere
elsewhere-IsMemory = record {
  length-fresh = heap-IsMemory.length-fresh;
  length-stack = heap-IsMemory.length-stack;
}

handle_bytes-same_example :
    handle_bytes ring
      (server_invoke ring heap hosts)
      (packet_handler_address ∷ [])
      5
      (bytes32 17 ++ (bytes32 6 ++ (hello ++ (0 ∷ []))))
      listening
    ≡ handle_bytes ring
        (server_invoke ring elsewhere hosts)
        (packet_handler_address ∷ [])
        5
        (bytes32 17 ++ (bytes32 6 ++ (hello ++ (0 ∷ []))))
        listening
handle_bytes-same_example =
    handle_bytes-same ring-IsFifo hosts listening 5 6 (hello ++ (0 ∷ [])) home refl (omega arith)
      (omega arith) refl heap-IsMemory elsewhere-IsMemory hello refl
      (heap-HasRoom max_buffer_length) (heap-HasRoom max_buffer_length)

-- A message without a NUL brings two bytes of the server's memory back.
handle_bytes-leak_example :
    handle_bytes ring
      (server_invoke ring elsewhere hosts)
      (packet_handler_address ∷ [])
      5
      (bytes32 17 ++ (bytes32 5 ++ hello))
      listening
    ≡ done (record listening {
      packet_type = bytes32 17;
      log =
          printed (message_from home (hello ++ codes "se"))
          ∷ sent 5 (reply (hello ++ codes "se"))
          ∷ [];
    })
handle_bytes-leak_example =
    handle_bytes-leak ring-IsFifo hosts listening 5 5 hello home refl (omega arith) (omega arith)
      refl elsewhere-IsMemory (codes "se") refl refl (omega arith) (heap-HasRoom max_buffer_length)

-- An accept packet with a message behind it, and a message whose type comes in one byte.
abbrev packets : List (Bytes × Bytes)
packets =
    (bytes32 16, bytes32 6 ++ (hello ++ (0 ∷ [])))
    ∷ (17 ∷ [], bytes32 6 ++ (hello ++ (0 ∷ [])))
    ∷ []

client_on_update-told_example :
    client_on_update ring page 4 (bytes32 0) (map gives packets)
    ≡ done (printed connected ∷ printed (message_shown hello) ∷ printed (message_shown hello) ∷ [])
client_on_update-told_example =
    client_on_update-told ring-IsFifo page 4 (bytes32 0) packets
      ((refl, refl, omega arith), ((refl, refl, omega arith), tt))

-- The end of the connection, and a receive that throws behind one byte of a type.
abbrev over : ClientTurn
over = record { close_requested = false; type_bytes = brings []; rest = throws }

abbrev broken : ClientTurn
broken = record { close_requested = false; type_bytes = brings (16 ∷ []); rest = throws }

client_on_update_ended_example :
    client_on_update ring page 4 (bytes32 0) (map gives packets ++ (over ∷ broken ∷ []))
    ≡ done (
        printed connected
        ∷ printed (message_shown hello)
        ∷ printed (message_shown hello)
        ∷ closed 4
        ∷ [])
client_on_update_ended_example =
    client_on_update_ended ring-IsFifo page 4 (bytes32 0) packets over (broken ∷ [])
      ((refl, refl, omega arith), ((refl, refl, omega arith), tt)) (inr (refl, inl refl))

client_on_update_thrown_example :
    client_on_update ring page 4 (bytes32 0) (map gives packets ++ (broken ∷ over ∷ []))
    ≡ fault bad_pointer
client_on_update_thrown_example =
    client_on_update_thrown ring-IsFifo page 4 (bytes32 0) packets broken (over ∷ [])
      ((refl, refl, omega arith), ((refl, refl, omega arith), tt))
      (refl, inr (16 ∷ [], refl, refl, refl))
