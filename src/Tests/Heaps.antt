-- ===== src/Tests/Heaps.antt =====
-- Packets on a heap.
use poco_echo.Base.{ℕ, ◌≡◌, suc, [], ◌∷◌, ◌++◌, bytes32, done, ◌>>=◌, refl}
use poco_echo.Poco.Ring.{Ring, ring}
use poco_echo.Packets.{max_buffer_length}
use poco_echo.Packets.PacketType
use poco_echo.Server.Translator.{packet_handler, keep_if_read, packet_message}
use poco_echo.Server.Packet.Read.{read, read_fields}
use poco_echo.Server.Packet.Write.{write, new_message_send_packet}
use poco_echo.Poco.{read_word}
use poco_echo.Heap.{
  Heap, Runtime, delete_array, destroy_message_packet, destroy_message_send_packet,
}
use poco_echo.Heap.Packets.{
  process_on_heap, with_message_packet, packet_message_on_heap, write_on_heap,
}
use poco_echo.Tests.Data.{heap, hosts, hello}

-- A new block stands behind the last one made, and any delete releases a block.
abbrev runtime : Runtime
runtime = record {
  place = λ xs. elim xs as (λ x. ℕ) [ [] ↦ 1 | a ∷ rest ↦ suc a ];
  delete_object = delete_array;
}

abbrev message : Ring
message = record { cells = bytes32 6 ++ (hello ++ (0 ∷ [])); capacity = max_buffer_length }

abbrev used : Heap
used = record { arrays = 9 ∷ 4 ∷ [] }  -- A packet handled on the heap: the answer of the handler, and the blocks that were there before.

processed :
    process_on_heap ring heap hosts runtime 5 message PacketType.message used
    ≡ (packet_handler ring heap hosts 5 message PacketType.message >>= λ x. done (x, used))
unfolding process_on_heap packet_handler read with_message_packet read_fields destroy_message_packet
    read_word keep_if_read packet_message_on_heap packet_message write_on_heap
    destroy_message_send_packet write new_message_send_packet
processed = refl
