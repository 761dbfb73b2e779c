-- ===== src/Heap/Packets.antt =====
-- `CPacketHandler::ProcessPacket` (server/src/CPacketHandler.cpp) with the blocks that its packets take
-- and release (server/src/packets).
use poco_echo.Base.{
  ℕ, ◌==◌, if◌then◌else◌, Bool, true, false, Option, none, some, List, [], ◌∷◌, Bytes, Outcome,
  done, bad_pointer, assertion, poco_exception, or_fault, ◌>>=◌,
}
use poco_echo.Poco.{Fifo, Memory, Socket, Peers, text_at}
use poco_echo.Packets.{max_buffer_length}
use poco_echo.Packets.PacketType
use poco_echo.Effect.{Effect, printed, sent, message_from, unknown_packet}
use poco_echo.Server.Packet.{MessagePacket, new_message_packet}
use poco_echo.Server.Packet.Read.{read}
use poco_echo.Server.Packet.Write.{new_message_send_packet, write}
use poco_echo.Heap.{Heap, Runtime, new_block, destroy_message_packet, destroy_message_send_packet}

module _ (F : Fifo) (m : Memory) (rt : Runtime) where
  -- `Read` with the address of the packet's block: where it succeeds it has released the old block and
  -- taken a new one.
  taken :
      MessagePacket × F.Buffer × Bool
      → Option ℕ
      → Heap
      → Outcome ((MessagePacket × F.Buffer × Bool) × Option ℕ × Heap)
  taken (p, b, true) at h = do
    r ← destroy_message_packet at h
    done ((p, b, true), some (new_block rt r.1).0, (new_block rt r.1).1)
  taken (p, b, false) at h = done ((p, b, false), at, h)

  read_on_heap :
      MessagePacket
      → Option ℕ
      → F.Buffer
      → Heap
      → Outcome ((MessagePacket × F.Buffer × Bool) × Option ℕ × Heap)
  read_on_heap p at b h = read F m p b >>= λ r. taken r at h

  -- What is done with a packet, and its destructor.
  after_read :
      (MessagePacket → Heap → Outcome (List Effect × Heap))
      → (MessagePacket × F.Buffer × Bool) × Option ℕ × Heap
      → Outcome ((F.Buffer × List Effect) × Heap)
  after_read body ((p, b, true), at, h) = do
    (effects, h₁) ← body p h
    (gone, h₂) ← destroy_message_packet at h₁
    done ((b, effects), h₂)
  after_read body ((p, b, false), at, h) = do
    (gone, h₁) ← destroy_message_packet at h
    done ((b, []), h₁)

  -- A `CMessagePacket` from its constructor to its destructor.
  unfoldable pub with_message_packet :
      Socket
      → F.Buffer
      → (MessagePacket → Heap → Outcome (List Effect × Heap))
      → Heap
      → Outcome ((F.Buffer × List Effect) × Heap)
  unfolding taken read_on_heap after_read
  with_message_packet client b body h = do
    r ← read_on_heap (record new_message_packet { socket = some client }) none b h
    after_read body r

  -- A `CMessageSendPacket` from its constructor, over `Write`, to its destructor.
  unfoldable pub write_on_heap : Bytes → F.Buffer → Heap → Outcome ((F.Buffer × Bool) × Heap)
  write_on_heap sz_message b h = do
    p ← new_message_send_packet m sz_message
    r ← write F m p b
    (gone, h₁) ← destroy_message_send_packet rt (some (new_block rt h).0) (new_block rt h).1
    done (r, h₁)

module _ (F : Fifo) (m : Memory) (peers : Peers) (rt : Runtime) where
  -- `CServer::Packet_Message`
  unfoldable pub packet_message_on_heap : MessagePacket → Heap → Outcome (List Effect × Heap)
  packet_message_on_heap packet h = do
    client ← or_fault bad_pointer packet.socket
    sz_message ← or_fault assertion packet.message
    peer ← or_fault poco_exception (peers client)
    text ← text_at m sz_message
    (r, h₁) ← write_on_heap F m rt sz_message (F.create max_buffer_length) h
    done (printed (message_from peer text) ∷ sent client (F.held r.0) ∷ [], h₁)

  -- `CPacketHandler::ProcessPacket`
  unfoldable pub process_on_heap :
      Socket → F.Buffer → ℕ → Heap → Outcome ((F.Buffer × List Effect) × Heap)
  process_on_heap client b packet_type h =
      if packet_type == PacketType.message
      then with_message_packet F m rt client b packet_message_on_heap h
      else done ((b, printed (unknown_packet packet_type) ∷ []), h)
