-- ===== src/Server/Translator.antt =====
-- `CPacketTranslator::Translate`, `CPacketHandler::ProcessPacket` and the packet half of `CServer`.
use poco_echo.Base.{
  ℕ, ◌==◌, if◌then◌else◌, Bool, true, false, Option, none, some, List, [], ◌∷◌, ◌++◌, Outcome, done,
  fault, bad_pointer, assertion, poco_exception, or_fault, ◌>>=◌,
}
use poco_echo.Poco.{Fifo, Memory, Socket, Peers, text_at}
use poco_echo.Packets.{max_buffer_length}
use poco_echo.Packets.PacketType
use poco_echo.Effect.{Effect, printed, sent, message_from, unknown_packet}
use poco_echo.Server.Packet.{
  MessagePacket, Packet, message_packet, message_send_packet, new_message_packet, get_packet_type,
}
use poco_echo.Server.Packet.Read.{read}
use poco_echo.Server.Packet.Write.{new_message_send_packet, write}

module _ (F : Fifo) (m : Memory) where
  -- A packet of which nothing could be read is deleted.
  unfoldable pub keep_if_read : MessagePacket × F.Buffer × Bool → Option Packet × F.Buffer
  keep_if_read (p, b, true) = (some (message_packet p), b)
  keep_if_read (p, b, false) = (none, b)

  -- `CPacketTranslator::Translate`. The call of `address()` for the line on an unknown packet is taken
  -- to return.
  unfoldable pub translate :
      ℕ → Socket → F.Buffer → Outcome (Option Packet × F.Buffer × List Effect)
  translate packet_type client b =
      if packet_type == PacketType.message
      then (do
        r ← read F m (record new_message_packet { socket = some client }) b
        let (packet, b') = keep_if_read r
        done (packet, b', []))
      else done (none, b, printed (unknown_packet packet_type) ∷ [])

module _ (F : Fifo) (m : Memory) (peers : Peers) where
  -- `CServer::Packet_Message`
  unfoldable pub packet_message : MessagePacket → Outcome (List Effect)
  packet_message packet = do
    client ← or_fault bad_pointer packet.socket
    sz_message ← or_fault assertion packet.message
    peer ← or_fault poco_exception (peers client)
    text ← text_at m sz_message
    msg_send_packet ← new_message_send_packet m sz_message
    r ← write F m msg_send_packet (F.create max_buffer_length)
    done (printed (message_from peer text) ∷ sent client (F.held r.0) ∷ [])

  -- `dynamic_cast<CMessagePacket*>` gives null for the other subclass.
  unfoldable pub process_message : Packet → Outcome (List Effect)
  process_message (message_packet p) = packet_message p
  process_message (message_send_packet p) = fault bad_pointer

  -- `CServer::ProcessPacket`
  unfoldable pub process_packet : Option Packet → Outcome (List Effect)
  unfolding process_message
  process_packet none = done []
  process_packet (some p) =
      if get_packet_type p == PacketType.message then process_message p else done []

  -- `CPacketHandler::ProcessPacket`, which `CServer::PacketHandler` calls on the server's handler.
  unfoldable pub packet_handler : Socket → F.Buffer → ℕ → Outcome (F.Buffer × List Effect)
  unfolding translate process_packet
  packet_handler client b packet_type = do
    r ← translate F m packet_type client b
    effects ← process_packet r.0
    done (r.1, r.2 ++ effects)
