-- ===== src/Server/Packet/Write.antt =====
-- `CMessageSendPacket` (server/src/packets/CMessageSendPacket.cpp).
use poco_echo.Base.{
  suc, ◌%◌, ◌^◌, Bool, true, false, none, some, ◌++◌, length, take, Bytes, Outcome, done, ◌>>=◌,
  pos, bytes32, size_of_int, strncpy, Option,
}
use poco_echo.Poco.{Fifo, Memory, new_array, text_at}
use poco_echo.Packets.PacketType
use poco_echo.Server.Packet.{MessageSendPacket, new_socket}

module _ (m : Memory) where
  -- The constructor, on the block that `szMessage` points to.
  unfoldable pub new_message_send_packet : Bytes → Outcome MessageSendPacket
  new_message_send_packet sz_message = do
    text ← text_at m sz_message
    let message_length = suc (length text)
    block ← new_array m (pos message_length)
    done (record { socket = new_socket; message = some (strncpy block text message_length) })

module _ (F : Fifo) (m : Memory) where
  write_message : Option Bytes → F.Buffer → Outcome (F.Buffer × Bool)
  write_message none b = done (b, false)
  write_message (some block) b = do
    text ← text_at m block
    let message_length = suc (length text) % 2 ^ 32
    let b₁ = F.write b (bytes32 PacketType.message)
    let b₂ = F.write b₁ (bytes32 message_length)
    done (F.write b₂ (take (size_of_int message_length) (block ++ m.beyond)), true)

  unfoldable pub write : MessageSendPacket → F.Buffer → Outcome (F.Buffer × Bool)
  unfolding write_message
  write p b = write_message p.message b
