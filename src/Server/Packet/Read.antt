-- ===== src/Server/Packet/Read.antt =====
-- `CMessagePacket::Read` (server/src/packets/CMessagePacket.cpp).
use poco_echo.Base.{
  Bool, true, false, some, Outcome, done, catch_poco, ◌>>=◌, signed32, size_of_int, overlay,
}
use poco_echo.Poco.{Fifo, Memory, new_array, read_word}
use poco_echo.Server.Packet.{MessagePacket}

module _ (F : Fifo) (m : Memory) where
  -- The body of the `try` block. `new` never returns null, so its `assert` holds.
  unfoldable pub read_fields : MessagePacket → F.Buffer → Outcome (MessagePacket × F.Buffer × Bool)
  read_fields p b = do
    let (length, b₁) = read_word F m b
    block ← new_array m (signed32 length)
    let (bs, b₂) = F.read b₁ (size_of_int length)
    done (record p { message = some (overlay block bs) }, b₂, true)

  unfoldable pub read : MessagePacket → F.Buffer → Outcome (MessagePacket × F.Buffer × Bool)
  read p b = catch_poco (read_fields p b) (done (p, b, false))
