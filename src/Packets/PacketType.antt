-- ===== src/Packets/PacketType.antt =====
-- The values of `ePacketType` (shared/include/Network/Packets.h). On the wire a packet type is any
-- 32-bit word, so a type is a number here.
use poco_echo.Base.{ℕ, ◌+◌}

abbrev pub kick : ℕ
kick = 0x0F

abbrev pub accept : ℕ
accept = kick + 1

abbrev pub message : ℕ
message = accept + 1
