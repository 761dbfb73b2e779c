-- ===== src/Server/Packet.antt =====
-- server/src/packets: the packet classes as data.
pub mod Read
pub mod Write
use poco_echo.Base.{ℕ, Bytes, Option, none}
use poco_echo.Poco.{Socket}
use poco_echo.Packets.PacketType

-- `CMessagePacket` with the socket of its base class `CPacket`. A message is the block that
-- `m_szMessage` points to.
pub record MessagePacket : Type 0 where
  pub socket : Option Socket
  pub message : Option Bytes

-- `CMessageSendPacket`
pub record MessageSendPacket : Type 0 where
  pub socket : Option Socket
  pub message : Option Bytes

-- A `CPacket*` points to one of its two subclasses.
pub data Packet : Type 0 where
  message_packet : MessagePacket → Packet
  message_send_packet : MessageSendPacket → Packet

-- The constructor `CPacket()`.
abbrev pub new_socket : Option Socket
new_socket = none

-- The constructor `CMessagePacket()`.
abbrev pub new_message_packet : MessagePacket
new_message_packet = record { socket = new_socket; message = none }

-- The virtual `GetPacketType`.
abbrev pub get_packet_type : Packet → ℕ
get_packet_type (message_packet p) = PacketType.message
get_packet_type (message_send_packet p) = PacketType.message
