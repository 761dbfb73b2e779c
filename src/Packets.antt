-- ===== src/Packets.antt =====
-- shared/include/Network/Packets.h: the constants of the protocol; the packet types are a child.
pub mod PacketType
use poco_echo.Base.{ℕ}

abbrev pub max_buffer_length : ℕ
max_buffer_length = 1024

abbrev pub default_server_port : ℕ
default_server_port = 28220

-- Used nowhere, but promised by the usage text of `COption`.
abbrev pub default_client_port : ℕ
default_client_port = 28210

-- `sizeof(ePacketType)` and `sizeof(int)`
abbrev pub word_size : ℕ
word_size = 4
