-- ===== src/Server.antt =====
-- server/src: the packets, their translation and processing.
pub mod Console
pub mod Control
pub mod Grants
pub mod Sessions
pub mod System
pub mod Events
pub mod Start
pub mod Program
pub mod Packet
pub mod Translator
pub mod Echo
pub mod Answer
pub mod Callbacks
pub mod Access
pub mod Handled
pub mod Leak
pub mod Malformed
pub mod Respond
