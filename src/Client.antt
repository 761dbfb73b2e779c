-- ===== src/Client.antt =====
-- client/src: the options, the console actions, the packets sent and received.
pub mod Connect
pub mod Console
pub mod Events
pub mod Start
pub mod Program
pub mod System
pub mod Option
pub mod Action
pub mod Receive
pub mod Packet
