-- ===== src/Tests.antt =====
-- Concrete runs of client and server, and the theorems at concrete inputs.
mod Programs
mod Heaps
mod Conversations
mod Clients
mod Systems
mod Events
mod Consoles
mod Sessions
mod Users
mod Worlds
mod Handshakes
mod Received
mod Starts
mod Data
mod Access
mod Packets
mod Lists
