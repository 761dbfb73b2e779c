-- ===== src/Network.antt =====
-- shared/include/Network/CNetwork.cpp: the handler lists and the update loop of the server.
pub mod LifeCycle
pub mod Closing
pub mod Handlers
pub mod Update
pub mod Admission
pub mod Reach
