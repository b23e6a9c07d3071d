-- ===== src/Packet/Codecs.antt =====
-- The packet types with their codecs.
pub mod Session
pub mod Command
pub mod Room
pub mod Control
pub mod Account
