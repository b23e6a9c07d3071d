-- ===== src/Reliable.antt =====
-- Common/Net/Reliable: acknowledgement, retransmission and the session of one peer.
pub mod AckTracker
pub mod SendWindow
pub mod PacketBuilder
pub mod Session
