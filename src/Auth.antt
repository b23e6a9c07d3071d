-- ===== src/Auth.antt =====
-- Common/Net/Auth: authentication of packets and the guard against replays.
pub mod ReplayGuard
pub mod AuthenticatedPacket
