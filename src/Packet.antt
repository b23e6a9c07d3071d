-- ===== src/Packet.antt =====
-- Common/Packet: the wire format shared by client and server.
pub mod Reader
pub mod Writer
pub mod Wire
pub mod PacketType
pub mod Header
pub mod Codec
pub mod Codecs
