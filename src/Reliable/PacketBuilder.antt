-- ===== src/Reliable/PacketBuilder.antt =====
-- Common/Net/Reliable/ReliableUdpPacketHeader.h, ReliableUdpPacketSerialization.h and
-- ReliableUdpPacketBuilder.h.
pub mod Wrapping
pub mod RoundTrip
use windows_iocp_udp.Prelude.{
  ℕ, ◌+◌, ◌-◌, ◌%◌, Bool, true, false, not, ◌&&◌, ◌||◌, ltb, ◌==◌, if◌then◌else◌, List, ◌++◌,
  length, drop, Option, none, some,
}
use windows_iocp_udp.Prelude.Words.{u16_mod}
use windows_iocp_udp.Packet.PacketType
use windows_iocp_udp.Packet.PacketType.{
  is_reliable_packet_type, is_packet_transport_reliability_valid,
}
use windows_iocp_udp.Packet.Reader.{Reader, PacketReader, pure, ◌>>=◌, read_uint32, open_packet}
use windows_iocp_udp.Packet.Writer.{PacketWriter, new_writer, write_uint32}
use windows_iocp_udp.Packet.Header.{
  PacketHeader, serialized_packet_header_size, max_serialized_packet_size, protocol_version,
  write_packet_header, read_packet_header, deserialize_packet_header, is_reliable_packet_header,
  is_authenticated_packet_header, get_packet_header_protocol_version,
}

abbrev pub reliable_udp_packet_header_wire_size : ℕ
reliable_udp_packet_header_wire_size = 12

abbrev pub reliable_udp_payload_offset : ℕ
reliable_udp_payload_offset = serialized_packet_header_size + reliable_udp_packet_header_wire_size

pub record ReliableUdpPacketHeader : Type 0 where
  pub sequence : ℕ
  pub ack_sequence : ℕ
  pub ack_bitfield : ℕ

unfoldable pub write_reliable_udp_packet_header :
    PacketWriter → ReliableUdpPacketHeader → PacketWriter
write_reliable_udp_packet_header w h =
    write_uint32 (write_uint32 (write_uint32 w h.sequence) h.ack_sequence) h.ack_bitfield

unfoldable pub read_reliable_udp_packet_header : Reader ReliableUdpPacketHeader
read_reliable_udp_packet_header = do
  sequence ← read_uint32
  ack_sequence ← read_uint32
  ack_bitfield ← read_uint32
  pure (record { sequence = sequence; ack_sequence = ack_sequence; ack_bitfield = ack_bitfield })

unfoldable pub deserialize_reliable_udp_packet_header : List ℕ → Option ReliableUdpPacketHeader
deserialize_reliable_udp_packet_header packet =
    if ltb (length packet) reliable_udp_packet_header_wire_size
    then none
    else (read_reliable_udp_packet_header (open_packet packet)).0

-- The payload is a copy of the bytes that the view refers to.
pub record ReliableUdpPacketView : Type 0 where
  pub packet_header : PacketHeader
  pub reliable_header : ReliableUdpPacketHeader
  pub payload : List ℕ

-- `packetBuffer.size() != packetSize`.
abbrev of_size : ℕ → List ℕ → Option (List ℕ)
of_size packet_size buffer = if not (length buffer == packet_size) then none else some buffer

-- The rest of `BuildReliableUdpPacket`, once the header of the game packet is read.
unfoldable pub wrap_game_packet : ReliableUdpPacketHeader → List ℕ → PacketHeader → Option (List ℕ)
wrap_game_packet reliable_header game_packet h =
    let packet_size =
      reliable_udp_payload_offset + (length game_packet - serialized_packet_header_size) in
    if is_reliable_packet_header h || is_authenticated_packet_header h
    then none
    else if not (get_packet_header_protocol_version h == protocol_version)
    then none
    else if not (is_reliable_packet_type h.type)
    then none
    else if not (h.size == length game_packet)
    then none
    else if ltb max_serialized_packet_size packet_size
    then none
    else if ltb 65535 packet_size
    then none
    else let w1 = write_packet_header new_writer (packet_size % u16_mod) h.type true false in
      let w2 = write_reliable_udp_packet_header w1 reliable_header in
      of_size packet_size (w2.buffer ++ drop serialized_packet_header_size game_packet)

unfoldable pub build_reliable_udp_packet : ReliableUdpPacketHeader → List ℕ → Option (List ℕ)
build_reliable_udp_packet reliable_header game_packet =
    if ltb (length game_packet) serialized_packet_header_size
    then none
    else elim (deserialize_packet_header game_packet) [
      | none ↦ none
      | some h ↦ wrap_game_packet reliable_header game_packet h
    ]

unfoldable pub build_reliable_udp_ack_packet : ReliableUdpPacketHeader → Option (List ℕ)
build_reliable_udp_ack_packet reliable_header =
    let packet_size = reliable_udp_payload_offset in
    if ltb max_serialized_packet_size packet_size
    then none
    else if ltb 65535 packet_size
    then none
    else let w1 =
        write_packet_header new_writer (packet_size % u16_mod) PacketType.none true false in
      let w2 = write_reliable_udp_packet_header w1 reliable_header in of_size packet_size w2.buffer

-- The checks on the packet header in `ParseReliableUdpPacket`.
unfoldable pub is_parsable_header : PacketHeader → ℕ → Bool
is_parsable_header h packet_size =
    h.size == packet_size
    && is_reliable_packet_header h
    && get_packet_header_protocol_version h == protocol_version
    && is_packet_transport_reliability_valid h.type true
    && not (h.type == PacketType.none && not (packet_size == reliable_udp_payload_offset))

unfoldable pub parse_reliable_header :
    List ℕ → PacketHeader → PacketReader → Option ReliableUdpPacketView
parse_reliable_header packet h r = elim (read_reliable_udp_packet_header r).0 [
  | none ↦ none
  | some reliable_header ↦ some (record {
    packet_header = h;
    reliable_header = reliable_header;
    payload = drop reliable_udp_payload_offset packet;
  })
]

unfoldable pub parse_packet_header :
    List ℕ → Option PacketHeader × PacketReader → Option ReliableUdpPacketView
parse_packet_header packet (none, r) = none
parse_packet_header packet (some h, r) =
    if not (is_parsable_header h (length packet)) then none else parse_reliable_header packet h r

unfoldable pub parse_reliable_udp_packet : List ℕ → Option ReliableUdpPacketView
parse_reliable_udp_packet packet =
    if ltb (length packet) reliable_udp_payload_offset
    then none
    else parse_packet_header packet (read_packet_header (open_packet packet))

unfoldable pub build_game_packet_from_view : ReliableUdpPacketView → Option (List ℕ)
build_game_packet_from_view v =
    let packet_size = serialized_packet_header_size + length v.payload in
    if not (is_reliable_packet_type v.packet_header.type)
    then none
    else if ltb max_serialized_packet_size packet_size
    then none
    else if ltb 65535 packet_size
    then none
    else let w =
        write_packet_header new_writer (packet_size % u16_mod) v.packet_header.type false false in
      of_size packet_size (w.buffer ++ v.payload)
