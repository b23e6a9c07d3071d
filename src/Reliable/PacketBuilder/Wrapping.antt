-- ===== src/Reliable/PacketBuilder/Wrapping.antt =====
-- The bytes of a wrapped packet of Common/Net/Reliable/ReliableUdpPacketBuilder.h, and what is parsed from them.
use mathlib.Core.List.{append_assoc}
use windows_iocp_udp.Prelude.{
  ℕ, ◌+◌, ◌%◌, ◌<◌, ◌≤◌, ◌≡◌, refl, ap, sym, ◌∙◌, true, false, not, ◌&&◌, ◌==◌, List, [], ◌++◌,
  length, length-append, drop, drop_front, length-drop, some, arith,
}
use windows_iocp_udp.Prelude.Words.{u16_mod, u32_mod}
use windows_iocp_udp.Packet.PacketType
use windows_iocp_udp.Packet.PacketType.{
  is_reliable_packet_type, is_packet_transport_reliability_valid,
}
use windows_iocp_udp.Packet.Reader.{read_uint32}
use windows_iocp_udp.Packet.Writer.{new_writer, append_bytes}
use windows_iocp_udp.Packet.Wire.{Reads, Writes, Reads-bind, Reads-last, Writes-then, bytes32}
use windows_iocp_udp.Packet.Wire.Fields.{read_uint32-Reads, write_uint32-Writes}
use windows_iocp_udp.Packet.Header.{
  PacketHeader, made_header, made_header_flags, header_bytes, length-header_bytes, version-lt,
  serialized_packet_header_size, max_serialized_packet_size, protocol_version,
  write_packet_header-Writes, read_packet_header-Reads, write_packet_header,
  is_reliable_packet_header, is_authenticated_packet_header, get_packet_header_protocol_version,
}
use windows_iocp_udp.Reliable.PacketBuilder.{
  ReliableUdpPacketHeader, write_reliable_udp_packet_header, read_reliable_udp_packet_header,
  wrap_game_packet, is_parsable_header, parse_reliable_header, parse_packet_header,
  parse_reliable_udp_packet,
}

abbrev pub WordsFit : ReliableUdpPacketHeader → Type 0
WordsFit h = (h.sequence < u32_mod) × (h.ack_sequence < u32_mod) × (h.ack_bitfield < u32_mod)

unfoldable pub reliable_bytes : ReliableUdpPacketHeader → List ℕ
reliable_bytes h = bytes32 h.sequence ++ (bytes32 h.ack_sequence ++ bytes32 h.ack_bitfield)

length-reliable_bytes : (h : ReliableUdpPacketHeader) → length (reliable_bytes h) ≡ 12
unfolding reliable_bytes bytes32
length-reliable_bytes h = refl

write_reliable-Writes :
    (h : ReliableUdpPacketHeader)
    → Writes (λ w. write_reliable_udp_packet_header w h) (reliable_bytes h)
unfolding write_reliable_udp_packet_header reliable_bytes
write_reliable-Writes h =
    Writes-then _ _ _ _ (write_uint32-Writes h.sequence) (
      Writes-then _ _ _ _ (write_uint32-Writes h.ack_sequence) (write_uint32-Writes h.ack_bitfield))

read_reliable-Reads :
    (h : ReliableUdpPacketHeader)
    → WordsFit h
    → Reads read_reliable_udp_packet_header (reliable_bytes h) h
unfolding read_reliable_udp_packet_header reliable_bytes
read_reliable-Reads h fits =
    Reads-bind read_uint32 _ (bytes32 h.sequence) _ h.sequence h
      (read_uint32-Reads h.sequence fits.0)
      (Reads-bind read_uint32 _ (bytes32 h.ack_sequence) _ h.ack_sequence h
        (read_uint32-Reads h.ack_sequence fits.1)
        (Reads-last read_uint32 _ (bytes32 h.ack_bitfield) h.ack_bitfield h
          (read_uint32-Reads h.ack_bitfield fits.2) refl))

-- A wrapped packet: its header, the reliable header, the payload.
abbrev pub wrapped : ℕ → ReliableUdpPacketHeader → List ℕ → List ℕ
wrapped type rh payload =
    header_bytes (made_header (18 + length payload) type true false)
    ++ (reliable_bytes rh ++ payload)

pub length-wrapped :
    (type : ℕ) (rh : ReliableUdpPacketHeader) (payload : List ℕ)
    → length (wrapped type rh payload) ≡ 18 + length payload
length-wrapped type rh payload = omega (
  arith,
  length-append (header_bytes (made_header (18 + length payload) type true false))
      (reliable_bytes rh ++ payload),
  length-append (reliable_bytes rh) payload,
  length-header_bytes (made_header (18 + length payload) type true false),
  length-reliable_bytes rh,
)

-- What the two writers leave in the buffer.
written :
    (size type : ℕ) (rh : ReliableUdpPacketHeader)
    → size < u16_mod
    → write_reliable_udp_packet_header
        (write_packet_header new_writer (size % u16_mod) type true false)
        rh
      ≡ record {
        buffer = header_bytes (made_header size type true false) ++ reliable_bytes rh;
        is_valid = true;
      }
written size type rh h =
    let e : size % u16_mod ≡ size = omega arith in
    ap
      (λ (t : ℕ).
        write_reliable_udp_packet_header (write_packet_header new_writer t type true false) rh)
      e
    ∙ ap (λ w. write_reliable_udp_packet_header w rh)
        (write_packet_header-Writes size type true false new_writer)
    ∙ write_reliable-Writes rh
        (append_bytes new_writer (header_bytes (made_header size type true false)))

-- What wrapping accepts, and what it makes of it.
pub wrap_game_packet_lem :
    (rh : ReliableUdpPacketHeader) (game_packet : List ℕ) (h : PacketHeader) (packet : List ℕ)
    → serialized_packet_header_size ≤ length game_packet
    → wrap_game_packet rh game_packet h ≡ some packet
    → (packet ≡ wrapped h.type rh (drop serialized_packet_header_size game_packet))
      × (is_reliable_packet_header h ≡ false)
      × (is_authenticated_packet_header h ≡ false)
      × (get_packet_header_protocol_version h ≡ protocol_version)
      × (is_reliable_packet_type h.type ≡ true)
      × (h.size ≡ length game_packet)
      × (length game_packet + 12 ≤ max_serialized_packet_size)
unfolding wrap_game_packet
wrap_game_packet_lem rh game_packet h packet long e =
    let payload = drop serialized_packet_header_size game_packet in
    let front = header_bytes (made_header (18 + length payload) h.type true false) in
    ground (
      arith,
      written (18 + length payload) h.type rh,
      length-wrapped h.type rh payload,
      length-drop serialized_packet_header_size game_packet,
      append_assoc front (reliable_bytes rh) payload,
    )

-- A wrapped packet parses into the parts that it was made of.
pub parse-wrapped :
    (type : ℕ) (rh : ReliableUdpPacketHeader) (payload : List ℕ)
    → type < u16_mod
    → WordsFit rh
    → 18 + length payload < u16_mod
    → is_packet_transport_reliability_valid type true ≡ true
    → not (type == PacketType.none && not (18 + length payload == 18)) ≡ true
    → parse_reliable_udp_packet (wrapped type rh payload)
      ≡ some (record {
        packet_header = made_header (18 + length payload) type true false;
        reliable_header = rh;
        payload = payload;
      })
unfolding parse_reliable_udp_packet parse_packet_header is_parsable_header parse_reliable_header
parse-wrapped type rh payload ht fits hl valid ack =
    let h = made_header (18 + length payload) type true false in
    let hb = header_bytes h in
    ground (
      arith,
      read_packet_header-Reads h (hl, ht, version-lt true false) [] (reliable_bytes rh ++ payload),
      read_reliable-Reads rh fits hb payload,
      length-wrapped type rh payload,
      made_header_flags (18 + length payload) type true false,
      valid,
      behind,
    )
  where
    front : List ℕ
    front = header_bytes (made_header (18 + length payload) type true false)

    behind : drop 18 (wrapped type rh payload) ≡ payload
    behind =
        ap (drop 18) (sym (append_assoc front (reliable_bytes rh) payload))
        ∙ drop_front 18 (front ++ reliable_bytes rh) payload (
            omega (
              arith,
              length-append front (reliable_bytes rh),
              length-header_bytes (made_header (18 + length payload) type true false),
              length-reliable_bytes rh,
            ))
