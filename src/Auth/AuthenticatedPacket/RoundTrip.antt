-- ===== src/Auth/AuthenticatedPacket/RoundTrip.antt =====
-- The bytes of the packets that AuthenticatedUdpPacket.cpp builds, and what they parse into.
use mathlib.Core.List.{append-nil, append_assoc}
use windows_iocp_udp.Prelude.{
  ℕ, ◌+◌, ◌-◌, ◌%◌, ◌<◌, ◌≤◌, ◌≡◌, ap, sym, ◌∙◌, Bool, true, false, not, ◌==◌, bit_and, List, [],
  ◌++◌, length, length-append, take, drop, drop_front, take_front, length-drop, some, arith,
}
use windows_iocp_udp.Prelude.Words.{u16_mod, u32_mod}
use windows_iocp_udp.Prelude.Bits.{bit_and-pow, bit_and_mask, test_bit-div}
use windows_iocp_udp.Packet.Reader.{open_packet, read_uint32, is_complete}
use windows_iocp_udp.Packet.Writer.{new_writer, write_uint32}
use windows_iocp_udp.Packet.Wire.{bytes32, length-bytes32}
use windows_iocp_udp.Packet.Wire.Fields.{read_uint32-Reads, write_uint32-Writes}
use windows_iocp_udp.Packet.Header.{
  PacketHeader, FitsWire, made_header, made_header_flags, header_bytes, length-header_bytes,
  version-lt, protocol_version, packet_header_reliable_flag, packet_header_authenticated_flag,
  packet_header_version_mask, write_packet_header-Writes, read_packet_header-Reads,
  write_packet_header, deserialize_packet_header, make_packet_header_version,
  is_reliable_packet_header, is_authenticated_packet_header, get_packet_header_protocol_version,
}
use windows_iocp_udp.Auth.AuthenticatedPacket.{
  AuthenticatedUdpPacketView, authenticated_data, sequence_of, is_authenticated_header,
  parse_trailer, parse_authenticated_udp_packet,
}

-- A version with the protocol's number and no authentication flag is one that the code makes.
made_version :
    (v : ℕ) (reliable : Bool)
    → v < u16_mod
    → (bit_and v packet_header_reliable_flag == 0) ≡ not reliable
    → (bit_and v packet_header_authenticated_flag == 0) ≡ true
    → bit_and v packet_header_version_mask ≡ protocol_version
    → v ≡ make_packet_header_version reliable false
unfolding make_packet_header_version
made_version v true h r a m = ground (
  arith,
  bit_and-pow v 15,
  bit_and-pow v 14,
  test_bit-div v 15,
  test_bit-div v 14,
  bit_and_mask 14 v,
)
made_version v false h r a m = ground (
  arith,
  bit_and-pow v 15,
  bit_and-pow v 14,
  test_bit-div v 15,
  test_bit-div v 14,
  bit_and_mask 14 v,
)

pub made_header_lem :
    (h : PacketHeader)
    → FitsWire h
    → is_authenticated_packet_header h ≡ false
    → get_packet_header_protocol_version h ≡ protocol_version
    → h ≡ made_header h.size h.type (is_reliable_packet_header h) false
unfolding is_reliable_packet_header is_authenticated_packet_header
    get_packet_header_protocol_version
made_header_lem h fits a m =
    let e =
      made_version h.version (is_reliable_packet_header h) fits.2 (ground arith) (ground arith) m in
    ap (λ v. record { size = h.size; type = h.type; version = v }) e

deserialize_front :
    (h : PacketHeader) (rest : List ℕ)
    → FitsWire h
    → deserialize_packet_header (header_bytes h ++ rest) ≡ some h
unfolding deserialize_packet_header
deserialize_front h rest fits =
    let run = ap (λ r. r.0) (read_packet_header-Reads h fits [] rest) in
    ground (arith, run, length-append (header_bytes h) rest, length-header_bytes h)

-- The bytes in front of the tag, and the header of a sealed packet.
abbrev pub sealed_header : PacketHeader → ℕ → PacketHeader
sealed_header h size = made_header (size + 36) h.type (is_reliable_packet_header h) true

abbrev pub covered_bytes : PacketHeader → ℕ → List ℕ → List ℕ
covered_bytes h sequence packet =
    header_bytes (sealed_header h (length packet)) ++ (drop 6 packet ++ bytes32 sequence)

pub authenticated_data_lem :
    (h : PacketHeader) (sequence : ℕ) (packet : List ℕ)
    → length packet + 36 < u16_mod
    → authenticated_data h sequence packet ≡ covered_bytes h sequence packet
unfolding authenticated_data
authenticated_data_lem h sequence packet small =
    let size : (length packet + 36) % u16_mod ≡ length packet + 36 = omega arith in
    let header =
      ap (λ w. w.buffer)
        (write_packet_header-Writes (length packet + 36) h.type (is_reliable_packet_header h) true
          new_writer) in
    let trailer = ap (λ w. w.buffer) (write_uint32-Writes sequence new_writer) in
    ap
      (λ (n : ℕ).
        (write_packet_header new_writer n h.type (is_reliable_packet_header h) true).buffer
        ++ (drop 6 packet ++ (write_uint32 new_writer sequence).buffer))
      size
    ∙ ap (λ xs. xs ++ (drop 6 packet ++ (write_uint32 new_writer sequence).buffer)) header
    ∙ ap (λ xs. header_bytes (sealed_header h (length packet)) ++ (drop 6 packet ++ xs)) trailer

pub length-covered_bytes :
    (h : PacketHeader) (sequence : ℕ) (packet : List ℕ)
    → 6 ≤ length packet
    → length (covered_bytes h sequence packet) ≡ length packet + 4
length-covered_bytes h sequence packet long = omega (
  arith,
  length-append (header_bytes (sealed_header h (length packet)))
      (drop 6 packet ++ bytes32 sequence),
  length-append (drop 6 packet) (bytes32 sequence),
  length-header_bytes (sealed_header h (length packet)),
  length-bytes32 sequence,
  length-drop 6 packet,
)

-- What a sealed packet parses into.
abbrev pub sealed_view : PacketHeader → ℕ → List ℕ → List ℕ → AuthenticatedUdpPacketView
sealed_view h sequence packet tag = record {
  packet_header = sealed_header h (length packet);
  authentication = record { sequence = sequence; tag = tag };
  packet_data = covered_bytes h sequence packet ++ tag;
}

read_sequence :
    (sequence : ℕ)
    → sequence < u32_mod
    → sequence_of (read_uint32 (open_packet (bytes32 sequence))) ≡ some sequence
unfolding is_complete
read_sequence sequence small =
    let run = read_uint32-Reads sequence small [] [] in
    let plain = rw (append-nil (bytes32 sequence)) at run in ap sequence_of plain ∙ ground arith

-- The trailer of a packet, from the two offsets.
parse_trailer_lem :
    (packet : List ℕ) (h : PacketHeader) (sequence at_tag at_sequence : ℕ)
    → length packet - 32 ≡ at_tag
    → at_tag - 4 ≡ at_sequence
    → sequence_of (read_uint32 (open_packet (take 4 (drop at_sequence packet)))) ≡ some sequence
    → parse_trailer packet h
      ≡ some (record {
        packet_header = h;
        authentication = record { sequence = sequence; tag = take 32 (drop at_tag packet) };
        packet_data = packet;
      })
unfolding parse_trailer
parse_trailer_lem packet h sequence at_tag at_sequence tag_is sequence_is run =
    ground (arith, tag_is, sequence_is, run)

-- A sealed packet: the header and the body, then the number and the tag.
pub sealed_split :
    (h : PacketHeader) (sequence : ℕ) (packet tag : List ℕ)
    → covered_bytes h sequence packet ++ tag
      ≡ (header_bytes (sealed_header h (length packet)) ++ drop 6 packet)
        ++ (bytes32 sequence ++ tag)
sealed_split h sequence packet tag =
    let header = header_bytes (sealed_header h (length packet)) in
    ground (
      arith,
      append_assoc header (drop 6 packet) (bytes32 sequence),
      append_assoc (header ++ drop 6 packet) (bytes32 sequence) tag,
    )

pub length-sealed_front :
    (h : PacketHeader) (packet : List ℕ)
    → 6 ≤ length packet
    → length (header_bytes (sealed_header h (length packet)) ++ drop 6 packet) ≡ length packet
length-sealed_front h packet long = omega (
  arith,
  length-append (header_bytes (sealed_header h (length packet))) (drop 6 packet),
  length-header_bytes (sealed_header h (length packet)),
  length-drop 6 packet,
)

module _ (h : PacketHeader) (sequence : ℕ) (packet tag : List ℕ) (long : 6 ≤ length packet)
    (fit : length packet + 36 < u16_mod) (type_fits : h.type < u16_mod) (word : sequence < u32_mod)
    (tag_size : length tag ≡ 32) where
  pub sealed-length : length (covered_bytes h sequence packet ++ tag) ≡ length packet + 36
  sealed-length = omega (
    arith,
    length-append (covered_bytes h sequence packet) tag,
    length-covered_bytes h sequence packet long,
    tag_size,
  )

  parse_trailer-sealed :
      parse_trailer (covered_bytes h sequence packet ++ tag) (sealed_header h (length packet))
      ≡ some (sealed_view h sequence packet tag)
  parse_trailer-sealed =
      let bytes = covered_bytes h sequence packet ++ tag in
      let front = header_bytes (sealed_header h (length packet)) ++ drop 6 packet in
      let tag_at : length bytes - 32 ≡ length packet + 4 = omega (arith, sealed-length) in
      let seq_at : length packet + 4 - 4 ≡ length packet = omega arith in
      let tag_read : drop (length packet + 4) bytes ≡ tag =
        drop_front (length packet + 4) (covered_bytes h sequence packet) tag
          (length-covered_bytes h sequence packet long) in
      let whole = sealed_split h sequence packet tag in
      let front_length = length-sealed_front h packet long in
      let seq_read : drop (length packet) bytes ≡ bytes32 sequence ++ tag =
        ap (drop (length packet)) whole
        ∙ drop_front (length packet) front (bytes32 sequence ++ tag) front_length in
      let seq_bytes : take 4 (bytes32 sequence ++ tag) ≡ bytes32 sequence =
        take_front 4 (bytes32 sequence) tag (length-bytes32 sequence) in
      let tag_bytes : take 32 tag ≡ tag =
        ap (take 32) (sym (append-nil tag)) ∙ take_front 32 tag [] tag_size in
      let run : sequence_of (read_uint32 (open_packet (take 4 (drop (length packet) bytes))))
          ≡ some sequence =
        ap (λ xs. sequence_of (read_uint32 (open_packet (take 4 xs)))) seq_read
        ∙ ap (λ xs. sequence_of (read_uint32 (open_packet xs))) seq_bytes
        ∙ read_sequence sequence word in
      parse_trailer_lem bytes (sealed_header h (length packet)) sequence (length packet + 4)
        (length packet) tag_at seq_at run
      ∙ ap
          (λ t. some (record {
            packet_header = sealed_header h (length packet);
            authentication = record { sequence = sequence; tag = take 32 t };
            packet_data = bytes;
          }))
          tag_read
      ∙ ap
          (λ t. some (record {
            packet_header = sealed_header h (length packet);
            authentication = record { sequence = sequence; tag = t };
            packet_data = bytes;
          }))
          tag_bytes

  pub parse-sealed :
      parse_authenticated_udp_packet (covered_bytes h sequence packet ++ tag)
      ≡ some (sealed_view h sequence packet tag)
  unfolding parse_authenticated_udp_packet is_authenticated_header
  parse-sealed = ground (
    arith,
    sealed-length,
    append_assoc (header_bytes (sealed_header h (length packet)))
        (drop 6 packet ++ bytes32 sequence) tag,
    deserialize_front (sealed_header h (length packet)) ((drop 6 packet ++ bytes32 sequence) ++ tag)
        (fit, type_fits, version-lt (is_reliable_packet_header h) true),
    made_header_flags (length packet + 36) h.type (is_reliable_packet_header h) true,
    parse_trailer-sealed,
  )
