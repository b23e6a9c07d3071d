-- ===== src/Reliable/PacketBuilder/RoundTrip.antt =====
-- Wrapping a game packet for reliable delivery and taking it out again: ReliableUdpPacketBuilder.h.
use windows_iocp_udp.Prelude.{
  ℕ, ◌+◌, ◌%◌, ◌<◌, ◌≤◌, ◌≡◌, refl, ap, sym, ◌∙◌, true, false, ◌==◌, List, ◌++◌, length,
  length-append, drop, length-drop, some, arith, Option-cases, inl, inr,
}
use windows_iocp_udp.Prelude.Words.{u16_mod}
use windows_iocp_udp.Packet.PacketType
use windows_iocp_udp.Packet.PacketType.{
  is_reliable_packet_type, is_packet_transport_reliability_valid,
}
use windows_iocp_udp.Packet.Writer.{new_writer}
use windows_iocp_udp.Packet.Header.{
  PacketHeader, Bytes, made_header, header_bytes, length-header_bytes, plain_header_lem,
  header_bytes-deserialize, serialized_packet_header_size, max_serialized_packet_size,
  protocol_version, write_packet_header-Writes, write_packet_header, deserialize_packet_header,
  is_reliable_packet_header, is_authenticated_packet_header, get_packet_header_protocol_version,
}
use windows_iocp_udp.Reliable.PacketBuilder.{
  ReliableUdpPacketHeader, ReliableUdpPacketView, wrap_game_packet, build_reliable_udp_packet,
  parse_reliable_udp_packet, build_game_packet_from_view,
}
use windows_iocp_udp.Reliable.PacketBuilder.Wrapping.{
  WordsFit, length-wrapped, wrap_game_packet_lem, parse-wrapped,
}

transport_valid :
    (type : ℕ)
    → is_reliable_packet_type type ≡ true
    → (is_packet_transport_reliability_valid type true ≡ true) × ((type == PacketType.none) ≡ false)
unfolding is_packet_transport_reliability_valid is_reliable_packet_type
transport_valid type e = ground arith

abbrev view_of : ℕ → ReliableUdpPacketHeader → List ℕ → ReliableUdpPacketView
view_of type rh payload = record {
  packet_header = made_header (18 + length payload) type true false;
  reliable_header = rh;
  payload = payload;
}

-- The game packet that is built from a parsed view.
build_game_packet-view_of :
    (type : ℕ) (rh : ReliableUdpPacketHeader) (payload : List ℕ)
    → is_reliable_packet_type type ≡ true
    → 6 + length payload ≤ max_serialized_packet_size
    → build_game_packet_from_view (view_of type rh payload)
      ≡ some (header_bytes (made_header (6 + length payload) type false false) ++ payload)
unfolding build_game_packet_from_view
build_game_packet-view_of type rh payload e h =
    let n = 6 + length payload in
    let front = made_header n type false false in
    let fits : n % u16_mod ≡ n = omega arith in
    let out =
      ap (λ (t : ℕ). write_packet_header new_writer t type false false) fits
      ∙ write_packet_header-Writes n type false false new_writer in
    ground (arith, out, length-append (header_bytes front) payload, length-header_bytes front)

-- A game packet that the tests accept is its plain header and its payload.
plain_packet :
    (game_packet : List ℕ) (h : PacketHeader)
    → Bytes game_packet
    → deserialize_packet_header game_packet ≡ some h
    → is_reliable_packet_header h ≡ false
    → is_authenticated_packet_header h ≡ false
    → get_packet_header_protocol_version h ≡ protocol_version
    → (header_bytes (made_header h.size h.type false false)
          ++ drop serialized_packet_header_size game_packet
        ≡ game_packet)
      × (h.type < u16_mod)
plain_packet game_packet h b e r a m =
    let (front, fits) = header_bytes-deserialize game_packet h b e in
    (
      ap (λ g. header_bytes g ++ drop serialized_packet_header_size game_packet)
            (sym (plain_header_lem h fits r a m))
          ∙ front,
      fits.1,
    )

unwrap :
    (rh : ReliableUdpPacketHeader) (game_packet packet : List ℕ) (h : PacketHeader)
    → WordsFit rh
    → Bytes game_packet
    → serialized_packet_header_size ≤ length game_packet
    → deserialize_packet_header game_packet ≡ some h
    → wrap_game_packet rh game_packet h ≡ some packet
    → let v = view_of h.type rh (drop serialized_packet_header_size game_packet) in
      (parse_reliable_udp_packet packet ≡ some v)
      × (build_game_packet_from_view v ≡ some game_packet)
      × (length packet ≤ max_serialized_packet_size)
unwrap rh game_packet packet h fits b long e w =
    let payload = drop serialized_packet_header_size game_packet in
    let (made, r, a, m, t, size, small) = wrap_game_packet_lem rh game_packet h packet long w in
    let (whole, ht) = plain_packet game_packet h b e r a m in
    let valid = transport_valid h.type t in
    let left : 6 + length payload ≡ length game_packet =
      omega (arith, length-drop serialized_packet_header_size game_packet) in
    ground (
      arith,
      parse-wrapped h.type rh payload ht fits (omega arith) valid.0,
      build_game_packet-view_of h.type rh payload t (omega arith),
      length-wrapped h.type rh payload,
      left,
      whole,
      valid,
    )

-- Any byte list that is accepted as a reliable game packet can be taken out of its wrapping: the wrapped
-- packet is at most 1200 bytes long, it parses into the same reliable header, and the game packet built
-- from the parsed view is the original, byte for byte.
pub wrap_round_trip :
    (rh : ReliableUdpPacketHeader) (game_packet packet : List ℕ)
    → WordsFit rh
    → Bytes game_packet
    → build_reliable_udp_packet rh game_packet ≡ some packet
    → (v : ReliableUdpPacketView) × (parse_reliable_udp_packet packet ≡ some v)
      × (v.reliable_header ≡ rh)
      × (build_game_packet_from_view v ≡ some game_packet)
      × (length packet ≤ max_serialized_packet_size)
unfolding build_reliable_udp_packet
wrap_round_trip rh game_packet packet fits b e =
    elim (Option-cases (deserialize_packet_header game_packet)) [
      | inl bad ↦ ground arith
      | inr (h, read) ↦
          let (parsed, rebuilt, small) =
            unwrap rh game_packet packet h fits b (ground arith) read (ground arith) in
          (
            view_of h.type rh (drop serialized_packet_header_size game_packet),
            parsed,
            refl,
            rebuilt,
            small,
          )
    ]
