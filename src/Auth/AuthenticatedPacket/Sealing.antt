-- ===== src/Auth/AuthenticatedPacket/Sealing.antt =====
-- What AuthenticatedUdpPacket.cpp builds, its own receiver accepts and takes apart; and what it accepts.
use windows_iocp_udp.Prelude.{
  ℕ, ◌+◌, ◌-◌, ◌%◌, ◌<◌, ◌≤◌, ◌≡◌, refl, ap, sym, ◌∙◌, Bool, true, false, List, ◌++◌, length,
  length-append, take, drop, drop_front, take_front, Option, some, arith,
}
use windows_iocp_udp.Prelude.Words.{u16_mod, u32_mod}
use windows_iocp_udp.Identity.{SessionToken, is_valid_session_token}
use windows_iocp_udp.Packet.Writer.{new_writer}
use windows_iocp_udp.Packet.Wire.{bytes32}
use windows_iocp_udp.Packet.Header.{
  PacketHeader, Bytes, FitsWire, made_header, made_header_flags, header_bytes, length-header_bytes,
  header_bytes-deserialize, protocol_version, write_packet_header-Writes, write_packet_header,
  deserialize_packet_header, is_reliable_packet_header, is_authenticated_packet_header,
  get_packet_header_protocol_version,
}
use windows_iocp_udp.Auth.AuthenticatedPacket.{
  AuthenticatedUdpPacketView, build_session_token_key, compute_packet_authentication_tag,
  verify_packet_authentication_tag, is_authenticable_header, build_authenticated_udp_packet,
  verify_authenticated_udp_packet, parse_authenticated_udp_packet, build_unauthenticated_udp_packet,
}
use windows_iocp_udp.Packet.Header.{header_bytes-deserialize}
use windows_iocp_udp.Auth.AuthenticatedPacket.Tags.{difference_self}
use windows_iocp_udp.Auth.AuthenticatedPacket.RoundTrip.{
  made_header_lem, authenticated_data_lem, length-covered_bytes, covered_bytes, sealed_split,
  length-sealed_front, sealed_view, sealed_header, sealed-length, parse-sealed,
}

authenticable_facts :
    (h : PacketHeader) (size : ℕ)
    → is_authenticable_header h size ≡ true
    → (h.size ≡ size)
      × (get_packet_header_protocol_version h ≡ protocol_version)
      × (is_authenticated_packet_header h ≡ false)
unfolding is_authenticable_header
authenticable_facts h size e = ground arith

module _ (h : PacketHeader) (packet : List ℕ) (bytes : Bytes packet)
    (opens : deserialize_packet_header packet ≡ some h)
    (plain : is_authenticable_header h (length packet) ≡ true) where
  header_long : 6 ≤ length packet
  header_long =
      let whole = (header_bytes-deserialize packet h bytes opens).0 in
      omega (
        arith,
        ap length whole,
        length-append (header_bytes h) (drop 6 packet),
        length-header_bytes h,
      )

  header_rebuilt : made_header (length packet) h.type (is_reliable_packet_header h) false ≡ h
  header_rebuilt =
      let (size, version, flag) = authenticable_facts h (length packet) plain in
      let fits = (header_bytes-deserialize packet h bytes opens).1 in
      ap (λ (n : ℕ). made_header n h.type (is_reliable_packet_header h) false) (sym size)
      ∙ sym (made_header_lem h fits flag version)

  -- The bytes that the receiver puts together are the packet that was sealed.
  body_restored :
      (sequence : ℕ) (tag : List ℕ)
      → (write_packet_header new_writer
            (length packet)
            h.type
            (is_reliable_packet_header h)
            false).buffer
          ++ drop 6 (take (length packet) (covered_bytes h sequence packet ++ tag))
        ≡ packet
  body_restored sequence tag =
      let front = header_bytes (sealed_header h (length packet)) in
      let header =
        ap (λ w. w.buffer)
          (write_packet_header-Writes (length packet) h.type (is_reliable_packet_header h) false
            new_writer)
        ∙ ap header_bytes header_rebuilt in
      let cut =
        ap (take (length packet)) (sealed_split h sequence packet tag)
        ∙ take_front (length packet) (front ++ drop 6 packet) (bytes32 sequence ++ tag)
            (length-sealed_front h packet header_long) in
      let body =
        ap (drop 6) cut
        ∙ drop_front 6 front (drop 6 packet)
            (length-header_bytes (sealed_header h (length packet))) in
      ap (λ xs. xs ++ drop 6 (take (length packet) (covered_bytes h sequence packet ++ tag))) header
      ∙ ap (λ ys. header_bytes h ++ ys) body
      ∙ (header_bytes-deserialize packet h bytes opens).0

unauthenticated_lem :
    (v : AuthenticatedUdpPacketView) (packet : List ℕ) (reliable : Bool)
    → is_authenticated_packet_header v.packet_header ≡ true
    → length v.packet_data ≡ length packet + 36
    → length v.packet_data ≡ v.packet_header.size
    → 6 ≤ length packet
    → length packet < u16_mod
    → is_reliable_packet_header v.packet_header ≡ reliable
    → (write_packet_header new_writer (length packet) v.packet_header.type reliable false).buffer
        ++ drop 6 (take (length packet) v.packet_data)
      ≡ packet
    → build_unauthenticated_udp_packet v ≡ some packet
unfolding build_unauthenticated_udp_packet
unauthenticated_lem v packet reliable flag size header long small is_reliable restored =
    let cut : length v.packet_data - 36 ≡ length packet = omega arith in
    let kept : (length v.packet_data - 36) % u16_mod ≡ length packet = omega arith in
    rw (kept, is_reliable, cut, restored, flag) (ground arith)

module _ (hash : List ℕ → List ℕ → Option (List ℕ)) (token : SessionToken)
    (valid : is_valid_session_token token ≡ true) where
  verify_lem :
      (v : AuthenticatedUdpPacketView) (covered : List ℕ)
      → 36 ≤ length v.packet_data
      → take (length v.packet_data - 32) v.packet_data ≡ covered
      → verify_authenticated_udp_packet hash token v
        ≡ verify_packet_authentication_tag hash token covered v.authentication.tag
  unfolding verify_authenticated_udp_packet
  verify_lem v covered long cut = ground (arith, cut)

  compute_tag :
      (covered tag : List ℕ)
      → length covered < u32_mod
      → hash (build_session_token_key token) covered ≡ some tag
      → compute_packet_authentication_tag hash token covered ≡ some tag
  unfolding compute_packet_authentication_tag
  compute_tag covered tag small run = ground (arith, run)

  verify_tag :
      (covered tag : List ℕ)
      → length covered < u32_mod
      → hash (build_session_token_key token) covered ≡ some tag
      → verify_packet_authentication_tag hash token covered tag ≡ true
  unfolding verify_packet_authentication_tag
  verify_tag covered tag small run =
      ground (arith, compute_tag covered tag small run, difference_self tag)

  module _ (h : PacketHeader) (sequence : ℕ) (packet tag : List ℕ) (bytes : Bytes packet)
      (opens : deserialize_packet_header packet ≡ some h)
      (plain : is_authenticable_header h (length packet) ≡ true) (fit : length packet + 36 ≤ 1200)
      (word : sequence < u32_mod)
      (run : hash (build_session_token_key token) (covered_bytes h sequence packet) ≡ some tag)
      (tag_size : length tag ≡ 32) where
    long : 6 ≤ length packet
    long = header_long h packet bytes opens plain

    fits : FitsWire h
    fits = (header_bytes-deserialize packet h bytes opens).1

    total : length (covered_bytes h sequence packet ++ tag) ≡ length packet + 36
    total = sealed-length h sequence packet tag long (omega arith) fits.1 word tag_size

    build-sealed :
        build_authenticated_udp_packet hash token sequence packet
        ≡ some (covered_bytes h sequence packet ++ tag)
    unfolding build_authenticated_udp_packet
    build-sealed =
        let assembled = authenticated_data_lem h sequence packet (omega arith) in
        let signed =
          compute_tag (covered_bytes h sequence packet) tag
            (omega (arith, length-covered_bytes h sequence packet long)) run in
        ground (arith, assembled, signed, total)

    verify-sealed :
        verify_authenticated_udp_packet hash token (sealed_view h sequence packet tag) ≡ true
    verify-sealed =
        let covered = covered_bytes h sequence packet in
        let cut : take (length (covered ++ tag) - 32) (covered ++ tag) ≡ covered =
          take_front (length (covered ++ tag) - 32) covered tag
            (omega (arith, total, length-covered_bytes h sequence packet long)) in
        verify_lem (sealed_view h sequence packet tag) covered (omega (arith, total)) cut
        ∙ verify_tag covered tag (omega (arith, length-covered_bytes h sequence packet long)) run

    build_unauthenticated-sealed :
        build_unauthenticated_udp_packet (sealed_view h sequence packet tag) ≡ some packet
    build_unauthenticated-sealed =
        unauthenticated_lem (sealed_view h sequence packet tag) packet (is_reliable_packet_header h)
          (made_header_flags (length packet + 36) h.type (is_reliable_packet_header h) true).1 total
          total long (omega arith)
          (made_header_flags (length packet + 36) h.type (is_reliable_packet_header h) true).0
          (body_restored h packet bytes opens plain sequence tag)

    -- A packet that can be authenticated is built, with the sequence number and the tag in 36 bytes behind
    -- it; the result parses, with that sequence number; its tag verifies; and the receiver gets back the packet
    -- that went in. The token is valid; the header is that of an unauthenticated packet of this version and
    -- of the packet's size, which is 1200 bytes at most with the 36; the packet consists of bytes and the
    -- number is below 2 ^ 32; and the hash yields 32 bytes for the bytes that it covers.
    pub sealed_packet_opens :
        (sealed : List ℕ) × (view : AuthenticatedUdpPacketView) × (build_authenticated_udp_packet
            hash token sequence packet
          ≡ some sealed)
        × (length sealed ≡ length packet + 36)
        × (parse_authenticated_udp_packet sealed ≡ some view)
        × (view.authentication.sequence ≡ sequence)
        × (verify_authenticated_udp_packet hash token view ≡ true)
        × (build_unauthenticated_udp_packet view ≡ some packet)
    sealed_packet_opens = (
      covered_bytes h sequence packet ++ tag,
      sealed_view h sequence packet tag,
      build-sealed,
      total,
      parse-sealed h sequence packet tag long (omega arith) fits.1 word tag_size,
      refl,
      verify-sealed,
      build_unauthenticated-sealed,
    )
