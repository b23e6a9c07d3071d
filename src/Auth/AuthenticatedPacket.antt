-- ===== src/Auth/AuthenticatedPacket.antt =====
-- Common/Net/Auth/AuthenticatedUdpPacket.h and .cpp, PacketAuthentication.h, PacketAuthenticator.h and .cpp:
-- packets with a sequence number and a tag behind them. `BCryptHash` of Windows, with the HMAC of SHA-256,
-- is the parameter `hash`: from the key and the data to a tag, or to none when it fails.
pub mod Tags
pub mod RoundTrip
pub mod Sealing
pub mod Acceptance
use Prim.Native.Nat.{bit_xor}
use windows_iocp_udp.Prelude.{
  ℕ, ◌+◌, ◌-◌, ◌/◌, ◌%◌, ◌^◌, Bool, true, false, not, ◌||◌, ltb, ◌==◌, if◌then◌else◌, bit_or, List,
  [], ◌∷◌, ◌++◌, length, take, drop, Option, none, some,
}
use windows_iocp_udp.Prelude.Words.{u16_mod, u32_mod}
use windows_iocp_udp.Identity.{SessionToken, is_valid_session_token}
use windows_iocp_udp.Packet.PacketType
use windows_iocp_udp.Packet.Reader.{PacketReader, open_packet, read_uint32, is_complete}
use windows_iocp_udp.Packet.Writer.{new_writer, write_uint32}
use windows_iocp_udp.Packet.Header.{
  PacketHeader, serialized_packet_header_size, max_serialized_packet_size, protocol_version,
  write_packet_header, deserialize_packet_header, is_reliable_packet_header,
  is_authenticated_packet_header, get_packet_header_protocol_version,
}

abbrev pub packet_authentication_tag_size : ℕ
packet_authentication_tag_size = 32

abbrev pub packet_authentication_sequence_wire_size : ℕ
packet_authentication_sequence_wire_size = 4

abbrev pub authenticated_udp_packet_trailer_wire_size : ℕ
authenticated_udp_packet_trailer_wire_size =
    packet_authentication_sequence_wire_size + packet_authentication_tag_size

pub record PacketAuthentication : Type 0 where
  pub sequence : ℕ
  pub tag : List ℕ

pub record AuthenticatedUdpPacketView : Type 0 where
  pub packet_header : PacketHeader
  pub authentication : PacketAuthentication
  pub packet_data : List ℕ

-- `WriteUInt64LittleEndian` into eight bytes.
abbrev pub little_endian64 : ℕ → List ℕ
little_endian64 value =
    value % 2 ^ 8
    ∷ value / 2 ^ 8 % 2 ^ 8
    ∷ value / 2 ^ 16 % 2 ^ 8
    ∷ value / 2 ^ 24 % 2 ^ 8
    ∷ value / 2 ^ 32 % 2 ^ 8
    ∷ value / 2 ^ 40 % 2 ^ 8
    ∷ value / 2 ^ 48 % 2 ^ 8
    ∷ value / 2 ^ 56 % 2 ^ 8
    ∷ []

unfoldable pub build_session_token_key : SessionToken → List ℕ
build_session_token_key token = little_endian64 token.high ++ little_endian64 token.low

-- The loop of `VerifyPacketAuthenticationTag`, on tags of one length.
unfoldable pub difference_loop : ℕ → List ℕ → List ℕ → ℕ
difference_loop difference [] tag = difference
difference_loop difference (e ∷ es) [] = difference
difference_loop difference (e ∷ es) (t ∷ ts) =
    difference_loop (bit_or difference (bit_xor e t % 2 ^ 8)) es ts

-- The checks on the header in `BuildAuthenticatedUdpPacket`.
unfoldable pub is_authenticable_header : PacketHeader → ℕ → Bool
is_authenticable_header h packet_size = not (
    not (h.size == packet_size)
    || not (get_packet_header_protocol_version h == protocol_version)
    || is_authenticated_packet_header h)

-- The bytes in front of the tag.
unfoldable pub authenticated_data : PacketHeader → ℕ → List ℕ → List ℕ
authenticated_data h sequence packet =
    let size = length packet + authenticated_udp_packet_trailer_wire_size in
    let header =
      write_packet_header new_writer (size % u16_mod) h.type (is_reliable_packet_header h) true in
    header.buffer
    ++ (drop serialized_packet_header_size packet ++ (write_uint32 new_writer sequence).buffer)

abbrev pub append_tag : ℕ → List ℕ → Option (List ℕ) → Option (List ℕ)
append_tag size covered none = none
append_tag size covered (some tag) =
    if not (length (covered ++ tag) == size) then none else some (covered ++ tag)

module _ (hash : List ℕ → List ℕ → Option (List ℕ)) where
  unfoldable pub compute_packet_authentication_tag : SessionToken → List ℕ → Option (List ℕ)
  compute_packet_authentication_tag token covered =
      if not (is_valid_session_token token)
      then none
      else if ltb (u32_mod - 1) (length covered)
      then none
      else hash (build_session_token_key token) covered

  abbrev same_tag : List ℕ → Option (List ℕ) → Bool
  same_tag tag none = false
  same_tag tag (some expected) = difference_loop 0 expected tag == 0

  unfoldable pub verify_packet_authentication_tag : SessionToken → List ℕ → List ℕ → Bool
  verify_packet_authentication_tag token covered tag =
      same_tag tag (compute_packet_authentication_tag token covered)

  unfoldable pub build_authenticated_udp_packet : SessionToken → ℕ → List ℕ → Option (List ℕ)
  build_authenticated_udp_packet token sequence packet =
      let size = length packet + authenticated_udp_packet_trailer_wire_size in
      elim (deserialize_packet_header packet) [
        | none ↦ none
        | some h ↦
            if not (is_authenticable_header h (length packet))
            then none
            else if ltb max_serialized_packet_size size || ltb 65535 size
            then none
            else let covered = authenticated_data h sequence packet in
              append_tag size covered (compute_packet_authentication_tag token covered)
      ]

  unfoldable pub verify_authenticated_udp_packet : SessionToken → AuthenticatedUdpPacketView → Bool
  verify_authenticated_udp_packet token v =
      if ltb (length v.packet_data) authenticated_udp_packet_trailer_wire_size
      then false
      else verify_packet_authentication_tag token
          (take (length v.packet_data - packet_authentication_tag_size) v.packet_data)
          v.authentication.tag

abbrev sequence_of : Option ℕ × PacketReader → Option ℕ
sequence_of (none, r) = none
sequence_of (some sequence, r) = if not (is_complete r) then none else some sequence

unfoldable pub is_authenticated_header : PacketHeader → ℕ → Bool
is_authenticated_header h packet_size = not (
    not (h.size == packet_size)
    || not (get_packet_header_protocol_version h == protocol_version)
    || not (is_authenticated_packet_header h))

-- `ParseAuthenticatedUdpPacket` behind the checks on the header.
unfoldable pub parse_trailer : List ℕ → PacketHeader → Option AuthenticatedUdpPacketView
parse_trailer packet h =
    let tag_offset = length packet - packet_authentication_tag_size in
    let sequence_offset = tag_offset - packet_authentication_sequence_wire_size in
    let sequence_bytes =
      take packet_authentication_sequence_wire_size (drop sequence_offset packet) in
    elim (sequence_of (read_uint32 (open_packet sequence_bytes))) [
      | none ↦ none
      | some sequence ↦ some (record {
        packet_header = h;
        authentication = record {
          sequence = sequence;
          tag = take packet_authentication_tag_size (drop tag_offset packet);
        };
        packet_data = packet;
      })
    ]

unfoldable pub parse_authenticated_udp_packet : List ℕ → Option AuthenticatedUdpPacketView
parse_authenticated_udp_packet packet =
    if ltb (length packet)
      (serialized_packet_header_size + authenticated_udp_packet_trailer_wire_size)
    then none
    else elim (deserialize_packet_header packet) [
      | none ↦ none
      | some h ↦
          if not (is_authenticated_header h (length packet)) then none else parse_trailer packet h
    ]

unfoldable pub build_unauthenticated_udp_packet : AuthenticatedUdpPacketView → Option (List ℕ)
build_unauthenticated_udp_packet v =
    let size = length v.packet_data - authenticated_udp_packet_trailer_wire_size in
    let header =
      write_packet_header new_writer (size % u16_mod) v.packet_header.type
        (is_reliable_packet_header v.packet_header) false in
    let packet = header.buffer ++ drop serialized_packet_header_size (take size v.packet_data) in
    if not (is_authenticated_packet_header v.packet_header)
    then none
    else if not (length v.packet_data == v.packet_header.size)
    then none
    else if ltb (length v.packet_data)
        (serialized_packet_header_size + authenticated_udp_packet_trailer_wire_size)
    then none
    else if not (length packet == size)
    then none
    else some packet

unfoldable pub requires_client_packet_authentication : ℕ → Bool
requires_client_packet_authentication packet_type =
    not (packet_type == PacketType.account_login_request || packet_type == PacketType.join_request)
