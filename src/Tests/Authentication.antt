-- ===== src/Tests/Authentication.antt =====
-- Concrete runs of AuthenticatedUdpPacket.cpp, with a hash of the covered bytes' number.
use mathlib.Core.Path.{subst}
use windows_iocp_udp.Prelude.{
  ap, sym, ℕ, ◌≡◌, ◌<◌, ◌+◌, ◌%◌, ◌^◌, refl, true, List, [], ◌∷◌, length, take, Option, some, arith,
}
use windows_iocp_udp.Identity.{SessionToken, is_valid_session_token}
use windows_iocp_udp.Packet.Header.{
  PacketHeader, Bytes, deserialize_packet_header, is_reliable_packet_header,
  make_packet_header_version, header_bytes, read_packet_header, get_packet_header_protocol_version,
  is_authenticated_packet_header,
}
use windows_iocp_udp.Packet.Reader.{read_uint32, read_uint16, read_uint8, is_complete}
use windows_iocp_udp.Packet.Writer.{write_uint16, write_uint8}
use windows_iocp_udp.Packet.Header.{write_packet_header}
use windows_iocp_udp.Packet.Wire.{bytes16, bytes32}
use windows_iocp_udp.Auth.AuthenticatedPacket.{
  AuthenticatedUdpPacketView, build_session_token_key, build_authenticated_udp_packet,
  parse_authenticated_udp_packet, verify_authenticated_udp_packet, build_unauthenticated_udp_packet,
  is_authenticable_header, parse_trailer, is_authenticated_header, verify_packet_authentication_tag,
  compute_packet_authentication_tag, difference_loop,
}
use windows_iocp_udp.Auth.AuthenticatedPacket.RoundTrip.{covered_bytes}
use windows_iocp_udp.Auth.AuthenticatedPacket.Sealing.{sealed_packet_opens}
use windows_iocp_udp.Auth.AuthenticatedPacket.Acceptance.{accepted_packet_is_sealed}

abbrev eight : ℕ → List ℕ → List ℕ
eight b bs = b ∷ b ∷ b ∷ b ∷ b ∷ b ∷ b ∷ b ∷ bs

abbrev pub length_hash : List ℕ → List ℕ → Option (List ℕ)
length_hash key covered =
    let b = length covered % 2 ^ 8 in some (eight b (eight b (eight b (eight b []))))

abbrev pub secret : SessionToken
secret = record { high = 1; low = 2 }

secret-valid : is_valid_session_token secret ≡ true
unfolding is_valid_session_token
secret-valid = refl

abbrev leave_header : PacketHeader
leave_header = record { size = 8; type = 8; version = 5 }

abbrev pub leave_packet : List ℕ
leave_packet = 8 ∷ 0 ∷ 8 ∷ 0 ∷ 5 ∷ 0 ∷ 77 ∷ 78 ∷ []

leave_packet_read : deserialize_packet_header leave_packet ≡ some leave_header
unfolding deserialize_packet_header read_packet_header read_uint16 read_uint8
leave_packet_read = refl

leave_plain : is_authenticable_header leave_header 8 ≡ true
unfolding is_authenticable_header get_packet_header_protocol_version is_authenticated_packet_header
leave_plain = refl

abbrev pub leave_tag : List ℕ
leave_tag = eight 12 (eight 12 (eight 12 (eight 12 [])))

abbrev pub leave_sealed : List ℕ
leave_sealed = 44 ∷ 0 ∷ 8 ∷ 0 ∷ 5 ∷ 64 ∷ 77 ∷ 78 ∷ 9 ∷ 0 ∷ 0 ∷ 0 ∷ leave_tag

leave_hashed :
    length_hash (build_session_token_key secret) (covered_bytes leave_header 9 leave_packet)
    ≡ some leave_tag
unfolding is_reliable_packet_header make_packet_header_version header_bytes bytes16 bytes32
leave_hashed = refl

sealed_packet_opens_example :
    (sealed : List ℕ) × (view : AuthenticatedUdpPacketView) × (build_authenticated_udp_packet
        length_hash secret 9 leave_packet
      ≡ some sealed)
    × (length sealed ≡ length leave_packet + 36)
    × (parse_authenticated_udp_packet sealed ≡ some view)
    × (view.authentication.sequence ≡ 9)
    × (verify_authenticated_udp_packet length_hash secret view ≡ true)
    × (build_unauthenticated_udp_packet view ≡ some leave_packet)
sealed_packet_opens_example =
    sealed_packet_opens length_hash secret secret-valid leave_header 9 leave_packet leave_tag
      (omega arith) leave_packet_read leave_plain (omega arith) (omega arith) leave_hashed refl

eight-Bytes : (b : ℕ) (bs : List ℕ) → b < 2 ^ 8 → Bytes bs → Bytes (eight b bs)
eight-Bytes b bs small rest =
    (small, (small, (small, (small, (small, (small, (small, (small, rest))))))))

pub length_hash-Bytes :
    (key covered tag : List ℕ) → length_hash key covered ≡ some tag → Bytes tag × (length tag ≡ 32)
length_hash-Bytes key covered tag e =
    let b = length covered % 2 ^ 8 in
    let small : b < 2 ^ 8 = omega arith in
    let answer : eight b (eight b (eight b (eight b []))) ≡ tag = ground arith in
    (
      subst Bytes answer (
          eight-Bytes b (eight b (eight b (eight b []))) small (
            eight-Bytes b (eight b (eight b [])) small
              (eight-Bytes b (eight b []) small (eight-Bytes b [] small tt)))),
      ap length (sym answer),
    )

abbrev pub leave_view : AuthenticatedUdpPacketView
leave_view = record {
  packet_header = record { size = 44; type = 8; version = 16389 };
  authentication = record { sequence = 9; tag = leave_tag };
  packet_data = leave_sealed;
}

pub leave_parsed : parse_authenticated_udp_packet leave_sealed ≡ some leave_view
unfolding parse_authenticated_udp_packet parse_trailer is_authenticated_header
    deserialize_packet_header read_packet_header read_uint32 read_uint16 read_uint8 is_complete
    get_packet_header_protocol_version is_authenticated_packet_header
leave_parsed = refl

pub leave_verified : verify_authenticated_udp_packet length_hash secret leave_view ≡ true
unfolding verify_authenticated_udp_packet verify_packet_authentication_tag
    compute_packet_authentication_tag is_valid_session_token difference_loop
leave_verified = refl

pub leave_unwrapped : build_unauthenticated_udp_packet leave_view ≡ some leave_packet
unfolding build_unauthenticated_udp_packet write_packet_header write_uint16 write_uint8
    is_reliable_packet_header is_authenticated_packet_header make_packet_header_version
leave_unwrapped = refl

accepted_packet_is_sealed_example :
    (is_valid_session_token secret ≡ true)
    × (length_hash (build_session_token_key secret) (take 12 leave_sealed) ≡ some leave_tag)
accepted_packet_is_sealed_example =
    accepted_packet_is_sealed length_hash length_hash-Bytes secret leave_sealed leave_view
      (omega arith) leave_parsed leave_verified
