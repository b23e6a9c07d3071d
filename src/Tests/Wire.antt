-- ===== src/Tests/Wire.antt =====
-- The laws of the packet formats on single packets.
use windows_iocp_udp.Prelude.{ℕ, ◌≡◌, ◌≤◌, refl, List, [], ◌∷◌, length, some, arith}
use windows_iocp_udp.Packet.PacketType.{is_reliable_packet_type}
use windows_iocp_udp.Packet.Reader.{read_uint8, read_uint16}
use windows_iocp_udp.Packet.Writer.{write_uint8, write_uint16, write_uint32}
use windows_iocp_udp.Packet.Header.{
  PacketHeader, deserialize_packet_header, make_packet_header_version, is_reliable_packet_header,
  is_authenticated_packet_header, get_packet_header_protocol_version, write_packet_header,
  read_packet_header, max_serialized_packet_size,
}
use windows_iocp_udp.Packet.Codec.{
  serialize_packet, deserialize_packet, packet_bytes, plain_header, serialize_packet_lem,
  deserialize-serialize,
}
use windows_iocp_udp.Packet.Codecs.Account.{
  AccountLoginRequest, account_login_request_codec, account_login_request_codec-IsLawful,
}
use windows_iocp_udp.Reliable.PacketBuilder.{
  ReliableUdpPacketHeader, ReliableUdpPacketView, build_reliable_udp_packet,
  parse_reliable_udp_packet, build_game_packet_from_view, wrap_game_packet,
  write_reliable_udp_packet_header,
}
use windows_iocp_udp.Reliable.PacketBuilder.RoundTrip.{wrap_round_trip}

abbrev room_header : PacketHeader
room_header = record { size = 10; type = 6; version = 5 }

abbrev room_packet : List ℕ
room_packet = 10 ∷ 0 ∷ 6 ∷ 0 ∷ 5 ∷ 0 ∷ 1 ∷ 0 ∷ 0 ∷ 0 ∷ []

room_packet_read : deserialize_packet_header room_packet ≡ some room_header
unfolding deserialize_packet_header read_packet_header read_uint16 read_uint8
room_packet_read = refl

abbrev login : AccountLoginRequest
login = record { request_id = 7; login_name = 97 ∷ 98 ∷ []; password_hash = 99 ∷ [] }

login_serialized :
    serialize_packet account_login_request_codec login
    ≡ some (packet_bytes account_login_request_codec-IsLawful login)
login_serialized = serialize_packet_lem account_login_request_codec-IsLawful login (ground arith)

deserialize-serialize_example :
    deserialize_packet account_login_request_codec
      (packet_bytes account_login_request_codec-IsLawful login)
    ≡ some (
      plain_header account_login_request_codec-IsLawful
          (length (packet_bytes account_login_request_codec-IsLawful login)),
      login,
    )
deserialize-serialize_example =
    deserialize-serialize account_login_request_codec-IsLawful login (ground arith) login_serialized

abbrev numbers : ReliableUdpPacketHeader
numbers = record { sequence = 7; ack_sequence = 5; ack_bitfield = 3 }

abbrev wrapped_packet : List ℕ
wrapped_packet =
    22 ∷ 0 ∷ 6 ∷ 0 ∷ 5 ∷ 128 ∷ 7 ∷ 0 ∷ 0 ∷ 0 ∷ 5 ∷ 0 ∷ 0 ∷ 0 ∷ 3 ∷ 0 ∷ 0 ∷ 0 ∷ 1 ∷ 0 ∷ 0 ∷ 0 ∷ []

room_packet_wraps : build_reliable_udp_packet numbers room_packet ≡ some wrapped_packet
unfolding build_reliable_udp_packet deserialize_packet_header read_packet_header read_uint16
    read_uint8 wrap_game_packet is_reliable_packet_header is_authenticated_packet_header
    get_packet_header_protocol_version is_reliable_packet_type write_packet_header
    write_reliable_udp_packet_header write_uint32 write_uint16 write_uint8
    make_packet_header_version
room_packet_wraps = refl

wrap_round_trip_example :
    (v : ReliableUdpPacketView) × (parse_reliable_udp_packet wrapped_packet ≡ some v)
    × (v.reliable_header ≡ numbers)
    × (build_game_packet_from_view v ≡ some room_packet)
    × (length wrapped_packet ≤ max_serialized_packet_size)
wrap_round_trip_example =
    wrap_round_trip numbers room_packet wrapped_packet (ground arith) (ground arith)
      room_packet_wraps
