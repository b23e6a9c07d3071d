-- ===== src/Packet/Codecs/Session.antt =====
-- Common/Packet/Game/SessionPacket.h and SessionPacketCodec.h.
use windows_iocp_udp.Prelude.{ℕ, ◌+◌, ◌<◌, refl, inr, [], ◌++◌, arith}
use windows_iocp_udp.Prelude.Words.{u32_mod, u64_mod}
use windows_iocp_udp.Identity.{SessionToken}
use windows_iocp_udp.Packet.PacketType
use windows_iocp_udp.Packet.Reader.{pure, ◌>>=◌, read_uint32, read_uint64, read_int32, read_float}
use windows_iocp_udp.Packet.Writer.{write_uint32, write_uint64, write_int32, write_float}
use windows_iocp_udp.Packet.Wire.{
  Reads, Reads-bind, Reads-last, Reads-pure, Writes-then, Writes-nothing, bytes32, bytes64, lengths,
}
use windows_iocp_udp.Packet.Wire.Fields.{
  read_uint32-Reads, read_uint64-Reads, read_int32-Reads, read_float-Reads, write_uint32-Writes,
  write_uint64-Writes, write_int32-Writes, write_float-Writes,
}
use windows_iocp_udp.Packet.Header.{serialized_packet_header_size}
use windows_iocp_udp.Packet.Codec.{PacketCodec, IsLawful}

pub record JoinRequest : Type 0 where
  pub session_token : SessionToken

abbrev pub join_request_codec : PacketCodec JoinRequest
join_request_codec = record {
  packet_type = PacketType.join_request;
  fixed_wire_size = serialized_packet_header_size + 8 + 8;
  get_serialized_size = λ packet. serialized_packet_header_size + 8 + 8;
  write_payload =
      λ w packet. write_uint64 (write_uint64 w packet.session_token.high) packet.session_token.low;
  read_payload = do
    high ← read_uint64
    low ← read_uint64
    pure (record { session_token = record { high = high; low = low } });
}

pub join_request_codec-IsLawful :
    IsLawful join_request_codec
      (λ p. (p.session_token.high < u64_mod) × (p.session_token.low < u64_mod))
      (λ p. bytes64 p.session_token.high ++ bytes64 p.session_token.low)
join_request_codec-IsLawful = record {
  type_fits = omega arith;
  writes = λ a v.
      Writes-then (λ w. write_uint64 w a.session_token.high)
        (λ w. write_uint64 w a.session_token.low) _ _ (write_uint64-Writes a.session_token.high)
        (write_uint64-Writes a.session_token.low);
  reads = λ a v.
      Reads-bind read_uint64 _ (bytes64 a.session_token.high) (bytes64 a.session_token.low)
        a.session_token.high a (read_uint64-Reads a.session_token.high v.0)
        (Reads-last read_uint64 _ (bytes64 a.session_token.low) a.session_token.low a
          (read_uint64-Reads a.session_token.low v.1) refl);
  sizes = λ a v. grind lengths;
  fixed = λ a. inr refl;
}

pub record JoinResponse : Type 0 where
  pub player_id : ℕ
  pub room_id : ℕ
  pub spawn_x : ℕ
  pub spawn_y : ℕ

abbrev pub join_response_codec : PacketCodec JoinResponse
join_response_codec = record {
  packet_type = PacketType.join_response;
  fixed_wire_size = serialized_packet_header_size + 4 + 4 + 4 + 4;
  get_serialized_size = λ packet. serialized_packet_header_size + 4 + 4 + 4 + 4;
  write_payload = λ w packet.
      write_float
        (write_float (write_int32 (write_uint32 w packet.player_id) packet.room_id) packet.spawn_x)
        packet.spawn_y;
  read_payload = do
    player_id ← read_uint32
    room_id ← read_int32
    spawn_x ← read_float
    spawn_y ← read_float
    pure
        (record { player_id = player_id; room_id = room_id; spawn_x = spawn_x; spawn_y = spawn_y });
}

pub join_response_codec-IsLawful :
    IsLawful join_response_codec
      (λ p.
        (p.player_id < u32_mod)
        × (p.room_id < u32_mod)
        × (p.spawn_x < u32_mod)
        × (p.spawn_y < u32_mod))
      (λ p. bytes32 p.player_id ++ (bytes32 p.room_id ++ (bytes32 p.spawn_x ++ bytes32 p.spawn_y)))
join_response_codec-IsLawful = record {
  type_fits = omega arith;
  writes = λ a v.
      Writes-then (λ w. write_uint32 w a.player_id)
        (λ w. write_float (write_float (write_int32 w a.room_id) a.spawn_x) a.spawn_y) _ _
        (write_uint32-Writes a.player_id)
        (Writes-then (λ w. write_int32 w a.room_id)
          (λ w. write_float (write_float w a.spawn_x) a.spawn_y) _ _ (write_int32-Writes a.room_id)
          (Writes-then (λ w. write_float w a.spawn_x) (λ w. write_float w a.spawn_y) _ _
            (write_float-Writes a.spawn_x) (write_float-Writes a.spawn_y)));
  reads = λ a v.
      Reads-bind read_uint32 _ (bytes32 a.player_id)
        (bytes32 a.room_id ++ (bytes32 a.spawn_x ++ bytes32 a.spawn_y)) a.player_id a
        (read_uint32-Reads a.player_id v.0)
        (Reads-bind read_int32 _ (bytes32 a.room_id) (bytes32 a.spawn_x ++ bytes32 a.spawn_y)
          a.room_id a (read_int32-Reads a.room_id v.1)
          (Reads-bind read_float _ (bytes32 a.spawn_x) (bytes32 a.spawn_y) a.spawn_x a
            (read_float-Reads a.spawn_x v.2)
            (Reads-last read_float _ (bytes32 a.spawn_y) a.spawn_y a
              (read_float-Reads a.spawn_y v.3) refl)));
  sizes = λ a v. grind lengths;
  fixed = λ a. inr refl;
}

pub data LeaveRequest : Type 0 where
  leave_request : LeaveRequest

abbrev pub leave_request_codec : PacketCodec LeaveRequest
leave_request_codec = record {
  packet_type = PacketType.leave_request;
  fixed_wire_size = serialized_packet_header_size;
  get_serialized_size = λ packet. serialized_packet_header_size;
  write_payload = λ w packet. w;
  read_payload = pure leave_request;
}

pub leave_request_codec-IsLawful : IsLawful leave_request_codec (λ p. Unit {0}) (λ p. [])
leave_request_codec-IsLawful = record {
  type_fits = omega arith;
  writes = λ a v. Writes-nothing;
  reads = λ a v. elim a as (λ b. Reads (pure leave_request) [] b) [
    | leave_request ↦ Reads-pure leave_request
  ];
  sizes = λ a v. omega arith;
  fixed = λ a. inr refl;
}

pub data LeaveResponse : Type 0 where
  leave_response : LeaveResponse

abbrev pub leave_response_codec : PacketCodec LeaveResponse
leave_response_codec = record {
  packet_type = PacketType.leave_response;
  fixed_wire_size = serialized_packet_header_size;
  get_serialized_size = λ packet. serialized_packet_header_size;
  write_payload = λ w packet. w;
  read_payload = pure leave_response;
}

pub leave_response_codec-IsLawful : IsLawful leave_response_codec (λ p. Unit {0}) (λ p. [])
leave_response_codec-IsLawful = record {
  type_fits = omega arith;
  writes = λ a v. Writes-nothing;
  reads = λ a v. elim a as (λ b. Reads (pure leave_response) [] b) [
    | leave_response ↦ Reads-pure leave_response
  ];
  sizes = λ a v. omega arith;
  fixed = λ a. inr refl;
}
