-- ===== src/Packet/Codecs/Room.antt =====
-- Common/Packet/Game/RoomPacket.h and RoomPacketCodec.h.
use windows_iocp_udp.Prelude.{ℕ, ◌+◌, ◌<◌, refl, inr, ◌++◌, arith}
use windows_iocp_udp.Prelude.Words.{u32_mod}
use windows_iocp_udp.Packet.PacketType
use windows_iocp_udp.Packet.Reader.{pure, ◌>>=◌, read_uint32, read_int32, read_float}
use windows_iocp_udp.Packet.Writer.{write_uint32, write_int32, write_float}
use windows_iocp_udp.Packet.Wire.{Reads-bind, Reads-last, Writes-then, bytes32, lengths}
use windows_iocp_udp.Packet.Wire.Fields.{
  read_uint32-Reads, read_int32-Reads, read_float-Reads, write_uint32-Writes, write_int32-Writes,
  write_float-Writes,
}
use windows_iocp_udp.Packet.Header.{serialized_packet_header_size}
use windows_iocp_udp.Packet.Codec.{PacketCodec, IsLawful}

pub record JoinRoomRequest : Type 0 where
  pub room_id : ℕ

abbrev pub join_room_request_codec : PacketCodec JoinRoomRequest
join_room_request_codec = record {
  packet_type = PacketType.join_room_request;
  fixed_wire_size = serialized_packet_header_size + 4;
  get_serialized_size = λ packet. serialized_packet_header_size + 4;
  write_payload = λ w packet. write_int32 w packet.room_id;
  read_payload = do
    room_id ← read_int32
    pure (record { room_id = room_id });
}

pub join_room_request_codec-IsLawful :
    IsLawful join_room_request_codec (λ p. (p.room_id < u32_mod)) (λ p. bytes32 p.room_id)
join_room_request_codec-IsLawful = record {
  type_fits = omega arith;
  writes = λ a v. write_int32-Writes a.room_id;
  reads = λ a v.
      Reads-last read_int32 _ (bytes32 a.room_id) a.room_id a (read_int32-Reads a.room_id v) refl;
  sizes = λ a v. grind lengths;
  fixed = λ a. inr refl;
}

pub record JoinRoomResponse : Type 0 where
  pub room_id : ℕ
  pub spawn_x : ℕ
  pub spawn_y : ℕ

abbrev pub join_room_response_codec : PacketCodec JoinRoomResponse
join_room_response_codec = record {
  packet_type = PacketType.join_room_response;
  fixed_wire_size = serialized_packet_header_size + 4 + 4 + 4;
  get_serialized_size = λ packet. serialized_packet_header_size + 4 + 4 + 4;
  write_payload = λ w packet.
      write_float (write_float (write_int32 w packet.room_id) packet.spawn_x) packet.spawn_y;
  read_payload = do
    room_id ← read_int32
    spawn_x ← read_float
    spawn_y ← read_float
    pure (record { room_id = room_id; spawn_x = spawn_x; spawn_y = spawn_y });
}

pub join_room_response_codec-IsLawful :
    IsLawful join_room_response_codec
      (λ p. (p.room_id < u32_mod) × (p.spawn_x < u32_mod) × (p.spawn_y < u32_mod))
      (λ p. bytes32 p.room_id ++ (bytes32 p.spawn_x ++ bytes32 p.spawn_y))
join_room_response_codec-IsLawful = record {
  type_fits = omega arith;
  writes = λ a v.
      Writes-then (λ w. write_int32 w a.room_id)
        (λ w. write_float (write_float w a.spawn_x) a.spawn_y) _ _ (write_int32-Writes a.room_id)
        (Writes-then (λ w. write_float w a.spawn_x) (λ w. write_float w a.spawn_y) _ _
          (write_float-Writes a.spawn_x) (write_float-Writes a.spawn_y));
  reads = λ a v.
      Reads-bind read_int32 _ (bytes32 a.room_id) (bytes32 a.spawn_x ++ bytes32 a.spawn_y) a.room_id
        a (read_int32-Reads a.room_id v.0)
        (Reads-bind read_float _ (bytes32 a.spawn_x) (bytes32 a.spawn_y) a.spawn_x a
          (read_float-Reads a.spawn_x v.1)
          (Reads-last read_float _ (bytes32 a.spawn_y) a.spawn_y a (read_float-Reads a.spawn_y v.2)
            refl));
  sizes = λ a v. grind lengths;
  fixed = λ a. inr refl;
}

pub record PlayerJoined : Type 0 where
  pub player_id : ℕ
  pub room_id : ℕ
  pub x : ℕ
  pub y : ℕ

abbrev pub player_joined_codec : PacketCodec PlayerJoined
player_joined_codec = record {
  packet_type = PacketType.player_joined;
  fixed_wire_size = serialized_packet_header_size + 4 + 4 + 4 + 4;
  get_serialized_size = λ packet. serialized_packet_header_size + 4 + 4 + 4 + 4;
  write_payload = λ w packet.
      write_float
        (write_float (write_int32 (write_uint32 w packet.player_id) packet.room_id) packet.x)
        packet.y;
  read_payload = do
    player_id ← read_uint32
    room_id ← read_int32
    x ← read_float
    y ← read_float
    pure (record { player_id = player_id; room_id = room_id; x = x; y = y });
}

pub player_joined_codec-IsLawful :
    IsLawful player_joined_codec
      (λ p. (p.player_id < u32_mod) × (p.room_id < u32_mod) × (p.x < u32_mod) × (p.y < u32_mod))
      (λ p. bytes32 p.player_id ++ (bytes32 p.room_id ++ (bytes32 p.x ++ bytes32 p.y)))
player_joined_codec-IsLawful = record {
  type_fits = omega arith;
  writes = λ a v.
      Writes-then (λ w. write_uint32 w a.player_id)
        (λ w. write_float (write_float (write_int32 w a.room_id) a.x) a.y) _ _
        (write_uint32-Writes a.player_id)
        (Writes-then (λ w. write_int32 w a.room_id) (λ w. write_float (write_float w a.x) a.y) _ _
          (write_int32-Writes a.room_id)
          (Writes-then (λ w. write_float w a.x) (λ w. write_float w a.y) _ _
            (write_float-Writes a.x) (write_float-Writes a.y)));
  reads = λ a v.
      Reads-bind read_uint32 _ (bytes32 a.player_id)
        (bytes32 a.room_id ++ (bytes32 a.x ++ bytes32 a.y)) a.player_id a
        (read_uint32-Reads a.player_id v.0)
        (Reads-bind read_int32 _ (bytes32 a.room_id) (bytes32 a.x ++ bytes32 a.y) a.room_id a
          (read_int32-Reads a.room_id v.1)
          (Reads-bind read_float _ (bytes32 a.x) (bytes32 a.y) a.x a (read_float-Reads a.x v.2)
            (Reads-last read_float _ (bytes32 a.y) a.y a (read_float-Reads a.y v.3) refl)));
  sizes = λ a v. grind lengths;
  fixed = λ a. inr refl;
}

pub record PlayerLeft : Type 0 where
  pub player_id : ℕ
  pub room_id : ℕ

abbrev pub player_left_codec : PacketCodec PlayerLeft
player_left_codec = record {
  packet_type = PacketType.player_left;
  fixed_wire_size = serialized_packet_header_size + 4 + 4;
  get_serialized_size = λ packet. serialized_packet_header_size + 4 + 4;
  write_payload = λ w packet. write_int32 (write_uint32 w packet.player_id) packet.room_id;
  read_payload = do
    player_id ← read_uint32
    room_id ← read_int32
    pure (record { player_id = player_id; room_id = room_id });
}

pub player_left_codec-IsLawful :
    IsLawful player_left_codec
      (λ p. (p.player_id < u32_mod) × (p.room_id < u32_mod))
      (λ p. bytes32 p.player_id ++ bytes32 p.room_id)
player_left_codec-IsLawful = record {
  type_fits = omega arith;
  writes = λ a v.
      Writes-then (λ w. write_uint32 w a.player_id) (λ w. write_int32 w a.room_id) _ _
        (write_uint32-Writes a.player_id) (write_int32-Writes a.room_id);
  reads = λ a v.
      Reads-bind read_uint32 _ (bytes32 a.player_id) (bytes32 a.room_id) a.player_id a
        (read_uint32-Reads a.player_id v.0)
        (Reads-last read_int32 _ (bytes32 a.room_id) a.room_id a (read_int32-Reads a.room_id v.1)
          refl);
  sizes = λ a v. grind lengths;
  fixed = λ a. inr refl;
}
