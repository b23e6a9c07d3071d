-- ===== src/Packet/Codecs/Command.antt =====
-- Common/Packet/Game/CommandPacket.h and CommandPacketCodec.h. Input flags are one byte, and any value is
-- read.
use windows_iocp_udp.Prelude.{ℕ, ◌+◌, ◌<◌, ◌^◌, refl, inr, [], ◌∷◌, ◌++◌, arith}
use windows_iocp_udp.Prelude.Words.{u32_mod}
use windows_iocp_udp.Packet.PacketType
use windows_iocp_udp.Packet.Reader.{pure, ◌>>=◌, read_uint8, read_uint32}
use windows_iocp_udp.Packet.Writer.{write_uint8, write_uint32}
use windows_iocp_udp.Packet.Wire.{
  Reads, Reads-bind, Reads-last, Reads-pure, Writes-then, Writes-nothing, bytes32, read_uint8-Reads,
  lengths,
}
use windows_iocp_udp.Packet.Wire.Fields.{read_uint32-Reads, write_uint8-Writes, write_uint32-Writes}
use windows_iocp_udp.Packet.Header.{serialized_packet_header_size}
use windows_iocp_udp.Packet.Codec.{PacketCodec, IsLawful}

pub record InputCommand : Type 0 where
  pub input_sequence : ℕ
  pub input_flags : ℕ

abbrev pub input_command_codec : PacketCodec InputCommand
input_command_codec = record {
  packet_type = PacketType.input_command;
  fixed_wire_size = serialized_packet_header_size + 4 + 1;
  get_serialized_size = λ packet. serialized_packet_header_size + 4 + 1;
  write_payload = λ w packet. write_uint8 (write_uint32 w packet.input_sequence) packet.input_flags;
  read_payload = do
    input_sequence ← read_uint32
    input_flags ← read_uint8
    pure (record { input_sequence = input_sequence; input_flags = input_flags });
}

pub input_command_codec-IsLawful :
    IsLawful input_command_codec
      (λ p. (p.input_sequence < u32_mod) × (p.input_flags < 2 ^ 8))
      (λ p. bytes32 p.input_sequence ++ (p.input_flags ∷ []))
input_command_codec-IsLawful = record {
  type_fits = omega arith;
  writes = λ a v.
      Writes-then (λ w. write_uint32 w a.input_sequence) (λ w. write_uint8 w a.input_flags) _ _
        (write_uint32-Writes a.input_sequence) (write_uint8-Writes a.input_flags v.1);
  reads = λ a v.
      Reads-bind read_uint32 _ (bytes32 a.input_sequence) ((a.input_flags ∷ [])) a.input_sequence a
        (read_uint32-Reads a.input_sequence v.0)
        (Reads-last read_uint8 _ (a.input_flags ∷ []) a.input_flags a
          (read_uint8-Reads a.input_flags) refl);
  sizes = λ a v. grind lengths;
  fixed = λ a. inr refl;
}

pub data FireRequest : Type 0 where
  fire_request : FireRequest

abbrev pub fire_request_codec : PacketCodec FireRequest
fire_request_codec = record {
  packet_type = PacketType.fire_request;
  fixed_wire_size = serialized_packet_header_size;
  get_serialized_size = λ packet. serialized_packet_header_size;
  write_payload = λ w packet. w;
  read_payload = pure fire_request;
}

pub fire_request_codec-IsLawful : IsLawful fire_request_codec (λ p. Unit {0}) (λ p. [])
fire_request_codec-IsLawful = record {
  type_fits = omega arith;
  writes = λ a v. Writes-nothing;
  reads = λ a v. elim a as (λ b. Reads (pure fire_request) [] b) [
    | fire_request ↦ Reads-pure fire_request
  ];
  sizes = λ a v. omega arith;
  fixed = λ a. inr refl;
}
