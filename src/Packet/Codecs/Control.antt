-- ===== src/Packet/Codecs/Control.antt =====
-- Common/Packet/Control/ControlPacket.h and ControlPacketCodec.h.
use windows_iocp_udp.Prelude.{ℕ, ◌+◌, ◌<◌, refl, inr, [], ◌∷◌, arith, leb, not, ◌==◌, ◌||◌}
use windows_iocp_udp.Packet.PacketType
use windows_iocp_udp.Packet.Reader.{pure, guard, ◌>>=◌, ◌>>◌, read_uint8}
use windows_iocp_udp.Packet.Writer.{write_uint8}
use windows_iocp_udp.Packet.Wire.{
  Reads, Reads-bind, Reads-pure, Reads-guard, Writes-nothing, read_uint8-Reads, lengths,
}
use windows_iocp_udp.Packet.Wire.Fields.{write_uint8-Writes}
use windows_iocp_udp.Packet.Header.{serialized_packet_header_size}
use windows_iocp_udp.Packet.Codec.{PacketCodec, IsLawful}

pub data KeepAlive : Type 0 where
  keep_alive : KeepAlive

abbrev pub keep_alive_codec : PacketCodec KeepAlive
keep_alive_codec = record {
  packet_type = PacketType.keep_alive;
  fixed_wire_size = serialized_packet_header_size;
  get_serialized_size = λ packet. serialized_packet_header_size;
  write_payload = λ w packet. w;
  read_payload = pure keep_alive;
}

pub keep_alive_codec-IsLawful : IsLawful keep_alive_codec (λ p. Unit {0}) (λ p. [])
keep_alive_codec-IsLawful = record {
  type_fits = omega arith;
  writes = λ a v. Writes-nothing;
  reads =
      λ a v. elim a as (λ b. Reads (pure keep_alive) [] b) [ keep_alive ↦ Reads-pure keep_alive ];
  sizes = λ a v. omega arith;
  fixed = λ a. inr refl;
}

-- `ServerDisconnectReason::Count`.
abbrev pub server_disconnect_reason_count : ℕ
server_disconnect_reason_count = 2

-- A reason is its wire value: 0 for none, 1 for kicked.
pub record ServerDisconnect : Type 0 where
  pub reason : ℕ

abbrev pub server_disconnect_codec : PacketCodec ServerDisconnect
server_disconnect_codec = record {
  packet_type = PacketType.server_disconnect;
  fixed_wire_size = serialized_packet_header_size + 1;
  get_serialized_size = λ packet. serialized_packet_header_size + 1;
  write_payload = λ w packet. write_uint8 w packet.reason;
  read_payload = do
    raw_reason ← read_uint8
    guard (not (raw_reason == 0 || leb server_disconnect_reason_count raw_reason))
    pure (record { reason = raw_reason });
}

-- The two directions of the codec of a disconnect notice agree on every reason but none: what is written
-- is the one byte of the reason, and it reads back.
pub server_disconnect_codec-IsLawful :
    IsLawful server_disconnect_codec
      (λ p. (0 < p.reason) × (p.reason < server_disconnect_reason_count))
      (λ p. (p.reason ∷ []))
server_disconnect_codec-IsLawful = record {
  type_fits = omega arith;
  writes = λ a v. write_uint8-Writes a.reason (omega arith);
  reads = λ a v.
      Reads-bind read_uint8 _ (a.reason ∷ []) [] a.reason a (read_uint8-Reads a.reason)
        (Reads-guard _ (pure a) [] a (ground arith) (Reads-pure a));
  sizes = λ a v. grind lengths;
  fixed = λ a. inr refl;
}
