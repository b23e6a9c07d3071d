-- ===== src/Packet/Codec.antt =====
-- Common/Packet/Serialization/PacketCodec.h and the templates of PacketSerializationCore.h: any packet
-- type with a codec, and what a codec must satisfy for the round trip.
use mathlib.Core.List.{append-nil, append_assoc}
use windows_iocp_udp.Prelude.{
  ℕ, ◌+◌, ◌%◌, ◌<◌, ◌≡◌, ◌⊎◌, true, false, not, ◌&&◌, ltb, ◌==◌, if◌then◌else◌, List, [], ◌++◌,
  length, length-append, Option, none, some, arith, ◌∙◌, ap,
}
use windows_iocp_udp.Prelude.Words.{u16_mod}
use windows_iocp_udp.Packet.Reader.{
  Reader, PacketReader, pure, guard, ◌>>=◌, ◌>>◌, open_packet, is_complete,
}
use windows_iocp_udp.Packet.Writer.{PacketWriter, new_writer, append_bytes}
use windows_iocp_udp.Packet.Wire.{Reads, Writes}
use windows_iocp_udp.Packet.Header.{
  PacketHeader, serialized_packet_header_size, max_serialized_packet_size, write_packet_header,
  read_expected_header, header_bytes, length-header_bytes, made_header, made_header_flags,
  version-lt, write_packet_header-Writes, read_packet_header-Reads,
}

-- `PacketCodec<TPacket>`; `A` holds the fields of the packet behind its header.
pub record PacketCodec (A : Type 0) : Type 0 where
  pub packet_type : ℕ
  pub fixed_wire_size : ℕ
  pub get_serialized_size : A → ℕ
  pub write_payload : PacketWriter → A → PacketWriter
  pub read_payload : Reader A

unfoldable pub finish_serialized_packet : PacketWriter → ℕ → Option (List ℕ)
finish_serialized_packet w expected_size =
    if not w.is_valid
    then none
    else if not (length w.buffer == expected_size)
    then none
    else if ltb max_serialized_packet_size (length w.buffer)
    then none
    else if ltb 65535 (length w.buffer)
    then none
    else some w.buffer

module _ {A : Type 0} (c : PacketCodec A) where
  unfoldable pub serialize_packet : A → Option (List ℕ)
  unfolding finish_serialized_packet
  serialize_packet packet =
      let serialized_size = c.get_serialized_size packet in
      if ltb max_serialized_packet_size serialized_size
      then none
      else if ltb 65535 serialized_size
      then none
      else let header =
          write_packet_header new_writer (serialized_size % u16_mod) c.packet_type false false in
        finish_serialized_packet (c.write_payload header packet) serialized_size

  -- The checks behind the first two.
  unfoldable pub read_packet : ℕ → Reader (PacketHeader × A)
  read_packet packet_size = do
    h ← read_expected_header c.packet_type packet_size
    packet ← c.read_payload
    guard (c.get_serialized_size packet == packet_size)
    pure (h, packet)

  -- The last check, on the reader.
  abbrev pub completed : Option (PacketHeader × A) × PacketReader → Option (PacketHeader × A)
  completed (result, r) = if is_complete r then result else none

  unfoldable pub deserialize_packet : List ℕ → Option (PacketHeader × A)
  deserialize_packet packet =
      if ltb (length packet) serialized_packet_header_size
      then none
      else if ltb 0 c.fixed_wire_size && not (length packet == c.fixed_wire_size)
      then none
      else completed (read_packet (length packet) (open_packet packet))

-- The two directions of a codec agree: a valid packet puts just its payload on the wire, the reader
-- takes the packet off it again, and the sizes are right.
pub record IsLawful {A : Type 0} (c : PacketCodec A) (Valid : A → Type 0) (payload : A → List ℕ)
    : Type 0 where
  pub type_fits : c.packet_type < u16_mod
  pub writes : (a : A) → Valid a → Writes (λ w. c.write_payload w a) (payload a)
  pub reads : (a : A) → Valid a → Reads c.read_payload (payload a) a
  pub sizes :
      (a : A)
      → Valid a
      → c.get_serialized_size a ≡ serialized_packet_header_size + length (payload a)
  pub fixed : (a : A) → (c.fixed_wire_size ≡ 0) ⊎ (c.fixed_wire_size ≡ c.get_serialized_size a)

module _ {A : Type 0} {c : PacketCodec A} {Valid : A → Type 0} {payload : A → List ℕ}
    (laws : IsLawful c Valid payload) where
  abbrev pub plain_header : ℕ → PacketHeader
  plain_header size = made_header size c.packet_type false false

  abbrev pub packet_bytes : A → List ℕ
  packet_bytes a = header_bytes (plain_header (c.get_serialized_size a)) ++ payload a

  length-packet_bytes : (a : A) → Valid a → length (packet_bytes a) ≡ c.get_serialized_size a
  length-packet_bytes a v = omega (
    arith,
    length-append (header_bytes (plain_header (c.get_serialized_size a))) (payload a),
    length-header_bytes (plain_header (c.get_serialized_size a)),
    laws.sizes a v,
  )

  written :
      (a : A)
      → Valid a
      → c.get_serialized_size a < u16_mod
      → c.write_payload
          (write_packet_header new_writer
            (c.get_serialized_size a % u16_mod)
            c.packet_type
            false
            false)
          a
        ≡ record { buffer = packet_bytes a; is_valid = true }
  written a v h =
      let n = c.get_serialized_size a in
      let e : n % u16_mod ≡ n = omega arith in
      ap (λ (t : ℕ). c.write_payload (write_packet_header new_writer t c.packet_type false false) a)
        e
      ∙ ap (λ w. c.write_payload w a)
          (write_packet_header-Writes n c.packet_type false false new_writer)
      ∙ laws.writes a v (append_bytes new_writer (header_bytes (plain_header n)))

  -- A packet that fits the limit of 1200 bytes is serialized into its header and its payload, and a
  -- larger one is refused.
  pub serialize_packet_lem :
      (a : A)
      → Valid a
      → serialize_packet c a ≡ (
          if ltb max_serialized_packet_size (c.get_serialized_size a)
          then none
          else some (packet_bytes a))
  unfolding serialize_packet
  serialize_packet_lem a v = ground (arith, written a v, length-packet_bytes a v)

  read_expected_header-Reads :
      (size : ℕ)
      → size < u16_mod
      → Reads
          (read_expected_header c.packet_type size)
          (header_bytes (plain_header size))
          (plain_header size)
  unfolding read_expected_header
  read_expected_header-Reads size h pre rest = ground (
    arith,
    read_packet_header-Reads (plain_header size) (h, (laws.type_fits), version-lt false false) pre
        rest,
    made_header_flags size c.packet_type false false,
  )

  read_packet-Reads :
      (a : A)
      → Valid a
      → c.get_serialized_size a < u16_mod
      → Reads
          (read_packet c (c.get_serialized_size a))
          (packet_bytes a)
          (plain_header (c.get_serialized_size a), a)
  unfolding read_packet
  read_packet-Reads a v h pre rest =
      let n = c.get_serialized_size a in
      let hb = header_bytes (plain_header n) in
      ground (
        arith,
        read_expected_header-Reads n h pre (payload a ++ rest),
        laws.reads a v (pre ++ hb) rest,
        append_assoc hb (payload a) rest,
        append_assoc pre hb (payload a),
      )

  -- The reader behind the whole packet.
  abbrev finished : List ℕ → PacketReader
  finished bytes = record { bytes = bytes; size = length bytes; offset = length bytes }

  read_packet-open :
      (a : A)
      → Valid a
      → c.get_serialized_size a < u16_mod
      → read_packet c (c.get_serialized_size a) (open_packet (packet_bytes a))
        ≡ (some (plain_header (c.get_serialized_size a), a), finished (packet_bytes a))
  read_packet-open a v h =
      let run = read_packet-Reads a v h [] [] in rw (append-nil (packet_bytes a)) at run

  deserialize-packet_bytes :
      (a : A)
      → Valid a
      → c.get_serialized_size a < u16_mod
      → deserialize_packet c (packet_bytes a) ≡ some (plain_header (c.get_serialized_size a), a)
  unfolding deserialize_packet is_complete
  deserialize-packet_bytes a v h =
      ground (arith, read_packet-open a v h, length-packet_bytes a v, laws.sizes a v, laws.fixed a)

  -- Reading back a packet that was serialized gives a header with its size, its type and this version, and
  -- its fields, with no byte left over. The fields are valid for the codec, and the codec is lawful: for valid
  -- fields, what it writes behind the header is as long as it announces and is read back as these fields, its
  -- type is a 16-bit number, and a fixed size is the size that it announces.
  pub deserialize-serialize :
      (a : A) {bytes : List ℕ}
      → Valid a
      → serialize_packet c a ≡ some bytes
      → deserialize_packet c bytes ≡ some (plain_header (length bytes), a)
  deserialize-serialize a v e =
      ground
        (arith, serialize_packet_lem a v, deserialize-packet_bytes a v, length-packet_bytes a v)
