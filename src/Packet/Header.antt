-- ===== src/Packet/Header.antt =====
-- Common/Packet/PacketHeader.h, PacketConstants.h and the header functions of
-- Serialization/PacketSerializationCore.h.
use windows_iocp_udp.Prelude.{
  ℕ, ◌+◌, ◌<◌, ◌≡◌, refl, Bool, true, false, not, ltb, ◌==◌, if◌then◌else◌, bit_and, bit_or, List,
  [], ◌∷◌, ◌++◌, length, drop, ◌*◌, ◌^◌, ◌%◌, ◌/◌, All, Option, none, some, arith, ap,
}
use windows_iocp_udp.Prelude.Words.{u16_mod}
use windows_iocp_udp.Prelude.Bits.{bit_and-pow, bit_and_mask, test_bit-div}
use windows_iocp_udp.Packet.Reader.{Reader, pure, guard, ◌>>=◌, ◌>>◌, read_uint16, open_packet}
use windows_iocp_udp.Packet.Writer.{PacketWriter, write_uint16}
use windows_iocp_udp.Packet.Wire.{Reads, Writes, Reads-bind, Reads-last, Writes-then, bytes16}
use windows_iocp_udp.Packet.Wire.Fields.{read_uint16-Reads, write_uint16-Writes}

abbrev pub protocol_version : ℕ
protocol_version = 5

abbrev pub packet_header_authenticated_flag : ℕ
packet_header_authenticated_flag = 0x4000

abbrev pub packet_header_reliable_flag : ℕ
packet_header_reliable_flag = 0x8000

abbrev pub packet_header_version_mask : ℕ
packet_header_version_mask = 0x3fff

abbrev pub serialized_packet_header_size : ℕ
serialized_packet_header_size = 2 + 2 + 2

abbrev pub max_serialized_packet_size : ℕ
max_serialized_packet_size = 1200

pub record PacketHeader : Type 0 where
  pub size : ℕ
  pub type : ℕ
  pub version : ℕ

unfoldable pub make_packet_header_version : Bool → Bool → ℕ
make_packet_header_version reliable authenticated =
    let version1 =
      if reliable then bit_or protocol_version packet_header_reliable_flag else protocol_version in
    if authenticated then bit_or version1 packet_header_authenticated_flag else version1

unfoldable pub is_reliable_packet_header : PacketHeader → Bool
is_reliable_packet_header h = not (bit_and h.version packet_header_reliable_flag == 0)

unfoldable pub is_authenticated_packet_header : PacketHeader → Bool
is_authenticated_packet_header h = not (bit_and h.version packet_header_authenticated_flag == 0)

unfoldable pub get_packet_header_protocol_version : PacketHeader → ℕ
get_packet_header_protocol_version h = bit_and h.version packet_header_version_mask

unfoldable pub write_packet_header : PacketWriter → ℕ → ℕ → Bool → Bool → PacketWriter
write_packet_header w packet_size packet_type reliable authenticated =
    let w1 = write_uint16 w packet_size in
    let w2 = write_uint16 w1 packet_type in
    write_uint16 w2 (make_packet_header_version reliable authenticated)

unfoldable pub read_packet_header : Reader PacketHeader
read_packet_header = do
  packet_size ← read_uint16
  raw_packet_type ← read_uint16
  packet_version ← read_uint16
  pure (record { size = packet_size; type = raw_packet_type; version = packet_version })

-- A packet is the bytes at `packetData`, `packetSize` of them; a null pointer comes with size 0.
unfoldable pub deserialize_packet_header : List ℕ → Option PacketHeader
deserialize_packet_header packet =
    if ltb (length packet) serialized_packet_header_size
    then none
    else (read_packet_header (open_packet packet)).0

unfoldable pub read_expected_header : ℕ → ℕ → Reader PacketHeader
read_expected_header expected_packet_type packet_size = do
  h ← read_packet_header
  guard (h.size == packet_size)
  guard (h.type == expected_packet_type)
  guard (get_packet_header_protocol_version h == protocol_version)
  guard (not (is_reliable_packet_header h))
  guard (not (is_authenticated_packet_header h))
  pure h

unfoldable pub header_bytes : PacketHeader → List ℕ
header_bytes h = bytes16 h.size ++ (bytes16 h.type ++ bytes16 h.version)

pub length-header_bytes :
    (h : PacketHeader) → length (header_bytes h) ≡ serialized_packet_header_size
unfolding header_bytes bytes16
length-header_bytes h = refl

abbrev pub FitsWire : PacketHeader → Type 0
FitsWire h = (h.size < u16_mod) × (h.type < u16_mod) × (h.version < u16_mod)

pub version-lt :
    (reliable authenticated : Bool) → make_packet_header_version reliable authenticated < u16_mod
unfolding make_packet_header_version
version-lt true true = omega arith
version-lt true false = omega arith
version-lt false true = omega arith
version-lt false false = omega arith

abbrev pub made_header : ℕ → ℕ → Bool → Bool → PacketHeader
made_header packet_size packet_type reliable authenticated = record {
  size = packet_size;
  type = packet_type;
  version = make_packet_header_version reliable authenticated;
}

-- The flags and the version of a header that the code makes read back as they were put in.
pub made_header_flags :
    (packet_size packet_type : ℕ) (reliable authenticated : Bool)
    → let h = made_header packet_size packet_type reliable authenticated in
      (is_reliable_packet_header h ≡ reliable)
      × (is_authenticated_packet_header h ≡ authenticated)
      × (get_packet_header_protocol_version h ≡ protocol_version)
unfolding make_packet_header_version is_reliable_packet_header is_authenticated_packet_header
    get_packet_header_protocol_version
made_header_flags s t true true = (refl, refl, refl)
made_header_flags s t true false = (refl, refl, refl)
made_header_flags s t false true = (refl, refl, refl)
made_header_flags s t false false = (refl, refl, refl)

pub write_packet_header-Writes :
    (packet_size packet_type : ℕ) (reliable authenticated : Bool)
    → Writes
        (λ w. write_packet_header w packet_size packet_type reliable authenticated)
        (header_bytes (made_header packet_size packet_type reliable authenticated))
unfolding write_packet_header header_bytes
write_packet_header-Writes s t reliable authenticated =
    Writes-then (λ w. write_uint16 w s)
      (λ w. write_uint16 (write_uint16 w t) (make_packet_header_version reliable authenticated)) _ _
      (write_uint16-Writes s)
      (Writes-then (λ w. write_uint16 w t)
        (λ w. write_uint16 w (make_packet_header_version reliable authenticated)) _ _
        (write_uint16-Writes t)
        (write_uint16-Writes (make_packet_header_version reliable authenticated)))

pub read_packet_header-Reads :
    (h : PacketHeader) → FitsWire h → Reads read_packet_header (header_bytes h) h
unfolding read_packet_header header_bytes
read_packet_header-Reads h fits =
    Reads-bind read_uint16 _ (bytes16 h.size) (bytes16 h.type ++ bytes16 h.version) h.size h
      (read_uint16-Reads h.size fits.0)
      (Reads-bind read_uint16 _ (bytes16 h.type) (bytes16 h.version) h.type h
        (read_uint16-Reads h.type fits.1)
        (Reads-last read_uint16 (λ v. record { size = h.size; type = h.type; version = v })
          (bytes16 h.version) h.version h (read_uint16-Reads h.version fits.2) refl))

-- A 16-bit version with no flag and the protocol's number is the number alone.
plain_version :
    (v : ℕ)
    → v < u16_mod
    → (bit_and v packet_header_reliable_flag == 0) ≡ true
    → (bit_and v packet_header_authenticated_flag == 0) ≡ true
    → bit_and v packet_header_version_mask ≡ protocol_version
    → v ≡ protocol_version
plain_version v h r a m = ground (
  arith,
  bit_and-pow v 15,
  bit_and-pow v 14,
  test_bit-div v 15,
  test_bit-div v 14,
  bit_and_mask 14 v,
)

-- So is a whole header that passes the tests for a plain packet.
pub plain_header_lem :
    (h : PacketHeader)
    → FitsWire h
    → is_reliable_packet_header h ≡ false
    → is_authenticated_packet_header h ≡ false
    → get_packet_header_protocol_version h ≡ protocol_version
    → h ≡ made_header h.size h.type false false
unfolding is_reliable_packet_header is_authenticated_packet_header
    get_packet_header_protocol_version make_packet_header_version
plain_header_lem h fits r a m =
    let e = plain_version h.version fits.2 (ground arith) (ground arith) m in
    ap (λ v. record { size = h.size; type = h.type; version = v }) e

abbrev pub Bytes : List ℕ → Type 0
Bytes = All (λ b. b < 2 ^ 8)

pair_bytes : (a b : ℕ) → a < 2 ^ 8 → b < 2 ^ 8 → bytes16 (a + b * 2 ^ 8) ≡ a ∷ b ∷ []
unfolding bytes16
pair_bytes a b ha hb =
    let e : (a + b * 2 ^ 8) % 2 ^ 8 ≡ a = omega arith in
    let f : (a + b * 2 ^ 8) / 2 ^ 8 % 2 ^ 8 ≡ b = omega arith in rw (e, f)

-- The header that six bytes stand for.
abbrev decoded : ℕ → ℕ → ℕ → ℕ → ℕ → ℕ → PacketHeader
decoded b0 b1 b2 b3 b4 b5 = record {
  size = b0 + b1 * 2 ^ 8;
  type = b2 + b3 * 2 ^ 8;
  version = b4 + b5 * 2 ^ 8;
}

header_bytes-decoded :
    (b0 b1 b2 b3 b4 b5 : ℕ)
    → Bytes (b0 ∷ b1 ∷ b2 ∷ b3 ∷ b4 ∷ b5 ∷ [])
    → header_bytes (decoded b0 b1 b2 b3 b4 b5) ≡ b0 ∷ b1 ∷ b2 ∷ b3 ∷ b4 ∷ b5 ∷ []
unfolding header_bytes
header_bytes-decoded b0 b1 b2 b3 b4 b5 b = rw (
  pair_bytes b0 b1 (omega arith) (omega arith),
  pair_bytes b2 b3 (omega arith) (omega arith),
  pair_bytes b4 b5 (omega arith) (omega arith),
)

deserialize-decoded :
    (b0 b1 b2 b3 b4 b5 : ℕ) (rest : List ℕ)
    → Bytes (b0 ∷ b1 ∷ b2 ∷ b3 ∷ b4 ∷ b5 ∷ [])
    → deserialize_packet_header (b0 ∷ b1 ∷ b2 ∷ b3 ∷ b4 ∷ b5 ∷ rest)
      ≡ some (decoded b0 b1 b2 b3 b4 b5)
unfolding deserialize_packet_header
deserialize-decoded b0 b1 b2 b3 b4 b5 rest b =
    let h = decoded b0 b1 b2 b3 b4 b5 in
    let run = read_packet_header-Reads h (omega arith) [] rest in
    let front = header_bytes-decoded b0 b1 b2 b3 b4 b5 b in
    let ran = ap (λ r. r.0) (rw front at run) in ground (arith, ran)

-- The header that is read from a packet stands at its front.
pub header_bytes-deserialize :
    (packet : List ℕ) (h : PacketHeader)
    → Bytes packet
    → deserialize_packet_header packet ≡ some h
    → (header_bytes h ++ drop serialized_packet_header_size packet ≡ packet) × FitsWire h
header_bytes-deserialize (b0 ∷ b1 ∷ b2 ∷ b3 ∷ b4 ∷ b5 ∷ rest) h b e = ground (
  arith,
  deserialize-decoded b0 b1 b2 b3 b4 b5 rest,
  ap (λ t. t ++ rest) (header_bytes-decoded b0 b1 b2 b3 b4 b5 (omega arith)),
)
header_bytes-deserialize packet h b e = unfold deserialize_packet_header in ground arith
