-- ===== src/Packet/Reader.antt =====
-- Common/Packet/Serialization/PacketReader.h. A byte is a number below 256. A signed integer and a
-- float are carried as their bit patterns, since the reader only casts them.
use windows_iocp_udp.Prelude.{
  ℕ, ◌+◌, ◌-◌, ◌*◌, ◌%◌, ◌^◌, Bool, ltb, ◌==◌, if◌then◌else◌, bit_or, List, get_or, take, drop,
  length, Option, none, some,
}
use windows_iocp_udp.Prelude.Words.{u16_mod, u32_mod, u64_mod}

pub record PacketReader : Type 0 where
  pub bytes : List ℕ
  pub size : ℕ
  pub offset : ℕ

-- A read that fails leaves the reader where it stopped.
abbrev pub Reader {ℓ} : Type ℓ → Type ℓ
Reader A = PacketReader → Option A × PacketReader

abbrev pub continue {ℓ κ} :
    {A : Type ℓ} {B : Type κ} → (A → Reader B) → Option A × PacketReader → Option B × PacketReader
continue f (none, r) = (none, r)
continue f (some a, r) = f a r

infixl 5 ◌>>=◌ ◌>>◌
abbrev pub ◌>>=◌ {ℓ κ} : {A : Type ℓ} {B : Type κ} → Reader A → (A → Reader B) → Reader B
◌>>=◌ m f r = continue f (m r)

abbrev pub ◌>>◌ {κ} : {B : Type κ} → Reader (Unit {0}) → Reader B → Reader B
m >> k = m >>= λ _. k

abbrev pub pure {ℓ} : {A : Type ℓ} → A → Reader A
pure a r = (some a, r)

abbrev pub fail {ℓ} : {A : Type ℓ} → Reader A
fail r = (none, r)

abbrev pub guard : Bool → Reader (Unit {0})
guard test r = if test then (some tt, r) else (none, r)

abbrev pub open_packet : List ℕ → PacketReader
open_packet packet = record { bytes = packet; size = length packet; offset = 0 }

-- The offset never passes the size, so the subtraction does not stop short.
unfoldable pub remaining_size : PacketReader → ℕ
remaining_size r = r.size - r.offset

unfoldable pub is_complete : PacketReader → Bool
is_complete r = r.offset == r.size

unfoldable pub read_uint8 : Reader ℕ
unfolding remaining_size
read_uint8 r =
    if ltb (remaining_size r) 1
    then (none, r)
    else (some (get_or r.bytes r.offset 0), record r { offset = r.offset + 1 })

unfoldable pub read_uint16 : Reader ℕ
read_uint16 = do
  byte0 ← read_uint8
  byte1 ← read_uint8
  pure (bit_or byte0 (byte1 * 2 ^ 8 % u16_mod))

unfoldable pub read_uint32 : Reader ℕ
read_uint32 = do
  byte0 ← read_uint8
  byte1 ← read_uint8
  byte2 ← read_uint8
  byte3 ← read_uint8
  pure (
      bit_or (bit_or (bit_or byte0 (byte1 * 2 ^ 8 % u32_mod)) (byte2 * 2 ^ 16 % u32_mod))
        (byte3 * 2 ^ 24 % u32_mod))

unfoldable pub read_uint64 : Reader ℕ
read_uint64 = do
  lower_value ← read_uint32
  upper_value ← read_uint32
  pure (bit_or lower_value (upper_value * 2 ^ 32 % u64_mod))

unfoldable pub read_int32 : Reader ℕ
read_int32 = read_uint32

unfoldable pub read_int64 : Reader ℕ
read_int64 = read_uint64

unfoldable pub read_float : Reader ℕ
read_float = read_uint32

-- The bytes of the string behind its length.
unfoldable pub read_chars : ℕ → Reader (List ℕ)
unfolding remaining_size
read_chars string_size r = if ltb (remaining_size r) string_size then (none, r) else (
  some (take string_size (drop r.offset r.bytes)),
  record r { offset = r.offset + string_size },
)

unfoldable pub read_string : Reader (List ℕ)
read_string = do string_size ← read_uint16; read_chars string_size
