-- ===== src/Packet/Writer.antt =====
-- Common/Packet/Serialization/PacketWriter.h. `Reserve` only sizes the storage.
use windows_iocp_udp.Prelude.{
  ℕ, ◌-◌, ◌/◌, ◌%◌, ◌^◌, Bool, true, false, ltb, if◌then◌else◌, List, [], ◌∷◌, ◌++◌, length,
}
use windows_iocp_udp.Prelude.Words.{u16_mod, u32_mod}

pub record PacketWriter : Type 0 where
  pub buffer : List ℕ
  pub is_valid : Bool

abbrev pub new_writer : PacketWriter
new_writer = record { buffer = []; is_valid = true }

-- The argument is cast to a byte.
unfoldable pub write_uint8 : PacketWriter → ℕ → PacketWriter
write_uint8 w value = record w { buffer = w.buffer ++ (value % 2 ^ 8) ∷ [] }

unfoldable pub write_uint16 : PacketWriter → ℕ → PacketWriter
write_uint16 w value = write_uint8 (write_uint8 w (value % 2 ^ 8)) (value / 2 ^ 8 % 2 ^ 8)

unfoldable pub write_uint32 : PacketWriter → ℕ → PacketWriter
write_uint32 w value =
    let w1 = write_uint8 w (value % 2 ^ 8) in
    let w2 = write_uint8 w1 (value / 2 ^ 8 % 2 ^ 8) in
    let w3 = write_uint8 w2 (value / 2 ^ 16 % 2 ^ 8) in write_uint8 w3 (value / 2 ^ 24 % 2 ^ 8)

unfoldable pub write_uint64 : PacketWriter → ℕ → PacketWriter
write_uint64 w value = write_uint32 (write_uint32 w (value % u32_mod)) (value / 2 ^ 32 % u32_mod)

unfoldable pub write_int32 : PacketWriter → ℕ → PacketWriter
write_int32 w value = write_uint32 w value

unfoldable pub write_int64 : PacketWriter → ℕ → PacketWriter
write_int64 w value = write_uint64 w value

unfoldable pub write_float : PacketWriter → ℕ → PacketWriter
write_float w value = write_uint32 w value

-- `buffer_.insert(buffer_.end(), …)`.
abbrev pub append_bytes : PacketWriter → List ℕ → PacketWriter
append_bytes w bytes = record w { buffer = w.buffer ++ bytes }

unfoldable pub write_string : PacketWriter → List ℕ → PacketWriter
write_string w value =
    if ltb (2 ^ 16 - 1) (length value)
    then record w { is_valid = false }
    else append_bytes (write_uint16 w (length value % u16_mod)) value
