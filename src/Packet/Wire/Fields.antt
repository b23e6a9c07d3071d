-- ===== src/Packet/Wire/Fields.antt =====
-- How PacketReader.h reads back what PacketWriter.h writes, for each kind of field.
use mathlib.Core.List.{append_assoc}
use windows_iocp_udp.Prelude.{
  ℕ, ◌*◌, ◌/◌, ◌%◌, ◌^◌, ◌<◌, ◌≡◌, bit_or, List, [], ◌∷◌, ◌++◌, length, length-append,
  take-length_append, drop-length_append, arith,
}
use windows_iocp_udp.Prelude.Words.{u16_mod, u32_mod, u64_mod}
use windows_iocp_udp.Packet.Reader.{
  pure, remaining_size, read_uint8, read_uint16, read_uint32, read_uint64, read_int32, read_int64,
  read_float, read_chars, read_string,
}
use windows_iocp_udp.Packet.Writer.{
  write_uint8, write_uint16, write_uint32, write_uint64, write_int32, write_int64, write_float,
  write_string,
}
use windows_iocp_udp.Packet.Wire.{
  Reads, Writes, read_uint8-Reads, Reads-value, Reads-bind, Writes-then, Reads-last, bytes16,
  bytes32, bytes64, string_bytes, join16, join32, join64,
}

pub write_uint8-Writes : (v : ℕ) → v < 2 ^ 8 → Writes (λ w. write_uint8 w v) (v ∷ [])
unfolding write_uint8
write_uint8-Writes v h w = let e : v % 2 ^ 8 ≡ v = omega arith in rw e

pub write_uint16-Writes : (v : ℕ) → Writes (λ w. write_uint16 w v) (bytes16 v)
unfolding write_uint16 bytes16
write_uint16-Writes v =
    Writes-then _ _ _ _ (write_uint8-Writes (v % 2 ^ 8) (omega arith))
      (write_uint8-Writes (v / 2 ^ 8 % 2 ^ 8) (omega arith))

pub write_uint32-Writes : (v : ℕ) → Writes (λ w. write_uint32 w v) (bytes32 v)
unfolding write_uint32 bytes32
write_uint32-Writes v =
    Writes-then (λ w. write_uint8 (write_uint8 w (v % 2 ^ 8)) (v / 2 ^ 8 % 2 ^ 8))
      (λ w. write_uint8 (write_uint8 w (v / 2 ^ 16 % 2 ^ 8)) (v / 2 ^ 24 % 2 ^ 8)) _ _
      (Writes-then _ _ _ _ (write_uint8-Writes (v % 2 ^ 8) (omega arith))
        (write_uint8-Writes (v / 2 ^ 8 % 2 ^ 8) (omega arith)))
      (Writes-then _ _ _ _ (write_uint8-Writes (v / 2 ^ 16 % 2 ^ 8) (omega arith))
        (write_uint8-Writes (v / 2 ^ 24 % 2 ^ 8) (omega arith)))

pub write_uint64-Writes : (v : ℕ) → Writes (λ w. write_uint64 w v) (bytes64 v)
unfolding write_uint64 bytes64
write_uint64-Writes v =
    Writes-then _ _ _ _ (write_uint32-Writes (v % u32_mod))
      (write_uint32-Writes (v / u32_mod % u32_mod))

pub read_uint16-Reads : (v : ℕ) → v < u16_mod → Reads read_uint16 (bytes16 v) v
unfolding read_uint16 bytes16
read_uint16-Reads v h =
    let a = v % 2 ^ 8 in
    let b = v / 2 ^ 8 % 2 ^ 8 in
    Reads-bind read_uint8 _ (a ∷ []) (b ∷ []) a v (read_uint8-Reads a) (
      Reads-bind read_uint8 (λ byte1. pure (bit_or a (byte1 * 2 ^ 8 % u16_mod))) (b ∷ []) [] b v
        (read_uint8-Reads b) (Reads-value (join16 v h)))

pub read_uint32-Reads : (v : ℕ) → v < u32_mod → Reads read_uint32 (bytes32 v) v
unfolding read_uint32 bytes32
read_uint32-Reads v h =
    let b0 = v % 2 ^ 8 in
    let b1 = v / 2 ^ 8 % 2 ^ 8 in
    let b2 = v / 2 ^ 16 % 2 ^ 8 in
    let b3 = v / 2 ^ 24 % 2 ^ 8 in
    let join = λ (x1 x2 x3 : ℕ).
      bit_or (bit_or (bit_or b0 (x1 * 2 ^ 8 % u32_mod)) (x2 * 2 ^ 16 % u32_mod))
        (x3 * 2 ^ 24 % u32_mod) in
    Reads-bind read_uint8 _ (b0 ∷ []) (b1 ∷ b2 ∷ b3 ∷ []) b0 v (read_uint8-Reads b0) (
      Reads-bind read_uint8 _ (b1 ∷ []) (b2 ∷ b3 ∷ []) b1 v (read_uint8-Reads b1) (
        Reads-bind read_uint8 _ (b2 ∷ []) (b3 ∷ []) b2 v (read_uint8-Reads b2) (
          Reads-bind read_uint8 (λ x3. pure (join b1 b2 x3)) (b3 ∷ []) [] b3 v (read_uint8-Reads b3)
            (Reads-value (join32 v h)))))

pub read_uint64-Reads : (v : ℕ) → v < u64_mod → Reads read_uint64 (bytes64 v) v
unfolding read_uint64 bytes64
read_uint64-Reads v h =
    let lower = v % u32_mod in
    let upper = v / u32_mod % u32_mod in
    Reads-bind read_uint32 _ (bytes32 lower) (bytes32 upper) lower v
      (read_uint32-Reads lower (omega arith))
      (Reads-last read_uint32 (λ x. bit_or lower (x * 2 ^ 32 % u64_mod)) (bytes32 upper) upper v
        (read_uint32-Reads upper (omega arith)) (join64 v h))

read_chars-Reads : (chars : List ℕ) → Reads (read_chars (length chars)) chars chars
unfolding read_chars remaining_size
read_chars-Reads chars pre rest = ground (
  arith,
  drop-length_append pre (chars ++ rest),
  take-length_append chars rest,
  append_assoc pre chars rest,
  length-append pre (chars ++ rest),
  length-append chars rest,
  length-append pre chars,
)

pub read_string-Reads :
    (chars : List ℕ) → length chars < u16_mod → Reads read_string (string_bytes chars) chars
unfolding read_string string_bytes
read_string-Reads chars h =
    Reads-bind read_uint16 read_chars (bytes16 (length chars)) chars (length chars) chars
      (read_uint16-Reads (length chars) h) (read_chars-Reads chars)

pub write_string-Writes :
    (chars : List ℕ)
    → length chars < u16_mod
    → Writes (λ w. write_string w chars) (string_bytes chars)
unfolding write_string string_bytes
write_string-Writes chars h w =
    let e : length chars % u16_mod ≡ length chars = omega arith in
    ground (
      arith,
      write_uint16-Writes (length chars) w,
      append_assoc w.buffer (bytes16 (length chars)) chars,
    )

pub read_int32-Reads : (v : ℕ) → v < u32_mod → Reads read_int32 (bytes32 v) v
unfolding read_int32
read_int32-Reads = read_uint32-Reads

pub read_float-Reads : (v : ℕ) → v < u32_mod → Reads read_float (bytes32 v) v
unfolding read_float
read_float-Reads = read_uint32-Reads

pub read_int64-Reads : (v : ℕ) → v < u64_mod → Reads read_int64 (bytes64 v) v
unfolding read_int64
read_int64-Reads = read_uint64-Reads

pub write_int32-Writes : (v : ℕ) → Writes (λ w. write_int32 w v) (bytes32 v)
unfolding write_int32
write_int32-Writes = write_uint32-Writes

pub write_float-Writes : (v : ℕ) → Writes (λ w. write_float w v) (bytes32 v)
unfolding write_float
write_float-Writes = write_uint32-Writes

pub write_int64-Writes : (v : ℕ) → Writes (λ w. write_int64 w v) (bytes64 v)
unfolding write_int64
write_int64-Writes = write_uint64-Writes
