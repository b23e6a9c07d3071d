-- ===== src/Packet/Wire.antt =====
-- What the writer puts on the wire, the reader takes off it: PacketWriter.h and PacketReader.h.
pub mod Fields
use mathlib.Core.Path.{subst}
use mathlib.Core.List.{append_assoc, append-nil}
use windows_iocp_udp.Prelude.{
  ℕ, ◌+◌, ◌*◌, ◌/◌, ◌%◌, ◌^◌, ◌<◌, ◌≡◌, refl, ap, ◌∙◌, Bool, true, false, if◌then◌else◌, bit_or,
  List, [], ◌∷◌, ◌++◌, get_or, length, length-append, Option, none, some, arith,
}
use windows_iocp_udp.Prelude.Bits.{bit_or_disjoint}
use windows_iocp_udp.Prelude.Words.{u16_mod, u32_mod, u64_mod}
use windows_iocp_udp.Packet.Reader.{
  PacketReader, Reader, pure, continue, guard, ◌>>=◌, ◌>>◌, read_uint8,
}
use windows_iocp_udp.Packet.Writer.{PacketWriter, append_bytes}

-- A reader behind `pre` and before `rest`.
abbrev pub at : List ℕ → List ℕ → PacketReader
at pre rest = record { bytes = pre ++ rest; size = length (pre ++ rest); offset = length pre }

-- The reader yields `a` from exactly these bytes, wherever they stand.
abbrev pub Reads {ℓ} : {A : Type ℓ} → Reader A → List ℕ → A → Type ℓ
Reads m xs a = (pre rest : List ℕ) → m (at pre (xs ++ rest)) ≡ (some a, at (pre ++ xs) rest)

-- The step appends exactly these bytes.
abbrev pub Writes : (PacketWriter → PacketWriter) → List ℕ → Type 0
Writes step xs = (w : PacketWriter) → step w ≡ append_bytes w xs

get_or-append : (pre : List ℕ) (b : ℕ) (rest : List ℕ) → get_or (pre ++ b ∷ rest) (length pre) 0 ≡ b
get_or-append [] b rest = refl
get_or-append (x ∷ pre) b rest = get_or-append pre b rest

pub read_uint8-Reads : (b : ℕ) → Reads read_uint8 (b ∷ []) b
unfolding read_uint8
read_uint8-Reads b pre rest = ground (
  arith,
  get_or-append pre b rest,
  append_assoc pre (b ∷ []) rest,
  length-append pre (b ∷ rest),
  length-append pre (b ∷ []),
)

pub Reads-pure {ℓ} : {A : Type ℓ} (a : A) → Reads (pure a) [] a
Reads-pure a pre rest = rw (append-nil pre)

pub Reads-value {ℓ} : {A : Type ℓ} {a b : A} → a ≡ b → Reads (pure a) [] b
Reads-value {a = a} e = subst (Reads (pure a) []) e (Reads-pure a)

pub bind_some {ℓ κ} :
    {A : Type ℓ} {B : Type κ} (m : Reader A) (f : A → Reader B) (r : PacketReader) (a : A)
    (r' : PacketReader)
    → m r ≡ (some a, r')
    → (m >>= f) r ≡ f a r'
bind_some m f r a r' e = ap (continue f) e

pub Reads-bind {ℓ κ} :
    {A : Type ℓ} {B : Type κ} (m : Reader A) (f : A → Reader B) (xs ys : List ℕ) (a : A) (b : B)
    → Reads m xs a
    → Reads (f a) ys b
    → Reads (m >>= f) (xs ++ ys) b
Reads-bind m f xs ys a b h k pre rest =
    ap (λ (t : List ℕ). (m >>= f) (at pre t)) (append_assoc xs ys rest)
    ∙ bind_some m f (at pre (xs ++ (ys ++ rest))) a (at (pre ++ xs) (ys ++ rest))
        (h pre (ys ++ rest))
    ∙ k (pre ++ xs) rest
    ∙ ap (λ (t : List ℕ). (some b, at t rest)) (append_assoc pre xs ys)

pub Writes-then :
    (f g : PacketWriter → PacketWriter) (xs ys : List ℕ)
    → Writes f xs
    → Writes g ys
    → Writes (λ w. g (f w)) (xs ++ ys)
Writes-then f g xs ys h k w = rw (h w, k (append_bytes w xs), append_assoc w.buffer xs ys)

pub Reads-last {ℓ κ} :
    {A : Type ℓ} {B : Type κ} (m : Reader A) (g : A → B) (xs : List ℕ) (a : A) (b : B)
    → Reads m xs a
    → g a ≡ b
    → Reads (m >>= λ x. pure (g x)) xs b
Reads-last m g xs a b h e =
    subst (λ ys. Reads (m >>= λ x. pure (g x)) ys b) (append-nil xs)
      (Reads-bind m (λ x. pure (g x)) xs [] a b h (Reads-value e))

unfoldable pub bytes16 : ℕ → List ℕ
bytes16 v = v % 2 ^ 8 ∷ v / 2 ^ 8 % 2 ^ 8 ∷ []

unfoldable pub bytes32 : ℕ → List ℕ
bytes32 v = v % 2 ^ 8 ∷ v / 2 ^ 8 % 2 ^ 8 ∷ v / 2 ^ 16 % 2 ^ 8 ∷ v / 2 ^ 24 % 2 ^ 8 ∷ []

unfoldable pub bytes64 : ℕ → List ℕ
bytes64 v = bytes32 (v % u32_mod) ++ bytes32 (v / u32_mod % u32_mod)

unfoldable pub string_bytes : List ℕ → List ℕ
string_bytes chars = bytes16 (length chars) ++ chars

pub length-bytes16 : (v : ℕ) → length (bytes16 v) ≡ 2
unfolding bytes16
length-bytes16 v = refl

pub length-bytes32 : (v : ℕ) → length (bytes32 v) ≡ 4
unfolding bytes32
length-bytes32 v = refl

pub length-bytes64 : (v : ℕ) → length (bytes64 v) ≡ 8
unfolding bytes64 bytes32
length-bytes64 v = refl

pub length-string_bytes : (chars : List ℕ) → length (string_bytes chars) ≡ 2 + length chars
unfolding string_bytes bytes16
length-string_bytes chars = omega arith

pub ruleset lengths =
    (arith, length-append, length-bytes16, length-bytes32, length-bytes64, length-string_bytes)

pub join16 : (v : ℕ) → v < u16_mod → bit_or (v % 2 ^ 8) (v / 2 ^ 8 % 2 ^ 8 * 2 ^ 8 % u16_mod) ≡ v
join16 v h =
    let e : v / 2 ^ 8 % 2 ^ 8 * 2 ^ 8 % u16_mod ≡ v / 2 ^ 8 * 2 ^ 8 = omega arith in
    rw (e, bit_or_disjoint 8 (v % 2 ^ 8) (v / 2 ^ 8) (omega arith)) (omega arith)

pub join32 :
    (v : ℕ)
    → v < u32_mod
    → bit_or
        (bit_or
          (bit_or (v % 2 ^ 8) (v / 2 ^ 8 % 2 ^ 8 * 2 ^ 8 % u32_mod))
          (v / 2 ^ 16 % 2 ^ 8 * 2 ^ 16 % u32_mod))
        (v / 2 ^ 24 % 2 ^ 8 * 2 ^ 24 % u32_mod)
      ≡ v
join32 v h =
    let b1 = v / 2 ^ 8 % 2 ^ 8 in
    let b2 = v / 2 ^ 16 % 2 ^ 8 in
    let b3 = v / 2 ^ 24 % 2 ^ 8 in
    let e1 : b1 * 2 ^ 8 % u32_mod ≡ b1 * 2 ^ 8 = omega arith in
    let e2 : b2 * 2 ^ 16 % u32_mod ≡ b2 * 2 ^ 16 = omega arith in
    let e3 : b3 * 2 ^ 24 % u32_mod ≡ b3 * 2 ^ 24 = omega arith in
    rw
      (
        e1,
        e2,
        e3,
        bit_or_disjoint 8 (v % 2 ^ 8) b1 (omega arith),
        bit_or_disjoint 16 (v % 2 ^ 8 + b1 * 2 ^ 8) b2 (omega arith),
        bit_or_disjoint 24 (v % 2 ^ 8 + b1 * 2 ^ 8 + b2 * 2 ^ 16) b3 (omega arith),
      )
      (omega arith)

pub join64 :
    (v : ℕ) → v < u64_mod → bit_or (v % u32_mod) (v / u32_mod % u32_mod * 2 ^ 32 % u64_mod) ≡ v
join64 v h =
    let e : v / u32_mod % u32_mod * 2 ^ 32 % u64_mod ≡ v / u32_mod * 2 ^ 32 = omega arith in
    rw (e, bit_or_disjoint 32 (v % u32_mod) (v / u32_mod) (omega arith)) (omega arith)

pub Writes-nothing : Writes (λ w. w) []
Writes-nothing w = rw (append-nil w.buffer)

pub Reads-guard {ℓ} :
    {A : Type ℓ} (test : Bool) (m : Reader A) (xs : List ℕ) (a : A)
    → test ≡ true
    → Reads m xs a
    → Reads (guard test >> m) xs a
Reads-guard true m xs a e h = h
Reads-guard false m xs a e h = absurd (cc)
