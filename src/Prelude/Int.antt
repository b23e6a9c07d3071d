-- ===== src/Prelude/Int.antt =====
-- Signed integers over the native numbers: `negsuc n` is -(n + 1).
use Prim.Native.Nat.{ℕ, suc, ◌+◌, ◌-◌, ◌*◌}
use mathlib.Core.Path.{◌≡◌}
use mathlib.Core.Logic.{◌↔◌}
use mathlib.Core.Bool.{Bool, true, false}
use native.Mathlib.Omega.{arith}
use windows_iocp_udp.Prelude.Tests.{ltb, leb, ◌==◌, if◌then◌else◌}

pub data ℤ : Type 0 where
  pos : ℕ → ℤ
  negsuc : ℕ → ℤ

-- `x < 0 ? 0 : x`, as a number.
abbrev pub clamp_zero : ℤ → ℕ
clamp_zero (pos n) = n
clamp_zero (negsuc n) = 0

abbrev pub is_positive : ℤ → Bool
is_positive (pos n) = ltb 0 n
is_positive (negsuc n) = false

abbrev pub same_id : ℤ → ℤ → Bool
same_id (pos m) (pos n) = m == n
same_id (negsuc m) (negsuc n) = m == n
same_id (pos m) (negsuc n) = false
same_id (negsuc m) (pos n) = false

pub same_id_iff : (a b : ℤ) → (same_id a b ≡ true) ↔ (a ≡ b)
same_id_iff (pos m) (pos n) = ground arith
same_id_iff (negsuc m) (negsuc n) = ground arith
same_id_iff (pos m) (negsuc n) = ground arith
same_id_iff (negsuc m) (pos n) = ground arith

abbrev pub leb_id : ℤ → ℤ → Bool
leb_id (pos m) (pos n) = leb m n
leb_id (negsuc m) (negsuc n) = leb n m
leb_id (pos m) (negsuc n) = false
leb_id (negsuc m) (pos n) = true

abbrev pub pos_part : ℤ → ℕ
pos_part (pos n) = n
pos_part (negsuc n) = 0

abbrev pub neg_part : ℤ → ℕ
neg_part (pos n) = 0
neg_part (negsuc n) = suc n

-- a - b, for natural numbers and for integers.
abbrev pub sub_ℕ : ℕ → ℕ → ℤ
sub_ℕ a b = if leb b a then pos (a - b) else negsuc (b - a - 1)

infixl 65 ◌-ℤ◌
unfoldable pub ◌-ℤ◌ : ℤ → ℤ → ℤ
a -ℤ b = sub_ℕ (pos_part a + neg_part b) (neg_part a + pos_part b)

infixl 65 ◌+ℤ◌
unfoldable pub ◌+ℤ◌ : ℤ → ℤ → ℤ
a +ℤ b = sub_ℕ (pos_part a + pos_part b) (neg_part a + neg_part b)

-- k * a
abbrev pub scale_id : ℕ → ℤ → ℤ
scale_id k (pos n) = pos (k * n)
scale_id k (negsuc n) = sub_ℕ 0 (k * suc n)
