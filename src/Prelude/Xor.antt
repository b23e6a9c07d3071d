-- ===== src/Prelude/Xor.antt =====
-- Exclusive or and or of numbers that are compared with 0.
use Prim.Native.Nat.{
  ℕ, zero, suc, ◌+◌, ◌*◌, ◌/◌, ◌%◌, ◌≤◌, ◌<◌, ◌^◌, differ, bit_or, bit_xor, bit_xor-bitwise,
}
use mathlib.Core.Path.{◌≡◌, refl}
use native.Mathlib.Nat.{pow-suc}
use native.Mathlib.Omega.{arith}
use windows_iocp_udp.Prelude.Bits.{lowest_digit, bit_or_step}

differ_digits : (a b : ℕ) → a ≤ 1 → b ≤ 1 → differ a b ≡ 0 → a ≡ b
differ_digits zero zero h k e = refl
differ_digits zero (suc b) h k e = omega arith
differ_digits (suc a) zero h k e = omega arith
differ_digits (suc a) (suc b) h k e = omega arith

differ-zero : (b : ℕ) → differ 0 b ≡ b
differ-zero b = refl

bit_xor_step : (a b : ℕ) → bit_xor a b ≡ bit_xor (a / 2) (b / 2) * 2 + differ (a % 2) (b % 2)
bit_xor_step a b = omega (
  arith,
  lowest_digit (λ c. c) differ (λ c. omega (arith, differ-zero (c % 2))) a b,
  bit_xor-bitwise a b,
  bit_xor-bitwise (a / 2) (b / 2),
)

equal_of_xor_fuel : (n a b : ℕ) → a + b ≤ n → bit_xor a b ≡ 0 → a ≡ b
equal_of_xor_fuel zero a b h e = omega arith
equal_of_xor_fuel (suc n) zero b h e = omega (arith, bit_xor-bitwise 0 b)
equal_of_xor_fuel (suc n) (suc a) b h e =
    let step = bit_xor_step (suc a) b in
    let halves : (suc a / 2) ≡ (b / 2) =
      equal_of_xor_fuel n (suc a / 2) (b / 2) (omega arith) (omega arith) in
    let lows : (suc a % 2) ≡ (b % 2) =
      differ_digits (suc a % 2) (b % 2) (omega arith) (omega arith) (omega arith) in
    omega arith

-- Only equal numbers have the exclusive or 0.
pub equal_of_xor : (a b : ℕ) → bit_xor a b ≡ 0 → a ≡ b
equal_of_xor a b e = equal_of_xor_fuel (a + b) a b (omega arith) e

differ_refl : (a : ℕ) → differ a a ≡ 0
differ_refl zero = refl
differ_refl (suc a) = differ_refl a

xor_self_fuel : (n a : ℕ) → a ≤ n → bit_xor a a ≡ 0
xor_self_fuel n zero h = omega (arith, bit_xor-bitwise 0 0)
xor_self_fuel zero (suc a) h = absurd (omega arith)
xor_self_fuel (suc n) (suc a) h = omega (
  arith,
  bit_xor_step (suc a) (suc a),
  xor_self_fuel n (suc a / 2) (omega arith),
  differ_refl (suc a % 2),
)

pub xor_self : (a : ℕ) → bit_xor a a ≡ 0
xor_self a = xor_self_fuel a a (omega arith)

or_zero_fuel : (n a b : ℕ) → a + b ≤ n → bit_or a b ≡ 0 → (a ≡ 0) × (b ≡ 0)
or_zero_fuel zero a b h e = (omega arith, omega arith)
or_zero_fuel (suc n) a b h e =
    let step = bit_or_step a b in
    let halves = or_zero_fuel n (a / 2) (b / 2) (omega arith) (omega arith) in
    (omega arith, omega arith)

pub or_zero : (a b : ℕ) → bit_or a b ≡ 0 → (a ≡ 0) × (b ≡ 0)
or_zero a b e = or_zero_fuel (a + b) a b (omega arith) e

differ-le : (a b : ℕ) → a ≤ 1 → b ≤ 1 → differ a b ≤ 1
differ-le zero b h k = k
differ-le (suc a) zero h k = h
differ-le (suc a) (suc b) h k =
    let e : a ≡ 0 = omega arith in let f : b ≡ 0 = omega arith in rw (e, f) (omega arith)

pub xor-lt : (k a b : ℕ) → a < 2 ^ k → b < 2 ^ k → bit_xor a b < 2 ^ k
xor-lt zero a b h l =
    let e : a ≡ 0 = omega arith in
    let f : b ≡ 0 = omega arith in rw (e, f) (omega (arith, xor_self 0))
xor-lt (suc k) a b h l = omega (
  arith,
  pow-suc 2 k,
  bit_xor_step a b,
  differ-le (a % 2) (b % 2) (omega arith) (omega arith),
  xor-lt k (a / 2) (b / 2) (omega (arith, pow-suc 2 k)) (omega (arith, pow-suc 2 k)),
)
