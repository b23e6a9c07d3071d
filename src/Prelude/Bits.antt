-- ===== src/Prelude/Bits.antt =====
-- Binary digits of a word: `|` and `<<` act on each digit, and `&` with one bit reads it.
use Prim.Native.Nat.{
  ℕ, zero, suc, ◌+◌, ◌-◌, ◌*◌, ◌/◌, ◌%◌, ◌^◌, ◌≤◌, ◌<◌, min, max, bit_and, bit_or, digits, bitwise,
  bit_and-bitwise, bit_or-bitwise,
}
use mathlib.Core.Path.{◌≡◌, refl, sym, ap, ◌∙◌}
use mathlib.Core.Bool.{Bool, false, not, ◌&&◌, ◌||◌}
use native.Mathlib.Nat.{
  pow-suc, pow-succ', one-le-pow, add-mul-mod_self_left, mod-eq_of_lt, mod-lt, mod-add-div,
  div-div-eq-div-mul,
}
use native.Mathlib.Omega.{arith}
use windows_iocp_udp.Prelude.Tests.{◌==◌, ltb, leb}

-- The digit of weight `2 ^ k`.
unfoldable pub test_bit : ℕ → ℕ → Bool
test_bit a zero = a % 2 == 1
test_bit a (suc k) = test_bit (a / 2) k

-- The laws of a digitwise operation, for all of them at once: `z` answers once the first number has run
-- out, and `f` acts on two digits.
module _ (z : ℕ → ℕ) (f : ℕ → ℕ → ℕ) where
  one_more : (n a b : ℕ) → a ≤ n → digits z f (suc n) a b ≡ digits z f n a b
  one_more zero zero b enough = refl
  one_more zero (suc a) b enough = absurd (omega arith)
  one_more (suc n) zero b enough = refl
  one_more (suc n) (suc a) b enough = omega (arith, one_more n (suc a / 2) (b / 2) (omega arith))

  spare_count : (extra n a b : ℕ) → a ≤ n → digits z f (n + extra) a b ≡ digits z f n a b
  spare_count zero n a b enough =
      let e : n + 0 ≡ n = omega arith in ap (λ (t : ℕ). digits z f t a b) e
  spare_count (suc extra) n a b enough =
      let e : n + suc extra ≡ suc (n + extra) = omega arith in
      ap (λ (t : ℕ). digits z f t a b) e
      ∙ one_more (n + extra) a b (omega arith)
      ∙ spare_count extra n a b enough

  pub lowest_digit :
      ((b : ℕ) → z b ≡ z (b / 2) * 2 + f 0 (b % 2))
      → (a b : ℕ) → bitwise z f a b ≡ bitwise z f (a / 2) (b / 2) * 2 + f (a % 2) (b % 2)
  lowest_digit at_end zero b = at_end b
  lowest_digit at_end (suc a) b =
      let half = suc a / 2 in
      let left : half + (a - half) ≡ a = omega arith in
      let less = spare_count (a - half) half half (b / 2) (omega arith) in
      omega (arith, rw left at less)

pub bit_or_step : (a b : ℕ) → bit_or a b ≡ bit_or (a / 2) (b / 2) * 2 + max (a % 2) (b % 2)
bit_or_step a b = omega (
  arith,
  lowest_digit (λ c. c) max (λ c. omega arith) a b,
  bit_or-bitwise a b,
  bit_or-bitwise (a / 2) (b / 2),
)

pub bit_and_step : (a b : ℕ) → bit_and a b ≡ bit_and (a / 2) (b / 2) * 2 + min (a % 2) (b % 2)
bit_and_step a b = omega (
  arith,
  lowest_digit (λ c. 0) min (λ c. omega arith) a b,
  bit_and-bitwise a b,
  bit_and-bitwise (a / 2) (b / 2),
)

no_common_digits : (n a : ℕ) → digits (λ c. 0) min n a 0 ≡ 0
no_common_digits zero a = refl
no_common_digits (suc n) zero = refl
no_common_digits (suc n) (suc a) = omega (arith, no_common_digits n (suc a / 2))

bit_and-zero : (a : ℕ) → bit_and a 0 ≡ 0
bit_and-zero a = omega (arith, bit_and-bitwise a 0, no_common_digits a a)

pub test_bit-or : (a b k : ℕ) → test_bit (bit_or a b) k ≡ (test_bit a k || test_bit b k)
unfolding test_bit
test_bit-or a b zero = ground (arith, bit_or_step a b)
test_bit-or a b (suc k) =
    let e : bit_or a b / 2 ≡ bit_or (a / 2) (b / 2) = omega (arith, bit_or_step a b) in
    ap (λ t. test_bit t k) e ∙ test_bit-or (a / 2) (b / 2) k

pub test_bit-zero : (k : ℕ) → test_bit 0 k ≡ false
unfolding test_bit
test_bit-zero zero = refl
test_bit-zero (suc k) = test_bit-zero k

two_pow_half : (j : ℕ) → 2 ^ suc j / 2 ≡ 2 ^ j
two_pow_half j = omega (arith, pow-suc 2 j)

two_pow_even : (j : ℕ) → 2 ^ suc j % 2 ≡ 0
two_pow_even j = omega (arith, pow-suc 2 j)

-- One bit has one digit set.
pub test_bit-pow : (j k : ℕ) → test_bit (2 ^ j) k ≡ (j == k)
unfolding test_bit
test_bit-pow zero zero = refl
test_bit-pow zero (suc k) = test_bit-zero k ∙ ground arith
test_bit-pow (suc j) zero = ground (arith, two_pow_even j)
test_bit-pow (suc j) (suc k) =
    ap (λ t. test_bit t k) (two_pow_half j) ∙ test_bit-pow j k ∙ ground arith

-- `(a & (1 << k)) != 0` reads the digit.
pub bit_and-pow : (a k : ℕ) → (bit_and a (2 ^ k) == 0) ≡ not (test_bit a k)
unfolding test_bit
bit_and-pow a zero = ground (arith, bit_and_step a 1, bit_and-zero (a / 2))
bit_and-pow a (suc k) = ground (
  arith,
  bit_and_step a (2 ^ suc k),
  two_pow_even k,
  ap (λ (t : ℕ). bit_and (a / 2) t) (two_pow_half k),
  bit_and-pow (a / 2) k,
)

mul_two_pow : (a d : ℕ) → a * 2 ^ suc d ≡ 2 * (a * 2 ^ d)
mul_two_pow a d = omega (arith, ap (λ (t : ℕ). a * t) (pow-suc 2 d))

-- `a << d` before the wrap-around.
pub test_bit-shl : (a d k : ℕ) → test_bit (a * 2 ^ d) k ≡ (leb d k && test_bit a (k - d))
unfolding test_bit
test_bit-shl a zero k =
    let e : a * 1 ≡ a = omega arith in
    let f : k - 0 ≡ k = omega arith in ap (λ t. test_bit t k) e ∙ ground (arith, f)
test_bit-shl a (suc d) zero = ground (arith, mul_two_pow a d)
test_bit-shl a (suc d) (suc k) =
    let e : a * 2 ^ suc d / 2 ≡ a * 2 ^ d = omega (arith, mul_two_pow a d) in
    let f : suc k - suc d ≡ k - d = omega arith in
    ap (λ t. test_bit t k) e ∙ test_bit-shl a d k ∙ ground (arith, f)

mod_double : (a m : ℕ) → 0 < m → a % (2 * m) ≡ 2 * (a / 2 % m) + a % 2
mod_double a m h =
    ap (λ (t : ℕ). t % (2 * m)) split
    ∙ add-mul-mod_self_left (2 * (a / 2 % m) + a % 2) (2 * m) (a / 2 / m)
    ∙ mod-eq_of_lt (omega (arith, mod-lt (a / 2) h))
  where
    split : a ≡ 2 * (a / 2 % m) + a % 2 + 2 * m * (a / 2 / m)
    split = omega (arith, mod-add-div (a / 2) m)

mod_two_pow : (a w : ℕ) → a % 2 ^ suc w ≡ 2 * (a / 2 % 2 ^ w) + a % 2
mod_two_pow a w =
    ap (λ (t : ℕ). a % t) (pow-succ' 2 w) ∙ mod_double a (2 ^ w) (one-le-pow w 2 (omega arith))

-- Wrap-around cuts the digits off at the width.
pub test_bit-mod : (a w k : ℕ) → test_bit (a % 2 ^ w) k ≡ (ltb k w && test_bit a k)
unfolding test_bit
test_bit-mod a zero k =
    let e : a % 1 ≡ 0 = omega arith in ap (λ t. test_bit t k) e ∙ test_bit-zero k ∙ ground arith
test_bit-mod a (suc w) zero = ground (arith, mod_two_pow a w)
test_bit-mod a (suc w) (suc k) =
    let e : a % 2 ^ suc w / 2 ≡ a / 2 % 2 ^ w = omega (arith, mod_two_pow a w) in
    ap (λ t. test_bit t k) e ∙ test_bit-mod (a / 2) w k ∙ ground arith

-- Joining a number below `2 ^ k` with one shifted by `k` adds them.
pub bit_or_disjoint : (k r q : ℕ) → r < 2 ^ k → bit_or r (q * 2 ^ k) ≡ r + q * 2 ^ k
bit_or_disjoint zero zero q h = omega (arith, bit_or-bitwise 0 (q * 1))
bit_or_disjoint zero (suc r) q h = absurd (omega arith)
bit_or_disjoint (suc k) r q h = ground (
  arith,
  bit_or_step r (q * 2 ^ suc k),
  mul_two_pow q k,
  pow-suc 2 k,
  bit_or_disjoint k (r / 2) q (omega (arith, pow-suc 2 k)),
)

only_digits : (n a : ℕ) → a ≤ n → digits (λ b. b) max n a 0 ≡ a
only_digits zero a h = omega (arith, h)
only_digits (suc n) zero h = refl
only_digits (suc n) (suc a) h = omega (arith, only_digits n (suc a / 2) (omega arith))

bit_or-zero : (a : ℕ) → bit_or a 0 ≡ a
bit_or-zero a = omega (arith, bit_or-bitwise a 0, only_digits a a (omega arith))

-- So it does in the other order.
pub bit_or_shifted : (k q r : ℕ) → r < 2 ^ k → bit_or (q * 2 ^ k) r ≡ q * 2 ^ k + r
bit_or_shifted zero q zero h = omega (arith, bit_or-zero (q * 1))
bit_or_shifted zero q (suc r) h = absurd (omega arith)
bit_or_shifted (suc k) q r h = ground (
  arith,
  bit_or_step (q * 2 ^ suc k) r,
  mul_two_pow q k,
  pow-suc 2 k,
  bit_or_shifted k q (r / 2) (omega (arith, pow-suc 2 k)),
)

-- `a & (2 ^ k - 1)` keeps the low digits.
pub bit_and_mask : (k a : ℕ) → bit_and a (2 ^ k - 1) ≡ a % 2 ^ k
bit_and_mask zero a = omega (arith, bit_and-zero a)
bit_and_mask (suc k) a =
    let half : (2 ^ suc k - 1) / 2 ≡ 2 ^ k - 1 = omega (arith, pow-suc 2 k, one-le-pow k 2) in
    let odd : (2 ^ suc k - 1) % 2 ≡ 1 = omega (arith, pow-suc 2 k, one-le-pow k 2) in
    omega (
      arith,
      bit_and_step a (2 ^ suc k - 1),
      ap (λ (t : ℕ). bit_and (a / 2) t) half,
      bit_and_mask k (a / 2),
      mod_two_pow a k,
    )

pub test_bit-div : (a k : ℕ) → test_bit a k ≡ (a / 2 ^ k % 2 == 1)
unfolding test_bit
test_bit-div a zero = let e : a / 1 ≡ a = omega arith in ap (λ (t : ℕ). t % 2 == 1) (sym e)
test_bit-div a (suc k) =
    let e : a / 2 / 2 ^ k ≡ a / 2 ^ suc k =
      div-div-eq-div-mul a 2 (2 ^ k) ∙ ap (λ (t : ℕ). a / t) (sym (pow-succ' 2 k)) in
    test_bit-div (a / 2) k ∙ ap (λ (t : ℕ). t % 2 == 1) e
