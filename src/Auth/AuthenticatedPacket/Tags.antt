-- ===== src/Auth/AuthenticatedPacket/Tags.antt =====
-- The comparison of tags in PacketAuthenticator.cpp, which reads every byte of both.
use Prim.Native.Nat.{bit_xor, bit_or-bitwise}
use windows_iocp_udp.Prelude.{
  ℕ, ◌%◌, ◌^◌, ◌<◌, ◌≡◌, refl, ap, ◌∙◌, bit_or, List, [], ◌∷◌, length, arith,
}
use windows_iocp_udp.Prelude.Xor.{equal_of_xor, xor_self, or_zero, xor-lt}
use windows_iocp_udp.Packet.Header.{Bytes}
use windows_iocp_udp.Auth.AuthenticatedPacket.{difference_loop}

-- The difference is 0 for equal tags only.
pub difference_equal :
    (d : ℕ) (es ts : List ℕ)
    → Bytes es
    → Bytes ts
    → length es ≡ length ts
    → difference_loop d es ts ≡ 0
    → (d ≡ 0) × (es ≡ ts)
unfolding difference_loop
difference_equal d [] [] be bt l h = (h, refl)
difference_equal d [] (t ∷ ts) be bt l h = absurd (omega arith)
difference_equal d (e ∷ es) [] be bt l h = absurd (omega arith)
difference_equal d (e ∷ es) (t ∷ ts) be bt l h =
    let (joined, rest) =
      difference_equal (bit_or d (bit_xor e t % 2 ^ 8)) es ts be.1 bt.1 (omega arith) h in
    let (before, byte) = or_zero d (bit_xor e t % 2 ^ 8) joined in
    let small : bit_xor e t < 2 ^ 8 = xor-lt 8 e t be.0 bt.0 in
    let same : e ≡ t = equal_of_xor e t (omega arith) in
    (before, ap (λ (x : ℕ). x ∷ es) same ∙ ap (λ xs. t ∷ xs) rest)

joined_zero : bit_or 0 0 ≡ 0
joined_zero = bit_or-bitwise 0 0

pub difference_self : (ts : List ℕ) → difference_loop 0 ts ts ≡ 0
unfolding difference_loop
difference_self [] = refl
difference_self (t ∷ ts) =
    let e : bit_or 0 (bit_xor t t % 2 ^ 8) ≡ 0 =
      let nothing : bit_xor t t % 2 ^ 8 ≡ 0 = omega (arith, xor_self t) in
      ap (λ (x : ℕ). bit_or 0 x) nothing ∙ joined_zero in
    ap (λ (d : ℕ). difference_loop d ts ts) e ∙ difference_self ts
