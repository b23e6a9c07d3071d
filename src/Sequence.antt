-- ===== src/Sequence.antt =====
-- Common/Net/SequenceNumber.h: 32-bit sequence numbers that go round.
use windows_iocp_udp.Prelude.{
  ℕ, ◌-◌, ◌<◌, ◌^◌, ◌≡◌, ◌≢◌, ◌⊎◌, Bool, true, false, ◌&&◌, ◌||◌, arith, ltb, ◌==◌, if◌then◌else◌,
}
use windows_iocp_udp.Prelude.Words.{u32_mod, sub32}

abbrev pub sequence_number_half_range : ℕ
sequence_number_half_range = 2 ^ 31

unfoldable pub is_sequence_newer : ℕ → ℕ → Bool
is_sequence_newer lhs rhs =
    if lhs == rhs
    then false
    else if ltb rhs lhs
    then ltb (lhs - rhs) sequence_number_half_range
    else ltb sequence_number_half_range (rhs - lhs)

unfoldable pub is_sequence_older : ℕ → ℕ → Bool
unfolding is_sequence_newer
is_sequence_older lhs rhs = is_sequence_newer rhs lhs

unfoldable pub is_sequence_older_or_equal : ℕ → ℕ → Bool
unfolding is_sequence_older
is_sequence_older_or_equal lhs rhs = lhs == rhs || is_sequence_older lhs rhs

-- On 32-bit numbers the test reads the distance forward from `rhs` to `lhs`, modulo 2 ^ 32: it holds
-- exactly when that distance is above 0 and below 2 ^ 31.
pub newer-eq-distance :
    (lhs rhs : ℕ)
    → lhs < u32_mod
    → rhs < u32_mod
    → is_sequence_newer lhs rhs
      ≡ (ltb 0 (sub32 lhs rhs) && ltb (sub32 lhs rhs) sequence_number_half_range)
unfolding is_sequence_newer
newer-eq-distance lhs rhs hl hr = ground arith

-- Of two 32-bit numbers exactly one case holds: they are equal, the first is newer, the first is
-- older, or they lie 2 ^ 31 apart and neither is newer.
pub newer_cases :
    (lhs rhs : ℕ)
    → lhs < u32_mod
    → rhs < u32_mod
    → ((lhs ≡ rhs) × (is_sequence_newer lhs rhs ≡ false) × (is_sequence_older lhs rhs ≡ false))
      ⊎ ((lhs ≢ rhs) × (is_sequence_newer lhs rhs ≡ true) × (is_sequence_older lhs rhs ≡ false))
      ⊎ ((lhs ≢ rhs) × (is_sequence_newer lhs rhs ≡ false) × (is_sequence_older lhs rhs ≡ true))
      ⊎ ((sub32 lhs rhs ≡ sequence_number_half_range)
          × (is_sequence_newer lhs rhs ≡ false)
          × (is_sequence_older lhs rhs ≡ false))
unfolding is_sequence_newer is_sequence_older
newer_cases lhs rhs hl hr = ground arith
