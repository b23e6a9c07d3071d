-- ===== src/Reliable/AckTracker/Window.antt =====
-- What the tracker of ReliableUdpProtocol.h reports: the received numbers among the newest and the
-- 32 before it.
use windows_iocp_udp.Prelude.{
  ℕ, ◌+◌, ◌-◌, ◌*◌, ◌≤◌, ◌<◌, ◌^◌, ◌≡◌, ◌≢◌, ◌⊎◌, refl, ap, Bool, true, false, ◌&&◌, ◌||◌, arith,
  leb, ◌==◌, bit_or,
}
use windows_iocp_udp.Prelude.Words.{u32_mod, sub32, add32}
use windows_iocp_udp.Prelude.Bits.{
  test_bit, test_bit-or, test_bit-pow, test_bit-shl, test_bit-mod, test_bit-zero, bit_and-pow,
}
use windows_iocp_udp.Sequence.{is_sequence_newer, newer-eq-distance}
use windows_iocp_udp.Reliable.AckTracker.{
  AckTracker, is_sequence_acked_by, is_sequence_acked, observe_newer, observe_older,
  observe_received_sequence, shl32,
}

-- The distance back from `latest` is at most 32.
abbrev pub within : ℕ → ℕ → Bool
within latest sequence = leb (sub32 latest sequence) 32

-- The bit that stands for a distance of at least 1.
pub acked_by-read :
    (sequence latest bits : ℕ)
    → sequence < u32_mod
    → latest < u32_mod
    → is_sequence_acked_by sequence latest bits
      ≡ (sequence == latest || within latest sequence && test_bit bits (sub32 latest sequence - 1))
unfolding is_sequence_acked_by is_sequence_newer
acked_by-read sequence latest bits hs hl =
    ground (arith, bit_and-pow bits (sub32 latest sequence - 1))

-- A jump by exactly 32 shifts a word by its width; the laws ask that this clears the word.
abbrev pub ShiftDefined : (ℕ → ℕ) → AckTracker → ℕ → Type 0
ShiftDefined wide t sequence =
    (sub32 sequence t.latest_received_sequence ≢ 32) ⊎ (wide t.ack_bitfield ≡ 0)

-- The 32 digits after a shift by the distance and the mark of the old newest number.
shifted_bit :
    (wide : ℕ → ℕ) (bits d k : ℕ)
    → 0 < d
    → d ≤ 32
    → (d ≢ 32) ⊎ (wide bits ≡ 0)
    → k < 32
    → test_bit (bit_or (shl32 wide bits d) (2 ^ (d - 1))) k
      ≡ (k == d - 1 || leb d k && test_bit bits (k - d))
shifted_bit wide bits d k h0 h ok hk = ground (
  arith,
  test_bit-or (shl32 wide bits d) (2 ^ (d - 1)) k,
  test_bit-pow (d - 1) k,
  test_bit-mod (bits * 2 ^ d) 32 k,
  test_bit-shl bits d k,
  test_bit-zero k,
  ap (λ (a : ℕ). test_bit a k) {x = wide bits} {y = 0},
)

module _ (wide : ℕ → ℕ) (t : AckTracker) (s x : ℕ) (hl : t.latest_received_sequence < u32_mod)
    (hs : s < u32_mod) (hx : x < u32_mod) where
  abbrev old : ℕ
  old = t.latest_received_sequence

  newer_acks :
      ShiftDefined wide t s
      → 0 < sub32 s old
      → sub32 s old < 2 ^ 31
      → is_sequence_acked_by x s (observe_newer wide t s).ack_bitfield
        ≡ (within s x && (x == s || is_sequence_acked_by x old t.ack_bitfield))
  unfolding observe_newer
  newer_acks ok h0 h1 = ground (
    arith,
    acked_by-read x s (observe_newer wide t s).ack_bitfield hx hs,
    acked_by-read x old t.ack_bitfield hx hl,
    shifted_bit wide t.ack_bitfield (sub32 s old) (sub32 s x - 1) h0,
    test_bit-zero (sub32 s x - 1),
  )

  older_acks :
      2 ^ 31 ≤ sub32 s old
      → is_sequence_acked_by x old (observe_older wide t s).ack_bitfield
        ≡ (within old x && (x == s || is_sequence_acked_by x old t.ack_bitfield))
  unfolding observe_older
  older_acks h1 = ground (
    arith,
    acked_by-read x old (observe_older wide t s).ack_bitfield hx hl,
    acked_by-read x old t.ack_bitfield hx hl,
    test_bit-or t.ack_bitfield (2 ^ (sub32 old s - 1)) (sub32 old x - 1),
    test_bit-pow (sub32 old s - 1) (sub32 old x - 1),
  )

pub latest-observe_newer :
    (wide : ℕ → ℕ) (t : AckTracker) (s : ℕ)
    → ((observe_newer wide t s).latest_received_sequence ≡ s)
      × ((observe_newer wide t s).has_received_any_sequence ≡ t.has_received_any_sequence)
unfolding observe_newer
latest-observe_newer wide t s = (refl, refl)

pub latest-observe_older :
    (wide : ℕ → ℕ) (t : AckTracker) (s : ℕ)
    → ((observe_older wide t s).latest_received_sequence ≡ t.latest_received_sequence)
      × ((observe_older wide t s).has_received_any_sequence ≡ t.has_received_any_sequence)
unfolding observe_older
latest-observe_older wide t s = ground arith

first_acks :
    (s x : ℕ)
    → s < u32_mod
    → x < u32_mod
    → is_sequence_acked_by x s 0 ≡ (within s x && (x == s || false))
first_acks s x hs hx = ground (arith, acked_by-read x s 0 hx hs, test_bit-zero (sub32 s x - 1))

same_acks :
    (t : AckTracker) (x : ℕ)
    → t.latest_received_sequence < u32_mod
    → x < u32_mod
    → let latest = t.latest_received_sequence in
      let reported = is_sequence_acked_by x latest t.ack_bitfield in
      reported ≡ (within latest x && (x == latest || reported))
same_acks t x hl hx =
    ground (arith, acked_by-read x t.latest_received_sequence t.ack_bitfield hx hl)

-- After a number is observed, a number is reported as received exactly when it lies within 32 of the
-- newest one and is that number or was reported before. All numbers are 32-bit, and where the newest
-- number moves by exactly 32 the processor's shift by 32 is taken to clear the word.
pub acked-observe :
    (wide : ℕ → ℕ) (t : AckTracker) (s x : ℕ)
    → t.latest_received_sequence < u32_mod
    → s < u32_mod
    → x < u32_mod
    → ShiftDefined wide t s
    → is_sequence_acked (observe_received_sequence wide t s) x ≡ (
        within (observe_received_sequence wide t s).latest_received_sequence x
        && (x == s || is_sequence_acked t x))
unfolding is_sequence_acked observe_received_sequence
acked-observe wide t s x hl hs hx ok = ground (
  arith,
  newer-eq-distance s t.latest_received_sequence hs hl,
  newer_acks wide t s x hl hs hx ok,
  older_acks wide t s x hl hs hx,
  latest-observe_newer wide t s,
  latest-observe_older wide t s,
  first_acks s x hs hx,
  same_acks t x hl hx,
)

-- The newest number after any observations is a 32-bit number.
pub latest-observe-lt :
    (wide : ℕ → ℕ) (t : AckTracker) (s : ℕ)
    → t.latest_received_sequence < u32_mod
    → s < u32_mod
    → (observe_received_sequence wide t s).latest_received_sequence < u32_mod
unfolding observe_received_sequence
latest-observe-lt wide t s hl hs =
    ground (arith, latest-observe_newer wide t s, latest-observe_older wide t s)

-- On a processor whose shift by 32 leaves a 32-bit word unchanged, a jump by exactly 32 makes the
-- tracker report numbers that it never reported before: each number received among the 31 before the
-- old newest one is reported again at the same distance below the new one.
pub phantom_ack :
    (t : AckTracker) (k : ℕ)
    → t.has_received_any_sequence ≡ true
    → t.latest_received_sequence < u32_mod
    → k < 31
    → test_bit t.ack_bitfield k ≡ true
    → let s = add32 t.latest_received_sequence 32 in
      (is_sequence_acked (observe_received_sequence (λ a. a) t s) (sub32 s (k + 1)) ≡ true)
      × (is_sequence_acked t (sub32 s (k + 1)) ≡ false)
unfolding is_sequence_acked observe_received_sequence observe_newer is_sequence_newer
phantom_ack t k has hl hk hb = ground (
  arith,
  acked_by-read (sub32 (add32 t.latest_received_sequence 32) (k + 1))
      (add32 t.latest_received_sequence 32) (bit_or t.ack_bitfield (2 ^ 31)),
  acked_by-read (sub32 (add32 t.latest_received_sequence 32) (k + 1)) t.latest_received_sequence
      t.ack_bitfield,
  test_bit-or t.ack_bitfield (2 ^ 31) k,
)
