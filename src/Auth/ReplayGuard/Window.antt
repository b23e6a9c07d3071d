-- ===== src/Auth/ReplayGuard/Window.antt =====
-- What one observation of the guard of PacketReplayGuard.cpp answers and remembers.
use windows_iocp_udp.Prelude.{
  ℕ, ◌-◌, ◌*◌, ◌≤◌, ◌<◌, ◌^◌, ◌≡◌, Bool, true, false, ◌&&◌, ◌||◌, arith, ltb, leb, ◌==◌,
  if◌then◌else◌,
}
use windows_iocp_udp.Prelude.Words.{u32_mod, sub32}
use windows_iocp_udp.Prelude.Bits.{
  test_bit, test_bit-or, test_bit-pow, test_bit-shl, test_bit-mod, test_bit-zero,
}
use windows_iocp_udp.Sequence.{newer-eq-distance}
use windows_iocp_udp.Auth.ReplayGuard.{
  ReplayGuard, new_sequence, duplicate, too_old, set_bit, shift_bits, observe_newer, observe_older,
  observe,
}

abbrev pub within : ℕ → ℕ → Bool
within latest sequence = ltb (sub32 latest sequence) 256

-- The number is marked as received.
unfoldable pub received : ReplayGuard → ℕ → Bool
received g x =
    g.has_received_sequence
    && (within g.latest_sequence x && test_bit g.received_bitfield (sub32 g.latest_sequence x))

-- Nothing is marked before the first number, and the newest number is marked.
pub record IsValid (g : ReplayGuard) : Type 0 where
  pub small : g.latest_sequence < u32_mod
  pub clean : g.has_received_sequence ≡ false → g.received_bitfield ≡ 0
  pub marked : g.has_received_sequence ≡ true → test_bit g.received_bitfield 0 ≡ true

marks : (bits i k : ℕ) → test_bit (set_bit bits i) k ≡ (test_bit bits k || i == k)
marks bits i k = ground (arith, test_bit-or bits (2 ^ i) k, test_bit-pow i k)

shifted :
    (bits d k : ℕ)
    → test_bit (shift_bits bits d) k ≡ (ltb k 256 && (leb d k && test_bit bits (k - d)))
shifted bits d k = ground (arith, test_bit-mod (bits * 2 ^ d) 256 k, test_bit-shl bits d k)

module _ (g : ReplayGuard) (s x : ℕ) (hl : g.latest_sequence < u32_mod) (hs : s < u32_mod)
    (hx : x < u32_mod) where
  newer_received :
      0 < sub32 s g.latest_sequence
      → sub32 s g.latest_sequence < 2 ^ 31
      → (within s x && test_bit (observe_newer g s).1.received_bitfield (sub32 s x)) ≡ (
          within s x
          && (x == s
              || (within g.latest_sequence x
                  && test_bit g.received_bitfield (sub32 g.latest_sequence x))))
  unfolding observe_newer
  newer_received h0 h1 = ground (
    arith,
    marks 0 0 (sub32 s x),
    marks (shift_bits g.received_bitfield (sub32 s g.latest_sequence)) 0 (sub32 s x),
    shifted g.received_bitfield (sub32 s g.latest_sequence) (sub32 s x),
    test_bit-zero (sub32 s x),
  )

  older_received :
      2 ^ 31 ≤ sub32 s g.latest_sequence
      → (within g.latest_sequence x
          && test_bit (observe_older g s).1.received_bitfield (sub32 g.latest_sequence x))
        ≡ (within g.latest_sequence x
            && (x == s
                || (within g.latest_sequence x
                    && test_bit g.received_bitfield (sub32 g.latest_sequence x))))
  unfolding observe_older
  older_received h1 =
      ground
        (arith, marks g.received_bitfield (sub32 g.latest_sequence s) (sub32 g.latest_sequence x))

pub newer_fields :
    (g : ReplayGuard) (s : ℕ)
    → ((observe_newer g s).0 ≡ new_sequence)
      × ((observe_newer g s).1.latest_sequence ≡ s)
      × ((observe_newer g s).1.has_received_sequence ≡ g.has_received_sequence)
      × (test_bit (observe_newer g s).1.received_bitfield 0 ≡ true)
unfolding observe_newer
newer_fields g s =
    ground
      (arith, marks 0 0 0, marks (shift_bits g.received_bitfield (sub32 s g.latest_sequence)) 0 0)

pub older_fields :
    (g : ReplayGuard) (s : ℕ)
    → ((observe_older g s).1.latest_sequence ≡ g.latest_sequence)
      × ((observe_older g s).1.has_received_sequence ≡ g.has_received_sequence)
      × (test_bit g.received_bitfield 0 ≡ true
          → test_bit (observe_older g s).1.received_bitfield 0 ≡ true)
      × ((observe_older g s).0 ≡ (
          if leb 256 (sub32 g.latest_sequence s)
          then too_old
          else if test_bit g.received_bitfield (sub32 g.latest_sequence s)
          then duplicate
          else new_sequence))
unfolding observe_older
older_fields g s = ground (arith, marks g.received_bitfield (sub32 g.latest_sequence s) 0)

-- An observation keeps the guard valid.
pub observe-IsValid : (g : ReplayGuard) (s : ℕ) → IsValid g → s < u32_mod → IsValid (observe g s).1
unfolding observe
observe-IsValid g s v hs =
    ground
      (arith, newer_fields g s, older_fields g s, marks g.received_bitfield 0 0, v.marked, v.clean)

-- An observation answers by the window up to the newest number after it: too old if the number lies 256
-- or more behind, duplicate if it was marked before, and new otherwise.
pub status-observe :
    (g : ReplayGuard) (s : ℕ)
    → IsValid g
    → s < u32_mod
    → (observe g s).0 ≡ (
        if within (observe g s).1.latest_sequence s
        then if received g s then duplicate else new_sequence
        else too_old)
unfolding observe received
status-observe g s v hs = ground (
  arith,
  newer_fields g s,
  older_fields g s,
  newer-eq-distance s g.latest_sequence hs v.small,
  v.marked,
  v.clean,
)

-- Afterwards the marked numbers are the observed one and those marked before, as far as they lie less
-- than 256 behind the newest.
pub received-observe :
    (g : ReplayGuard) (s x : ℕ)
    → IsValid g
    → s < u32_mod
    → x < u32_mod
    → received (observe g s).1 x
      ≡ (within (observe g s).1.latest_sequence x && (x == s || received g x))
unfolding observe received
received-observe g s x v hs hx = ground (
  arith,
  newer_fields g s,
  older_fields g s,
  newer-eq-distance s g.latest_sequence hs v.small,
  newer_received g s x v.small hs hx,
  older_received g s x v.small hs hx,
  marks g.received_bitfield 0 (sub32 s x),
  test_bit-zero (sub32 s x),
  v.marked,
  v.clean,
)
