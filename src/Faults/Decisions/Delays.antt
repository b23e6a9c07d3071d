-- ===== src/Faults/Decisions/Delays.antt =====
-- By how much a decision of UdpFaultDecisionGenerator.cpp makes a packet late.
use native.Mathlib.Nat.{mul-le-mul_left}
use windows_iocp_udp.Prelude.{
  ℕ, ◌+◌, ◌*◌, ◌≤◌, ◌≡◌, refl, Bool, true, ltb, if◌then◌else◌, arith, Bool-cases, inl, inr,
}
use windows_iocp_udp.Prelude.Int.{ℤ, pos, negsuc, clamp_zero, same_id, leb_id, scale_id, ◌+ℤ◌}
use windows_iocp_udp.Game.{Floats}
use windows_iocp_udp.Faults.Decisions.{
  UdpFaultSimulationConfig, Random, Generator, normalize_config, roll, generate_delay, generate,
}

-- What a uniform distribution of integers promises.
abbrev pub DrawsInRange : {Engine : Type 0} → Random Engine → Type 0
DrawsInRange {Engine} r =
    (low high : ℤ) (e : Engine)
    → leb_id low high ≡ true
    → (leb_id low (r.draw_int low high e).0 ≡ true) × (leb_id (r.draw_int low high e).0 high ≡ true)

-- The longest delay of a configuration, in milliseconds.
abbrev pub longest_delay : UdpFaultSimulationConfig → ℕ
longest_delay c =
    let low = clamp_zero c.min_delay in
    let high = clamp_zero c.max_delay in
    (if ltb high low then low else high) + clamp_zero c.reorder_delay

-- Delays of a configuration in use, which are not negative and sum up to the limit at most.
pub record IsWithin (limit : ℕ) (c : UdpFaultSimulationConfig) : Type 0 where
  low : ℕ
  high : ℕ
  reorder : ℕ
  min_is : c.min_delay ≡ pos low
  max_is : c.max_delay ≡ pos high
  reorder_is : c.reorder_delay ≡ pos reorder
  rises : low ≤ high
  sum : high + reorder ≤ limit

pub normalize-IsWithin :
    (f : Floats) (c : UdpFaultSimulationConfig) → IsWithin (longest_delay c) (normalize_config f c)
unfolding normalize_config
normalize-IsWithin f c = record {
  low =
      let low = clamp_zero c.min_delay in
      let high = clamp_zero c.max_delay in if ltb high low then high else low;
  high =
      let low = clamp_zero c.min_delay in
      let high = clamp_zero c.max_delay in if ltb high low then low else high;
  reorder = clamp_zero c.reorder_delay;
  min_is = refl;
  max_is = refl;
  reorder_is = refl;
  rises = ground arith;
  sum = omega arith;
}

module _ {Engine : Type 0} (f : Floats) (r : Random Engine) (millisecond : ℕ) where
  delay_from :
      (drawn : ℤ) (low high : ℕ)
      → leb_id (pos low) drawn ≡ true
      → leb_id drawn (pos high) ≡ true
      → (n : ℕ) × (drawn ≡ pos n) × (n ≤ high)
  delay_from (pos n) low high l h = (n, refl, ground arith)
  delay_from (negsuc n) low high l h = ground arith

  generate_delay-bound :
      (c : UdpFaultSimulationConfig) (limit : ℕ) (e : Engine)
      → DrawsInRange r
      → (w : IsWithin limit c)
      → (n : ℕ) × ((generate_delay f r millisecond c e).0 ≡ pos (millisecond * n)) × (n ≤ w.high)
  unfolding generate_delay
  generate_delay-bound c limit e draws w =
      let range = draws (pos w.low) (pos w.high) e (ground (arith, w.rises)) in
      let (n, drawn, below) =
        delay_from (r.draw_int (pos w.low) (pos w.high) e).0 w.low w.high range.0 range.1 in
      elim (Bool-cases (same_id (pos w.low) (pos w.high))) [
        | inl same ↦ (w.low, rw (w.min_is, w.max_is, same) refl, w.rises)
        | inr differ ↦ (n, rw (w.min_is, w.max_is, differ, drawn) refl, below)
      ]

  reordered-bound :
      (is_reordered : Bool) (delay : ℤ) (n reorder limit : ℕ)
      → delay ≡ pos (millisecond * n)
      → n + reorder ≤ limit
      → clamp_zero (if is_reordered then delay +ℤ scale_id millisecond (pos reorder) else delay)
        ≤ millisecond * limit
  unfolding ◌+ℤ◌
  reordered-bound is_reordered delay n reorder limit e h =
      rw e (ground (arith, mul-le-mul_left millisecond h))

  -- A decision is late by the limit at most.
  pub generate-bound :
      (g : Generator Engine) (limit : ℕ)
      → DrawsInRange r
      → IsWithin limit g.config
      → clamp_zero (generate f r millisecond g).0.delay ≤ millisecond * limit
  unfolding generate generate_delay
  generate-bound g limit draws w =
      let dropped = roll f r millisecond g.config.drop_rate g.random_engine in
      let duplicated = roll f r millisecond g.config.duplicate_rate dropped.1 in
      let reordered = roll f r millisecond g.config.reorder_rate duplicated.1 in
      let (n, e, below) = generate_delay-bound g.config limit reordered.1 draws w in
      let late =
        reordered-bound reordered.0 (generate_delay f r millisecond g.config reordered.1).0 n
          w.reorder limit e (omega (arith, below, w.sum)) in
      elim (Bool-cases g.config.enabled) [
        | inr off ↦ rw off (omega arith)
        | inl on ↦ elim (Bool-cases dropped.0) [
          | inl is_dropped ↦ rw (on, is_dropped) (omega arith)
          | inr is_kept ↦ rw (on, is_kept, w.reorder_is) late
        ]
      ]

  pub generate-config : (g : Generator Engine) → (generate f r millisecond g).1.config ≡ g.config
  unfolding generate
  generate-config g = ground arith
