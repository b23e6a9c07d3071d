-- ===== src/Faults/Decisions.antt =====
-- Common/Net/Fault/UdpFaultDecisionGenerator.h and .cpp: which faults a packet meets, and by how much it is
-- late. The generator of random numbers is the parameter `r`, `float` is the parameter `f`, and a
-- millisecond has `millisecond` ticks of the clock; the ticks are taken to stay within 64 bits.
pub mod Delays
use windows_iocp_udp.Prelude.{ℕ, Bool, true, false, not, ltb, if◌then◌else◌}
use windows_iocp_udp.Prelude.Int.{ℤ, pos, clamp_zero, same_id, scale_id, ◌+ℤ◌}
use windows_iocp_udp.Game.{Floats, float_zero, float_one, float_clamp}
use windows_iocp_udp.Faults.{Decision}

-- Delays are in milliseconds.
pub record UdpFaultSimulationConfig : Type 0 where
  pub enabled : Bool
  pub drop_rate : ℕ
  pub duplicate_rate : ℕ
  pub reorder_rate : ℕ
  pub min_delay : ℤ
  pub max_delay : ℤ
  pub reorder_delay : ℤ
  pub random_seed : ℕ

abbrev pub default_config : UdpFaultSimulationConfig
default_config = record {
  enabled = false;
  drop_rate = float_zero;
  duplicate_rate = float_zero;
  reorder_rate = float_zero;
  min_delay = pos 0;
  max_delay = pos 0;
  reorder_delay = pos 100;
  random_seed = 5489;
}

-- `std::mt19937` with the uniform distributions of `float` over [0, 1) and of the integers from one to another.
pub record Random (Engine : Type 0) : Type 0 where
  pub seed : ℕ → Engine
  pub draw_real : Engine → ℕ × Engine
  pub draw_int : ℤ → ℤ → Engine → ℤ × Engine

unfoldable pub normalize_config : Floats → UdpFaultSimulationConfig → UdpFaultSimulationConfig
normalize_config f c =
    let low = clamp_zero c.min_delay in
    let high = clamp_zero c.max_delay in
    record c {
      drop_rate = float_clamp f c.drop_rate float_zero float_one;
      duplicate_rate = float_clamp f c.duplicate_rate float_zero float_one;
      reorder_rate = float_clamp f c.reorder_rate float_zero float_one;
      min_delay = pos (if ltb high low then high else low);
      max_delay = pos (if ltb high low then low else high);
      reorder_delay = pos (clamp_zero c.reorder_delay);
    }

pub record Generator (Engine : Type 0) : Type 0 where
  pub config : UdpFaultSimulationConfig
  pub random_engine : Engine

abbrev pub no_fault : Decision
no_fault = record {
  should_drop = false;
  should_duplicate = false;
  should_reorder = false;
  delay = pos 0;
}

module _ {Engine : Type 0} (f : Floats) (r : Random Engine) (millisecond : ℕ) where
  unfoldable pub new_generator : Generator Engine
  new_generator = record {
    config = default_config;
    random_engine = r.seed default_config.random_seed;
  }

  unfoldable pub set_generator_config :
      Generator Engine → UdpFaultSimulationConfig → Generator Engine
  set_generator_config g c = record {
    config = normalize_config f c;
    random_engine = r.seed (normalize_config f c).random_seed;
  }

  unfoldable pub reset_generator : Generator Engine → Generator Engine
  reset_generator g = record g { random_engine = r.seed g.config.random_seed }

  unfoldable pub roll : ℕ → Engine → Bool × Engine
  roll rate e =
      if f.le rate float_zero
      then (false, e)
      else if f.le float_one rate
      then (true, e)
      else let (x, next) = r.draw_real e in (f.lt x rate, next)

  unfoldable pub generate_delay : UdpFaultSimulationConfig → Engine → ℤ × Engine
  generate_delay c e =
      if same_id c.min_delay c.max_delay
      then (scale_id millisecond c.min_delay, e)
      else let (drawn, next) = r.draw_int c.min_delay c.max_delay e in
        (scale_id millisecond drawn, next)

  unfoldable pub generate : Generator Engine → Decision × Generator Engine
  generate g =
      let c = g.config in
      let (should_drop, e1) = roll c.drop_rate g.random_engine in
      let (should_duplicate, e2) = roll c.duplicate_rate e1 in
      let (should_reorder, e3) = roll c.reorder_rate e2 in
      let (delay, e4) = generate_delay c e3 in
      if not c.enabled
      then (no_fault, g)
      else if should_drop
      then (record no_fault { should_drop = true }, record g { random_engine = e1 })
      else (
        record {
          should_drop = false;
          should_duplicate = should_duplicate;
          should_reorder = should_reorder;
          delay = if should_reorder then delay +ℤ scale_id millisecond c.reorder_delay else delay;
        },
        record g { random_engine = e4 },
      )
