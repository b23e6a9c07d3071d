-- ===== src/Game.antt =====
-- Common/Game and Server/Game: the rules of the game and its world. Floating point numbers are bit patterns,
-- and what the processor computes with them is the parameter `Floats`.
pub mod Layout
pub mod Movement
pub mod World
pub mod Simulation
pub mod Respawns
pub mod Rules
pub mod Matches
use windows_iocp_udp.Prelude.{ℕ, Bool, if◌then◌else◌}

-- The operations of `float`, on bit patterns.
pub record Floats : Type 0 where
  pub add : ℕ → ℕ → ℕ
  pub sub : ℕ → ℕ → ℕ
  pub mul : ℕ → ℕ → ℕ
  pub div : ℕ → ℕ → ℕ
  pub sqrt : ℕ → ℕ
  pub lt : ℕ → ℕ → Bool
  pub le : ℕ → ℕ → Bool
  pub eq : ℕ → ℕ → Bool

-- 0.0F, 0.5F and 1.0F.
abbrev pub float_zero : ℕ
float_zero = 0

abbrev pub float_half : ℕ
float_half = 0x3f000000

abbrev pub float_one : ℕ
float_one = 0x3f800000

-- `std::clamp`, `std::min` and `std::max`.
abbrev pub float_clamp : Floats → ℕ → ℕ → ℕ → ℕ
float_clamp f v low high = if f.lt v low then low else if f.lt high v then high else v

abbrev pub float_min : Floats → ℕ → ℕ → ℕ
float_min f a b = if f.lt b a then b else a

abbrev pub float_max : Floats → ℕ → ℕ → ℕ
float_max f a b = if f.lt a b then b else a
