-- ===== src/Faults/Simulator.antt =====
-- Common/Net/Fault/UdpFaultSimulator.h and .cpp: the decisions on faults together with the packets that are
-- held back. Each operation runs as a whole.
pub mod Release
use windows_iocp_udp.Prelude.{ℕ, Bool, false, if◌then◌else◌, List, []}
use windows_iocp_udp.Game.{Floats}
use windows_iocp_udp.Faults
use windows_iocp_udp.Faults.{Packet, Scheduler, SubmitResult, reset}
use windows_iocp_udp.Faults.Decisions.{
  UdpFaultSimulationConfig, Random, Generator, no_fault, new_generator, set_generator_config,
  reset_generator, generate,
}

pub record Simulator (Engine Address : Type 0) : Type 0 where
  pub is_enabled : Bool
  pub decision_generator : Generator Engine
  pub packet_scheduler : Scheduler Address

module _ {Engine Address : Type 0} (f : Floats) (r : Random Engine) (millisecond : ℕ) where
  unfoldable pub new_simulator : Simulator Engine Address
  new_simulator = record {
    is_enabled = false;
    decision_generator = new_generator f r millisecond;
    packet_scheduler = record { pending_packet_map = []; next_schedule_order = 0 };
  }

  unfoldable pub set_config :
      Simulator Engine Address → UdpFaultSimulationConfig → Simulator Engine Address
  set_config s c = record {
    is_enabled = c.enabled;
    decision_generator = set_generator_config f r millisecond s.decision_generator c;
    packet_scheduler = reset s.packet_scheduler;
  }

  unfoldable pub reset_simulator : Simulator Engine Address → Simulator Engine Address
  reset_simulator s = record s {
    decision_generator = reset_generator f r millisecond s.decision_generator;
    packet_scheduler = reset s.packet_scheduler;
  }

  unfoldable pub submit :
      Simulator Engine Address
      → Address
      → List ℕ
      → ℕ
      → SubmitResult Address × Simulator Engine Address
  submit s address packet_data now =
      let (decision, generator) =
        if s.is_enabled
        then generate f r millisecond s.decision_generator
        else (no_fault, s.decision_generator) in
      let (result, scheduler) = Faults.submit s.packet_scheduler address packet_data decision now in
      (result, record s { decision_generator = generator; packet_scheduler = scheduler })

  unfoldable pub extract_ready_packets :
      Simulator Engine Address → ℕ → List (Packet Address) × Simulator Engine Address
  extract_ready_packets s now =
      let (ready, scheduler) = Faults.extract_ready_packets s.packet_scheduler now in
      (ready, record s { packet_scheduler = scheduler })
