-- ===== src/Tests/Faults.antt =====
-- The laws of UdpFaultPacketScheduler.cpp on three packets, and of UdpFaultSimulator.cpp on two.
use windows_iocp_udp.Prelude.{ℕ, ◌+◌, ◌≡◌, refl, true, not, List, [], ◌∷◌, map, keep, arith}
use windows_iocp_udp.Prelude.Int.{ℤ, pos, negsuc, leb_id}
use windows_iocp_udp.Game.{float_zero, float_half, float_one}
use windows_iocp_udp.Faults
use windows_iocp_udp.Faults.{Packet, Pending, Scheduler}
use windows_iocp_udp.Faults.Decisions.{UdpFaultSimulationConfig, Random}
use windows_iocp_udp.Faults.Decisions.Delays.{DrawsInRange}
use windows_iocp_udp.Faults.Simulator.{Simulator, new_simulator, set_config, extract_ready_packets}
use windows_iocp_udp.Faults.Simulator.Release.{
  Operation, submission, release, run_operations, held_no_longer,
}
use windows_iocp_udp.Tests.Game.{numbers}
use windows_iocp_udp.Faults.Order.{IsOrdered, is_due, extract_exactly}

abbrev packet : ℕ → Packet ℕ
packet n = record { remote_address = 5; packet_buffer = n ∷ [] }

abbrev held : ℕ → ℕ → Pending ℕ
held time order = record { release_time = time; schedule_order = order; packet = packet order }

abbrev three_held : Scheduler ℕ
three_held = record {
  pending_packet_map = held 10 1 ∷ held 20 0 ∷ held 20 2 ∷ [];
  next_schedule_order = 3;
}

three_held-IsOrdered : IsOrdered three_held
three_held-IsOrdered = record {
  rising = ((refl, (refl, tt)), ((refl, tt), (tt, tt)));
  fresh = (omega arith, (omega arith, (omega arith, tt)));
}

extract_exactly_example :
    ((Faults.extract_ready_packets three_held 15).0
      ≡ map (λ e. e.packet) (keep (is_due 15) three_held.pending_packet_map))
    × ((Faults.extract_ready_packets three_held 15).1.pending_packet_map
        ≡ keep (λ e. not (is_due 15 e)) three_held.pending_packet_map)
extract_exactly_example = extract_exactly three_held 15 three_held-IsOrdered

-- A generator of random numbers that draws the least integer.
abbrev least : Random ℕ
least = record {
  seed = λ n. n;
  draw_real = λ e. (float_half, e + 1);
  draw_int = λ low high e. (low, e + 1);
}

leb_id_refl : (a : ℤ) → leb_id a a ≡ true
leb_id_refl (pos n) = ground arith
leb_id_refl (negsuc n) = ground arith

least-DrawsInRange : DrawsInRange least
least-DrawsInRange low high e h = (leb_id_refl low, h)

abbrev faulty : UdpFaultSimulationConfig
faulty = record {
  enabled = true;
  drop_rate = float_zero;
  duplicate_rate = float_one;
  reorder_rate = float_one;
  min_delay = pos 30;
  max_delay = pos 10;
  reorder_delay = pos 100;
  random_seed = 5489;
}

abbrev traffic : List (Operation ℕ)
traffic = submission 5 (1 ∷ []) 3 ∷ release 1200 ∷ submission 5 (2 ∷ []) 7 ∷ []

abbrev simulator : Simulator ℕ ℕ
simulator = new_simulator numbers least 10

held_no_longer_example :
    let held =
      run_operations numbers least 10 traffic (set_config numbers least 10 simulator faulty) in
    let (ready, left) = extract_ready_packets numbers least 10 held 1307 in
    (ready ≡ map (λ e. e.packet) held.packet_scheduler.pending_packet_map)
    × (left.packet_scheduler.pending_packet_map ≡ [])
held_no_longer_example =
    held_no_longer numbers least 10 simulator faulty traffic 7 least-DrawsInRange
      (omega arith, (tt, (omega arith, tt)))
