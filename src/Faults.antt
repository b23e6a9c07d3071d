-- ===== src/Faults.antt =====
-- Common/Net/Fault/UdpFaultPacketScheduler.h and .cpp: packets that the fault simulation holds back. The map
-- from the release time and the schedule order is the list of its entries in rising order. An address is
-- only copied. The lock is not modelled: each operation holds it from its first to its last access.
pub mod Order
pub mod Decisions
pub mod Simulator
use windows_iocp_udp.Prelude.{
  ℕ, ◌+◌, ◌%◌, Bool, true, false, ◌&&◌, ◌||◌, ltb, leb, ◌==◌, if◌then◌else◌, List, [], ◌∷◌, length,
}
use windows_iocp_udp.Prelude.Int.{ℤ, clamp_zero}
use windows_iocp_udp.Prelude.Words.{u64_mod}

pub record Packet (Address : Type 0) : Type 0 where
  pub remote_address : Address
  pub packet_buffer : List ℕ

-- `UdpFaultDecisionGenerator::Decision`.
pub record Decision : Type 0 where
  pub should_drop : Bool
  pub should_duplicate : Bool
  pub should_reorder : Bool
  pub delay : ℤ

pub record Pending (Address : Type 0) : Type 0 where
  pub release_time : ℕ
  pub schedule_order : ℕ
  pub packet : Packet Address

pub record Scheduler (Address : Type 0) : Type 0 where
  pub pending_packet_map : List (Pending Address)
  pub next_schedule_order : ℕ

pub record SubmitResult (Address : Type 0) : Type 0 where
  pub dropped : Bool
  pub ready_packet_list : List (Packet Address)

module _ {Address : Type 0} where
  unfoldable pub reset : Scheduler Address → Scheduler Address
  reset s = record { pending_packet_map = []; next_schedule_order = 0 }

  -- The order of the keys, by time and then by schedule order.
  abbrev pub comes_before : Pending Address → Pending Address → Bool
  comes_before e f =
      ltb e.release_time f.release_time
      || e.release_time == f.release_time && ltb e.schedule_order f.schedule_order

  -- `emplace`: a key that is present stays as it is.
  unfoldable pub emplace : Pending Address → List (Pending Address) → List (Pending Address)
  emplace e [] = e ∷ []
  emplace e (f ∷ fs) =
      if comes_before e f then e ∷ f ∷ fs else if comes_before f e then f ∷ emplace e fs else f ∷ fs

  -- One turn of the loop of `Submit`.
  unfoldable pub schedule : Scheduler Address → ℕ → Packet Address → Scheduler Address
  schedule s release_time packet = record {
    pending_packet_map =
        emplace
          (record {
            release_time = release_time;
            schedule_order = s.next_schedule_order;
            packet = packet;
          })
          s.pending_packet_map;
    next_schedule_order = (s.next_schedule_order + 1) % u64_mod;
  }

  unfoldable pub submit :
      Scheduler Address → Address → List ℕ → Decision → ℕ → SubmitResult Address × Scheduler Address
  submit s address packet_data decision now =
      let packet : Packet Address = record {
        remote_address = address;
        packet_buffer = packet_data;
      } in
      let delay = clamp_zero decision.delay in
      let once = schedule s (now + delay) packet in
      if decision.should_drop
      then (record { dropped = true; ready_packet_list = [] }, s)
      else if delay == 0
      then (
        record {
          dropped = false;
          ready_packet_list =
              if decision.should_duplicate then packet ∷ packet ∷ [] else packet ∷ [];
        },
        s,
      )
      else (
        record { dropped = false; ready_packet_list = [] },
        if decision.should_duplicate then schedule once (now + delay) packet else once,
      )

  unfoldable pub extract_loop :
      ℕ → List (Pending Address) → List (Packet Address) × List (Pending Address)
  extract_loop now [] = ([], [])
  extract_loop now (e ∷ es) =
      let (ready, left) = extract_loop now es in
      if leb e.release_time now then (e.packet ∷ ready, left) else ([], e ∷ es)

  unfoldable pub extract_ready_packets :
      Scheduler Address → ℕ → List (Packet Address) × Scheduler Address
  extract_ready_packets s now =
      let (ready, left) = extract_loop now s.pending_packet_map in
      (ready, record s { pending_packet_map = left })

  unfoldable pub get_pending_packet_count : Scheduler Address → ℕ
  get_pending_packet_count s = length s.pending_packet_map
