-- ===== src/Faults/Simulator/Release.antt =====
-- How long UdpFaultSimulator.cpp holds a packet back.
use mathlib.Core.Path.{subst}
use windows_iocp_udp.Prelude.{
  ℕ, ◌+◌, ◌*◌, ◌≤◌, ◌≡◌, refl, sym, ap, leb, List, [], ◌∷◌, map, All, arith, Bool-cases, inl, inr,
}
use windows_iocp_udp.Prelude.Int.{clamp_zero}
use windows_iocp_udp.Game.{Floats}
use windows_iocp_udp.Faults
use windows_iocp_udp.Faults.{
  Packet, Decision, Pending, Scheduler, emplace, schedule, extract_loop, reset,
}
use windows_iocp_udp.Faults.Order.{All-emplace}
use windows_iocp_udp.Faults.Decisions.{
  UdpFaultSimulationConfig, Random, no_fault, set_generator_config, generate,
}
use windows_iocp_udp.Faults.Simulator.{Simulator, set_config, submit, extract_ready_packets}
use windows_iocp_udp.Faults.Decisions.Delays.{
  IsWithin, DrawsInRange, longest_delay, normalize-IsWithin, generate-bound, generate-config,
}

module _ {Address : Type 0} where
  schedule-All :
      (P : Pending Address → Type 0) (s : Scheduler Address) (time : ℕ) (packet : Packet Address)
      → ((order : ℕ) → P (record { release_time = time; schedule_order = order; packet = packet }))
      → All P s.pending_packet_map
      → All P (schedule s time packet).pending_packet_map
  unfolding schedule
  schedule-All P s time packet new held =
      All-emplace P
        (record { release_time = time; schedule_order = s.next_schedule_order; packet = packet })
        s.pending_packet_map (new s.next_schedule_order) held

  abbrev pub IsDueBy : ℕ → Pending Address → Type 0
  IsDueBy limit e = e.release_time ≤ limit

  submit-due :
      (s : Scheduler Address) (address : Address) (packet_data : List ℕ) (d : Decision)
      (now limit : ℕ)
      → now + clamp_zero d.delay ≤ limit
      → All (IsDueBy limit) s.pending_packet_map
      → All (IsDueBy limit) (Faults.submit s address packet_data d now).1.pending_packet_map
  unfolding Faults.submit
  submit-due s address packet_data d now limit h held =
      let packet : Packet Address = record {
        remote_address = address;
        packet_buffer = packet_data;
      } in
      let time = now + clamp_zero d.delay in
      let once = schedule-All (IsDueBy limit) s time packet (λ order. h) held in
      let twice =
        schedule-All (IsDueBy limit) (schedule s time packet) time packet (λ order. h) once in
      ground (arith, once, twice, held)

  extract_loop-All :
      (P : Pending Address → Type 0) (now : ℕ) (es : List (Pending Address))
      → All P es
      → All P (extract_loop now es).1
  unfolding extract_loop
  extract_loop-All P now [] h = tt
  extract_loop-All P now (e ∷ es) h = elim (Bool-cases (leb e.release_time now)) [
    | inl due ↦ rw due (extract_loop-All P now es h.1)
    | inr early ↦ rw early h
  ]

  extract_loop-due :
      (now : ℕ) (es : List (Pending Address))
      → All (IsDueBy now) es
      → extract_loop now es ≡ (map (λ e. e.packet) es, [])
  unfolding extract_loop
  extract_loop-due now [] h = refl
  extract_loop-due now (e ∷ es) h = ground (arith, extract_loop-due now es h.1)

-- A packet that is submitted, and a release pass, each at its time.
pub data Operation (Address : Type 0) : Type 0 where
  submission : Address → List ℕ → ℕ → Operation Address
  release : ℕ → Operation Address

abbrev pub IsSubmittedBy : {Address : Type 0} → ℕ → Operation Address → Type 0
IsSubmittedBy limit (submission address packet_data now) = now ≤ limit
IsSubmittedBy limit (release now) = Unit {0}

module _ {Engine Address : Type 0} (f : Floats) (r : Random Engine) (millisecond : ℕ) where
  unfoldable pub run_operation :
      Operation Address → Simulator Engine Address → Simulator Engine Address
  run_operation (submission address packet_data now) s =
      (submit f r millisecond s address packet_data now).1
  run_operation (release now) s = (extract_ready_packets f r millisecond s now).1

  unfoldable pub run_operations :
      List (Operation Address) → Simulator Engine Address → Simulator Engine Address
  run_operations [] s = s
  run_operations (o ∷ os) s = run_operations os (run_operation o s)

  abbrev Holds : ℕ → ℕ → Simulator Engine Address → Type 0
  Holds last limit s =
      IsWithin limit s.decision_generator.config
      × All (IsDueBy (last + millisecond * limit)) s.packet_scheduler.pending_packet_map

  operation-Holds :
      (o : Operation Address) (last limit : ℕ) (s : Simulator Engine Address)
      → DrawsInRange r
      → IsSubmittedBy last o
      → Holds last limit s
      → Holds last limit (run_operation o s)
  unfolding run_operation submit extract_ready_packets Faults.extract_ready_packets generate
  operation-Holds (submission address packet_data now) last limit s draws by (within, held) =
      let submitted = submit-due s.packet_scheduler address packet_data in
      elim (Bool-cases s.is_enabled) [
        | inl on ↦
            let (decision, generator) = generate f r millisecond s.decision_generator in
            let bound = generate-bound f r millisecond s.decision_generator limit draws within in
            rw on (
              subst (IsWithin limit) (sym (generate-config f r millisecond s.decision_generator))
                  within,
              submitted decision now (last + millisecond * limit) (omega (arith, by, bound)) held,
            )
        | inr off ↦
            rw off
              (within, submitted no_fault now (last + millisecond * limit) (omega (arith, by)) held)
      ]
  operation-Holds (release now) last limit s draws by (within, held) = (
    within,
    extract_loop-All (IsDueBy (last + millisecond * limit)) now
        s.packet_scheduler.pending_packet_map held,
  )

  operations-Holds :
      (os : List (Operation Address)) (last limit : ℕ) (s : Simulator Engine Address)
      → DrawsInRange r
      → All (IsSubmittedBy last) os
      → Holds last limit s
      → Holds last limit (run_operations os s)
  unfolding run_operations
  operations-Holds [] last limit s draws by holds = holds
  operations-Holds (o ∷ os) last limit s draws by holds =
      operations-Holds os last limit (run_operation o s) draws by.1
        (operation-Holds o last limit s draws by.0 holds)

  -- No packet is held longer than the longest delay that a configuration allows, the extra delay for a change
  -- of order included: once it is set, and whatever is submitted up to a time and released meanwhile, a
  -- release pass that much after that time lets go every packet that is still held, and none stays. The
  -- integers that are drawn are in their range.
  pub held_no_longer :
      (s : Simulator Engine Address) (c : UdpFaultSimulationConfig) (os : List (Operation Address))
      (last : ℕ)
      → DrawsInRange r
      → All (IsSubmittedBy last) os
      → let held = run_operations os (set_config f r millisecond s c) in
        let (ready, left) =
          extract_ready_packets f r millisecond held (last + millisecond * longest_delay c) in
        (ready ≡ map (λ e. e.packet) held.packet_scheduler.pending_packet_map)
        × (left.packet_scheduler.pending_packet_map ≡ [])
  unfolding extract_ready_packets Faults.extract_ready_packets set_config set_generator_config reset
  held_no_longer s c os last draws by =
      let set = set_config f r millisecond s c in
      let (within, held) =
        operations-Holds os last (longest_delay c) set draws by (normalize-IsWithin f c, tt) in
      let all =
        extract_loop-due (last + millisecond * longest_delay c)
          (run_operations os set).packet_scheduler.pending_packet_map held in
      (ap (λ p. p.0) all, ap (λ p. p.1) all)
