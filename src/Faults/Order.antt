-- ===== src/Faults/Order.antt =====
-- In which order UdpFaultPacketScheduler.cpp lets packets go.
use windows_iocp_udp.Prelude.{
  ℕ, ◌+◌, ◌%◌, ◌<◌, ◌≤◌, ◌≡◌, refl, Bool, true, not, leb, List, [], ◌∷◌, ◌++◌, map, keep, All,
  All-keep, arith,
}
use windows_iocp_udp.Prelude.Int.{clamp_zero}
use windows_iocp_udp.Prelude.Words.{u64_mod}
use windows_iocp_udp.Faults.{
  Packet, Decision, Pending, Scheduler, comes_before, emplace, schedule, submit, extract_loop,
  extract_ready_packets,
}

module _ {Address : Type 0} where
  -- The keys rise along the list.
  abbrev pub Rising : List (Pending Address) → Type 0
  Rising [] = Unit {0}
  Rising (e ∷ es) = All (λ f. comes_before e f ≡ true) es × Rising es

  abbrev pub OrdersBelow : ℕ → List (Pending Address) → Type 0
  OrdersBelow n = All (λ e. e.schedule_order < n)

  pub record IsOrdered (s : Scheduler Address) : Type 0 where
    pub rising : Rising s.pending_packet_map
    pub fresh : OrdersBelow s.next_schedule_order s.pending_packet_map

  abbrev pub is_due : ℕ → Pending Address → Bool
  is_due now e = leb e.release_time now

  -- Behind an entry that is not due, none is.
  none_due :
      (now : ℕ) (e : Pending Address) (es : List (Pending Address))
      → now < e.release_time
      → All (λ f. comes_before e f ≡ true) es
      → (keep (is_due now) es ≡ []) × (keep (λ f. not (is_due now f)) es ≡ es)
  unfolding keep
  none_due now e [] h a = (refl, refl)
  none_due now e (f ∷ fs) h a = ground (arith, none_due now e fs h a.1)

  extract_loop_lem :
      (now : ℕ) (es : List (Pending Address))
      → Rising es
      → (extract_loop now es).0 ≡ map (λ e. e.packet) (keep (is_due now) es)
  unfolding extract_loop keep
  extract_loop_lem now [] r = refl
  extract_loop_lem now (e ∷ es) r = ground (arith, extract_loop_lem now es r.1, none_due now e es)

  extract_loop_left :
      (now : ℕ) (es : List (Pending Address))
      → Rising es
      → (extract_loop now es).1 ≡ keep (λ f. not (is_due now f)) es
  unfolding extract_loop keep
  extract_loop_left now [] r = refl
  extract_loop_left now (e ∷ es) r = ground (arith, extract_loop_left now es r.1, none_due now e es)

  -- A release pass lets go exactly the packets whose time has come, in the order of their times and, at
  -- one time, in the order in which they were submitted; the others stay. The entries are in order.
  pub extract_exactly :
      (s : Scheduler Address) (now : ℕ)
      → IsOrdered s
      → ((extract_ready_packets s now).0
          ≡ map (λ e. e.packet) (keep (is_due now) s.pending_packet_map))
        × ((extract_ready_packets s now).1.pending_packet_map
            ≡ keep (λ e. not (is_due now e)) s.pending_packet_map)
  unfolding extract_ready_packets
  extract_exactly s now v = (
    extract_loop_lem now s.pending_packet_map v.rising,
    extract_loop_left now s.pending_packet_map v.rising,
  )

  emplace_split :
      (e : Pending Address) (es : List (Pending Address))
      → Rising es
      → OrdersBelow e.schedule_order es
      → emplace e es
        ≡ keep (is_due e.release_time) es ++ e ∷ keep (λ f. not (is_due e.release_time f)) es
  unfolding emplace keep
  emplace_split e [] r b = refl
  emplace_split e (f ∷ fs) r b =
      ground (arith, emplace_split e fs r.1 b.1, none_due e.release_time f fs)

  -- A packet that is held back goes behind all pending packets with the same release time or an earlier
  -- one, and before all with a later one. The entries are in order.
  pub schedule_fifo :
      (s : Scheduler Address) (release_time : ℕ) (packet : Packet Address)
      → IsOrdered s
      → (schedule s release_time packet).pending_packet_map
        ≡ keep (is_due release_time) s.pending_packet_map
          ++ record {
            release_time = release_time;
            schedule_order = s.next_schedule_order;
            packet = packet;
          }
            ∷ keep (λ e. not (is_due release_time e)) s.pending_packet_map
  unfolding schedule
  schedule_fifo s release_time packet v =
      emplace_split
        (record {
          release_time = release_time;
          schedule_order = s.next_schedule_order;
          packet = packet;
        })
        s.pending_packet_map v.rising v.fresh

  comes_before-All :
      (e f : Pending Address) (es : List (Pending Address))
      → comes_before e f ≡ true
      → All (λ g. comes_before f g ≡ true) es
      → All (λ g. comes_before e g ≡ true) es
  comes_before-All e f [] h a = tt
  comes_before-All e f (g ∷ gs) h a = (ground arith, comes_before-All e f gs h a.1)

  pub All-emplace :
      (P : Pending Address → Type 0) (e : Pending Address) (es : List (Pending Address))
      → P e
      → All P es
      → All P (emplace e es)
  unfolding emplace
  All-emplace P e [] p a = (p, tt)
  All-emplace P e (f ∷ fs) p a = ground (arith, All-emplace P e fs p a.1)

  emplace-Rising :
      (e : Pending Address) (es : List (Pending Address)) → Rising es → Rising (emplace e es)
  unfolding emplace
  emplace-Rising e [] r = (tt, tt)
  emplace-Rising e (f ∷ fs) r = ground (
    arith,
    emplace-Rising e fs r.1,
    comes_before-All e f fs,
    All-emplace (λ g. comes_before f g ≡ true) e fs,
  )

  OrdersBelow-mono :
      (n m : ℕ) (es : List (Pending Address)) → n ≤ m → OrdersBelow n es → OrdersBelow m es
  OrdersBelow-mono n m [] h b = tt
  OrdersBelow-mono n m (e ∷ es) h b = (omega arith, OrdersBelow-mono n m es h b.1)

  schedule-IsOrdered :
      (s : Scheduler Address) (release_time : ℕ) (packet : Packet Address)
      → s.next_schedule_order + 1 < u64_mod
      → IsOrdered s
      → IsOrdered (schedule s release_time packet)
        × ((schedule s release_time packet).next_schedule_order ≡ s.next_schedule_order + 1)
  unfolding schedule
  schedule-IsOrdered s release_time packet h v =
      let n = s.next_schedule_order in
      let e : Pending Address = record {
        release_time = release_time;
        schedule_order = n;
        packet = packet;
      } in
      let next : (n + 1) % u64_mod ≡ n + 1 = omega arith in
      let below : OrdersBelow ((n + 1) % u64_mod) (emplace e s.pending_packet_map) =
        All-emplace (λ f. f.schedule_order < (n + 1) % u64_mod) e s.pending_packet_map (omega arith)
          (OrdersBelow-mono n ((n + 1) % u64_mod) s.pending_packet_map (omega arith) v.fresh) in
      (record { rising = emplace-Rising e s.pending_packet_map v.rising; fresh = below }, next)

  submit-IsOrdered :
      (s : Scheduler Address) (address : Address) (packet_data : List ℕ) (decision : Decision)
      (now : ℕ)
      → s.next_schedule_order + 2 < u64_mod
      → IsOrdered s
      → IsOrdered (submit s address packet_data decision now).1
  unfolding submit
  submit-IsOrdered s address packet_data decision now h v =
      let packet : Packet Address = record {
        remote_address = address;
        packet_buffer = packet_data;
      } in
      let time = now + clamp_zero decision.delay in
      let (once, next) = schedule-IsOrdered s time packet (omega arith) v in
      let (twice, last) =
        schedule-IsOrdered (schedule s time packet) time packet (omega arith) once in
      ground arith

  keep-Rising :
      (p : Pending Address → Bool) (es : List (Pending Address)) → Rising es → Rising (keep p es)
  unfolding keep
  keep-Rising p [] r = tt
  keep-Rising p (e ∷ es) r =
      ground (arith, keep-Rising p es r.1, All-keep (λ f. comes_before e f ≡ true) p es r.0)

  extract-IsOrdered :
      (s : Scheduler Address) (now : ℕ) → IsOrdered s → IsOrdered (extract_ready_packets s now).1
  unfolding extract_ready_packets
  extract-IsOrdered s now v =
      let later : Pending Address → Bool = λ e. not (is_due now e) in
      let left = extract_loop_left now s.pending_packet_map v.rising in
      record {
        rising = rw left (keep-Rising later s.pending_packet_map v.rising);
        fresh = rw left (
            All-keep (λ e. e.schedule_order < s.next_schedule_order) later s.pending_packet_map
              v.fresh);
      }

  -- Submitting a packet and a release pass keep the entries in order, with every schedule order below the
  -- next one, as long as the 64-bit counter does not go round.
  pub operations-IsOrdered :
      (s : Scheduler Address) (address : Address) (packet_data : List ℕ) (decision : Decision)
      (now : ℕ)
      → s.next_schedule_order + 2 < u64_mod
      → IsOrdered s
      → IsOrdered (submit s address packet_data decision now).1
        × IsOrdered (extract_ready_packets s now).1
  operations-IsOrdered s address packet_data decision now h v =
      (submit-IsOrdered s address packet_data decision now h v, extract-IsOrdered s now v)
