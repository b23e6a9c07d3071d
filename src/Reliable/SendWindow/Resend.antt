-- ===== src/Reliable/SendWindow/Resend.antt =====
-- Retransmission in ReliableUdpSendWindow.h: which packets are sent again, given up or kept.
use windows_iocp_udp.Prelude.{
  ℕ, ◌+◌, ◌≤◌, ◌<◌, ◌≡◌, refl, Bool, not, ◌&&◌, ltb, leb, if◌then◌else◌, List, [], ◌∷◌, ◌++◌, map,
  length, All, All-append, length-append, keep, arith,
}
use windows_iocp_udp.Reliable.SendWindow.{
  PendingPacket, SendWindow, register_sequence, register_sent_packet, erase_acked, process_ack,
  resend_loop, extract_resend_result,
}

-- At most the configured number of packets wait, and none was sent again more often than allowed.
abbrev pub CountedAtMost : ℕ → List PendingPacket → Type 0
CountedAtMost limit = All (λ p. p.resend_count ≤ limit)

pub record IsValid (w : SendWindow) : Type 0 where
  pub bounded : length w.pending_packet_list ≤ w.max_pending_packet_count
  pub counted : CountedAtMost w.max_resend_count w.pending_packet_list

-- Registering a packet, with its sequence given or allocated, keeps the window valid.
pub register-IsValid :
    (w : SendWindow) (sequence : ℕ) (buffer : List ℕ) (sent_time : ℕ)
    → IsValid w
    → IsValid (register_sequence w sequence buffer sent_time).1
      × IsValid (register_sent_packet w buffer sent_time).1
unfolding register_sequence register_sent_packet
register-IsValid w sequence buffer sent_time v = ground (
  arith,
  length-append w.pending_packet_list,
  added sequence,
  added w.next_sequence,
  longer sequence,
  longer w.next_sequence,
)
  where
    fresh : ℕ → PendingPacket
    fresh s = record {
      sequence = s;
      packet_buffer = buffer;
      last_sent_time = sent_time;
      resend_count = 0;
    }

    added : (s : ℕ) → CountedAtMost w.max_resend_count (w.pending_packet_list ++ fresh s ∷ [])
    added s = All-append _ w.pending_packet_list (fresh s ∷ []) v.counted (omega arith)

    longer :
        (s : ℕ) → length (w.pending_packet_list ++ fresh s ∷ []) ≡ length w.pending_packet_list + 1
    longer s = length-append w.pending_packet_list (fresh s ∷ [])

erase_acked-length :
    (ack bits : ℕ) (ps : List PendingPacket) → length (erase_acked ack bits ps) ≤ length ps
unfolding erase_acked
erase_acked-length ack bits [] = omega arith
erase_acked-length ack bits (p ∷ ps) = ground (arith, erase_acked-length ack bits ps)

erase_acked-CountedAtMost :
    (ack bits limit : ℕ) (ps : List PendingPacket)
    → CountedAtMost limit ps
    → CountedAtMost limit (erase_acked ack bits ps)
unfolding erase_acked
erase_acked-CountedAtMost ack bits limit [] c = tt
erase_acked-CountedAtMost ack bits limit (p ∷ ps) c =
    ground (arith, erase_acked-CountedAtMost ack bits limit ps c.1)

pub process_ack-IsValid :
    (w : SendWindow) (ack bits : ℕ) → IsValid w → IsValid (process_ack w ack bits).1
unfolding process_ack
process_ack-IsValid w ack bits v = ground (
  arith,
  erase_acked-length ack bits w.pending_packet_list,
  erase_acked-CountedAtMost ack bits w.max_resend_count w.pending_packet_list v.counted,
)

module _ (interval limit now : ℕ) where
  abbrev pub is_due : PendingPacket → Bool
  is_due p = not (ltb now (p.last_sent_time + interval))

  abbrev pub is_spent : PendingPacket → Bool
  is_spent p = leb limit p.resend_count

  abbrev pub sent_again : PendingPacket → PendingPacket
  sent_again p = record p { last_sent_time = now; resend_count = p.resend_count + 1 }

  -- One pass over the pending packets against three filters of the list: the packets due and spent
  -- are given up, those due and not spent are sent again with the time and the count renewed, and what
  -- stays pending is the list without those given up, the ones sent again in their place.
  pub resend_loop_lem :
      (ps : List PendingPacket)
      → ((resend_loop interval limit now ps).0.give_up_packet_list
          ≡ keep (λ p. is_due p && is_spent p) ps)
        × ((resend_loop interval limit now ps).0.resend_packet_list
            ≡ map sent_again (keep (λ p. is_due p && not (is_spent p)) ps))
        × ((resend_loop interval limit now ps).1
            ≡ map
                (λ p. if is_due p then sent_again p else p)
                (keep (λ p. not (is_due p && is_spent p)) ps))
  unfolding resend_loop keep
  resend_loop_lem [] = (refl, refl, refl)
  resend_loop_lem (p ∷ ps) = ground (arith, resend_loop_lem ps)

  resend_loop-CountedAtMost :
      (ps : List PendingPacket)
      → CountedAtMost limit ps
      → CountedAtMost limit (resend_loop interval limit now ps).1
  unfolding resend_loop
  resend_loop-CountedAtMost [] c = tt
  resend_loop-CountedAtMost (p ∷ ps) c = ground (arith, resend_loop-CountedAtMost ps c.1)

  -- No packet is lost or doubled by a pass.
  pub resend_loop-length :
      (ps : List PendingPacket)
      → length (resend_loop interval limit now ps).1
          + length (resend_loop interval limit now ps).0.give_up_packet_list
        ≡ length ps
  unfolding resend_loop
  resend_loop-length [] = omega arith
  resend_loop-length (p ∷ ps) = ground (arith, resend_loop-length ps)

-- Each packet was sent again so many times, and last by that time.
abbrev pub Sent : ℕ → ℕ → List PendingPacket → Type 0
Sent count time = All (λ p. (count ≤ p.resend_count) × (p.last_sent_time ≤ time))

resend_loop-Sent :
    (interval limit now count time : ℕ) (ps : List PendingPacket)
    → time + interval ≤ now
    → Sent count time ps
    → Sent (count + 1) now (resend_loop interval limit now ps).1
unfolding resend_loop
resend_loop-Sent interval limit now count time [] h s = tt
resend_loop-Sent interval limit now count time (p ∷ ps) h s =
    ground (arith, resend_loop-Sent interval limit now count time ps h s.1)

pub extract-IsValid :
    (w : SendWindow) (now : ℕ) → IsValid w → IsValid (extract_resend_result w now).1
unfolding extract_resend_result
extract-IsValid w now v = ground (
  arith,
  resend_loop-length w.resend_interval w.max_resend_count now w.pending_packet_list,
  resend_loop-CountedAtMost w.resend_interval w.max_resend_count now w.pending_packet_list
      v.counted,
)

-- `ExtractResendResult` at each of the times.
pub extract_at : SendWindow → List ℕ → SendWindow
extract_at w [] = w
extract_at w (now ∷ times) = extract_at (extract_resend_result w now).1 times

-- Each time comes at least the interval after the one before.
abbrev pub Spaced : ℕ → ℕ → List ℕ → Type 0
Spaced interval time [] = Unit {0}
Spaced interval time (now ∷ times) = (time + interval ≤ now) × Spaced interval now times

none_left :
    (limit count time : ℕ) (ps : List PendingPacket)
    → limit < count
    → CountedAtMost limit ps
    → Sent count time ps
    → ps ≡ []
none_left limit count time [] h c s = refl
none_left limit count time (p ∷ ps) h c s = absurd (omega arith)

extract_at-empty :
    (w : SendWindow) (times : List ℕ) (count time : ℕ)
    → IsValid w
    → Sent count time w.pending_packet_list
    → Spaced w.resend_interval time times
    → w.max_resend_count < count + length times
    → (extract_at w times).pending_packet_list ≡ []
unfolding extract_at
extract_at-empty w [] count time v s sp h =
    none_left w.max_resend_count count time w.pending_packet_list (omega arith) v.counted s
extract_at-empty w (now ∷ times) count time v s sp h =
    extract_at-empty (extract_resend_result w now).1 times (count + 1) now (extract-IsValid w now v)
      (unfold extract_resend_result in
        resend_loop-Sent w.resend_interval w.max_resend_count now count time w.pending_packet_list
          sp.0 s)
      (unfold extract_resend_result in sp.1) (unfold extract_resend_result in omega arith)

-- Retransmission ends: when the resend timer fires more often than the allowed number of resends, each
-- time at least the interval after the last sending or firing, and no packet is added meanwhile, then
-- nothing is left pending, acknowledged or not.
pub retransmission_ends :
    (w : SendWindow) (times : List ℕ) (time : ℕ)
    → IsValid w
    → All (λ p. p.last_sent_time ≤ time) w.pending_packet_list
    → Spaced w.resend_interval time times
    → w.max_resend_count < length times
    → (extract_at w times).pending_packet_list ≡ []
retransmission_ends w times time v s sp h =
    extract_at-empty w times 0 time v (sent_zero w.pending_packet_list s) sp (omega arith)
  where
    sent_zero : (ps : List PendingPacket) → All (λ p. p.last_sent_time ≤ time) ps → Sent 0 time ps
    sent_zero [] h = tt
    sent_zero (p ∷ ps) h = ((omega arith, h.0), sent_zero ps h.1)

-- At most the configured number of packets wait for an acknowledgement, and none was sent again more
-- often than allowed: registering a packet with its number given or allocated, processing an
-- acknowledgement and a resend pass keep this.
pub window-IsValid :
    (w : SendWindow) (sequence : ℕ) (buffer : List ℕ) (now ack bits : ℕ)
    → IsValid w
    → IsValid (register_sequence w sequence buffer now).1
      × IsValid (register_sent_packet w buffer now).1
      × IsValid (process_ack w ack bits).1
      × IsValid (extract_resend_result w now).1
window-IsValid w sequence buffer now ack bits v =
    let (given, allocated) = register-IsValid w sequence buffer now v in
    (given, allocated, process_ack-IsValid w ack bits v, extract-IsValid w now v)
