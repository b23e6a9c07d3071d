-- ===== src/Reliable/SendWindow/Acks.antt =====
-- Acknowledgements in ReliableUdpSendWindow.h, against what the other side's tracker received.
use windows_iocp_udp.Prelude.{
  ℕ, ◌+◌, ◌-◌, ◌≤◌, ◌<◌, ◌^◌, ◌≡◌, ◌≢◌, refl, Bool, true, false, not, ◌&&◌, List, [], ◌∷◌, ◌++◌,
  All, All-append, keep, arith,
}
use windows_iocp_udp.Prelude.Words.{u32_mod, add32}
use windows_iocp_udp.Sequence.{is_sequence_newer}
use windows_iocp_udp.Reliable.AckTracker.{is_sequence_acked}
use windows_iocp_udp.Reliable.AckTracker.Window.{within}
use windows_iocp_udp.Reliable.AckTracker.History.{
  after, after-latest, after-has, acked-after, contains, newest, Below,
}
use windows_iocp_udp.Reliable.SendWindow.{
  PendingPacket, SendWindow, register_sent_packet, can_process_ack, erase_acked, process_ack,
  resend_loop, extract_resend_result,
}

-- The number was received, and lies in the part of the history that an acknowledgement covers.
abbrev pub confirms : List ℕ → PendingPacket → Bool
confirms past p = within (newest past) p.sequence && contains p.sequence past

erase_acked-after :
    (wide : ℕ → ℕ) (s : ℕ) (past : List ℕ) (ps : List PendingPacket)
    → ((a : ℕ) → wide a ≡ 0)
    → Below (2 ^ 31) (s ∷ past)
    → All (λ p. p.sequence < 2 ^ 31) ps
    → let t = after wide (s ∷ past) in
      erase_acked t.latest_received_sequence t.ack_bitfield ps
      ≡ keep (λ p. not (confirms (s ∷ past) p)) ps
unfolding erase_acked keep is_sequence_acked
erase_acked-after wide s past [] clears b h = refl
erase_acked-after wide s past (p ∷ ps) clears b h = ground (
  arith,
  erase_acked-after wide s past ps clears b h.1,
  acked-after wide (s ∷ past) p.sequence clears b h.0,
  after-has wide s past,
)

-- The two ends agree: when the sender processes the acknowledgement of a tracker, whatever numbers the
-- tracker saw and in whatever order, the packets that leave the window are exactly those whose number
-- the tracker received and that lie within 32 of the newest one received. Numbers stay below 2 ^ 31,
-- the newest one was allocated, and the processor's shift by 32 is taken to clear the word.
pub process_ack-after :
    (wide : ℕ → ℕ) (s : ℕ) (past : List ℕ) (w : SendWindow)
    → ((a : ℕ) → wide a ≡ 0)
    → Below (2 ^ 31) (s ∷ past)
    → All (λ p. p.sequence < 2 ^ 31) w.pending_packet_list
    → newest (s ∷ past) < w.next_sequence
    → w.next_sequence ≤ 2 ^ 31
    → let t = after wide (s ∷ past) in
      process_ack w t.latest_received_sequence t.ack_bitfield ≡ (
        true,
        record w {
          pending_packet_list = keep (λ p. not (confirms (s ∷ past) p)) w.pending_packet_list;
        },
      )
unfolding process_ack can_process_ack is_sequence_newer
process_ack-after wide s past w clears b h new top = ground (
  arith,
  erase_acked-after wide s past w.pending_packet_list clears b h,
  after-latest wide (s ∷ past) b,
)

-- An acknowledgement of a number that was not allocated yet is refused and changes nothing: between the next
-- number to allocate and the one 2 ^ 31 - 2 after it, with the numbers modulo 2 ^ 32, unless it is number 0.
pub process_ack-future :
    (w : SendWindow) (ahead bits : ℕ)
    → w.next_sequence < u32_mod
    → ahead < 2 ^ 31 - 1
    → add32 w.next_sequence ahead ≢ 0
    → process_ack w (add32 w.next_sequence ahead) bits ≡ (false, w)
unfolding process_ack can_process_ack is_sequence_newer
process_ack-future w ahead bits hn ha hz = ground arith

-- Numbers along the window rise, and stay below the next one to allocate.
abbrev pub Ordered : ℕ → List PendingPacket → Type 0
Ordered low [] = Unit {0}
Ordered low (p ∷ ps) = (low ≤ p.sequence) × Ordered (p.sequence + 1) ps

abbrev pub SequencesBelow : ℕ → List PendingPacket → Type 0
SequencesBelow top = All (λ p. p.sequence < top)

Ordered-mono :
    (low low' : ℕ) (ps : List PendingPacket) → low' ≤ low → Ordered low ps → Ordered low' ps
Ordered-mono low low' [] h o = tt
Ordered-mono low low' (p ∷ ps) h o = (omega arith, o.1)

SequencesBelow-mono :
    (top top' : ℕ) (ps : List PendingPacket)
    → top ≤ top'
    → SequencesBelow top ps
    → SequencesBelow top' ps
SequencesBelow-mono top top' [] h o = tt
SequencesBelow-mono top top' (p ∷ ps) h o = (omega arith, SequencesBelow-mono top top' ps h o.1)

Ordered-append :
    (low top : ℕ) (ps : List PendingPacket) (q : PendingPacket)
    → low ≤ top
    → Ordered low ps
    → SequencesBelow top ps
    → top ≤ q.sequence
    → Ordered low (ps ++ q ∷ [])
Ordered-append low top [] q h o b e = (omega arith, tt)
Ordered-append low top (p ∷ ps) q h o b e =
    (o.0, Ordered-append (p.sequence + 1) top ps q (omega arith) o.1 b.1 e)

erase_acked-Ordered :
    (ack bits low : ℕ) (ps : List PendingPacket)
    → Ordered low ps
    → Ordered low (erase_acked ack bits ps)
unfolding erase_acked
erase_acked-Ordered ack bits low [] o = tt
erase_acked-Ordered ack bits low (p ∷ ps) o = ground (
  arith,
  erase_acked-Ordered ack bits (p.sequence + 1) ps o.1,
  Ordered-mono (p.sequence + 1) low (erase_acked ack bits ps),
)

erase_acked-SequencesBelow :
    (ack bits top : ℕ) (ps : List PendingPacket)
    → SequencesBelow top ps
    → SequencesBelow top (erase_acked ack bits ps)
unfolding erase_acked
erase_acked-SequencesBelow ack bits top [] b = tt
erase_acked-SequencesBelow ack bits top (p ∷ ps) b =
    ground (arith, erase_acked-SequencesBelow ack bits top ps b.1)

resend_loop-Ordered :
    (interval limit now low : ℕ) (ps : List PendingPacket)
    → Ordered low ps
    → Ordered low (resend_loop interval limit now ps).1
unfolding resend_loop
resend_loop-Ordered interval limit now low [] o = tt
resend_loop-Ordered interval limit now low (p ∷ ps) o = ground (
  arith,
  resend_loop-Ordered interval limit now (p.sequence + 1) ps o.1,
  Ordered-mono (p.sequence + 1) low (resend_loop interval limit now ps).1,
)

resend_loop-SequencesBelow :
    (interval limit now top : ℕ) (ps : List PendingPacket)
    → SequencesBelow top ps
    → SequencesBelow top (resend_loop interval limit now ps).1
unfolding resend_loop
resend_loop-SequencesBelow interval limit now top [] b = tt
resend_loop-SequencesBelow interval limit now top (p ∷ ps) b =
    ground (arith, resend_loop-SequencesBelow interval limit now top ps b.1)

pub record IsOrdered (w : SendWindow) : Type 0 where
  pub rising : Ordered 0 w.pending_packet_list
  pub allocated : SequencesBelow w.next_sequence w.pending_packet_list

register-IsOrdered :
    (w : SendWindow) (buffer : List ℕ) (now : ℕ)
    → w.next_sequence + 1 < u32_mod
    → IsOrdered w
    → IsOrdered (register_sent_packet w buffer now).1
unfolding register_sent_packet
register-IsOrdered w buffer now h v = ground (arith, added, risen)
  where
    q : PendingPacket
    q = record {
      sequence = w.next_sequence;
      packet_buffer = buffer;
      last_sent_time = now;
      resend_count = 0;
    }

    added : SequencesBelow (add32 w.next_sequence 1) (w.pending_packet_list ++ q ∷ [])
    added =
        All-append (λ p. p.sequence < add32 w.next_sequence 1) w.pending_packet_list (q ∷ [])
          (SequencesBelow-mono w.next_sequence (add32 w.next_sequence 1) w.pending_packet_list
            (omega arith) v.allocated)
          (omega arith, tt)

    risen : Ordered 0 (w.pending_packet_list ++ q ∷ [])
    risen =
        Ordered-append 0 w.next_sequence w.pending_packet_list q (omega arith) v.rising v.allocated
          (omega arith)

process_ack-IsOrdered :
    (w : SendWindow) (ack bits : ℕ) → IsOrdered w → IsOrdered (process_ack w ack bits).1
unfolding process_ack
process_ack-IsOrdered w ack bits v = ground (
  arith,
  erase_acked-Ordered ack bits 0 w.pending_packet_list v.rising,
  erase_acked-SequencesBelow ack bits w.next_sequence w.pending_packet_list v.allocated,
)

extract-IsOrdered :
    (w : SendWindow) (now : ℕ) → IsOrdered w → IsOrdered (extract_resend_result w now).1
unfolding extract_resend_result
extract-IsOrdered w now v = record {
  rising =
      resend_loop-Ordered w.resend_interval w.max_resend_count now 0 w.pending_packet_list v.rising;
  allocated =
      resend_loop-SequencesBelow w.resend_interval w.max_resend_count now w.next_sequence
        w.pending_packet_list v.allocated;
}

-- Until the sequence numbers go round, the numbers of the pending packets are distinct, rise along the
-- window and were allocated: registering a packet, processing an acknowledgement and a resend pass keep
-- this.
pub window-IsOrdered :
    (w : SendWindow) (buffer : List ℕ) (now ack bits : ℕ)
    → w.next_sequence + 1 < u32_mod
    → IsOrdered w
    → IsOrdered (register_sent_packet w buffer now).1
      × IsOrdered (process_ack w ack bits).1
      × IsOrdered (extract_resend_result w now).1
window-IsOrdered w buffer now ack bits h v = (
  register-IsOrdered w buffer now h v,
  process_ack-IsOrdered w ack bits v,
  extract-IsOrdered w now v,
)
