-- ===== src/Reliable/SendWindow.antt =====
-- Common/Net/Reliable/ReliableUdpSendWindow.h: packets that wait for their acknowledgement.
-- Times and intervals are numbers of clock ticks, and `now - sent < interval` is `now < sent + interval`.
pub mod Resend
pub mod Acks
use windows_iocp_udp.Prelude.{
  ℕ, ◌+◌, Bool, true, false, not, ◌&&◌, ltb, leb, ◌==◌, if◌then◌else◌, List, [], ◌∷◌, ◌++◌, length,
  Option, none, some,
}
use windows_iocp_udp.Prelude.Int.{ℤ, clamp_zero}
use windows_iocp_udp.Prelude.Words.{add32, sub32}
use windows_iocp_udp.Sequence.{is_sequence_newer}
use windows_iocp_udp.Reliable.AckTracker.{is_sequence_acked_by}

pub record PendingPacket : Type 0 where
  pub sequence : ℕ
  pub packet_buffer : List ℕ
  pub last_sent_time : ℕ
  pub resend_count : ℕ

pub record ResendResult : Type 0 where
  pub resend_packet_list : List PendingPacket
  pub give_up_packet_list : List PendingPacket

pub record SendWindow : Type 0 where
  pub next_sequence : ℕ
  pub pending_packet_list : List PendingPacket
  pub max_pending_packet_count : ℕ
  pub max_resend_count : ℕ
  pub resend_interval : ℕ

-- The member initialisers and the default constructor, with 100 ms given in clock ticks.
abbrev pub initial : ℕ → SendWindow
initial hundred_ms = record {
  next_sequence = 1;
  pending_packet_list = [];
  max_pending_packet_count = 64;
  max_resend_count = 10;
  resend_interval = hundred_ms;
}

unfoldable pub reset : SendWindow → SendWindow
reset w = record w { next_sequence = 1; pending_packet_list = [] }

abbrev pub is_empty : List ℕ → Bool
is_empty [] = true
is_empty (x ∷ xs) = false

unfoldable pub can_register_sent_packet : SendWindow → List ℕ → Bool
can_register_sent_packet w buffer =
    not (is_empty buffer) && ltb (length w.pending_packet_list) w.max_pending_packet_count

unfoldable pub allocate_sequence : SendWindow → ℕ × SendWindow
allocate_sequence w = (w.next_sequence, record w { next_sequence = add32 w.next_sequence 1 })

-- `RegisterSentPacket` with the sequence given.
unfoldable pub register_sequence : SendWindow → ℕ → List ℕ → ℕ → Bool × SendWindow
unfolding can_register_sent_packet
register_sequence w sequence buffer sent_time =
    if not (can_register_sent_packet w buffer)
    then (false, w)
    else (true, record w { pending_packet_list = w.pending_packet_list ++ pending ∷ [] })
  where
    pending : PendingPacket
    pending = record {
      sequence = sequence;
      packet_buffer = buffer;
      last_sent_time = sent_time;
      resend_count = 0;
    }

-- `RegisterSentPacket` that allocates the sequence.
unfoldable pub register_sent_packet : SendWindow → List ℕ → ℕ → Option ℕ × SendWindow
unfolding can_register_sent_packet allocate_sequence register_sequence
register_sent_packet w buffer sent_time =
    if not (can_register_sent_packet w buffer)
    then (none, w)
    else let (sequence, w1) = allocate_sequence w in
      let (done, w2) = register_sequence w1 sequence buffer sent_time in
      (if not done then none else some sequence, w2)

unfoldable pub can_process_ack : SendWindow → ℕ → Bool
unfolding is_sequence_newer
can_process_ack w ack_sequence =
    if ack_sequence == 0
    then true
    else not (is_sequence_newer ack_sequence (sub32 w.next_sequence 1))

-- The loop of `ProcessAck`.
unfoldable pub erase_acked : ℕ → ℕ → List PendingPacket → List PendingPacket
erase_acked ack_sequence ack_bitfield [] = []
erase_acked ack_sequence ack_bitfield (p ∷ ps) =
    let rest = erase_acked ack_sequence ack_bitfield ps in
    if is_sequence_acked_by p.sequence ack_sequence ack_bitfield then rest else p ∷ rest

unfoldable pub process_ack : SendWindow → ℕ → ℕ → Bool × SendWindow
process_ack w ack_sequence ack_bitfield =
    if not (can_process_ack w ack_sequence) then (false, w) else (
      true,
      record w {
        pending_packet_list = erase_acked ack_sequence ack_bitfield w.pending_packet_list;
      },
    )

-- The loop of `ExtractResendResult`, with the packets that stay.
unfoldable pub resend_loop : ℕ → ℕ → ℕ → List PendingPacket → ResendResult × List PendingPacket
resend_loop interval limit now [] =
    (record { resend_packet_list = []; give_up_packet_list = [] }, [])
resend_loop interval limit now (p ∷ ps) =
    let (result, left) = resend_loop interval limit now ps in
    if ltb now (p.last_sent_time + interval)
    then (result, p ∷ left)
    else if leb limit p.resend_count
    then (record result { give_up_packet_list = p ∷ result.give_up_packet_list }, left)
    else let again = resent p in
      (record result { resend_packet_list = again ∷ result.resend_packet_list }, again ∷ left)
  where
    resent : PendingPacket → PendingPacket
    resent q = record q { last_sent_time = now; resend_count = q.resend_count + 1 }

unfoldable pub extract_resend_result : SendWindow → ℕ → ResendResult × SendWindow
extract_resend_result w now =
    let (result, left) =
      resend_loop w.resend_interval w.max_resend_count now w.pending_packet_list in
    (result, record w { pending_packet_list = left })

unfoldable pub extract_resend_packets : SendWindow → ℕ → List PendingPacket × SendWindow
unfolding extract_resend_result
extract_resend_packets w now =
    let (result, w') = extract_resend_result w now in (result.resend_packet_list, w')

unfoldable pub set_max_pending_packet_count : SendWindow → ℕ → SendWindow
set_max_pending_packet_count w count = record w { max_pending_packet_count = count }

unfoldable pub set_max_resend_count : SendWindow → ℤ → SendWindow
set_max_resend_count w count = record w { max_resend_count = clamp_zero count }

unfoldable pub set_resend_interval : SendWindow → ℕ → SendWindow
set_resend_interval w interval = record w { resend_interval = interval }
