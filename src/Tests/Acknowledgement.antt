-- ===== src/Tests/Acknowledgement.antt =====
-- The laws of ReliableUdpProtocol.h and ReliableUdpSendWindow.h on small windows.
use windows_iocp_udp.Prelude.{ℕ, ◌≡◌, refl, true, false, not, [], ◌∷◌, keep, arith}
use windows_iocp_udp.Prelude.Words.{add32}
use windows_iocp_udp.Prelude.Bits.{test_bit}
use windows_iocp_udp.Reliable.AckTracker.{AckTracker, is_sequence_acked, observe_received_sequence}
use windows_iocp_udp.Reliable.AckTracker.Window.{phantom_ack}
use windows_iocp_udp.Reliable.AckTracker.History.{after, acked-after}
use windows_iocp_udp.Reliable.SendWindow.{
  PendingPacket, SendWindow, register_sequence, register_sent_packet, process_ack,
  extract_resend_result,
}
use windows_iocp_udp.Reliable.SendWindow.Resend.{
  IsValid, window-IsValid, retransmission_ends, extract_at,
}
use windows_iocp_udp.Reliable.SendWindow.Acks.{
  IsOrdered, confirms, process_ack-after, process_ack-future, window-IsOrdered,
}

abbrev wrapped_round : ℕ
wrapped_round = 4294967290

abbrev three : ℕ
three = 3

abbrev clear : ℕ → ℕ
clear a = 0

acked-after_example : is_sequence_acked (after clear (4 ∷ 7 ∷ 5 ∷ [])) 5 ≡ true
acked-after_example =
    acked-after clear (4 ∷ 7 ∷ 5 ∷ []) 5 (λ a. refl) (omega arith, (omega arith, (omega arith, tt)))
      (omega arith)

-- 100, 99 and 97 were received.
abbrev some_acks : AckTracker
some_acks = record {
  latest_received_sequence = 100;
  ack_bitfield = 5;
  has_received_any_sequence = true;
}

phantom_ack_example :
    (is_sequence_acked (observe_received_sequence (λ a. a) some_acks 132) 131 ≡ true)
    × (is_sequence_acked some_acks 131 ≡ false)
unfolding test_bit
phantom_ack_example = phantom_ack some_acks 0 refl (omega arith) (omega arith) refl

abbrev waiting : ℕ → ℕ → PendingPacket
waiting sequence count = record {
  sequence = sequence;
  packet_buffer = 1 ∷ 2 ∷ [];
  last_sent_time = 50;
  resend_count = count;
}

abbrev three_waiting : SendWindow
three_waiting = record {
  next_sequence = 8;
  pending_packet_list = waiting 4 2 ∷ waiting 6 0 ∷ waiting 7 0 ∷ [];
  max_pending_packet_count = 64;
  max_resend_count = 2;
  resend_interval = 100;
}

process_ack-after_example :
    let t = after clear (4 ∷ 7 ∷ 5 ∷ []) in
    process_ack three_waiting t.latest_received_sequence t.ack_bitfield ≡ (
      true,
      record three_waiting {
        pending_packet_list =
            keep (λ p. not (confirms (4 ∷ 7 ∷ 5 ∷ []) p)) three_waiting.pending_packet_list;
      },
    )
process_ack-after_example =
    process_ack-after clear 4 (7 ∷ 5 ∷ []) three_waiting (λ a. refl)
      (omega arith, (omega arith, (omega arith, tt)))
      (omega arith, (omega arith, (omega arith, tt))) (omega arith) (omega arith)

process_ack-future_example : process_ack three_waiting (add32 8 5) 3 ≡ (false, three_waiting)
process_ack-future_example =
    process_ack-future three_waiting 5 3 (omega arith) (omega arith) (omega arith)

three_waiting-IsValid : IsValid three_waiting
three_waiting-IsValid = record {
  bounded = omega arith;
  counted = (omega arith, (omega arith, (omega arith, tt)));
}

three_waiting-IsOrdered : IsOrdered three_waiting
three_waiting-IsOrdered = record {
  rising = (omega arith, (omega arith, (omega arith, tt)));
  allocated = (omega arith, (omega arith, (omega arith, tt)));
}

window-IsValid_example :
    IsValid (register_sequence three_waiting 8 (9 ∷ []) 160).1
    × IsValid (register_sent_packet three_waiting (9 ∷ []) 160).1
    × IsValid (process_ack three_waiting 7 1).1
    × IsValid (extract_resend_result three_waiting 160).1
window-IsValid_example = window-IsValid three_waiting 8 (9 ∷ []) 160 7 1 three_waiting-IsValid

window-IsOrdered_example :
    IsOrdered (register_sent_packet three_waiting (9 ∷ []) 160).1
    × IsOrdered (process_ack three_waiting 7 1).1
    × IsOrdered (extract_resend_result three_waiting 160).1
window-IsOrdered_example =
    window-IsOrdered three_waiting (9 ∷ []) 160 7 1 (omega arith) three_waiting-IsOrdered

retransmission_ends_example :
    (extract_at three_waiting (150 ∷ 260 ∷ 400 ∷ [])).pending_packet_list ≡ []
retransmission_ends_example =
    retransmission_ends three_waiting (150 ∷ 260 ∷ 400 ∷ []) 50 three_waiting-IsValid
      (omega arith, (omega arith, (omega arith, tt)))
      (omega arith, (omega arith, (omega arith, tt))) (omega arith)
