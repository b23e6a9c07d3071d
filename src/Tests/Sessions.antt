-- ===== src/Tests/Sessions.antt =====
-- The laws of ReliableUdpSession.h on two ends of one connection.
use windows_iocp_udp.Prelude.{ℕ, ◌≡◌, refl, true, not, List, [], ◌∷◌, keep, arith}
use windows_iocp_udp.Reliable.AckTracker.History.{after}
use windows_iocp_udp.Reliable.SendWindow.{PendingPacket, SendWindow}
use windows_iocp_udp.Reliable.SendWindow.Acks.{confirms}
use windows_iocp_udp.Reliable.PacketBuilder.{ReliableUdpPacketHeader}
use windows_iocp_udp.Reliable.Session.{
  Session, build_outgoing_packet, build_outgoing_ack_header, process_received_ack,
  process_received_data_header,
}
use windows_iocp_udp.Reliable.Session.Delivery.{
  is_new-after, ack_loop, late_duplicate_delivered, SendOutcome, build_outgoing_packet_cases,
}

abbrev clear : ℕ → ℕ
clear a = 0

abbrev waiting : ℕ → PendingPacket
waiting sequence = record {
  sequence = sequence;
  packet_buffer = 1 ∷ [];
  last_sent_time = 50;
  resend_count = 0;
}

abbrev window : SendWindow
window = record {
  next_sequence = 8;
  pending_packet_list = waiting 4 ∷ waiting 6 ∷ waiting 7 ∷ [];
  max_pending_packet_count = 3;
  max_resend_count = 2;
  resend_interval = 100;
}

abbrev receiving : Session
receiving = record { ack_tracker = after clear (4 ∷ 7 ∷ 5 ∷ []); send_window = window }

abbrev with_sequence : ℕ → ReliableUdpPacketHeader
with_sequence sequence = record { sequence = sequence; ack_sequence = 0; ack_bitfield = 0 }

is_new-after_example :
    ((process_received_data_header clear receiving (with_sequence 6)).0 ≡ true)
    × ((process_received_data_header clear receiving (with_sequence 6)).1.ack_tracker
        ≡ after clear (6 ∷ 4 ∷ 7 ∷ 5 ∷ []))
is_new-after_example =
    is_new-after clear (4 ∷ 7 ∷ 5 ∷ []) receiving (with_sequence 6) (λ a. refl)
      (omega arith, (omega arith, (omega arith, tt))) (omega arith) refl

abbrev latest_hundred : Session
latest_hundred = record {
  ack_tracker = record {
    latest_received_sequence = 100;
    ack_bitfield = 3;
    has_received_any_sequence = true;
  };
  send_window = window;
}

late_duplicate_delivered_example :
    ((process_received_data_header clear latest_hundred (with_sequence 60)).0 ≡ true)
    × ((process_received_data_header clear
          (process_received_data_header clear latest_hundred (with_sequence 60)).1
          (with_sequence 60)).0
        ≡ true)
late_duplicate_delivered_example =
    late_duplicate_delivered clear latest_hundred (with_sequence 60) refl (omega arith)
      (omega arith) (omega arith) (omega arith)

ack_loop_example : process_received_ack latest_hundred (build_outgoing_ack_header receiving) ≡ (
  true,
  record latest_hundred {
    send_window = record window {
      pending_packet_list =
          keep (λ p. not (confirms (4 ∷ 7 ∷ 5 ∷ []) p)) window.pending_packet_list;
    };
  },
)
ack_loop_example =
    ack_loop clear 4 (7 ∷ 5 ∷ []) receiving latest_hundred (λ a. refl)
      (omega arith, (omega arith, (omega arith, tt))) refl
      (omega arith, (omega arith, (omega arith, tt))) (omega arith) (omega arith)

abbrev room_packet : List ℕ
room_packet = 10 ∷ 0 ∷ 6 ∷ 0 ∷ 5 ∷ 0 ∷ 1 ∷ 0 ∷ 0 ∷ 0 ∷ []

abbrev spent : SendWindow
spent = record window { next_sequence = 9 }

build_outgoing_packet_cases_example :
    SendOutcome latest_hundred room_packet 70 (build_outgoing_packet latest_hundred room_packet 70)
build_outgoing_packet_cases_example = build_outgoing_packet_cases latest_hundred room_packet 70
