-- ===== src/Reliable/Session/Delivery.antt =====
-- What the session of ReliableUdpSession.h delivers, acknowledges and sends.
use windows_iocp_udp.Prelude.{
  ℕ, ◌≤◌, ◌<◌, ◌^◌, ◌≡◌, ◌⊎◌, inl, inr, true, false, not, ◌&&◌, List, [], ◌∷◌, ◌++◌, none, some,
  arith, All, keep, Bool-cases, Option-cases,
}
use windows_iocp_udp.Prelude.Words.{u32_mod, add32, sub32}
use windows_iocp_udp.Sequence.{is_sequence_newer}
use windows_iocp_udp.Packet.Header.{deserialize_packet_header}
use windows_iocp_udp.Reliable.AckTracker.{
  AckTracker, is_sequence_acked, observe_received_sequence, observe_older,
}
use windows_iocp_udp.Reliable.AckTracker.Window.{within, acked_by-read}
use windows_iocp_udp.Reliable.AckTracker.History.{
  after, after-has, acked-after, contains, newest, Below,
}
use windows_iocp_udp.Reliable.SendWindow.{
  allocate_sequence, register_sequence, can_register_sent_packet,
}
use windows_iocp_udp.Reliable.SendWindow.Acks.{confirms, process_ack-after}
use windows_iocp_udp.Reliable.PacketBuilder.{ReliableUdpPacketHeader, build_reliable_udp_packet}
use windows_iocp_udp.Reliable.Session.{
  BuildOutgoingPacketResult, Session, built, failed, invalid_game_packet, send_window_full,
  is_outgoing_game_packet, build_outgoing_packet, build_outgoing_header, build_outgoing_ack_header,
  process_received_ack, process_received_data_header,
}

-- A data packet is taken as new exactly when its number was not received before among the last 33
-- numbers up to the newest: after any history of numbers below 2 ^ 31, with the processor's shift by 32
-- taken to clear the word.
pub is_new-after :
    (wide : ℕ → ℕ) (past : List ℕ) (s : Session) (h : ReliableUdpPacketHeader)
    → ((a : ℕ) → wide a ≡ 0)
    → Below (2 ^ 31) past
    → h.sequence < 2 ^ 31
    → s.ack_tracker ≡ after wide past
    → ((process_received_data_header wide s h).0
        ≡ not (within (newest past) h.sequence && contains h.sequence past))
      × ((process_received_data_header wide s h).1.ack_tracker ≡ after wide (h.sequence ∷ past))
unfolding process_received_data_header after
is_new-after wide past s h clears b hs e =
    ground (arith, acked-after wide past h.sequence clears b hs)

-- The acknowledgement loop between two sessions: the header that the receiver builds after a history of
-- data packets that is not empty, processed by the sender, takes exactly the packets out of its window
-- whose numbers are in that history and within 32 of the newest. The numbers of the history and of the
-- waiting packets are below 2 ^ 31, the newest of the history is one that the sender has allocated, the
-- next number to allocate is 2 ^ 31 at most, and the processor's shift by 32 is taken to clear the word.
pub ack_loop :
    (wide : ℕ → ℕ) (n : ℕ) (past : List ℕ) (receiver sender : Session)
    → ((a : ℕ) → wide a ≡ 0)
    → Below (2 ^ 31) (n ∷ past)
    → receiver.ack_tracker ≡ after wide (n ∷ past)
    → All (λ p. p.sequence < 2 ^ 31) sender.send_window.pending_packet_list
    → newest (n ∷ past) < sender.send_window.next_sequence
    → sender.send_window.next_sequence ≤ 2 ^ 31
    → process_received_ack sender (build_outgoing_ack_header receiver) ≡ (
      true,
      record sender {
        send_window = record (sender.send_window) {
          pending_packet_list =
              keep (λ p. not (confirms (n ∷ past) p)) sender.send_window.pending_packet_list;
        };
      },
    )
unfolding process_received_ack build_outgoing_ack_header
ack_loop wide n past receiver sender clears b e h new top = ground (
  arith,
  process_ack-after wide n past sender.send_window clears b h new top,
  after-has wide n past,
)

-- A number more than 32 behind the newest leaves the tracker as it is, and is never reported.
observe_late :
    (wide : ℕ → ℕ) (t : AckTracker) (x : ℕ)
    → t.has_received_any_sequence ≡ true
    → t.latest_received_sequence < u32_mod
    → x < u32_mod
    → 32 < sub32 t.latest_received_sequence x
    → sub32 t.latest_received_sequence x ≤ 2 ^ 31
    → (observe_received_sequence wide t x ≡ t) × (is_sequence_acked t x ≡ false)
unfolding observe_received_sequence observe_older is_sequence_newer is_sequence_acked
observe_late wide t x e hl hx far near =
    ground (arith, acked_by-read x t.latest_received_sequence t.ack_bitfield hx hl)

-- A data packet whose number lies more than 32 behind the newest one received is delivered as new each
-- time that it arrives, although it may have been delivered before.
pub late_duplicate_delivered :
    (wide : ℕ → ℕ) (s : Session) (h : ReliableUdpPacketHeader)
    → s.ack_tracker.has_received_any_sequence ≡ true
    → s.ack_tracker.latest_received_sequence < u32_mod
    → h.sequence < u32_mod
    → 32 < sub32 s.ack_tracker.latest_received_sequence h.sequence
    → sub32 s.ack_tracker.latest_received_sequence h.sequence ≤ 2 ^ 31
    → ((process_received_data_header wide s h).0 ≡ true)
      × ((process_received_data_header wide (process_received_data_header wide s h).1 h).0 ≡ true)
unfolding process_received_data_header
late_duplicate_delivered wide s h e hl hx far near =
    ground (arith, observe_late wide s.ack_tracker h.sequence e hl hx far near)

-- The four outcomes of sending, each with the condition that it has.
abbrev pub SendOutcome : Session → List ℕ → ℕ → BuildOutgoingPacketResult × Session → Type 0
SendOutcome s game_packet now r =
    let w = s.send_window in
    let spent = record w { next_sequence = add32 w.next_sequence 1 } in
    let fits = is_outgoing_game_packet game_packet (deserialize_packet_header game_packet) in
    let wrapped = build_reliable_udp_packet (build_outgoing_header s w.next_sequence) game_packet in
    ((fits ≡ false) × (r ≡ (failed invalid_game_packet, s)))
    ⊎ ((fits ≡ true)
        × (wrapped ≡ none)
        × (r ≡ (failed invalid_game_packet, record s { send_window = spent })))
    ⊎ ((packet : List ℕ) × (fits ≡ true)
        × (wrapped ≡ some packet)
        × (can_register_sent_packet w packet ≡ false)
        × (r ≡ (failed send_window_full, record s { send_window = spent })))
    ⊎ ((packet : List ℕ) × (fits ≡ true)
        × (wrapped ≡ some packet)
        × (can_register_sent_packet w packet ≡ true)
        × (r ≡ (
          built packet,
          record s {
            send_window = record spent {
              pending_packet_list =
                  w.pending_packet_list
                  ++ record {
                    sequence = w.next_sequence;
                    packet_buffer = packet;
                    last_sent_time = now;
                    resend_count = 0;
                  }
                    ∷ [];
            };
          },
        )))

-- Sending has four outcomes, whose conditions exclude each other. A packet that is no reliable game packet
-- is refused and changes nothing. Any other spends one number: one that cannot be wrapped leaves the window
-- as it was, so does one that cannot be registered, and one that can be is sent and
-- joins the window under that number, never resent so far.
pub build_outgoing_packet_cases :
    (s : Session) (game_packet : List ℕ) (now : ℕ)
    → SendOutcome s game_packet now (build_outgoing_packet s game_packet now)
unfolding build_outgoing_packet build_outgoing_header allocate_sequence register_sequence
build_outgoing_packet_cases s game_packet now =
    let w = s.send_window in
    let wrapped = build_reliable_udp_packet (build_outgoing_header s w.next_sequence) game_packet in
    elim (Bool-cases
      (is_outgoing_game_packet game_packet (deserialize_packet_header game_packet))) [
        | inr refused ↦ inl (refused, rw (refused, build_outgoing_packet))
        | inl fits ↦ elim (Option-cases wrapped) [
          | inl e ↦ inr (inl (fits, e, rw (fits, e, build_outgoing_packet)))
          | inr (packet, e) ↦ elim (Bool-cases (can_register_sent_packet w packet)) [
            | inr full ↦ inr (inr (inl (packet, fits, e, full, ground arith)))
            | inl room ↦ inr (inr (inr (packet, fits, e, room, ground arith)))
          ]
        ]
      ]
