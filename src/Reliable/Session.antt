-- ===== src/Reliable/Session.antt =====
-- Common/Net/Reliable/ReliableUdpSession.h and ReliableUdpConfig.h: both directions of one peer.
pub mod Delivery
use windows_iocp_udp.Prelude.{
  ℕ, Bool, true, false, not, ◌||◌, ◌==◌, if◌then◌else◌, List, length, Option, none, some,
}
use windows_iocp_udp.Prelude.Int.{ℤ}
use windows_iocp_udp.Packet.PacketType
use windows_iocp_udp.Packet.PacketType.{is_reliable_packet_type}
use windows_iocp_udp.Packet.Header.{
  PacketHeader, protocol_version, deserialize_packet_header, is_reliable_packet_header,
  get_packet_header_protocol_version,
}
use windows_iocp_udp.Reliable.AckTracker
use windows_iocp_udp.Reliable.AckTracker.{AckTracker, observe_received_sequence, is_sequence_acked}
use windows_iocp_udp.Reliable.SendWindow
use windows_iocp_udp.Reliable.SendWindow.{
  SendWindow, PendingPacket, ResendResult, allocate_sequence, register_sequence, process_ack,
  set_max_pending_packet_count, set_max_resend_count, set_resend_interval,
}
use windows_iocp_udp.Reliable.PacketBuilder.{
  ReliableUdpPacketHeader, ReliableUdpPacketView, build_reliable_udp_packet,
  build_reliable_udp_ack_packet,
}

pub record ReliableUdpConfig : Type 0 where
  pub max_pending_packet_count : ℕ
  pub max_resend_count : ℤ
  pub resend_interval : ℕ

pub record Session : Type 0 where
  pub ack_tracker : AckTracker
  pub send_window : SendWindow

pub data BuildOutgoingPacketFailure : Type 0 where
  invalid_game_packet send_window_full : BuildOutgoingPacketFailure

-- `std::expected`.
pub data BuildOutgoingPacketResult : Type 0 where
  built : List ℕ → BuildOutgoingPacketResult
  failed : BuildOutgoingPacketFailure → BuildOutgoingPacketResult

pub data ProcessReceivedPacketStatus : Type 0 where
  ack_only_processed invalid_ack data_received duplicate_data : ProcessReceivedPacketStatus

pub record ProcessReceivedPacketResult : Type 0 where
  pub status : ProcessReceivedPacketStatus
  pub ack_packet_buffer : Option (List ℕ)

unfoldable pub configure : Session → ReliableUdpConfig → Session
configure s config =
    let w1 = set_max_pending_packet_count s.send_window config.max_pending_packet_count in
    let w2 = set_max_resend_count w1 config.max_resend_count in
    record s { send_window = set_resend_interval w2 config.resend_interval }

unfoldable pub reset : Session → Session
reset s = record {
  ack_tracker = AckTracker.reset s.ack_tracker;
  send_window = SendWindow.reset s.send_window;
}

-- `BuildOutgoingHeader`; `BuildOutgoingAckHeader` is the case of sequence 0.
unfoldable pub build_outgoing_header : Session → ℕ → ReliableUdpPacketHeader
build_outgoing_header s sequence =
    let t = s.ack_tracker in
    if t.has_received_any_sequence
    then record {
      sequence = sequence;
      ack_sequence = t.latest_received_sequence;
      ack_bitfield = t.ack_bitfield;
    }
    else record { sequence = sequence; ack_sequence = 0; ack_bitfield = 0 }

unfoldable pub build_outgoing_ack_header : Session → ReliableUdpPacketHeader
unfolding build_outgoing_header
build_outgoing_ack_header s = build_outgoing_header s 0

unfoldable pub build_ack_packet : Session → Option (List ℕ)
build_ack_packet s = build_reliable_udp_ack_packet (build_outgoing_ack_header s)

-- The first test of `BuildOutgoingPacket`.
unfoldable pub is_outgoing_game_packet : List ℕ → Option PacketHeader → Bool
is_outgoing_game_packet game_packet none = false
is_outgoing_game_packet game_packet (some h) = not (
    is_reliable_packet_header h
    || not (get_packet_header_protocol_version h == protocol_version)
    || not (h.size == length game_packet)
    || not (is_reliable_packet_type h.type))

-- The sequence number is spent before the packet is known to fit the window.
unfoldable pub build_outgoing_packet : Session → List ℕ → ℕ → BuildOutgoingPacketResult × Session
build_outgoing_packet s game_packet now =
    if not (is_outgoing_game_packet game_packet (deserialize_packet_header game_packet))
    then (failed invalid_game_packet, s)
    else let (sequence, w1) = allocate_sequence s.send_window in
      let s1 = record s { send_window = w1 } in
      elim (build_reliable_udp_packet (build_outgoing_header s1 sequence) game_packet) [
        | none ↦ (failed invalid_game_packet, s1)
        | some packet ↦
            let (registered, w2) = register_sequence w1 sequence packet now in
            if not registered
            then (failed send_window_full, record s { send_window = w2 })
            else (built packet, record s { send_window = w2 })
      ]

unfoldable pub process_received_ack : Session → ReliableUdpPacketHeader → Bool × Session
process_received_ack s h =
    let (done, w) = process_ack s.send_window h.ack_sequence h.ack_bitfield in
    (done, record s { send_window = w })

module _ (wide : ℕ → ℕ) where
  unfoldable pub process_received_data_header : Session → ReliableUdpPacketHeader → Bool × Session
  process_received_data_header s h =
      let is_already_received = is_sequence_acked s.ack_tracker h.sequence in
      let t = observe_received_sequence wide s.ack_tracker h.sequence in
      let (done, w) = process_ack s.send_window h.ack_sequence h.ack_bitfield in
      (not is_already_received, record { ack_tracker = t; send_window = w })

  unfoldable pub process_received_packet :
      Session → ReliableUdpPacketView → ProcessReceivedPacketResult × Session
  process_received_packet s v =
      if v.packet_header.type == PacketType.none
      then ack_only (process_received_ack s v.reliable_header)
      else new_or_old (process_received_data_header s v.reliable_header)
    where
      ack_only : Bool × Session → ProcessReceivedPacketResult × Session
      ack_only r = (
        record {
          status = if r.0 then ack_only_processed else invalid_ack;
          ack_packet_buffer = none;
        },
        r.1,
      )

      new_or_old : Bool × Session → ProcessReceivedPacketResult × Session
      new_or_old r = (
        record {
          status = if r.0 then data_received else duplicate_data;
          ack_packet_buffer = build_ack_packet r.1;
        },
        r.1,
      )

unfoldable pub extract_resend_result : Session → ℕ → ResendResult × Session
extract_resend_result s now =
    let (result, w) = SendWindow.extract_resend_result s.send_window now in
    (result, record s { send_window = w })

unfoldable pub extract_resend_packets : Session → ℕ → List PendingPacket × Session
extract_resend_packets s now =
    let (packets, w) = SendWindow.extract_resend_packets s.send_window now in
    (packets, record s { send_window = w })

unfoldable pub has_received_sequence : Session → ℕ → Bool
has_received_sequence s sequence = is_sequence_acked s.ack_tracker sequence
