-- ===== src/Tests/Registry.antt =====
-- The laws of ReliableUdpSessionRegistry.h on a registry with one session.
use windows_iocp_udp.Prelude.{◌≡◌, ◌≢◌, refl, true, [], ◌∷◌, take, some, arith}
use windows_iocp_udp.Prelude.Int.{pos}
use windows_iocp_udp.Identity.{EndpointKey, endpoint_eq, is_valid_session_token}
use windows_iocp_udp.Packet.Header.{is_reliable_packet_header}
use windows_iocp_udp.Reliable.PacketBuilder.{ReliableUdpPacketView}
use windows_iocp_udp.Reliable.SendWindow.{PendingPacket}
use windows_iocp_udp.Reliable.Session
use windows_iocp_udp.Reliable.Session.{ReliableUdpConfig}
use windows_iocp_udp.Auth.ReplayGuard.{observe, duplicate, too_old}
use windows_iocp_udp.Auth.AuthenticatedPacket.{
  AuthenticatedUdpPacketView, build_session_token_key, parse_authenticated_udp_packet,
  build_unauthenticated_udp_packet,
}
use windows_iocp_udp.Server.EndpointTable.{find_entry}
use windows_iocp_udp.Server.Sessions.ResendPass
use windows_iocp_udp.Reliable.SendWindow
use windows_iocp_udp.Server.Sessions.{
  Registry, SessionEntry, fresh_entry, succeeded, pending_count, upsert,
  authenticate_incoming_packet, authenticate_parsed, admit_observed, process_received_packet,
  build_outgoing_packet, remove, begin_close,
}
use windows_iocp_udp.Server.Sessions.ResendPass.{extract_resend_batch}
use windows_iocp_udp.Server.Sessions.Invariant.{IsCoherent, operations-IsCoherent, closing_waits}
use windows_iocp_udp.Server.Sessions.Authentication.{authenticate_succeeded}
use windows_iocp_udp.Tests.Authentication.{
  length_hash, length_hash-Bytes, secret, leave_sealed, leave_parsed, leave_verified, leave_tag,
  leave_unwrapped,
}

abbrev home : EndpointKey
home = record { address = 1; port = 7000 }

abbrev waiting : PendingPacket
waiting = record { sequence = 1; packet_buffer = 1 ∷ []; last_sent_time = 50; resend_count = 0 }

-- A session that is closing and has sent one packet.
abbrev home_entry : SessionEntry
home_entry =
    let entry = fresh_entry 100 in
    record entry {
      session_token = secret;
      reliable_session = record entry.reliable_session {
        send_window = record entry.reliable_session.send_window {
          pending_packet_list = waiting ∷ [];
        };
      };
    }

abbrev one_session : Registry
one_session = record {
  session_table = (home, home_entry) ∷ [];
  closing_endpoint_set = endpoint_eq home;
}

one_session-IsCoherent : IsCoherent one_session
one_session-IsCoherent = ((refl, tt), λ j c. ground arith)

abbrev settings : ReliableUdpConfig
settings = record { max_pending_packet_count = 8; max_resend_count = pos 3; resend_interval = 100 }

abbrev ack_view : ReliableUdpPacketView
ack_view = record {
  packet_header = record { size = 18; type = 0; version = 32773 };
  reliable_header = record { sequence = 0; ack_sequence = 1; ack_bitfield = 0 };
  payload = [];
}

operations-IsCoherent_example :
    IsCoherent (upsert 100 one_session home settings secret)
    × IsCoherent (authenticate_incoming_packet length_hash one_session home leave_sealed).1
    × IsCoherent (process_received_packet (λ d. 0) one_session home ack_view).1
    × IsCoherent (build_outgoing_packet one_session home leave_sealed 90).1
    × IsCoherent (remove one_session home).1
    × IsCoherent (begin_close one_session home).1
    × IsCoherent (extract_resend_batch one_session 90).1
operations-IsCoherent_example =
    operations-IsCoherent length_hash (λ d. 0) 100 one_session home settings secret leave_sealed
      ack_view 90 one_session-IsCoherent

still_closing : (extract_resend_batch one_session 90).1.closing_endpoint_set home ≡ true
unfolding extract_resend_batch ResendPass.resend_loop Session.extract_resend_result
    SendWindow.extract_resend_result SendWindow.resend_loop
still_closing = refl

closing_waits_example :
    (entry : SessionEntry) × (find_entry (extract_resend_batch one_session 90).1.session_table home
      ≡ some entry)
    × (pending_count entry.reliable_session ≢ 0)
closing_waits_example = closing_waits one_session 90 home one_session-IsCoherent still_closing

let_in :
    (authenticate_incoming_packet length_hash one_session home leave_sealed).0.status ≡ succeeded
unfolding authenticate_incoming_packet authenticate_parsed admit_observed observe
let_in = ground (arith, leave_parsed, leave_verified, leave_unwrapped)

authenticate_succeeded_example :
    (entry : SessionEntry) × (view : AuthenticatedUdpPacketView) × (find_entry
        one_session.session_table home
      ≡ some entry)
    × (parse_authenticated_udp_packet leave_sealed ≡ some view)
    × (is_valid_session_token entry.session_token ≡ true)
    × (length_hash (build_session_token_key entry.session_token) (take 12 leave_sealed)
        ≡ some leave_tag)
    × ((observe entry.replay_guard view.authentication.sequence).0 ≢ too_old)
    × (((observe entry.replay_guard view.authentication.sequence).0 ≡ duplicate)
        → is_reliable_packet_header view.packet_header ≡ true)
    × ((authenticate_incoming_packet length_hash one_session home leave_sealed).0.packet_buffer
        ≡ build_unauthenticated_udp_packet view)
authenticate_succeeded_example =
    authenticate_succeeded length_hash one_session home leave_sealed length_hash-Bytes (omega arith)
      let_in
