-- ===== src/Server/Sessions.antt =====
-- Server/Net/ReliableUdpSessionRegistry.h: the reliable sessions of the server's peers. The closing set is a
-- function from the endpoint, since the code never walks it.
pub mod Resends
pub mod Invariant
pub mod Authentication
pub mod Serving
pub mod ResendPass
use windows_iocp_udp.Prelude.{
  ℕ, ◌+◌, Bool, true, false, not, ◌&&◌, ◌==◌, if◌then◌else◌, List, [], ◌∷◌, length, Option, none,
  some,
}
use windows_iocp_udp.Identity.{EndpointKey, endpoint_eq, SessionToken, invalid_session_token}
use windows_iocp_udp.Packet.Header.{is_reliable_packet_header}
use windows_iocp_udp.Reliable.AckTracker
use windows_iocp_udp.Reliable.SendWindow
use windows_iocp_udp.Reliable.PacketBuilder.{ReliableUdpPacketView}
use windows_iocp_udp.Reliable.Session
use windows_iocp_udp.Reliable.Session.{Session, ReliableUdpConfig, configure, built, failed}
use windows_iocp_udp.Auth.ReplayGuard
use windows_iocp_udp.Auth.ReplayGuard.{
  ReplayGuard, ObserveStatus, new_sequence, duplicate, too_old, observe,
}
use windows_iocp_udp.Auth.AuthenticatedPacket.{
  AuthenticatedUdpPacketView, parse_authenticated_udp_packet, verify_authenticated_udp_packet,
  build_unauthenticated_udp_packet,
}
use windows_iocp_udp.Server.EndpointTable.{EndpointTable, find_entry, put_entry, erase_entry}

pub data AuthenticateStatus : Type 0 where
  succeeded session_not_found invalid_packet invalid_tag replay_rejected : AuthenticateStatus

pub record AuthenticateResult : Type 0 where
  pub status : AuthenticateStatus
  pub packet_buffer : Option (List ℕ)

pub data ReceivedStatus : Type 0 where
  no_session ack_only invalid_ack new_data old_data : ReceivedStatus

pub record ReceivedResult : Type 0 where
  pub status : ReceivedStatus
  pub ack_packet_buffer : Option (List ℕ)

pub data OutgoingFailure : Type 0 where
  unknown_session invalid_game_packet send_window_full : OutgoingFailure

pub data OutgoingResult : Type 0 where
  outgoing : List ℕ → OutgoingResult
  refused : OutgoingFailure → OutgoingResult

pub record ResendTask : Type 0 where
  pub endpoint_key : EndpointKey
  pub packet_buffer : List ℕ

pub record ResendBatch : Type 0 where
  pub task_list : List ResendTask
  pub give_up_packet_count : ℕ

pub record SessionEntry : Type 0 where
  pub reliable_session : Session
  pub session_token : SessionToken
  pub replay_guard : ReplayGuard

abbrev pub ClosingEndpointSet : Type 0
ClosingEndpointSet = EndpointKey → Bool

pub record Registry : Type 0 where
  pub session_table : EndpointTable SessionEntry
  pub closing_endpoint_set : ClosingEndpointSet

abbrev pub erase_closing : ClosingEndpointSet → EndpointKey → ClosingEndpointSet
erase_closing closing key j = if endpoint_eq key j then false else closing j

abbrev pub insert_closing : ClosingEndpointSet → EndpointKey → ClosingEndpointSet
insert_closing closing key j = if endpoint_eq key j then true else closing j

abbrev pub has_entry : Option SessionEntry → Bool
has_entry none = false
has_entry (some entry) = true

abbrev pub pending_count : Session → ℕ
pending_count session = length session.send_window.pending_packet_list

-- A session as it is constructed; the interval of 100 ms in clock ticks is given.
abbrev pub fresh_entry : ℕ → SessionEntry
fresh_entry hundred_ms = record {
  reliable_session = record {
    ack_tracker = AckTracker.fresh;
    send_window = SendWindow.initial hundred_ms;
  };
  session_token = invalid_session_token;
  replay_guard = ReplayGuard.fresh;
}

-- The entry that `Upsert` leaves.
unfoldable pub renewed_entry :
    ℕ → Option SessionEntry → ReliableUdpConfig → SessionToken → SessionEntry
renewed_entry hundred_ms none config token =
    let entry = fresh_entry hundred_ms in
    record entry {
      session_token = token;
      reliable_session = configure entry.reliable_session config;
    }
renewed_entry hundred_ms (some entry) config token = record {
  reliable_session = configure (Session.reset entry.reliable_session) config;
  session_token = token;
  replay_guard = ReplayGuard.reset entry.replay_guard;
}

unfoldable pub upsert : ℕ → Registry → EndpointKey → ReliableUdpConfig → SessionToken → Registry
upsert hundred_ms r key config token = record {
  session_table =
      put_entry r.session_table key
        (renewed_entry hundred_ms (find_entry r.session_table key) config token);
  closing_endpoint_set = erase_closing r.closing_endpoint_set key;
}

abbrev rejected : AuthenticateStatus → AuthenticateResult
rejected status = record { status = status; packet_buffer = none }

abbrev unwrapped : Option (List ℕ) → AuthenticateResult
unwrapped none = rejected invalid_packet
unwrapped (some packet) = record { status = succeeded; packet_buffer = some packet }

-- What `AuthenticateIncomingPacket` answers once the replay guard has seen the number.
unfoldable pub admit_observed : ObserveStatus → AuthenticatedUdpPacketView → AuthenticateResult
admit_observed too_old view = rejected replay_rejected
admit_observed duplicate view =
    if not (is_reliable_packet_header view.packet_header)
    then rejected replay_rejected
    else unwrapped (build_unauthenticated_udp_packet view)
admit_observed new_sequence view = unwrapped (build_unauthenticated_udp_packet view)

-- A changed entry at a key that the table has.
abbrev pub with_entry : Registry → EndpointKey → SessionEntry → Registry
with_entry r key entry = record r { session_table = put_entry r.session_table key entry }

module _ (hash : List ℕ → List ℕ → Option (List ℕ)) where
  unfoldable pub authenticate_parsed :
      Registry
      → EndpointKey
      → SessionEntry
      → AuthenticatedUdpPacketView
      → AuthenticateResult × Registry
  authenticate_parsed r key entry view =
      if not (verify_authenticated_udp_packet hash entry.session_token view)
      then (rejected invalid_tag, r)
      else let (status, guard) = observe entry.replay_guard view.authentication.sequence in
        (admit_observed status view, with_entry r key (record entry { replay_guard = guard }))

  unfoldable pub authenticate_incoming_packet :
      Registry → EndpointKey → List ℕ → AuthenticateResult × Registry
  authenticate_incoming_packet r key packet = elim (find_entry r.session_table key) [
    | none ↦ (rejected session_not_found, r)
    | some entry ↦ elim (parse_authenticated_udp_packet packet) [
      | none ↦ (rejected invalid_packet, r)
      | some view ↦ authenticate_parsed r key entry view
    ]
  ]

abbrev pub received_status : Session.ProcessReceivedPacketStatus → ReceivedStatus
received_status Session.ack_only_processed = ack_only
received_status Session.invalid_ack = invalid_ack
received_status Session.data_received = new_data
received_status Session.duplicate_data = old_data

abbrev pub is_drained : ClosingEndpointSet → EndpointKey → Session → Bool
is_drained closing key session = closing key && pending_count session == 0

-- The session goes when its endpoint is closing and nothing waits for an acknowledgement.
unfoldable pub settle : Registry → EndpointKey → SessionEntry → Registry
settle r key entry =
    if is_drained r.closing_endpoint_set key entry.reliable_session
    then record {
      session_table = erase_entry r.session_table key;
      closing_endpoint_set = erase_closing r.closing_endpoint_set key;
    }
    else with_entry r key entry

module _ (wide : ℕ → ℕ) where
  unfoldable pub process_received_packet :
      Registry → EndpointKey → ReliableUdpPacketView → ReceivedResult × Registry
  process_received_packet r key view = elim (find_entry r.session_table key) [
    | none ↦ (record { status = no_session; ack_packet_buffer = none }, r)
    | some entry ↦
        let (result, session) = Session.process_received_packet wide entry.reliable_session view in
        (
          record {
            status = received_status result.status;
            ack_packet_buffer = result.ack_packet_buffer;
          },
          settle r key (record entry { reliable_session = session }),
        )
  ]

abbrev pub outgoing_result : Session.BuildOutgoingPacketResult → OutgoingResult
outgoing_result (built packet) = outgoing packet
outgoing_result (failed Session.invalid_game_packet) = refused invalid_game_packet
outgoing_result (failed Session.send_window_full) = refused send_window_full

unfoldable pub build_outgoing_packet :
    Registry → EndpointKey → List ℕ → ℕ → OutgoingResult × Registry
build_outgoing_packet r key game_packet now = elim (find_entry r.session_table key) [
  | none ↦ (refused unknown_session, r)
  | some entry ↦
      let (result, session) =
        Session.build_outgoing_packet entry.reliable_session game_packet now in
      (outgoing_result result, with_entry r key (record entry { reliable_session = session }))
]

unfoldable pub remove : Registry → EndpointKey → Bool × Registry
remove r key = (
  has_entry (find_entry r.session_table key),
  record {
    session_table = erase_entry r.session_table key;
    closing_endpoint_set = erase_closing r.closing_endpoint_set key;
  },
)

unfoldable pub clear : Registry → Registry
clear r = record { session_table = []; closing_endpoint_set = λ key. false }

unfoldable pub begin_close : Registry → EndpointKey → Bool × Registry
begin_close r key =
    if not (has_entry (find_entry r.session_table key))
    then (false, r)
    else (true, record r { closing_endpoint_set = insert_closing r.closing_endpoint_set key })

abbrev pub get_pending_packet_count : EndpointTable SessionEntry → ℕ
get_pending_packet_count [] = 0
get_pending_packet_count ((key, entry) ∷ table) =
    pending_count entry.reliable_session + get_pending_packet_count table
