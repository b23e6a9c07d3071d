-- ===== src/Server/Sessions/Invariant.antt =====
-- What every operation of ReliableUdpSessionRegistry.h keeps.
use windows_iocp_udp.Prelude.{
  ℕ, ◌≡◌, ◌≢◌, true, List, Option, some, arith, Option-cases, Bool-cases, inl, inr,
}
use windows_iocp_udp.Identity.{EndpointKey, SessionToken}
use windows_iocp_udp.Reliable.PacketBuilder.{ReliableUdpPacketView}
use windows_iocp_udp.Reliable.Session
use windows_iocp_udp.Reliable.Session.{Session, ReliableUdpConfig}
use windows_iocp_udp.Auth.ReplayGuard.{observe}
use windows_iocp_udp.Auth.AuthenticatedPacket.{
  parse_authenticated_udp_packet, verify_authenticated_udp_packet,
}
use windows_iocp_udp.Server.EndpointTable.{
  endpoint_key, find_entry, erase_entry, find-put, find-erase, find-same, Unique, put-Unique,
  erase-Unique,
}
use windows_iocp_udp.Server.Sessions.{
  Registry, SessionEntry, erase_closing, has_entry, pending_count, is_drained, with_entry, settle,
  upsert, authenticate_incoming_packet, authenticate_parsed, process_received_packet,
  build_outgoing_packet, remove, begin_close, renewed_entry,
}
use windows_iocp_udp.Server.Sessions.ResendPass.{extract_resend_batch}
use windows_iocp_udp.Server.Sessions.Resends.{
  resent, resend_loop-Unique, extract_resend_batch-lookup,
}

-- Each endpoint has one session, and every endpoint that is closing has one.
abbrev pub IsCoherent : Registry → Type 0
IsCoherent r =
    Unique r.session_table
    × ((j : EndpointKey)
        → r.closing_endpoint_set j ≡ true
        → has_entry (find_entry r.session_table j) ≡ true)

put-IsCoherent :
    (r : Registry) (key : EndpointKey) (entry : SessionEntry)
    → IsCoherent r
    → IsCoherent (with_entry r key entry)
put-IsCoherent r key entry (unique, closing) = (
  put-Unique r.session_table key entry unique,
  λ j c. ground (arith, closing j c, find-put r.session_table key j entry),
)

pub erase-IsCoherent :
    (r : Registry) (key : EndpointKey)
    → IsCoherent r
    → IsCoherent (record {
      session_table = erase_entry r.session_table key;
      closing_endpoint_set = erase_closing r.closing_endpoint_set key;
    })
erase-IsCoherent r key (unique, closing) = (
  erase-Unique r.session_table key unique,
  λ j c. ground (arith, closing j, find-erase r.session_table key j),
)

pub upsert-IsCoherent :
    (hundred_ms : ℕ) (r : Registry) (key : EndpointKey) (config : ReliableUdpConfig)
    (token : SessionToken)
    → IsCoherent r
    → IsCoherent (upsert hundred_ms r key config token)
unfolding upsert
upsert-IsCoherent hundred_ms r key config token (unique, closing) =
    let entry = renewed_entry hundred_ms (find_entry r.session_table key) config token in
    (
      put-Unique r.session_table key entry unique,
      λ j c. ground (arith, closing j, find-put r.session_table key j entry),
    )

settle-IsCoherent :
    (r : Registry) (key : EndpointKey) (entry : SessionEntry)
    → IsCoherent r
    → IsCoherent (settle r key entry)
unfolding settle
settle-IsCoherent r key entry c =
    elim (Bool-cases (is_drained r.closing_endpoint_set key entry.reliable_session)) [
      | inl e ↦ rw e (erase-IsCoherent r key c)
      | inr e ↦ rw e (put-IsCoherent r key entry c)
    ]

pub begin_close-IsCoherent :
    (r : Registry) (key : EndpointKey) → IsCoherent r → IsCoherent (begin_close r key).1
unfolding begin_close
begin_close-IsCoherent r key (unique, closing) =
    elim (Bool-cases (has_entry (find_entry r.session_table key))) [
      | inr e ↦ rw e (unique, closing)
      | inl e ↦ rw e (unique, λ j c. ground (arith, closing j, find-same r.session_table key j))
    ]

pub extract_resend_batch-IsCoherent :
    (r : Registry) (now : ℕ) → IsCoherent r → IsCoherent (extract_resend_batch r now).1
extract_resend_batch-IsCoherent r now (unique, closing) = (
  unfold extract_resend_batch in
      resend_loop-Unique now r.closing_endpoint_set r.session_table unique,
  λ j c. ground (arith, extract_resend_batch-lookup r now j unique, closing j),
)

-- After a resend pass, every endpoint that is still closing has a session with packets that wait for their
-- acknowledgement, in a registry where the endpoints are different and those that close have sessions.
pub closing_waits :
    (r : Registry) (now : ℕ) (j : EndpointKey)
    → IsCoherent r
    → (extract_resend_batch r now).1.closing_endpoint_set j ≡ true
    → (entry : SessionEntry) × (find_entry (extract_resend_batch r now).1.session_table j
        ≡ some entry)
      × (pending_count entry.reliable_session ≢ 0)
closing_waits r now j (unique, closing) waits =
    let (found, still) = extract_resend_batch-lookup r now j unique in
    elim (Option-cases (find_entry r.session_table j)) [
      | inl e ↦ absurd (ground (arith, closing j, found, still))
      | inr (entry, e) ↦ (
        record entry { reliable_session = resent now entry },
        ground (arith, found, still),
        ground (arith, found, still),
      )
    ]

pub authenticate-IsCoherent :
    (hash : List ℕ → List ℕ → Option (List ℕ)) (r : Registry) (key : EndpointKey) (packet : List ℕ)
    → IsCoherent r
    → IsCoherent (authenticate_incoming_packet hash r key packet).1
unfolding authenticate_incoming_packet authenticate_parsed
authenticate-IsCoherent hash r key packet c = elim (Option-cases (find_entry r.session_table key)) [
  | inl e ↦ rw (e, authenticate_incoming_packet) c
  | inr (entry, e) ↦ elim (Option-cases (parse_authenticated_udp_packet packet)) [
    | inl n ↦ rw (e, n, authenticate_incoming_packet) c
    | inr (view, p) ↦
        elim (Bool-cases (verify_authenticated_udp_packet hash entry.session_token view)) [
          | inl v ↦
              let guard = (observe entry.replay_guard view.authentication.sequence).1 in
              rw (e, p, v, authenticate_incoming_packet, authenticate_parsed)
                (put-IsCoherent r key (record entry { replay_guard = guard }) c)
          | inr v ↦ rw (e, p, v, authenticate_incoming_packet, authenticate_parsed) c
        ]
  ]
]

pub process-IsCoherent :
    (wide : ℕ → ℕ) (r : Registry) (key : EndpointKey) (view : ReliableUdpPacketView)
    → IsCoherent r
    → IsCoherent (process_received_packet wide r key view).1
unfolding process_received_packet
process-IsCoherent wide r key view c = elim (Option-cases (find_entry r.session_table key)) [
  | inl e ↦ rw (e, process_received_packet) c
  | inr (entry, e) ↦
      let session = (Session.process_received_packet wide entry.reliable_session view).1 in
      rw (e, process_received_packet)
        (settle-IsCoherent r key (record entry { reliable_session = session }) c)
]

pub build-IsCoherent :
    (r : Registry) (key : EndpointKey) (game_packet : List ℕ) (now : ℕ)
    → IsCoherent r
    → IsCoherent (build_outgoing_packet r key game_packet now).1
unfolding build_outgoing_packet
build-IsCoherent r key game_packet now c = elim (Option-cases (find_entry r.session_table key)) [
  | inl e ↦ rw (e, build_outgoing_packet) c
  | inr (entry, e) ↦
      let session = (Session.build_outgoing_packet entry.reliable_session game_packet now).1 in
      rw (e, build_outgoing_packet)
        (put-IsCoherent r key (record entry { reliable_session = session }) c)
]

-- The operations of the registry keep a session per endpoint and a session for each closing endpoint: a
-- session that is put in or renewed, a packet authenticated, received or built, a session removed or told
-- to close, and a resend pass.
pub operations-IsCoherent :
    (hash : List ℕ → List ℕ → Option (List ℕ)) (wide : ℕ → ℕ) (hundred_ms : ℕ) (r : Registry)
    (key : EndpointKey) (config : ReliableUdpConfig) (token : SessionToken) (packet : List ℕ)
    (view : ReliableUdpPacketView) (now : ℕ)
    → IsCoherent r
    → IsCoherent (upsert hundred_ms r key config token)
      × IsCoherent (authenticate_incoming_packet hash r key packet).1
      × IsCoherent (process_received_packet wide r key view).1
      × IsCoherent (build_outgoing_packet r key packet now).1
      × IsCoherent (remove r key).1
      × IsCoherent (begin_close r key).1
      × IsCoherent (extract_resend_batch r now).1
operations-IsCoherent hash wide hundred_ms r key config token packet view now c = (
  upsert-IsCoherent hundred_ms r key config token c,
  authenticate-IsCoherent hash r key packet c,
  process-IsCoherent wide r key view c,
  build-IsCoherent r key packet now c,
  unfold remove in erase-IsCoherent r key c,
  begin_close-IsCoherent r key c,
  extract_resend_batch-IsCoherent r now c,
)
