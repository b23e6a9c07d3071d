-- ===== src/Server/UdpServer/Guarded.antt =====
-- Which packets reach a handler of UdpServer.cpp.
use windows_iocp_udp.Prelude.{
  ℕ, ◌≡◌, ◌≢◌, ◌⊎◌, refl, ap, false, List, Option, none, some, arith, Option-cases, Bool-cases, inl,
  inr,
}
use windows_iocp_udp.Identity.{EndpointKey}
use windows_iocp_udp.Packet.Header.{PacketHeader, deserialize_packet_header}
use windows_iocp_udp.Auth.ReplayGuard.{ObserveStatus, new_sequence, duplicate, too_old, observe}
use windows_iocp_udp.Auth.AuthenticatedPacket.{
  AuthenticatedUdpPacketView, requires_client_packet_authentication, parse_authenticated_udp_packet,
  verify_authenticated_udp_packet, build_unauthenticated_udp_packet,
}
use windows_iocp_udp.Packet.Header.{is_reliable_packet_header}
use windows_iocp_udp.Server.EndpointTable.{find_entry}
use windows_iocp_udp.Server.Sessions
use windows_iocp_udp.Server.Sessions.{
  AuthenticateStatus, Registry, admit_observed, authenticate_incoming_packet, authenticate_parsed,
}
use windows_iocp_udp.Server.Dispatch.{succeeded, HandlerTable}
use windows_iocp_udp.Server.Dispatch.Refusals.{dispatch_cases}
use windows_iocp_udp.Server.UdpServer.Requests.{Running}
use windows_iocp_udp.Server.UdpServer.Receive.{with_sessions, dispatch_packet}

admit_observed-buffer :
    (status : ObserveStatus) (view : AuthenticatedUdpPacketView)
    → ((admit_observed status view).status ≡ Sessions.succeeded)
      ⊎ ((admit_observed status view).packet_buffer ≡ none)
unfolding admit_observed
admit_observed-buffer too_old view = inr refl
admit_observed-buffer duplicate view =
    elim (Bool-cases (is_reliable_packet_header view.packet_header)) [
      | inr lossy ↦ inr (ground (arith, lossy))
      | inl reliable ↦ elim (Option-cases (build_unauthenticated_udp_packet view)) [
        | inl e ↦ inr (ground (arith, reliable, e))
        | inr (bytes, e) ↦ inl (ground (arith, reliable, e))
      ]
    ]
admit_observed-buffer new_sequence view =
    elim (Option-cases (build_unauthenticated_udp_packet view)) [
      | inl e ↦ inr (ground (arith, e))
      | inr (bytes, e) ↦ inl (ground (arith, e))
    ]

authenticate-buffer :
    (hash : List ℕ → List ℕ → Option (List ℕ)) (r : Registry) (key : EndpointKey) (packet : List ℕ)
    → ((authenticate_incoming_packet hash r key packet).0.status ≡ Sessions.succeeded)
      ⊎ ((authenticate_incoming_packet hash r key packet).0.packet_buffer ≡ none)
unfolding authenticate_incoming_packet authenticate_parsed
authenticate-buffer hash r key packet = elim (Option-cases (find_entry r.session_table key)) [
  | inl e ↦ inr (ground (arith, e))
  | inr (entry, e) ↦ elim (Option-cases (parse_authenticated_udp_packet packet)) [
    | inl bad ↦ inr (ground (arith, e, bad))
    | inr (view, parsed) ↦
        elim (Bool-cases (verify_authenticated_udp_packet hash entry.session_token view)) [
          | inr forged ↦ inr (ground (arith, e, parsed, forged))
          | inl good ↦
              let status = (observe entry.replay_guard view.authentication.sequence).0 in
              elim (admit_observed-buffer status view) [
                | inl h ↦
                    inl (rw (e, parsed, good, authenticate_incoming_packet, authenticate_parsed) h)
                | inr h ↦
                    inr (rw (e, parsed, good, authenticate_incoming_packet, authenticate_parsed) h)
              ]
        ]
  ]
]

-- The packet is of one of the two types that come before the session.
abbrev pub ComesFirst : List ℕ → Type 0
ComesFirst packet =
    (h : PacketHeader) × (deserialize_packet_header packet ≡ some h)
    × (requires_client_packet_authentication h.type ≡ false)

module _ (wide : ℕ → ℕ) (table : HandlerTable Running)
    (hash : List ℕ → List ℕ → Option (List ℕ)) where
  -- A packet that is no login and no join request does something only where the session of its endpoint
  -- authenticates it. Every other is answered with an error, with nothing sent and nothing changed in the
  -- server but the sessions.
  pub only_authentic_packets_act :
      (key : EndpointKey) (packet : List ℕ) (r : Running)
      → let answer = dispatch_packet wide table hash key packet r in
        let sessions =
          authenticate_incoming_packet hash r.server.reliable_udp_session_registry key packet in
        ComesFirst packet
        ⊎ (sessions.0.status ≡ Sessions.succeeded)
        ⊎ ((answer.0.status ≢ succeeded)
            × (answer.1.sent ≡ r.sent)
            × (with_sessions answer.1.server sessions.1 ≡ with_sessions r.server sessions.1))
  unfolding dispatch_packet
  only_authentic_packets_act key packet r =
      let authenticated =
        (authenticate_incoming_packet hash r.server.reliable_udp_session_registry key packet).1 in
      elim (Option-cases (deserialize_packet_header packet)) [
        | inl bad ↦ elim (dispatch_cases table key packet r) [
          | inl handled ↦ absurd (ground (arith, bad, handled.3.0))
          | inr (_, wrong, same) ↦ inr (
              inr (
                rw (bad, dispatch_packet)
                  (
                    wrong,
                    ap Running.sent same,
                    ap (λ x. with_sessions x.server authenticated) same,
                  )))
        ]
        | inr (h, read) ↦ elim (Bool-cases (requires_client_packet_authentication h.type)) [
          | inr first ↦ inl (h, read, first)
          | inl guarded ↦
              elim (authenticate-buffer hash r.server.reliable_udp_session_registry key packet) [
                | inl authentic ↦ inr (inl authentic)
                | inr nothing ↦
                    inr (
                      inr (rw (read, guarded, nothing, dispatch_packet) (ground arith, refl, refl)))
              ]
        ]
      ]
