-- ===== src/Server/Sessions/Authentication.antt =====
-- What `AuthenticateIncomingPacket` of ReliableUdpSessionRegistry.h lets through.
use windows_iocp_udp.Prelude.{
  ℕ, ◌≡◌, ◌≢◌, ap, sym, ◌∙◌, true, List, length, take, drop, Option, some, arith, ◌-◌, Option-cases,
  inl, inr,
}
use windows_iocp_udp.Identity.{EndpointKey, is_valid_session_token}
use windows_iocp_udp.Packet.Header.{Bytes, is_reliable_packet_header}
use windows_iocp_udp.Auth.ReplayGuard.{ObserveStatus, duplicate, too_old, observe}
use windows_iocp_udp.Auth.AuthenticatedPacket.{
  AuthenticatedUdpPacketView, build_session_token_key, parse_authenticated_udp_packet,
  verify_authenticated_udp_packet, build_unauthenticated_udp_packet,
}
use windows_iocp_udp.Auth.AuthenticatedPacket.Acceptance.{accepted_packet_is_sealed}
use windows_iocp_udp.Server.EndpointTable.{find_entry}
use windows_iocp_udp.Server.Sessions.{
  Registry, SessionEntry, succeeded, admit_observed, authenticate_parsed,
  authenticate_incoming_packet,
}

-- The guard's answer behind a packet that is let through.
admit_observed_cases :
    (status : ObserveStatus) (view : AuthenticatedUdpPacketView)
    → (admit_observed status view).status ≡ succeeded
    → (status ≢ too_old)
      × ((status ≡ duplicate) → is_reliable_packet_header view.packet_header ≡ true)
      × ((admit_observed status view).packet_buffer ≡ build_unauthenticated_udp_packet view)
unfolding admit_observed
admit_observed_cases status view e = ground arith

module _ (hash : List ℕ → List ℕ → Option (List ℕ)) (r : Registry) (key : EndpointKey)
    (packet : List ℕ) where
  let_through :
      (authenticate_incoming_packet hash r key packet).0.status ≡ succeeded
      → (entry : SessionEntry) × (view : AuthenticatedUdpPacketView) × (find_entry r.session_table
            key
          ≡ some entry)
        × (parse_authenticated_udp_packet packet ≡ some view)
        × (verify_authenticated_udp_packet hash entry.session_token view ≡ true)
        × ((authenticate_incoming_packet hash r key packet).0
            ≡ admit_observed (observe entry.replay_guard view.authentication.sequence).0 view)
  unfolding authenticate_incoming_packet authenticate_parsed
  let_through e = elim (Option-cases (find_entry r.session_table key)) [
    | inl f ↦ absurd (ground arith)
    | inr (entry, f) ↦ elim (Option-cases (parse_authenticated_udp_packet packet)) [
      | inl p ↦ absurd (ground arith)
      | inr (view, p) ↦
          let v : verify_authenticated_udp_packet hash entry.session_token view ≡ true =
            ground arith in
          (entry, view, f, p, v, ground arith)
    ]
  ]

  -- A packet is let through only for an endpoint that has a session, when its last 32 bytes are what the hash
  -- yields, under the key of the session's token, for all the bytes before, and that token is valid; its
  -- number is none that the guard finds too old, and one that the guard has seen only on a reliable packet.
  -- The packet that comes out is the one without the trailer. The packet consists of bytes, and the hash
  -- yields 32 bytes when it yields any.
  pub authenticate_succeeded :
      ((k covered tag : List ℕ) → hash k covered ≡ some tag → Bytes tag × (length tag ≡ 32))
      → Bytes packet
      → (authenticate_incoming_packet hash r key packet).0.status ≡ succeeded
      → (entry : SessionEntry) × (view : AuthenticatedUdpPacketView) × (find_entry r.session_table
            key
          ≡ some entry)
        × (parse_authenticated_udp_packet packet ≡ some view)
        × (is_valid_session_token entry.session_token ≡ true)
        × (hash (build_session_token_key entry.session_token) (take (length packet - 32) packet)
            ≡ some (drop (length packet - 32) packet))
        × ((observe entry.replay_guard view.authentication.sequence).0 ≢ too_old)
        × (((observe entry.replay_guard view.authentication.sequence).0 ≡ duplicate)
            → is_reliable_packet_header view.packet_header ≡ true)
        × ((authenticate_incoming_packet hash r key packet).0.packet_buffer
            ≡ build_unauthenticated_udp_packet view)
  authenticate_succeeded hash_bytes bytes e =
      let (entry, view, found, parsed, verified, answer) = let_through e in
      let (valid, tag) =
        accepted_packet_is_sealed hash hash_bytes entry.session_token packet view bytes parsed
          verified in
      let (fresh, again, out) =
        admit_observed_cases (observe entry.replay_guard view.authentication.sequence).0 view
          (ap (λ a. a.status) (sym answer) ∙ e) in
      (entry, view, found, parsed, valid, tag, fresh, again, ap (λ a. a.packet_buffer) answer ∙ out)
