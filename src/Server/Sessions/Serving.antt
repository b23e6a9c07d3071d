-- ===== src/Server/Sessions/Serving.antt =====
-- Which sessions of ReliableUdpSessionRegistry.h can serve a peer: the peer's token, and no close under way.
use windows_iocp_udp.Prelude.{
  ℕ, ◌≡◌, refl, ap, Bool, true, false, not, ◌&&◌, List, Option, none, some, arith, Option-cases,
  Bool-cases, inl, inr,
}
use windows_iocp_udp.Identity.{EndpointKey, endpoint_eq, endpoint_eq_iff, SessionToken, token_eq}
use windows_iocp_udp.Reliable.PacketBuilder.{ReliableUdpPacketView}
use windows_iocp_udp.Reliable.Session.{ReliableUdpConfig}
use windows_iocp_udp.Auth.AuthenticatedPacket.{
  parse_authenticated_udp_packet, verify_authenticated_udp_packet,
}
use windows_iocp_udp.Server.EndpointTable.{
  endpoint_key, find_entry, find-put, find-erase, find-same,
}
use windows_iocp_udp.Server.Sessions.{
  Registry, SessionEntry, is_drained, with_entry, settle, renewed_entry, upsert,
  authenticate_incoming_packet, authenticate_parsed, process_received_packet, build_outgoing_packet,
  remove, begin_close,
}
use windows_iocp_udp.Server.Sessions.ResendPass.{extract_resend_batch}
use windows_iocp_udp.Server.Sessions.Invariant.{IsCoherent}
use windows_iocp_udp.Server.Sessions.Resends.{extract_resend_batch-lookup}

abbrev pub holds : SessionToken → Option SessionEntry → Bool
holds t none = false
holds t (some entry) = token_eq t entry.session_token

-- The endpoint has a session with the token, and it is not closing.
abbrev pub serves : Registry → EndpointKey → SessionToken → Bool
serves r j t = not (r.closing_endpoint_set j) && holds t (find_entry r.session_table j)

-- Every session that serves still does.
abbrev pub Keeps : Registry → Registry → Type 0
Keeps r r' = (j : EndpointKey) (t : SessionToken) → serves r j t ≡ true → serves r' j t ≡ true

-- The same, but perhaps for one endpoint.
abbrev pub KeepsOthers : EndpointKey → Registry → Registry → Type 0
KeepsOthers key r r' =
    (j : EndpointKey) (t : SessionToken)
    → endpoint_eq key j ≡ false
    → serves r j t ≡ true
    → serves r' j t ≡ true

with_entry-Keeps :
    (r : Registry) (key : EndpointKey) (before entry : SessionEntry)
    → find_entry r.session_table key ≡ some before
    → entry.session_token ≡ before.session_token
    → Keeps r (with_entry r key entry)
with_entry-Keeps r key before entry there same j t h =
    ground (arith, find-put r.session_table key j entry, find-same r.session_table key j)

settle-Keeps :
    (r : Registry) (key : EndpointKey) (before entry : SessionEntry)
    → find_entry r.session_table key ≡ some before
    → entry.session_token ≡ before.session_token
    → Keeps r (settle r key entry)
unfolding settle
settle-Keeps r key before entry there same j t h =
    elim (Bool-cases (is_drained r.closing_endpoint_set key entry.reliable_session)) [
      | inl e ↦ rw (e, settle) (ground (arith, find-erase r.session_table key j, same_closing j))
      | inr e ↦ rw (e, settle) (with_entry-Keeps r key before entry there same j t h)
    ]
  where
    same_closing :
        (j : EndpointKey)
        → endpoint_eq key j ≡ true
        → r.closing_endpoint_set key ≡ r.closing_endpoint_set j
    same_closing j e = ap r.closing_endpoint_set ((endpoint_eq_iff key j).0 e)

module _ (hash : List ℕ → List ℕ → Option (List ℕ)) where
  pub authenticate-Keeps :
      (r : Registry) (key : EndpointKey) (packet : List ℕ)
      → Keeps r (authenticate_incoming_packet hash r key packet).1
  unfolding authenticate_incoming_packet authenticate_parsed
  authenticate-Keeps r key packet = elim (Option-cases (find_entry r.session_table key)) [
    | inl e ↦ rw (e, authenticate_incoming_packet) (λ j t h. h)
    | inr (entry, e) ↦ elim (Option-cases (parse_authenticated_udp_packet packet)) [
      | inl bad ↦ rw (e, bad, authenticate_incoming_packet) (λ j t h. h)
      | inr (view, parsed) ↦
          elim (Bool-cases (verify_authenticated_udp_packet hash entry.session_token view)) [
            | inr forged ↦
                rw (e, parsed, forged, authenticate_incoming_packet, authenticate_parsed)
                  (λ j t h. h)
            | inl good ↦
                rw (e, parsed, good, authenticate_incoming_packet, authenticate_parsed)
                  (with_entry-Keeps r key entry _ e refl)
          ]
    ]
  ]

pub received-Keeps :
    (wide : ℕ → ℕ) (r : Registry) (key : EndpointKey) (view : ReliableUdpPacketView)
    → Keeps r (process_received_packet wide r key view).1
unfolding process_received_packet
received-Keeps wide r key view = elim (Option-cases (find_entry r.session_table key)) [
  | inl e ↦ rw (e, process_received_packet) (λ j t h. h)
  | inr (entry, e) ↦ rw (e, process_received_packet) (settle-Keeps r key entry _ e refl)
]

pub outgoing-Keeps :
    (r : Registry) (key : EndpointKey) (packet : List ℕ) (now : ℕ)
    → Keeps r (build_outgoing_packet r key packet now).1
unfolding build_outgoing_packet
outgoing-Keeps r key packet now = elim (Option-cases (find_entry r.session_table key)) [
  | inl e ↦ rw (e, build_outgoing_packet) (λ j t h. h)
  | inr (entry, e) ↦ rw (e, build_outgoing_packet) (with_entry-Keeps r key entry _ e refl)
]

pub resend-Keeps : (r : Registry) (now : ℕ) → IsCoherent r → Keeps r (extract_resend_batch r now).1
resend-Keeps r now c j t h = elim (Option-cases (find_entry r.session_table j)) [
  | inl e ↦ absurd (ground (arith, e))
  | inr (entry, e) ↦ ground (arith, e, extract_resend_batch-lookup r now j c.0)
]

pub remove-KeepsOthers : (r : Registry) (key : EndpointKey) → KeepsOthers key r (remove r key).1
unfolding remove
remove-KeepsOthers r key j t other h = ground (arith, find-erase r.session_table key j)

pub begin_close-KeepsOthers :
    (r : Registry) (key : EndpointKey) → KeepsOthers key r (begin_close r key).1
unfolding begin_close
begin_close-KeepsOthers r key j t other h = ground arith

-- The session that a join starts serves the token, and the other sessions serve as before.
pub upsert-serves :
    (hundred_ms : ℕ) (r : Registry) (key : EndpointKey) (config : ReliableUdpConfig)
    (token : SessionToken)
    → KeepsOthers key r (upsert hundred_ms r key config token)
      × ((j : EndpointKey)
          → endpoint_eq key j ≡ true
          → serves (upsert hundred_ms r key config token) j token ≡ true)
unfolding upsert renewed_entry
upsert-serves hundred_ms r key config token =
    let entry = renewed_entry hundred_ms (find_entry r.session_table key) config token in
    (
      λ j t other h. ground (arith, find-put r.session_table key j entry),
      λ j same. ground (
        arith,
        find-put r.session_table key j entry,
        renewed_token (find_entry r.session_table key),
      ),
    )
  where
    renewed_token :
        (before : Option SessionEntry)
        → (renewed_entry hundred_ms before config token).session_token ≡ token
    renewed_token none = refl
    renewed_token (some entry) = refl
