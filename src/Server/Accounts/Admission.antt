-- ===== src/Server/Accounts/Admission.antt =====
-- What each answer of AccountLoginAdmissionService.cpp says about the registry and the peers.
use windows_iocp_udp.Prelude.{
  ◌≡◌, ◌≢◌, refl, true, not, ◌||◌, if◌then◌else◌, Option, none, some, arith, Option-cases,
  Bool-cases, inl, inr, ◌⊎◌,
}
use windows_iocp_udp.Identity.{SessionToken, EndpointKey, endpoint_eq, is_valid_session_token}
use windows_iocp_udp.Server.EndpointTable.{
  endpoint_key, find_entry, put_entry, erase_entry, find-put,
}
use windows_iocp_udp.Server.Peers.{
  PeerState, PeerRoomManager, is_positive, same_id, find_joined_peer,
  find_joined_peer_by_account_id,
}
use windows_iocp_udp.Server.Accounts.{
  AuthenticatedAccount, AccountTable, upsert, remove, authenticated, existing_session, Request,
  apply_to_peer, register, admit, apply, is_empty,
}

-- The entry that a request asks for.
abbrev pub requested : Request → SessionToken → AuthenticatedAccount
requested q token = record {
  account_id = q.account_id;
  persistent_player_id = q.persistent_player_id;
  session_token = token;
  nickname = q.nickname;
  authenticated_time = q.current_time;
}

register_authenticated :
    (q : Request) (table : AccountTable) (generated : Option SessionToken)
    → (register q table generated).0.status ≡ authenticated
    → (token : SessionToken) × (generated ≡ some token)
      × (is_valid_session_token token ≡ true)
      × (register q table generated ≡ (
        record { status = authenticated; session_token = token },
        put_entry table q.endpoint_key (requested q token),
      ))
unfolding register upsert
register_authenticated q table none h = absurd (ground arith)
register_authenticated q table (some token) h = (token, refl, ground arith, ground arith)

admit_authenticated :
    (q : Request) (table : AccountTable) (peers : PeerRoomManager) (generated : Option SessionToken)
    → (admit q table peers generated).0.status ≡ authenticated
    → (find_joined_peer_by_account_id peers q.account_id ≡ none)
      × (admit q table peers generated ≡ register q table generated)
unfolding admit
admit_authenticated q table peers generated h =
    elim (Option-cases (find_joined_peer_by_account_id peers q.account_id)) [
      | inl e ↦ (e, ground arith)
      | inr (p, e) ↦ absurd (ground arith)
    ]

-- A login request is answered as authenticated only when its endpoint has no joined peer and its account
-- is joined from nowhere; the answer then carries the generated token, which is valid, and the registry
-- has the requested entry at the endpoint and is otherwise as before.
pub apply_authenticated :
    (q : Request) (table : AccountTable) (peers : PeerRoomManager) (generated : Option SessionToken)
    → (apply q table peers generated).0.status ≡ authenticated
    → (find_joined_peer peers q.endpoint_key ≡ none)
      × (find_joined_peer_by_account_id peers q.account_id ≡ none)
      × ((token : SessionToken) × (generated ≡ some token)
          × (is_valid_session_token token ≡ true)
          × ((apply q table peers generated).0.session_token ≡ token)
          × ((j : EndpointKey)
              → find_entry (apply q table peers generated).1 j ≡ (
                  if endpoint_eq q.endpoint_key j
                  then some (requested q token)
                  else find_entry table j)))
unfolding apply apply_to_peer
apply_authenticated q table peers generated h =
    elim (Option-cases (find_joined_peer peers q.endpoint_key)) [
      | inr (p, e) ↦ absurd (ground arith)
      | inl e ↦
          let admitted : apply q table peers generated ≡ admit q table peers generated =
            ground arith in
          let through : (admit q table peers generated).0.status ≡ authenticated = ground arith in
          let (free, registered) = admit_authenticated q table peers generated through in
          let (token, made, valid, entry) =
            register_authenticated q table generated (ground arith) in
          (
            e,
            free,
            (
              token,
              made,
              valid,
              ground arith,
              λ j. ground (arith, find-put table q.endpoint_key j (requested q token)),
            ),
          )
    ]

register_refused :
    (q : Request) (table : AccountTable) (generated : Option SessionToken)
    → (register q table generated).0.status ≢ authenticated
    → (register q table generated).1 ≡ table
unfolding register upsert
register_refused q table none h = refl
register_refused q table (some token) h = ground arith

admit_refused :
    (q : Request) (table : AccountTable) (peers : PeerRoomManager) (generated : Option SessionToken)
    → (admit q table peers generated).0.status ≢ authenticated
    → (admit q table peers generated).1 ≡ table
unfolding admit
admit_refused q table peers generated h = ground (arith, register_refused q table generated)

peer_answer :
    (q : Request) (table : AccountTable) (p : PeerState)
    → ((apply_to_peer q table p).1 ≡ table)
      ⊎ ((same_id p.account_id q.account_id ≡ true)
          × (apply_to_peer q table p ≡ (
            record { status = existing_session; session_token = p.session_token },
            erase_entry table q.endpoint_key,
          )))
unfolding apply_to_peer remove
peer_answer q table p = ground arith

-- Every other answer leaves the registry as it is, but for an endpoint whose peer is already joined with
-- the account: it is answered with the peer's token, and its entry leaves the registry.
pub apply_refused :
    (q : Request) (table : AccountTable) (peers : PeerRoomManager) (generated : Option SessionToken)
    → (apply q table peers generated).0.status ≢ authenticated
    → ((apply q table peers generated).1 ≡ table)
      ⊎ ((p : PeerState) × (find_joined_peer peers q.endpoint_key ≡ some p)
          × (same_id p.account_id q.account_id ≡ true)
          × (apply q table peers generated ≡ (
            record { status = existing_session; session_token = p.session_token },
            erase_entry table q.endpoint_key,
          )))
unfolding apply
apply_refused q table peers generated h =
    elim (Option-cases (find_joined_peer peers q.endpoint_key)) [
      | inl e ↦ inl (ground (arith, admit_refused q table peers generated))
      | inr (p, e) ↦
          elim (Bool-cases (
            not (is_positive q.account_id)
            || not (is_positive q.persistent_player_id)
            || is_empty q.nickname)) [
              | inl bad ↦ inl (ground arith)
              | inr good ↦ elim (peer_answer q table p) [
                | inl same ↦ inl (ground arith)
                | inr (same, answer) ↦ inr (p, e, same, ground arith)
              ]
            ]
    ]
