-- ===== src/Server/Join/Connected.antt =====
-- Who is connected after a join in PeerSessionService.cpp.
use mathlib.Core.Path.{subst}
use windows_iocp_udp.Prelude.{
  ℕ, ◌≡◌, refl, ap, ◌∙◌, true, ◌&&◌, some, arith, Option-cases, Bool-cases, inl, inr,
}
use windows_iocp_udp.Server.EndpointTable.{endpoint_key}
use windows_iocp_udp.Identity.{EndpointKey, endpoint_eq_iff, SessionToken, token_eq, token_eq_iff}
use windows_iocp_udp.Game.World.{GameWorld, GameRuleConfig}
use windows_iocp_udp.Server.Peers.{
  PeerState, PeerRoomManager, is_recoverable, find_entry, find_joined_peer, find_peer, if_joined,
  find_recoverable_peer_by_session_token,
}
use windows_iocp_udp.Server.Peers.Operations.{rebind_recoverable_peer}
use windows_iocp_udp.Server.Peers.Broadcast.{rebind-IsConsistent}
use windows_iocp_udp.Server.Peers.Keyed.{rebind-IsKeyed}
use windows_iocp_udp.Server.Peers.Connected.{
  Gains, rebind-Gains, rebind_fails, Unique-AllFound, first_peer-found,
}
use windows_iocp_udp.Server.Accounts
use windows_iocp_udp.Server.Accounts.{
  AccountTable, AuthenticatedAccount, find_with_token, with_token,
}
use windows_iocp_udp.Server.Join.{AuthenticatedIdentity, is_admitted, build_current_join_result}
use windows_iocp_udp.Server.Join.Authenticated.{
  AuthenticatedJoin, recover_peer, join_with_identity, identity_of_peer, identity_of_account,
  join_authenticated_peer,
}
use windows_iocp_udp.Server.Join.Joins.{IsSound, Joins, join_peer-Joins}

abbrev pub peers_after : AuthenticatedJoin → PeerRoomManager
peers_after r = r.2

recover_peer-Joins :
    (p : PeerState) (previous key : EndpointKey) (token : SessionToken) (accounts : AccountTable)
    (s : PeerRoomManager) (w : GameWorld) (now : ℕ)
    → IsSound s
    → find_joined_peer s previous ≡ some p
    → token_eq p.session_token token ≡ true
    → let r = recover_peer p previous key accounts s w now in
      Joins (is_admitted r.0.status) key token s (peers_after r)
unfolding recover_peer
recover_peer-Joins p previous key token accounts s w now sound e own =
    let rebound = rebind_recoverable_peer s previous key now in
    elim (Bool-cases (build_current_join_result p w).should_send_response) [
      | inr gone ↦ rw (gone, recover_peer) (sound, λ j t h. h)
      | inl there ↦ elim (Bool-cases rebound.0) [
        | inr failed ↦
            rw (there, failed, recover_peer)
              (rw (rebind_fails s previous key now failed) (sound, λ j t h. h))
        | inl done ↦
            rw (there, done, recover_peer)
              (
                (
                  rebind-IsConsistent s previous key now sound.0,
                  rebind-IsKeyed s previous key now sound.1,
                ),
                subst (λ t. Gains key t s rebound.1) ((token_eq_iff p.session_token token).0 own)
                    (rebind-Gains s previous key now p e done),
              )
      ]
    ]

-- A recoverable peer with the token is joined, and found at the endpoint that it knows.
recoverable-found :
    (s : PeerRoomManager) (token : SessionToken) (p : PeerState)
    → IsSound s
    → find_recoverable_peer_by_session_token s token ≡ some p
    → (find_joined_peer s p.endpoint_key ≡ some p) × (token_eq p.session_token token ≡ true)
unfolding find_recoverable_peer_by_session_token find_joined_peer find_peer
recoverable-found s token p sound h =
    let all = Unique-AllFound s.peer_table sound.0.unique in
    let (k, there, passes) =
      first_peer-found
        (λ q. q.is_joined && is_recoverable q.connection_state && token_eq q.session_token token)
        s.peer_table s.peer_table p all (ground arith) in
    let at = (endpoint_eq_iff p.endpoint_key k).0 (ground (arith, sound.1 k)) in
    (
      ap (λ x. if_joined (find_entry s.peer_table x)) at ∙ ground (arith, there, passes),
      ground (arith, passes),
    )

module _ (key : EndpointKey) (token : SessionToken) (room now : ℕ) (rules : GameRuleConfig) where
  join_with_identity-Joins :
      (i : AuthenticatedIdentity) (accounts : AccountTable) (s : PeerRoomManager) (w : GameWorld)
      → IsSound s
      → i.session_token ≡ token
      → let r = join_with_identity key i room accounts s w rules now in
        Joins (is_admitted r.0.status) key token s (peers_after r)
  unfolding join_with_identity
  join_with_identity-Joins i accounts s w sound own =
      subst
        (λ t.
          let r = join_with_identity key i room accounts s w rules now in
          Joins (is_admitted r.0.status) key t s (peers_after r))
        own (join_peer-Joins key i room now rules s w sound)

  -- A join request connects nobody but a peer with its token at its endpoint, and only where it is answered as
  -- joined or recovered; it leaves the peers' tables in agreement.
  pub join_authenticated-Joins :
      (accounts : AccountTable) (s : PeerRoomManager) (w : GameWorld)
      → IsSound s
      → let r = join_authenticated_peer key token room accounts s w rules now in
        Joins (is_admitted r.0.status) key token s (peers_after r)
  unfolding join_authenticated_peer find_with_token
  join_authenticated-Joins accounts s w sound = elim (Option-cases (find_joined_peer s key)) [
    | inr (p, e) ↦ elim (Bool-cases (is_recoverable p.connection_state)) [
      | inr online ↦
          rw (e, online, join_authenticated_peer)
            (join_with_identity-Joins (identity_of_peer p token) accounts s w sound refl)
      | inl lost ↦ elim (Bool-cases (token_eq p.session_token token)) [
        | inr other ↦ rw (e, lost, other, join_authenticated_peer) (sound, λ j t h. h)
        | inl own ↦
            rw (e, lost, own, join_authenticated_peer)
              (recover_peer-Joins p key key token accounts s w now sound e own)
      ]
    ]
    | inl free ↦ elim (Option-cases (find_recoverable_peer_by_session_token s token)) [
      | inr (p, e) ↦
          let found = recoverable-found s token p sound e in
          rw (free, e, join_authenticated_peer)
            (recover_peer-Joins p p.endpoint_key key token accounts s w now sound found.0 found.1)
      | inl new ↦ elim (Option-cases (find_with_token accounts key token)) [
        | inl nobody ↦ rw (free, new, nobody, join_authenticated_peer) (sound, λ j t h. h)
        | inr (a, e) ↦
            rw (free, new, e, join_authenticated_peer)
              (join_with_identity-Joins (identity_of_account a) accounts s w sound
                (account_token a e))
      ]
    ]
  ]
    where
      account_token :
          (a : AuthenticatedAccount)
          → find_with_token accounts key token ≡ some a
          → a.session_token ≡ token
      account_token a e = elim (Option-cases (Accounts.find accounts key)) [
        | inl gone ↦ absurd (ground (arith, gone))
        | inr (b, there) ↦ (token_eq_iff a.session_token token).0 (ground (arith, there))
      ]
