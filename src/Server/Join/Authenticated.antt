-- ===== src/Server/Join/Authenticated.antt =====
-- Server/Service/PeerSessionService.cpp: how an authenticated peer joins or comes back.
use windows_iocp_udp.Prelude.{ℕ, not, if◌then◌else◌, none, some}
use windows_iocp_udp.Identity.{EndpointKey, SessionToken, token_eq}
use windows_iocp_udp.Game.World.{GameRuleConfig, GameWorld}
use windows_iocp_udp.Server.Peers.{
  PeerState, PeerRoomManager, is_recoverable, find_joined_peer,
  find_recoverable_peer_by_session_token,
}
use windows_iocp_udp.Server.Peers.Operations.{rebind_recoverable_peer}
use windows_iocp_udp.Server.Accounts.{AccountTable, AuthenticatedAccount, find_with_token, remove}
use windows_iocp_udp.Server.Join.{
  AuthenticatedIdentity, JoinAuthenticatedPeerStatus, JoinResult, JoinAuthenticatedPeerResult,
  no_join, build_current_join_result, join_peer, joined, recovered, existing_peer, unauthenticated,
  rejected,
}

abbrev pub AuthenticatedJoin : Type 0
AuthenticatedJoin = JoinAuthenticatedPeerResult × AccountTable × PeerRoomManager × GameWorld

abbrev pub answer : JoinAuthenticatedPeerStatus → JoinResult → JoinAuthenticatedPeerResult
answer status r = record { status = status; join_result = r }

-- A recoverable peer comes back, from the endpoint it had or from another one.
unfoldable pub recover_peer :
    PeerState
    → EndpointKey
    → EndpointKey
    → AccountTable
    → PeerRoomManager
    → GameWorld
    → ℕ
    → AuthenticatedJoin
recover_peer p previous key accounts peers w now =
    let current = build_current_join_result p w in
    let (rebound, moved) = rebind_recoverable_peer peers previous key now in
    if not current.should_send_response
    then (answer rejected no_join, accounts, peers, w)
    else if not rebound
    then (answer rejected no_join, accounts, moved, w)
    else (answer recovered current, accounts, moved, w)

abbrev pub join_answer : JoinResult → JoinAuthenticatedPeerResult
join_answer r =
    if not r.should_send_response
    then answer rejected r
    else if not r.should_broadcast_player_joined
    then answer existing_peer r
    else answer joined r

-- `JoinAuthenticatedPeer` once the identity is known.
unfoldable pub join_with_identity :
    EndpointKey
    → AuthenticatedIdentity
    → ℕ
    → AccountTable
    → PeerRoomManager
    → GameWorld
    → GameRuleConfig
    → ℕ
    → AuthenticatedJoin
join_with_identity key i room accounts peers w rules now =
    let (r, peers1, w1) = join_peer key i room peers w rules now in
    (
      join_answer r,
      if r.should_send_response
          then if r.should_broadcast_player_joined then (remove accounts key).1 else accounts
          else accounts,
      peers1,
      w1,
    )

abbrev pub identity_of_peer : PeerState → SessionToken → AuthenticatedIdentity
identity_of_peer p token = record {
  account_id = p.account_id;
  persistent_player_id = p.persistent_player_id;
  session_token = token;
  nickname = p.nickname;
}

abbrev pub identity_of_account : AuthenticatedAccount → AuthenticatedIdentity
identity_of_account a = record {
  account_id = a.account_id;
  persistent_player_id = a.persistent_player_id;
  session_token = a.session_token;
  nickname = a.nickname;
}

unfoldable pub join_authenticated_peer :
    EndpointKey
    → SessionToken
    → ℕ
    → AccountTable
    → PeerRoomManager
    → GameWorld
    → GameRuleConfig
    → ℕ
    → AuthenticatedJoin
join_authenticated_peer key token room accounts peers w rules now =
    elim (find_joined_peer peers key) [
      | some p ↦
          if not (is_recoverable p.connection_state)
          then join_with_identity key (identity_of_peer p token) room accounts peers w rules now
          else if not (token_eq p.session_token token)
          then (answer rejected no_join, accounts, peers, w)
          else recover_peer p key key accounts peers w now
      | none ↦ elim (find_recoverable_peer_by_session_token peers token) [
        | some p ↦ recover_peer p p.endpoint_key key accounts peers w now
        | none ↦ elim (find_with_token accounts key token) [
          | none ↦ (answer unauthenticated no_join, accounts, peers, w)
          | some a ↦ join_with_identity key (identity_of_account a) room accounts peers w rules now
        ]
      ]
    ]
