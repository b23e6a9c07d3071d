-- ===== src/Server/Join/Joins.antt =====
-- Who is connected after a peer joins in PeerSessionService.cpp, as a new one or as one that is there already.
use windows_iocp_udp.Prelude.{
  ℕ, ◌≡◌, refl, ap, ◌∙◌, Bool, true, false, none, some, arith, Option-cases, Bool-cases, inl, inr,
}
use windows_iocp_udp.Server.EndpointTable.{endpoint_key}
use windows_iocp_udp.Identity.{EndpointKey, SessionToken}
use windows_iocp_udp.Game.World.{GameWorld, GameRuleConfig, find_player, allocate_player_id}
use windows_iocp_udp.Server.Peers.{
  PeerState, PeerRoomManager, find_entry, find_joined_peer, find_peer,
}
use windows_iocp_udp.Server.Peers.Operations.{
  upsert_joined_peer, joined_in, peer_or_new, remove_peer,
}
use windows_iocp_udp.Server.Peers.Tables.{find-put, find-erase}
use windows_iocp_udp.Server.Peers.Consistency.{
  IsConsistent, lives_in, joined_read, put-IsConsistent, upsert-IsConsistent, remove-IsConsistent,
}
use windows_iocp_udp.Server.Peers.Keyed.{
  IsKeyed, put-IsKeyed, peer-IsAt, upsert-IsKeyed, remove-IsKeyed,
}
use windows_iocp_udp.Server.Peers.Connected.{Loses, Gains, put-Loses, remove-Drops}
use windows_iocp_udp.Server.Join.{
  AuthenticatedIdentity, is_admitted, build_current_join_result, write_peer, is_invalid_identity,
  is_other_identity, identified, join_new_peer, join_peer,
}
use windows_iocp_udp.Server.Join.Authenticated.{join_answer}

-- The peers' tables agree, and each peer knows its endpoint.
abbrev pub IsSound : PeerRoomManager → Type 0
IsSound s = IsConsistent s × IsKeyed s

-- What a join does to the peers, where it admits one and where it does not.
abbrev pub Joins : Bool → EndpointKey → SessionToken → PeerRoomManager → PeerRoomManager → Type 0
Joins true key token s s' = IsSound s' × Gains key token s s'
Joins false key token s s' = IsSound s' × Loses s s'

nobody_lives :
    (s : PeerRoomManager) (key : EndpointKey) (r : ℕ)
    → find_joined_peer s key ≡ none
    → lives_in (find_entry s.peer_table key) r ≡ false
unfolding find_joined_peer find_peer
nobody_lives s key r e = elim (Option-cases (find_entry s.peer_table key)) [
  | inl gone ↦ ground (arith, gone)
  | inr (p, there) ↦ ground (arith, there, e)
]

Gains-Loses :
    (key : EndpointKey) (token : SessionToken) (s1 s2 s3 : PeerRoomManager)
    → Loses s1 s2
    → Gains key token s2 s3
    → Gains key token s1 s3
Gains-Loses key token s1 s2 s3 loses gains j t h = elim (gains j t h) [
  | inl here ↦ inl here
  | inr (other, before) ↦ inr (other, loses j t before)
]

current_is_no_news :
    (p : PeerState) (w : GameWorld)
    → (build_current_join_result p w).should_broadcast_player_joined ≡ false
unfolding build_current_join_result find_player
current_is_no_news p w = elim (Option-cases (find_player w p.player_id)) [
  | inl e ↦ rw (e, build_current_join_result) refl
  | inr (q, e) ↦ rw (e, build_current_join_result) refl
]

removed-free :
    (s : PeerRoomManager) (key : EndpointKey) → find_joined_peer (remove_peer s key).1 key ≡ none
unfolding remove_peer find_joined_peer find_peer
removed-free s key = elim (Option-cases (find_entry s.peer_table key)) [
  | inl e ↦ ground (arith, e)
  | inr (p, e) ↦ ground (arith, e, find-erase s.peer_table key key)
]

module _ (key : EndpointKey) (i : AuthenticatedIdentity) (room now : ℕ)
    (rules : GameRuleConfig) where
  join_new_peer-Joins :
      (s : PeerRoomManager) (w : GameWorld)
      → IsSound s
      → find_joined_peer s key ≡ none
      → Joins true key i.session_token s (join_new_peer key i room s w rules now).1
  unfolding join_new_peer upsert_joined_peer allocate_player_id
  join_new_peer-Joins s w (c, keyed) free =
      let player_id = w.next_player_id in
      let entered = upsert_joined_peer s key player_id room now in
      let p = joined_in (peer_or_new (find_entry s.peer_table key)) key player_id room now in
      let there : find_entry entered.peer_table key ≡ some p =
        find-put s.peer_table key key p ∙ ground arith in
      let found : peer_or_new (find_entry entered.peer_table key) ≡ p = ap peer_or_new there in
      let q = identified (peer_or_new (find_entry entered.peer_table key)) i in
      let consistent =
        upsert-IsConsistent s key player_id room now c (λ r other. nobody_lives s key r free) in
      (
        (
          put-IsConsistent entered key p q consistent there (ap PeerState.is_joined found)
              (ap PeerState.room_id found),
          put-IsKeyed entered key q (upsert-IsKeyed s key player_id room now keyed)
              (ground (arith, ap PeerState.endpoint_key found)),
        ),
        λ j t h.
            ground (arith, find-put entered.peer_table key j q, find-put s.peer_table key j p, h),
      )

  pub join_peer-Joins :
      (s : PeerRoomManager) (w : GameWorld)
      → IsSound s
      → let r = join_peer key i room s w rules now in
        Joins (is_admitted (join_answer r.0).status) key i.session_token s r.1
  unfolding join_peer join_new_peer
  join_peer-Joins s w sound = elim (Bool-cases (is_invalid_identity i)) [
    | inl bad ↦ rw (bad, join_peer) (sound, λ j t h. h)
    | inr good ↦ elim (Option-cases (find_joined_peer s key)) [
      | inl free ↦ rw (good, free, join_peer) (join_new_peer-Joins s w sound free)
      | inr (p, e) ↦
          let seen : PeerState = record p { last_recv_time = now } in
          let s1 = write_peer s key seen in
          let read = joined_read s key p e in
          let current = build_current_join_result p w in
          let sound1 : IsSound s1 = (
            put-IsConsistent s key p seen sound.0 read.0 refl refl,
            put-IsKeyed s key seen sound.1 (peer-IsAt s key p sound.1 e),
          ) in
          let kept : Loses s s1 = put-Loses s key p seen read.0 refl in
          elim (Bool-cases (is_other_identity p i)) [
            | inl other ↦ rw (good, e, other, join_peer) (sound, λ j t h. h)
            | inr own ↦ elim (Bool-cases current.should_send_response) [
              | inl there ↦
                  rw (good, e, own, there, join_peer) (rw (current_is_no_news p w) (sound1, kept))
              | inr gone ↦
                  let s2 = (remove_peer s1 key).1 in
                  let drops = remove-Drops s1 key in
                  let joins =
                    join_new_peer-Joins s2 w
                      (remove-IsConsistent s1 key sound1.0, remove-IsKeyed s1 key sound1.1)
                      (removed-free s1 key) in
                  rw (good, e, own, gone, join_peer)
                    (
                      joins.0,
                      Gains-Loses key i.session_token s s2
                          (join_new_peer key i room s2 w rules now).1
                          (λ j t h. kept j t (drops j t h).1) joins.1,
                    )
            ]
          ]
    ]
  ]
