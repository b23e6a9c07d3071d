-- ===== src/Server/Peers/Broadcast.antt =====
-- PeerRoomManager.cpp as a whole: who receives a room's packets, how long a peer stays, and when the two
-- tables agree.
use windows_iocp_udp.Prelude.{
  ℕ, ◌≡◌, ◌↔◌, refl, ap, Bool, true, false, ◌&&◌, ◌==◌, List, [], ◌∷◌, Option, none, some, arith,
  Option-cases, Bool-cases, inl, inr,
}
use windows_iocp_udp.Server.EndpointTable.{endpoint_key}
use windows_iocp_udp.Identity.{EndpointKey, endpoint_eq}
use windows_iocp_udp.Server.Peers.{
  PeerState, PeerRoomManager, find_entry, erase_entry, is_in, erase_member, members_of,
  find_joined_peer, find_peer, if_joined, is_connected, is_recoverable,
}
use windows_iocp_udp.Server.Peers.Operations.{
  upsert_joined_peer, refresh_recv_time, remove_peer, change_peer_room, rebind_recoverable_peer,
  rebind_to, move_peer, reconnected, mark_timed_out_peers_recoverable,
  remove_expired_recoverable_peers, build_room_endpoint_key_list, reachable_members, is_reachable,
}
use windows_iocp_udp.Server.Peers.Tables.{
  find-put, find-erase, put-Unique, erase-Unique, is_in-insert, is_in-erase, inhabited-insert,
}
use windows_iocp_udp.Server.Peers.Consistency.{
  IsConsistent, lives_elsewhere, upsert-IsConsistent_iff, find-same, joined_read, put-IsConsistent,
  refresh-IsConsistent, remove-IsConsistent, change-IsConsistent,
}
use windows_iocp_udp.Server.Peers.Recovery.{
  rebound, mark_entry, survives, find-mark_loop, find-expire_loop, mark-IsConsistent,
  expired-IsConsistent,
}

move-IsConsistent :
    (s : PeerRoomManager) (previous next : EndpointKey) (now : ℕ) (p : PeerState)
    (members : List EndpointKey)
    → IsConsistent s
    → find_joined_peer s previous ≡ some p
    → endpoint_eq previous next ≡ false
    → find_entry s.peer_table next ≡ none
    → s.room_table p.room_id ≡ some members
    → IsConsistent (move_peer s previous next now p members).1
unfolding move_peer
move-IsConsistent s previous next now p members c e differ free there =
    let read = joined_read s previous p e in
    let q = rebound p next now in
    let old = c.listed p.room_id previous in
    let absent = c.listed p.room_id next in
    let leaves : is_in members previous ≡ true = ground arith in
    let enters : is_in members next ≡ false = ground arith in
    rw (leaves, enters, move_peer)
      (record {
        unique =
            put-Unique (erase_entry s.peer_table previous) next q
              (erase-Unique s.peer_table previous c.unique);
        listed = λ r j. ground (
          arith,
          there,
          read,
          c.listed r j,
          find-put (erase_entry s.peer_table previous) next j q,
          find-erase s.peer_table previous j,
          find-same s.peer_table previous j,
          find-same s.peer_table next j,
          is_in-insert (erase_member members previous) next j,
          is_in-erase members previous j,
          ap s.room_table {x = r} {y = p.room_id},
        );
        inhabited = λ r.
            ground (arith, c.inhabited r, inhabited-insert (erase_member members previous) next);
      })

pub rebind-IsConsistent :
    (s : PeerRoomManager) (previous next : EndpointKey) (now : ℕ)
    → IsConsistent s
    → IsConsistent (rebind_recoverable_peer s previous next now).1
unfolding rebind_recoverable_peer rebind_to
rebind-IsConsistent s previous next now c = elim (Option-cases (find_joined_peer s previous)) [
  | inl e ↦ rw (e, rebind_recoverable_peer) c
  | inr (p, e) ↦ elim (Bool-cases (is_recoverable p.connection_state)) [
    | inr kept ↦ rw (e, kept, rebind_recoverable_peer, rebind_to) c
    | inl lost ↦ elim (Bool-cases (endpoint_eq previous next)) [
      | inl same ↦
          rw (e, lost, same, rebind_recoverable_peer, rebind_to)
            (put-IsConsistent s previous p (reconnected p now) c (joined_read s previous p e).0 refl
              refl)
      | inr differ ↦ elim (Option-cases (find_entry s.peer_table next)) [
        | inr (q, taken) ↦ rw (e, lost, differ, taken, rebind_recoverable_peer, rebind_to) c
        | inl free ↦ elim (Option-cases (s.room_table p.room_id)) [
          | inl gone ↦ rw (e, lost, differ, free, gone, rebind_recoverable_peer, rebind_to) c
          | inr (members, there) ↦
              rw (e, lost, differ, free, there, rebind_recoverable_peer, rebind_to)
                (move-IsConsistent s previous next now p members c e differ free there)
        ]
      ]
    ]
  ]
]

-- The operations on the two tables keep them in agreement: with each key once in the peer table, each room
-- listing exactly the joined peers that are in it and no room in the table empty, the same holds after a
-- packet refreshes its peer, after a peer is removed, changes its room or comes back from another endpoint,
-- and after the passes that mark and remove lost peers. After a peer is joined to a room, the same holds
-- exactly when it was not joined in another room before.
pub operations-IsConsistent :
    (s : PeerRoomManager) (key next : EndpointKey) (player_id room now period : ℕ)
    → IsConsistent s
    → (IsConsistent (upsert_joined_peer s key player_id room now)
        ↔ (lives_elsewhere (find_entry s.peer_table key) room ≡ false))
      × IsConsistent (refresh_recv_time s key now).1
      × IsConsistent (remove_peer s key).1
      × IsConsistent (change_peer_room s key room now).1
      × IsConsistent (rebind_recoverable_peer s key next now).1
      × IsConsistent (mark_timed_out_peers_recoverable s now period).1
      × IsConsistent (remove_expired_recoverable_peers s now period).1
operations-IsConsistent s key next player_id room now period c = (
  upsert-IsConsistent_iff s key player_id room now c,
  refresh-IsConsistent s key now c,
  remove-IsConsistent s key c,
  change-IsConsistent s key room now c,
  rebind-IsConsistent s key next now c,
  mark-IsConsistent s now period c,
  expired-IsConsistent s now period c,
)

reachable-same :
    (s : PeerRoomManager) (k j : EndpointKey)
    → endpoint_eq k j ≡ true
    → is_reachable (find_joined_peer s k) ≡ is_reachable (find_joined_peer s j)
unfolding find_joined_peer find_peer
reachable-same s k j e = ap (λ o. is_reachable (if_joined o)) (find-same s.peer_table k j e)

is_in-reachable :
    (s : PeerRoomManager) (keys : List EndpointKey) (j : EndpointKey)
    → is_in (reachable_members s keys) j ≡ (is_in keys j && is_reachable (find_joined_peer s j))
unfolding reachable_members
is_in-reachable s [] j = refl
is_in-reachable s (k ∷ ks) j = ground (arith, is_in-reachable s ks j, reachable-same s k j)

abbrev pub connected_in : Option PeerState → ℕ → Bool
connected_in none room = false
connected_in (some p) room = p.is_joined && p.room_id == room && is_connected p.connection_state

-- A room's packets go to exactly the endpoints whose peers are joined, in the room and connected, where each
-- joined peer is listed by the room that it is in and by no other. What a room lists besides, endpoints with
-- no joined peer, gets none.
pub is_in-build_room_endpoint_key_list :
    (s : PeerRoomManager) (room : ℕ) (j : EndpointKey)
    → ((r : ℕ) (k : EndpointKey) (p : PeerState)
        → find_joined_peer s k ≡ some p
        → is_in (members_of (s.room_table r)) k ≡ (p.room_id == r))
    → is_in (build_room_endpoint_key_list s room) j ≡ connected_in (find_entry s.peer_table j) room
unfolding build_room_endpoint_key_list find_joined_peer find_peer
is_in-build_room_endpoint_key_list s room j agree =
    let filtered = is_in-reachable s (members_of (s.room_table room)) j in
    elim (Option-cases (find_entry s.peer_table j)) [
      | inl free ↦ ground (arith, filtered, free)
      | inr (p, e) ↦ elim (Bool-cases p.is_joined) [
        | inl joined ↦ ground (arith, filtered, e, joined, agree room j p (ground arith))
        | inr gone ↦ ground (arith, filtered, e, gone)
      ]
    ]

-- A peer is lost in two steps: the first pass turns a connected peer whose last packet is older than the
-- timeout into a recoverable one and keeps it, the second removes the recoverable peers whose grace period
-- is over, and each leaves every other peer as it was.
pub lost_in_two_steps :
    (s : PeerRoomManager) (now period : ℕ) (j : EndpointKey)
    → IsConsistent s
    → (find_entry (mark_timed_out_peers_recoverable s now period).1.peer_table j
        ≡ mark_entry now period (find_entry s.peer_table j))
      × (find_entry (remove_expired_recoverable_peers s now period).1.peer_table j
          ≡ survives now period (find_entry s.peer_table j))
unfolding mark_timed_out_peers_recoverable remove_expired_recoverable_peers
lost_in_two_steps s now period j c = (
  find-mark_loop now period s.peer_table j,
  find-expire_loop now period s.peer_table s.room_table j c.unique,
)
