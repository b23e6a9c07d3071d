-- ===== src/Server/Peers/Keyed.antt =====
-- Each peer of PeerRoomManager.cpp knows the endpoint that it is found at.
use windows_iocp_udp.Prelude.{
  ℕ, ◌≡◌, Bool, true, ◌==◌, Option, none, some, arith, Option-cases, Bool-cases, inl, inr,
}
use windows_iocp_udp.Server.EndpointTable.{endpoint_key}
use windows_iocp_udp.Identity.{EndpointKey, endpoint_eq}
use windows_iocp_udp.Server.Peers.{
  PeerState, PeerRoomManager, is_recoverable, find_entry, put_entry, erase_entry, find_joined_peer,
}
use windows_iocp_udp.Server.Peers.Operations.{
  upsert_joined_peer, joined_in, peer_or_new, refresh_recv_time, reconnected,
  rebind_recoverable_peer, rebind_to, move_peer, remove_peer, change_peer_room, change_room_of,
  is_timed_out, mark_timed_out_peers_recoverable, is_expired, remove_expired_recoverable_peers,
}
use windows_iocp_udp.Server.Peers.Tables.{find-put, find-erase}
use windows_iocp_udp.Server.Peers.Consistency.{IsConsistent, joined_read}
use windows_iocp_udp.Server.Peers.Recovery.{find-mark_loop, find-expire_loop, rebound}

abbrev pub is_at : EndpointKey → Option PeerState → Bool
is_at j none = true
is_at j (some p) = endpoint_eq p.endpoint_key j

abbrev pub IsKeyed : PeerRoomManager → Type 0
IsKeyed s = (j : EndpointKey) → is_at j (find_entry s.peer_table j) ≡ true

pub put-IsKeyed :
    (s : PeerRoomManager) (key : EndpointKey) (q : PeerState)
    → IsKeyed s
    → endpoint_eq q.endpoint_key key ≡ true
    → IsKeyed (record s { peer_table = put_entry s.peer_table key q })
put-IsKeyed s key q h at j = ground (arith, find-put s.peer_table key j q, h j)

pub peer-IsAt :
    (s : PeerRoomManager) (key : EndpointKey) (p : PeerState)
    → IsKeyed s
    → find_joined_peer s key ≡ some p
    → endpoint_eq p.endpoint_key key ≡ true
peer-IsAt s key p h e = ground (arith, h key, joined_read s key p e)

pub upsert-IsKeyed :
    (s : PeerRoomManager) (key : EndpointKey) (player_id room now : ℕ)
    → IsKeyed s
    → IsKeyed (upsert_joined_peer s key player_id room now)
unfolding upsert_joined_peer
upsert-IsKeyed s key player_id room now h =
    put-IsKeyed s key (joined_in (peer_or_new (find_entry s.peer_table key)) key player_id room now)
      h (ground arith)

pub refresh-IsKeyed :
    (s : PeerRoomManager) (key : EndpointKey) (now : ℕ)
    → IsKeyed s
    → IsKeyed (refresh_recv_time s key now).1
unfolding refresh_recv_time
refresh-IsKeyed s key now h = elim (Option-cases (find_joined_peer s key)) [
  | inl e ↦ rw (e, refresh_recv_time) h
  | inr (p, e) ↦
      rw (e, refresh_recv_time)
        (put-IsKeyed s key (record p { last_recv_time = now }) h (peer-IsAt s key p h e))
]

pub remove-IsKeyed :
    (s : PeerRoomManager) (key : EndpointKey) → IsKeyed s → IsKeyed (remove_peer s key).1
unfolding remove_peer
remove-IsKeyed s key h j = elim (Option-cases (find_entry s.peer_table key)) [
  | inl e ↦ ground (arith, e, h j)
  | inr (p, e) ↦ elim (Bool-cases p.is_joined) [
    | inl into ↦ ground (arith, e, into, find-erase s.peer_table key j, h j)
    | inr out ↦ ground (arith, e, out, find-erase s.peer_table key j, h j)
  ]
]

pub change-IsKeyed :
    (s : PeerRoomManager) (key : EndpointKey) (next now : ℕ)
    → IsKeyed s
    → IsKeyed (change_peer_room s key next now).1
unfolding change_peer_room change_room_of
change-IsKeyed s key next now h = elim (Option-cases (find_joined_peer s key)) [
  | inl e ↦ rw (e, change_peer_room) h
  | inr (p, e) ↦ elim (Bool-cases (p.room_id == next)) [
    | inl same ↦ rw (e, same, change_peer_room, change_room_of) h
    | inr other ↦
        rw (e, other, change_peer_room, change_room_of)
          (put-IsKeyed s key (record p { room_id = next; last_recv_time = now }) h
            (peer-IsAt s key p h e))
  ]
]

pub mark-IsKeyed :
    (s : PeerRoomManager) (now timeout : ℕ)
    → IsKeyed s
    → IsKeyed (mark_timed_out_peers_recoverable s now timeout).1
unfolding mark_timed_out_peers_recoverable
mark-IsKeyed s now timeout h j = elim (Option-cases (find_entry s.peer_table j)) [
  | inl e ↦ ground (arith, e, find-mark_loop now timeout s.peer_table j)
  | inr (p, e) ↦ elim (Bool-cases (is_timed_out now timeout p)) [
    | inl late ↦ ground (arith, e, late, h j, find-mark_loop now timeout s.peer_table j)
    | inr fine ↦ ground (arith, e, fine, h j, find-mark_loop now timeout s.peer_table j)
  ]
]

pub expired-IsKeyed :
    (s : PeerRoomManager) (now grace : ℕ)
    → IsConsistent s
    → IsKeyed s
    → IsKeyed (remove_expired_recoverable_peers s now grace).1
unfolding remove_expired_recoverable_peers
expired-IsKeyed s now grace c h j =
    let read = find-expire_loop now grace s.peer_table s.room_table j c.unique in
    elim (Option-cases (find_entry s.peer_table j)) [
      | inl e ↦ ground (arith, e, read)
      | inr (p, e) ↦ elim (Bool-cases (is_expired now grace p)) [
        | inl late ↦ ground (arith, e, late, read)
        | inr fine ↦ ground (arith, e, fine, h j, read)
      ]
    ]

pub rebind-IsKeyed :
    (s : PeerRoomManager) (previous next : EndpointKey) (now : ℕ)
    → IsKeyed s
    → IsKeyed (rebind_recoverable_peer s previous next now).1
unfolding rebind_recoverable_peer rebind_to move_peer
rebind-IsKeyed s previous next now h j = elim (Option-cases (find_joined_peer s previous)) [
  | inl e ↦ ground (arith, e, h j)
  | inr (p, e) ↦ elim (Bool-cases (is_recoverable p.connection_state)) [
    | inr kept ↦ ground (arith, e, kept, h j)
    | inl lost ↦ elim (Bool-cases (endpoint_eq previous next)) [
      | inl same ↦ ground (
        arith,
        e,
        lost,
        same,
        h j,
        peer-IsAt s previous p h e,
        find-put s.peer_table previous j (reconnected p now),
      )
      | inr differ ↦ elim (Option-cases (find_entry s.peer_table next)) [
        | inr (q, taken) ↦ ground (arith, e, lost, differ, taken, h j)
        | inl free ↦ elim (Option-cases (s.room_table p.room_id)) [
          | inl gone ↦ ground (arith, e, lost, differ, free, gone, h j)
          | inr (members, there) ↦ ground (
            arith,
            e,
            lost,
            differ,
            free,
            there,
            h j,
            find-put (erase_entry s.peer_table previous) next j (rebound p next now),
            find-erase s.peer_table previous j,
          )
        ]
      ]
    ]
  ]
]
