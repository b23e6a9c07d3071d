-- ===== src/Server/Peers/Recovery.antt =====
-- Lost connections in PeerRoomManager.cpp: peers that time out, come back from another endpoint, or expire.
use windows_iocp_udp.Prelude.{
  ℕ, ◌≡◌, refl, Bool, true, false, not, ◌&&◌, ◌==◌, if◌then◌else◌, [], ◌∷◌, Option, none, some,
  arith, Option-cases, inl, inr,
}
use windows_iocp_udp.Server.EndpointTable.{endpoint_key}
use windows_iocp_udp.Identity.{EndpointKey, endpoint_eq}
use windows_iocp_udp.Server.Peers.{
  PeerState, PeerTable, RoomTable, PeerRoomManager, find_entry, erase_entry, is_in, members_of,
  leave_room, find_joined_peer, is_recoverable,
}
use windows_iocp_udp.Server.Peers.Operations.{
  rebind_recoverable_peer, rebind_to, move_peer, reconnected, is_timed_out, marked, mark_loop,
  mark_timed_out_peers_recoverable, is_expired, expire_loop, remove_expired_recoverable_peers,
}
use windows_iocp_udp.Server.Peers.Tables.{
  Unique, find-put, find-erase, members-leave_room, is_inhabited, inhabited-leave_room,
}
use windows_iocp_udp.Server.Peers.Consistency.{IsConsistent, find-same, joined_read}

-- The peer at another endpoint.
abbrev pub rebound : PeerState → EndpointKey → ℕ → PeerState
rebound p next now = record (reconnected p now) { endpoint_key = next }

-- A recoverable peer that comes back from an endpoint with no peer is always taken: it is found there,
-- connected and otherwise as it was, its old endpoint has no peer, and all others are untouched. The
-- tables are consistent.
pub rebind_succeeds :
    (s : PeerRoomManager) (previous next : EndpointKey) (now : ℕ) (p : PeerState)
    → IsConsistent s
    → find_joined_peer s previous ≡ some p
    → is_recoverable p.connection_state ≡ true
    → endpoint_eq previous next ≡ false
    → find_entry s.peer_table next ≡ none
    → ((rebind_recoverable_peer s previous next now).0 ≡ true)
      × ((j : EndpointKey)
          → find_entry (rebind_recoverable_peer s previous next now).1.peer_table j ≡ (
              if endpoint_eq next j
              then some (rebound p next now)
              else if endpoint_eq previous j
              then none
              else find_entry s.peer_table j))
unfolding rebind_recoverable_peer rebind_to move_peer
rebind_succeeds s previous next now p c e lost differ free =
    let read = joined_read s previous p e in
    elim (Option-cases (s.room_table p.room_id)) [
      | inl none_there ↦ absurd (ground (arith, c.listed p.room_id previous, read))
      | inr (members, there) ↦ (
        ground (arith, c.listed p.room_id previous, c.listed p.room_id next, read),
        λ j. ground (
          arith,
          c.listed p.room_id previous,
          c.listed p.room_id next,
          read,
          find-put (erase_entry s.peer_table previous) next j (rebound p next now),
          find-erase s.peer_table previous j,
        ),
      )
    ]

abbrev pub mark_entry : ℕ → ℕ → Option PeerState → Option PeerState
mark_entry now timeout none = none
mark_entry now timeout (some p) = if is_timed_out now timeout p then some (marked now p) else some p

pub find-mark_loop :
    (now timeout : ℕ) (table : PeerTable) (j : EndpointKey)
    → find_entry (mark_loop now timeout table).1 j ≡ mark_entry now timeout (find_entry table j)
unfolding mark_loop
find-mark_loop now timeout [] j = refl
find-mark_loop now timeout ((k, p) ∷ table) j = ground (arith, find-mark_loop now timeout table j)

mark_loop-Unique :
    (now timeout : ℕ) (table : PeerTable) → Unique table → Unique (mark_loop now timeout table).1
unfolding mark_loop
mark_loop-Unique now timeout [] u = tt
mark_loop-Unique now timeout ((k, p) ∷ table) u =
    ground (arith, mark_loop-Unique now timeout table u.1, find-mark_loop now timeout table k)

pub mark-IsConsistent :
    (s : PeerRoomManager) (now timeout : ℕ)
    → IsConsistent s
    → IsConsistent (mark_timed_out_peers_recoverable s now timeout).1
unfolding mark_timed_out_peers_recoverable
mark-IsConsistent s now timeout c = record {
  unique = mark_loop-Unique now timeout s.peer_table c.unique;
  listed = λ r j. ground (arith, c.listed r j, find-mark_loop now timeout s.peer_table j);
  inhabited = c.inhabited;
}

abbrev pub survives : ℕ → ℕ → Option PeerState → Option PeerState
survives now grace none = none
survives now grace (some p) = if is_expired now grace p then none else some p

abbrev expires_from : ℕ → ℕ → Option PeerState → ℕ → Bool
expires_from now grace none room = false
expires_from now grace (some p) room = is_expired now grace p && p.room_id == room

pub find-expire_loop :
    (now grace : ℕ) (table : PeerTable) (rooms : RoomTable) (j : EndpointKey)
    → Unique table
    → find_entry (expire_loop now grace table rooms).1 j ≡ survives now grace (find_entry table j)
unfolding expire_loop
find-expire_loop now grace [] rooms j u = refl
find-expire_loop now grace ((k, p) ∷ table) rooms j u = ground (
  arith,
  find-expire_loop now grace table rooms j u.1,
  find-expire_loop now grace table (leave_room rooms p.room_id k) j u.1,
  find-same table k j,
)

expire_loop-Unique :
    (now grace : ℕ) (table : PeerTable) (rooms : RoomTable)
    → Unique table
    → Unique (expire_loop now grace table rooms).1
unfolding expire_loop
expire_loop-Unique now grace [] rooms u = tt
expire_loop-Unique now grace ((k, p) ∷ table) rooms u = ground (
  arith,
  expire_loop-Unique now grace table rooms u.1,
  expire_loop-Unique now grace table (leave_room rooms p.room_id k) u.1,
  find-expire_loop now grace table rooms k u.1,
)

members-expire_loop :
    (now grace : ℕ) (table : PeerTable) (rooms : RoomTable) (r : ℕ) (j : EndpointKey)
    → Unique table
    → is_in (members_of ((expire_loop now grace table rooms).2 r)) j
      ≡ (is_in (members_of (rooms r)) j && not (expires_from now grace (find_entry table j) r))
unfolding expire_loop
members-expire_loop now grace [] rooms r j u = ground arith
members-expire_loop now grace ((k, p) ∷ table) rooms r j u = ground (
  arith,
  members-expire_loop now grace table rooms r j u.1,
  members-expire_loop now grace table (leave_room rooms p.room_id k) r j u.1,
  members-leave_room rooms p.room_id r k j,
  find-same table k j,
)

inhabited-expire_loop :
    (now grace : ℕ) (table : PeerTable) (rooms : RoomTable) (r : ℕ)
    → is_inhabited (rooms r) ≡ true
    → is_inhabited ((expire_loop now grace table rooms).2 r) ≡ true
unfolding expire_loop
inhabited-expire_loop now grace [] rooms r h = h
inhabited-expire_loop now grace ((k, p) ∷ table) rooms r h = ground (
  arith,
  inhabited-expire_loop now grace table rooms r,
  inhabited-expire_loop now grace table (leave_room rooms p.room_id k) r,
  inhabited-leave_room rooms p.room_id r k,
)

pub expired-IsConsistent :
    (s : PeerRoomManager) (now grace : ℕ)
    → IsConsistent s
    → IsConsistent (remove_expired_recoverable_peers s now grace).1
unfolding remove_expired_recoverable_peers
expired-IsConsistent s now grace c = record {
  unique = expire_loop-Unique now grace s.peer_table s.room_table c.unique;
  listed = λ r j. ground (
    arith,
    c.listed r j,
    find-expire_loop now grace s.peer_table s.room_table j c.unique,
    members-expire_loop now grace s.peer_table s.room_table r j c.unique,
  );
  inhabited = λ r. inhabited-expire_loop now grace s.peer_table s.room_table r (c.inhabited r);
}
