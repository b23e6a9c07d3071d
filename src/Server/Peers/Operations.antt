-- ===== src/Server/Peers/Operations.antt =====
-- The operations of PeerRoomManager.cpp that change the tables. A loop over the peer table is recursion on
-- its list. The branches of `RebindRecoverablePeer` behind its tests that a map or a set cannot reach, an
-- empty node or an insertion that meets an equal key, are left out.
use windows_iocp_udp.Prelude.{
  ℕ, ◌+◌, Bool, true, false, not, ◌&&◌, ◌||◌, leb, ◌==◌, if◌then◌else◌, List, [], ◌∷◌, Option, none,
  some,
}
use windows_iocp_udp.Identity.{EndpointKey, endpoint_eq}
use windows_iocp_udp.Server.Peers.{
  connected, recoverable, PeerState, new_peer, PeerTable, RoomTable, PeerRoomManager,
  RecoverablePeer, RoomChangeResult, is_connected, is_recoverable, find_entry, put_entry,
  erase_entry, is_in, erase_member, insert_member, members_of, leave_room, enter_room,
  find_joined_peer,
}

-- `peerTable_[endpointKey]`.
abbrev pub peer_or_new : Option PeerState → PeerState
peer_or_new none = new_peer
peer_or_new (some p) = p

abbrev pub joined_in : PeerState → EndpointKey → ℕ → ℕ → ℕ → PeerState
joined_in p key player_id room_id now = record p {
  endpoint_key = key;
  player_id = player_id;
  room_id = room_id;
  is_joined = true;
  connection_state = connected;
  last_recv_time = now;
  recoverable_since = 0;
}

unfoldable pub upsert_joined_peer : PeerRoomManager → EndpointKey → ℕ → ℕ → ℕ → PeerRoomManager
upsert_joined_peer s key player_id room_id now =
    let p = peer_or_new (find_entry s.peer_table key) in
    record {
      peer_table = put_entry s.peer_table key (joined_in p key player_id room_id now);
      room_table = enter_room s.room_table room_id key;
    }

unfoldable pub refresh_recv_time : PeerRoomManager → EndpointKey → ℕ → Bool × PeerRoomManager
refresh_recv_time s key now = elim (find_joined_peer s key) [
  | none ↦ (false, s)
  | some p ↦ (
    true,
    record s { peer_table = put_entry s.peer_table key (record p { last_recv_time = now }) },
  )
]

abbrev pub reconnected : PeerState → ℕ → PeerState
reconnected p now = record p {
  connection_state = connected;
  last_recv_time = now;
  recoverable_since = 0;
}

-- `RebindRecoverablePeer` once the room of the peer is found.
unfoldable pub move_peer :
    PeerRoomManager
    → EndpointKey
    → EndpointKey
    → ℕ
    → PeerState
    → List EndpointKey
    → Bool × PeerRoomManager
move_peer s previous next now p members =
    if not (is_in members previous) || is_in members next then (false, s) else (
      true,
      record {
        peer_table =
            put_entry (erase_entry s.peer_table previous) next
              (record (reconnected p now) { endpoint_key = next });
        room_table = λ room.
            if room == p.room_id
            then some (insert_member (erase_member members previous) next)
            else s.room_table room;
      },
    )

unfoldable pub rebind_to :
    PeerRoomManager → EndpointKey → EndpointKey → ℕ → PeerState → Bool × PeerRoomManager
rebind_to s previous next now p =
    if not (is_recoverable p.connection_state)
    then (false, s)
    else if endpoint_eq previous next
    then (true, record s { peer_table = put_entry s.peer_table previous (reconnected p now) })
    else elim (find_entry s.peer_table next) [
      | some q ↦ (false, s)
      | none ↦ elim (s.room_table p.room_id) [
        | none ↦ (false, s)
        | some members ↦ move_peer s previous next now p members
      ]
    ]

unfoldable pub rebind_recoverable_peer :
    PeerRoomManager → EndpointKey → EndpointKey → ℕ → Bool × PeerRoomManager
rebind_recoverable_peer s previous next now = elim (find_joined_peer s previous) [
  | none ↦ (false, s)
  | some p ↦ rebind_to s previous next now p
]

-- The player and the room are given back when the peer was joined.
unfoldable pub remove_peer : PeerRoomManager → EndpointKey → Option (ℕ × ℕ) × PeerRoomManager
remove_peer s key = elim (find_entry s.peer_table key) [
  | none ↦ (none, s)
  | some p ↦
      let erased = erase_entry s.peer_table key in
      if not p.is_joined then (none, record s { peer_table = erased }) else (
        some (p.player_id, p.room_id),
        record { peer_table = erased; room_table = leave_room s.room_table p.room_id key },
      )
]

unfoldable pub change_room_of :
    PeerRoomManager → EndpointKey → ℕ → ℕ → PeerState → Option RoomChangeResult × PeerRoomManager
change_room_of s key next_room_id now p = if p.room_id == next_room_id then (none, s) else (
  some (record {
    player_id = p.player_id;
    previous_room_id = p.room_id;
    next_room_id = next_room_id;
  }),
  record {
    peer_table =
        put_entry s.peer_table key (record p { room_id = next_room_id; last_recv_time = now });
    room_table = enter_room (leave_room s.room_table p.room_id key) next_room_id key;
  },
)

unfoldable pub change_peer_room :
    PeerRoomManager → EndpointKey → ℕ → ℕ → Option RoomChangeResult × PeerRoomManager
change_peer_room s key next_room_id now = elim (find_joined_peer s key) [
  | none ↦ (none, s)
  | some p ↦ change_room_of s key next_room_id now p
]

abbrev pub summary : EndpointKey → PeerState → RecoverablePeer
summary key p = record {
  endpoint_key = key;
  player_id = p.player_id;
  persistent_player_id = p.persistent_player_id;
  room_id = p.room_id;
}

-- The peer is joined and connected, and its last packet is older than the timeout.
unfoldable pub is_timed_out : ℕ → ℕ → PeerState → Bool
is_timed_out now timeout p =
    p.is_joined && is_connected p.connection_state && not (leb now (p.last_recv_time + timeout))

abbrev pub marked : ℕ → PeerState → PeerState
marked now p = record p { connection_state = recoverable; recoverable_since = now }

unfoldable pub mark_loop : ℕ → ℕ → PeerTable → List RecoverablePeer × PeerTable
mark_loop now timeout [] = ([], [])
mark_loop now timeout ((key, p) ∷ table) =
    let (found, left) = mark_loop now timeout table in
    if is_timed_out now timeout p
    then (summary key p ∷ found, (key, marked now p) ∷ left)
    else (found, (key, p) ∷ left)

unfoldable pub mark_timed_out_peers_recoverable :
    PeerRoomManager → ℕ → ℕ → List RecoverablePeer × PeerRoomManager
mark_timed_out_peers_recoverable s now timeout =
    let (found, table) = mark_loop now timeout s.peer_table in
    (found, record s { peer_table = table })

unfoldable pub is_expired : ℕ → ℕ → PeerState → Bool
is_expired now grace p =
    p.is_joined && is_recoverable p.connection_state && not (leb now (p.recoverable_since + grace))

-- The rooms are left in the order of the walk.
unfoldable pub expire_loop :
    ℕ → ℕ → PeerTable → RoomTable → List RecoverablePeer × PeerTable × RoomTable
expire_loop now grace [] rooms = ([], [], rooms)
expire_loop now grace ((key, p) ∷ table) rooms =
    let rooms' = if is_expired now grace p then leave_room rooms p.room_id key else rooms in
    let (found, left, rooms'') = expire_loop now grace table rooms' in
    if is_expired now grace p
    then (summary key p ∷ found, left, rooms'')
    else (found, (key, p) ∷ left, rooms'')

unfoldable pub remove_expired_recoverable_peers :
    PeerRoomManager → ℕ → ℕ → List RecoverablePeer × PeerRoomManager
remove_expired_recoverable_peers s now grace =
    let (found, table, rooms) = expire_loop now grace s.peer_table s.room_table in
    (found, record { peer_table = table; room_table = rooms })

abbrev pub is_reachable : Option PeerState → Bool
is_reachable none = false
is_reachable (some p) = is_connected p.connection_state

unfoldable pub reachable_members : PeerRoomManager → List EndpointKey → List EndpointKey
reachable_members s [] = []
reachable_members s (key ∷ keys) =
    let rest = reachable_members s keys in
    if is_reachable (find_joined_peer s key) then key ∷ rest else rest

unfoldable pub build_room_endpoint_key_list : PeerRoomManager → ℕ → List EndpointKey
build_room_endpoint_key_list s room = reachable_members s (members_of (s.room_table room))
