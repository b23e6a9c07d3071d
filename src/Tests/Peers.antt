-- ===== src/Tests/Peers.antt =====
-- The laws of PeerRoomManager.cpp on two peers in one room.
use windows_iocp_udp.Prelude.{
  ℕ, ◌≡◌, ◌↔◌, refl, true, false, ◌==◌, if◌then◌else◌, [], ◌∷◌, none, some, arith,
}
use windows_iocp_udp.Identity.{EndpointKey, endpoint_eq}
use windows_iocp_udp.Server.Peers.{
  PeerState, RoomTable, PeerRoomManager, new_peer, recoverable, find_entry, is_in, members_of,
  find_joined_peer, find_peer,
}
use windows_iocp_udp.Server.Peers.Operations.{
  joined_in, upsert_joined_peer, refresh_recv_time, remove_peer, change_peer_room,
  rebind_recoverable_peer, mark_timed_out_peers_recoverable, remove_expired_recoverable_peers,
  build_room_endpoint_key_list,
}
use windows_iocp_udp.Server.Peers.Consistency.{IsConsistent, lives_elsewhere}
use windows_iocp_udp.Server.Peers.Recovery.{rebound, rebind_succeeds}
use windows_iocp_udp.Server.Peers.Broadcast.{
  operations-IsConsistent, is_in-build_room_endpoint_key_list,
}

abbrev endpoint : ℕ → EndpointKey
endpoint port = record { address = 5; port = port }

abbrev first : PeerState
first = joined_in new_peer (endpoint 1) 11 3 70

abbrev second : PeerState
second = record (joined_in new_peer (endpoint 2) 12 3 40) {
  connection_state = recoverable;
  recoverable_since = 60;
}

abbrev rooms : RoomTable
rooms room = if room == 3 then some (endpoint 1 ∷ endpoint 2 ∷ []) else none

abbrev two_peers : PeerRoomManager
two_peers = record {
  peer_table = (endpoint 1, first) ∷ (endpoint 2, second) ∷ [];
  room_table = rooms;
}

two_peers-IsConsistent : IsConsistent two_peers
two_peers-IsConsistent = record {
  unique = (refl, (refl, tt));
  listed = λ room key. ground arith;
  inhabited = λ room. ground arith;
}

second_joined : find_joined_peer two_peers (endpoint 2) ≡ some second
unfolding find_joined_peer find_peer
second_joined = refl

rebind_succeeds_example :
    ((rebind_recoverable_peer two_peers (endpoint 2) (endpoint 8) 95).0 ≡ true)
    × ((j : EndpointKey)
        → find_entry (rebind_recoverable_peer two_peers (endpoint 2) (endpoint 8) 95).1.peer_table j
          ≡ (if endpoint_eq (endpoint 8) j
              then some (rebound second (endpoint 8) 95)
              else if endpoint_eq (endpoint 2) j
              then none
              else find_entry two_peers.peer_table j))
rebind_succeeds_example =
    rebind_succeeds two_peers (endpoint 2) (endpoint 8) 95 second two_peers-IsConsistent
      second_joined refl refl refl

operations-IsConsistent_example :
    (IsConsistent (upsert_joined_peer two_peers (endpoint 2) 12 4 99)
      ↔ (lives_elsewhere (find_entry two_peers.peer_table (endpoint 2)) 4 ≡ false))
    × IsConsistent (refresh_recv_time two_peers (endpoint 2) 99).1
    × IsConsistent (remove_peer two_peers (endpoint 2)).1
    × IsConsistent (change_peer_room two_peers (endpoint 2) 4 99).1
    × IsConsistent (rebind_recoverable_peer two_peers (endpoint 2) (endpoint 8) 99).1
    × IsConsistent (mark_timed_out_peers_recoverable two_peers 99 20).1
    × IsConsistent (remove_expired_recoverable_peers two_peers 99 20).1
operations-IsConsistent_example =
    operations-IsConsistent two_peers (endpoint 2) (endpoint 8) 12 4 99 20 two_peers-IsConsistent

-- Room 3 lists an endpoint with no peer besides.
abbrev with_stray : PeerRoomManager
with_stray = record two_peers {
  room_table = λ room. if room == 3 then some (endpoint 9 ∷ endpoint 1 ∷ endpoint 2 ∷ []) else none;
}

with_stray-agrees :
    (r : ℕ) (k : EndpointKey) (p : PeerState)
    → find_joined_peer with_stray k ≡ some p
    → is_in (members_of (with_stray.room_table r)) k ≡ (p.room_id == r)
unfolding find_joined_peer find_peer
with_stray-agrees r k p e = ground arith

is_in-build_room_endpoint_key_list_example :
    is_in (build_room_endpoint_key_list with_stray 3) (endpoint 9) ≡ false
is_in-build_room_endpoint_key_list_example =
    is_in-build_room_endpoint_key_list with_stray 3 (endpoint 9) with_stray-agrees
