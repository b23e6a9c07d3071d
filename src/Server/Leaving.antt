-- ===== src/Server/Leaving.antt =====
-- Server/Service/PeerSessionService.cpp: how peers leave, change rooms and are timed out, on the peers and the
-- game world.
pub mod Connected
use windows_iocp_udp.Prelude.{
  ℕ, ◌-◌, true, false, not, ◌==◌, ltb, if◌then◌else◌, List, [], ◌∷◌, Option, none, some,
}
use windows_iocp_udp.Prelude.Int.{ℤ, pos}
use windows_iocp_udp.Identity.{EndpointKey}
use windows_iocp_udp.Game.Layout.{SpawnPoint, get_spawn_point_for_room}
use windows_iocp_udp.Game.Movement.{flag_none}
use windows_iocp_udp.Game.World.{
  PlayerState, GameWorld, find_player, write_player, remove_player, clear_room_transient_state,
}
use windows_iocp_udp.Game.Matches.{is_positive_room}
use windows_iocp_udp.Server.Peers.{
  PeerState, PeerRoomManager, RecoverablePeer, RoomChangeResult, find_joined_peer,
  get_room_member_count,
}
use windows_iocp_udp.Server.Peers.Operations.{
  remove_peer, change_peer_room, mark_timed_out_peers_recoverable, remove_expired_recoverable_peers,
}

pub record LeaveResult : Type 0 where
  pub player_id : ℕ
  pub persistent_player_id : ℤ
  pub room_id : ℕ

pub record PeerRoomChange : Type 0 where
  pub player_id : ℕ
  pub persistent_player_id : ℤ
  pub previous_room_id : ℕ
  pub next_room_id : ℕ
  pub spawn_position : SpawnPoint

-- `ClearRoomTransientState` of a room that nobody is left in.
abbrev pub clear_if_empty : PeerRoomManager → ℕ → GameWorld → GameWorld
clear_if_empty peers room w =
    if get_room_member_count peers room == 0 then clear_room_transient_state w room else w

unfoldable pub leave_peer :
    EndpointKey → PeerRoomManager → GameWorld → Option LeaveResult × PeerRoomManager × GameWorld
leave_peer key peers w = elim (find_joined_peer peers key) [
  | none ↦ (none, peers, w)
  | some p ↦
      let (removed, left) = remove_peer peers key in
      elim removed [
        | none ↦ (none, left, w)
        | some (player_id, room) ↦ (
          some (record {
            player_id = player_id;
            persistent_player_id = p.persistent_player_id;
            room_id = room;
          }),
          left,
          clear_if_empty left room (remove_player w player_id),
        )
      ]
]

-- `ChangePeerRoom` once the room is changed: the player is put at the room's next spawn point.
unfoldable pub enter_changed_room :
    RoomChangeResult
    → PeerState
    → PlayerState
    → PeerRoomManager
    → GameWorld
    → Option PeerRoomChange × PeerRoomManager × GameWorld
enter_changed_room r p q peers w =
    let count = get_room_member_count peers r.next_room_id in
    let spawn = get_spawn_point_for_room r.next_room_id (if ltb 0 count then count - 1 else 0) in
    (
      some (record {
        player_id = r.player_id;
        persistent_player_id = p.persistent_player_id;
        previous_room_id = r.previous_room_id;
        next_room_id = r.next_room_id;
        spawn_position = spawn;
      }),
      peers,
      write_player (clear_if_empty peers r.previous_room_id w) p.player_id
          (record q { x = spawn.x; y = spawn.y; input_flags = flag_none }),
    )

unfoldable pub change_room :
    EndpointKey
    → ℕ
    → PeerRoomManager
    → GameWorld
    → ℕ
    → Option PeerRoomChange × PeerRoomManager × GameWorld
change_room key next_room_id peers w now =
    if not (is_positive_room next_room_id)
    then (none, peers, w)
    else elim (find_joined_peer peers key) [
      | none ↦ (none, peers, w)
      | some p ↦ elim (find_player w p.player_id) [
        | none ↦ (none, peers, w)
        | some q ↦
            if q.is_dead
            then (none, peers, w)
            else if p.room_id == next_room_id
            then (none, peers, w)
            else let (changed, moved) = change_peer_room peers key next_room_id now in
              elim changed [ none ↦ (none, moved, w) | some r ↦ enter_changed_room r p q moved w ]
      ]
    ]

unfoldable pub stop_player : ℕ → GameWorld → GameWorld
unfolding find_player
stop_player player_id w = elim (find_player w player_id) [
  | none ↦ w
  | some q ↦ write_player w player_id (record q { input_flags = flag_none })
]

unfoldable pub stop_players : List RecoverablePeer → GameWorld → GameWorld
stop_players [] w = w
stop_players (r ∷ rs) w = stop_players rs (stop_player r.player_id w)

unfoldable pub mark_timed_out :
    ℕ → ℕ → PeerRoomManager → GameWorld → List RecoverablePeer × PeerRoomManager × GameWorld
mark_timed_out now timeout peers w =
    let (found, marked) = mark_timed_out_peers_recoverable peers now timeout in
    (found, marked, stop_players found w)

unfoldable pub remove_players : PeerRoomManager → List RecoverablePeer → GameWorld → GameWorld
remove_players peers [] w = w
remove_players peers (r ∷ rs) w =
    remove_players peers rs (clear_if_empty peers r.room_id (remove_player w r.player_id))

unfoldable pub remove_expired_peers :
    ℕ → ℕ → PeerRoomManager → GameWorld → List RecoverablePeer × PeerRoomManager × GameWorld
remove_expired_peers now grace peers w =
    let (found, left) = remove_expired_recoverable_peers peers now grace in
    (found, left, remove_players left found w)
