-- ===== src/Server/Join.antt =====
-- Server/Service/PeerSessionService.h and .cpp: how peers join, on the peers, the accounts and the game
-- world. What the code changes by reference is an argument and a result.
pub mod Joins
pub mod Connected
pub mod Authenticated
use windows_iocp_udp.Prelude.{
  ℕ, Bool, true, false, not, ◌||◌, if◌then◌else◌, List, [], ◌∷◌, Option, none, some,
}
use windows_iocp_udp.Prelude.Int.{ℤ, pos}
use windows_iocp_udp.Identity.{EndpointKey, SessionToken, token_eq, is_valid_session_token}
use windows_iocp_udp.Game.{float_zero, float_one}
use windows_iocp_udp.Game.Layout.{SpawnPoint, get_spawn_point_for_room}
use windows_iocp_udp.Game.Movement.{default_move_speed, flag_none}
use windows_iocp_udp.Game.World.{
  GameRuleConfig, PlayerState, GameWorld, allocate_player_id, find_player, upsert_player,
}
use windows_iocp_udp.Server.Peers.{
  PeerState, PeerRoomManager, is_positive, same_id, find_entry, put_entry, find_joined_peer,
  get_room_member_count,
}
use windows_iocp_udp.Server.Peers.Operations.{peer_or_new, upsert_joined_peer, remove_peer}
use windows_iocp_udp.Server.Accounts.{is_empty}

pub record AuthenticatedIdentity : Type 0 where
  pub account_id : ℤ
  pub persistent_player_id : ℤ
  pub session_token : SessionToken
  pub nickname : List ℕ

pub data JoinAuthenticatedPeerStatus : Type 0 where
  joined recovered existing_peer unauthenticated rejected : JoinAuthenticatedPeerStatus

-- `Joined` and `Recovered`.
abbrev pub is_admitted : JoinAuthenticatedPeerStatus → Bool
is_admitted joined = true
is_admitted recovered = true
is_admitted existing_peer = false
is_admitted unauthenticated = false
is_admitted rejected = false

pub record JoinResult : Type 0 where
  pub should_send_response : Bool
  pub should_broadcast_player_joined : Bool
  pub player_id : ℕ
  pub persistent_player_id : ℤ
  pub room_id : ℕ
  pub spawn_position : SpawnPoint

pub record JoinAuthenticatedPeerResult : Type 0 where
  pub status : JoinAuthenticatedPeerStatus
  pub join_result : JoinResult

abbrev pub no_join : JoinResult
no_join = record {
  should_send_response = false;
  should_broadcast_player_joined = false;
  player_id = 0;
  persistent_player_id = pos 0;
  room_id = 0;
  spawn_position = record { x = float_zero; y = float_zero };
}

unfoldable pub build_current_join_result : PeerState → GameWorld → JoinResult
unfolding find_player
build_current_join_result p w = elim (find_player w p.player_id) [
  | none ↦ no_join
  | some q ↦ record {
    should_send_response = true;
    should_broadcast_player_joined = false;
    player_id = p.player_id;
    persistent_player_id = p.persistent_player_id;
    room_id = p.room_id;
    spawn_position = record { x = q.x; y = q.y };
  }
]

unfoldable pub create_initial_player_state : ℕ → SpawnPoint → GameRuleConfig → PlayerState
create_initial_player_state player_id spawn rules = record {
  player_id = player_id;
  x = spawn.x;
  y = spawn.y;
  move_speed = default_move_speed;
  input_flags = flag_none;
  hp = rules.initial_player_hp;
  is_dead = false;
  kill_count = 0;
  death_count = 0;
  respawn_remaining_seconds = float_zero;
  invincibility_remaining_seconds = float_zero;
  hit_flash_remaining_seconds = float_zero;
  fire_cooldown_remaining_seconds = float_zero;
  last_move_direction_x = float_one;
  last_move_direction_y = float_zero;
}

-- A write through the pointer that `FindJoinedPeer` gave.
abbrev pub write_peer : PeerRoomManager → EndpointKey → PeerState → PeerRoomManager
write_peer s key p = record s { peer_table = put_entry s.peer_table key p }

abbrev pub is_invalid_identity : AuthenticatedIdentity → Bool
is_invalid_identity i =
    not (is_positive i.account_id)
    || not (is_positive i.persistent_player_id)
    || not (is_valid_session_token i.session_token)
    || is_empty i.nickname

abbrev pub is_other_identity : PeerState → AuthenticatedIdentity → Bool
is_other_identity p i =
    not (same_id p.account_id i.account_id)
    || not (same_id p.persistent_player_id i.persistent_player_id)
    || not (token_eq p.session_token i.session_token)

abbrev pub identified : PeerState → AuthenticatedIdentity → PeerState
identified p i = record p {
  account_id = i.account_id;
  persistent_player_id = i.persistent_player_id;
  session_token = i.session_token;
  nickname = i.nickname;
  last_accepted_input_sequence = 0;
  last_processed_input_sequence = 0;
}

-- `JoinPeer` from the spawn index on.
unfoldable pub join_new_peer :
    EndpointKey
    → AuthenticatedIdentity
    → ℕ
    → PeerRoomManager
    → GameWorld
    → GameRuleConfig
    → ℕ
    → JoinResult × PeerRoomManager × GameWorld
join_new_peer key i room peers w rules now =
    let spawn = get_spawn_point_for_room room (get_room_member_count peers room) in
    let (player_id, w1) = allocate_player_id w in
    let entered = upsert_joined_peer peers key player_id room now in
    let p = identified (peer_or_new (find_entry entered.peer_table key)) i in
    (
      record {
        should_send_response = true;
        should_broadcast_player_joined = true;
        player_id = player_id;
        persistent_player_id = i.persistent_player_id;
        room_id = room;
        spawn_position = spawn;
      },
      write_peer entered key p,
      upsert_player w1 (create_initial_player_state player_id spawn rules),
    )

unfoldable pub join_peer :
    EndpointKey
    → AuthenticatedIdentity
    → ℕ
    → PeerRoomManager
    → GameWorld
    → GameRuleConfig
    → ℕ
    → JoinResult × PeerRoomManager × GameWorld
join_peer key i room peers w rules now =
    if is_invalid_identity i then (no_join, peers, w) else elim (find_joined_peer peers key) [
      | none ↦ join_new_peer key i room peers w rules now
      | some p ↦
          let seen = write_peer peers key (record p { last_recv_time = now }) in
          let current = build_current_join_result p w in
          if is_other_identity p i
          then (no_join, peers, w)
          else if current.should_send_response
          then (current, seen, w)
          else join_new_peer key i room (remove_peer seen key).1 w rules now
    ]
