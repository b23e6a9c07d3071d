-- ===== src/Server/Commands.antt =====
-- Server/Service/PlayerCommandService.h and .cpp: the commands of a player. The float operations are the
-- parameter `f`.
use windows_iocp_udp.Prelude.{ℕ, Bool, true, false, not, ◌&&◌, if◌then◌else◌, Option, none, some}
use windows_iocp_udp.Identity.{EndpointKey}
use windows_iocp_udp.Sequence.{is_sequence_newer}
use windows_iocp_udp.Game.{Floats, float_zero}
use windows_iocp_udp.Game.Movement.{build_normalized_move_direction}
use windows_iocp_udp.Game.World.{
  WeaponRule, PlayerState, GameWorld, find_player, write_player, allocate_bullet_id, add_bullet,
  create_bullet_state,
}
use windows_iocp_udp.Server.Peers.{PeerState, PeerRoomManager, find_joined_peer}
use windows_iocp_udp.Server.Join.{write_peer}

-- The peer and its player, where both are there.
unfoldable pub find_joined_peer_player :
    EndpointKey → PeerRoomManager → GameWorld → Option (PeerState × PlayerState)
unfolding find_player
find_joined_peer_player key peers w = elim (find_joined_peer peers key) [
  | none ↦ none
  | some p ↦ elim (find_player w p.player_id) [ none ↦ none | some q ↦ some (p, q) ]
]

module _ (f : Floats) where
  unfoldable pub update_last_move_direction : PlayerState → ℕ → PlayerState
  update_last_move_direction q flags =
      let direction = build_normalized_move_direction f flags in
      if f.eq direction.x float_zero && f.eq direction.y float_zero
      then q
      else record q { last_move_direction_x = direction.x; last_move_direction_y = direction.y }

  unfoldable pub apply_input_command :
      EndpointKey → ℕ → ℕ → PeerRoomManager → GameWorld → ℕ → Bool × PeerRoomManager × GameWorld
  apply_input_command key input_sequence flags peers w now =
      elim (find_joined_peer_player key peers w) [
        | none ↦ (false, peers, w)
        | some (p, q) ↦
            if q.is_dead
            then (false, peers, w)
            else if not (is_sequence_newer input_sequence p.last_accepted_input_sequence)
            then (false, peers, w)
            else (
              true,
              write_peer peers key (record p {
                last_accepted_input_sequence = input_sequence;
                last_recv_time = now;
              }),
              write_player w p.player_id
                  (update_last_move_direction (record q { input_flags = flags }) flags),
            )
      ]

  -- The bullet that the player fires, and the wait until the next.
  unfoldable pub shoot : PeerState → PlayerState → GameWorld → WeaponRule → GameWorld
  shoot p q w rule =
      let (bullet_id, w1) = allocate_bullet_id w in
      let bullet =
        create_bullet_state f bullet_id p.player_id p.persistent_player_id p.room_id q
          q.last_move_direction_x q.last_move_direction_y rule in
      write_player (add_bullet w1 bullet) p.player_id
        (record q { fire_cooldown_remaining_seconds = rule.fire_cooldown_seconds })

  unfoldable pub fire_bullet :
      EndpointKey
      → PeerRoomManager
      → GameWorld
      → WeaponRule
      → ℕ
      → Bool × PeerRoomManager × GameWorld
  fire_bullet key peers w rule now = elim (find_joined_peer_player key peers w) [
    | none ↦ (false, peers, w)
    | some (p, q) ↦
        let seen = write_peer peers key (record p { last_recv_time = now }) in
        if q.is_dead
        then (false, peers, w)
        else if f.lt float_zero q.fire_cooldown_remaining_seconds
        then (false, seen, w)
        else (true, seen, shoot p q w rule)
  ]
