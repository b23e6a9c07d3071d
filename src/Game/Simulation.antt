-- ===== src/Game/Simulation.antt =====
-- Server/Game/GameSimulation.h and .cpp: one tick of the game. The float operations are the parameter `f`.
-- A loop over the players is recursion on their list, the loop over the bullets has fuel for its rounds.
pub mod Bullets
pub mod Lives
pub mod Rounds
use windows_iocp_udp.Prelude.{
  ℕ, zero, suc, ◌+◌, Bool, true, false, not, ◌&&◌, ◌||◌, ◌==◌, if◌then◌else◌, List, [], ◌∷◌, length,
  set, get_elem?, Option, none, some,
}
use windows_iocp_udp.Prelude.Int.{ℤ, pos, negsuc, ◌-ℤ◌, clamp_zero, is_positive}
use windows_iocp_udp.Prelude.Words.{add32}
use windows_iocp_udp.Prelude.Table.{nat_key}
use windows_iocp_udp.Game.{Floats, float_zero}
use windows_iocp_udp.Game.Layout.{get_wall_rect_list_for_room}
use windows_iocp_udp.Game.Movement.{
  Point, default_world_bounds, player_half_extent, flag_none, move_player_with_wall_collision,
  is_circle_outside_world_bounds, is_circle_colliding_with_any_wall, find_circle_impact_position,
}
use windows_iocp_udp.Game.World.{
  GameRuleConfig, PlayerState, BulletState, EffectType, impact, GameWorld, find_player,
  write_player, remove_bullet_at, add_pending_impact_effect,
}

pub record PlayerSimulationContext : Type 0 where
  pub player_id : ℕ
  pub persistent_player_id : ℤ
  pub room_id : ℕ

pub record KillEvent : Type 0 where
  pub killer_player_id : ℕ
  pub killer_persistent_player_id : ℤ
  pub victim_player_id : ℕ
  pub victim_persistent_player_id : ℤ
  pub room_id : ℕ

unfoldable pub spawn_impact_effect : ℕ → ℕ → ℕ → EffectType → GameWorld → GameWorld
unfolding add_pending_impact_effect
spawn_impact_effect x y room effect w =
    add_pending_impact_effect w (record { room_id = room; effect_type = effect; x = x; y = y })

-- `std::max(0, hp - damage)`.
abbrev pub damaged : ℤ → ℤ → ℤ
damaged hp damage = pos (clamp_zero (hp -ℤ damage))

-- The player that a bullet hits, before the test whether it dies.
abbrev pub hit_player : GameRuleConfig → BulletState → PlayerState → PlayerState
hit_player rules b p = record p {
  hp = damaged p.hp b.damage;
  hit_flash_remaining_seconds = rules.hit_flash_duration_seconds;
}

abbrev pub killed_player : GameRuleConfig → PlayerState → PlayerState
killed_player rules p = record p {
  is_dead = true;
  respawn_remaining_seconds = rules.respawn_delay_seconds;
  invincibility_remaining_seconds = float_zero;
  input_flags = flag_none;
  death_count = add32 p.death_count 1;
}

-- `++ownerPlayerState->killCount`, where the owner is there.
unfoldable pub count_kill : GameWorld → ℕ → GameWorld
unfolding find_player
count_kill w owner = elim (find_player w owner) [
  | none ↦ w
  | some p ↦ write_player w owner (record p { kill_count = add32 p.kill_count 1 })
]

abbrev pub kill_event : BulletState → PlayerSimulationContext → KillEvent
kill_event b c = record {
  killer_player_id = b.owner_player_id;
  killer_persistent_player_id = b.owner_persistent_player_id;
  victim_player_id = c.player_id;
  victim_persistent_player_id = c.persistent_player_id;
  room_id = b.room_id;
}

-- What a hit does to the world, with the kill when the player dies of it.
unfoldable pub apply_hit :
    GameRuleConfig
    → BulletState
    → PlayerSimulationContext
    → PlayerState
    → GameWorld
    → Option KillEvent × GameWorld
unfolding spawn_impact_effect count_kill
apply_hit rules b c p w =
    let hurt = hit_player rules b p in
    let w1 = spawn_impact_effect b.x b.y b.room_id impact (write_player w c.player_id hurt) in
    if is_positive hurt.hp then (none, w1) else (
      some (kill_event b c),
      count_kill (write_player w1 c.player_id (killed_player rules hurt)) b.owner_player_id,
    )

abbrev pub finish_bullet : ℕ → Option KillEvent × GameWorld → Bool × Option KillEvent × GameWorld
finish_bullet index (kill, w) = (true, kill, remove_bullet_at w index)

abbrev pub add_kill : Option KillEvent → List KillEvent → List KillEvent
add_kill none kills = kills
add_kill (some k) kills = k ∷ kills

module _ (f : Floats) where
  -- The loop of `UpdatePlayers`.
  unfoldable pub update_player : ℕ → PlayerSimulationContext → GameWorld → GameWorld
  unfolding find_player
  update_player delta_time c w = elim (find_player w c.player_id) [
    | none ↦ w
    | some p ↦
        let at : Point = record { x = p.x; y = p.y } in
        let next =
          move_player_with_wall_collision f at p.input_flags delta_time p.move_speed
            player_half_extent default_world_bounds (get_wall_rect_list_for_room c.room_id) in
        if p.is_dead then w else write_player w c.player_id (record p { x = next.x; y = next.y })
  ]

  unfoldable pub update_players : ℕ → List PlayerSimulationContext → GameWorld → GameWorld
  update_players delta_time [] w = w
  update_players delta_time (c ∷ cs) w = update_players delta_time cs (update_player delta_time c w)

  unfoldable pub is_bullet_colliding_with_player : BulletState → PlayerState → Bool
  is_bullet_colliding_with_player b p =
      let delta_x = f.sub b.x p.x in
      let delta_y = f.sub b.y p.y in
      let radius = f.add player_half_extent b.radius in
      f.le (f.add (f.mul delta_x delta_x) (f.mul delta_y delta_y)) (f.mul radius radius)

  -- The tests of the loop over the players, which skip all but the player that the bullet hits.
  unfoldable pub can_hit : BulletState → PlayerSimulationContext → PlayerState → Bool
  can_hit b c p =
      not (c.player_id == b.owner_player_id)
      && c.room_id == b.room_id
      && not p.is_dead
      && not (f.lt float_zero p.invincibility_remaining_seconds)
      && is_bullet_colliding_with_player b p

  abbrev pub hit_test :
      BulletState → PlayerSimulationContext → Option PlayerState → Option PlayerState
  hit_test b c none = none
  hit_test b c (some p) = if can_hit b c p then some p else none

  -- The first player of the walk that the bullet hits.
  unfoldable pub find_hit :
      BulletState
      → GameWorld
      → List PlayerSimulationContext
      → Option (PlayerSimulationContext × PlayerState)
  unfolding find_player
  find_hit b w [] = none
  find_hit b w (c ∷ cs) =
      let rest = find_hit b w cs in
      elim (hit_test b c (find_player w c.player_id)) [ none ↦ rest | some p ↦ some (c, p) ]

  abbrev pub moved_bullet : ℕ → BulletState → BulletState
  moved_bullet delta_time b = record b {
    x = f.add b.x (f.mul b.velocity_x delta_time);
    y = f.add b.y (f.mul b.velocity_y delta_time);
    remaining_life_seconds = f.sub b.remaining_life_seconds delta_time;
  }

  -- The bullet is outside of the world or in a wall.
  unfoldable pub meets_obstacle : BulletState → Bool
  meets_obstacle b =
      let at : Point = record { x = b.x; y = b.y } in
      is_circle_outside_world_bounds f at b.radius default_world_bounds
      || is_circle_colliding_with_any_wall f at b.radius (get_wall_rect_list_for_room b.room_id)

  abbrev pub obstacle_effect : BulletState → BulletState → GameWorld → GameWorld
  obstacle_effect before b w =
      let at =
        find_circle_impact_position f (record { x = before.x; y = before.y })
          (record { x = b.x; y = b.y }) b.radius default_world_bounds
          (get_wall_rect_list_for_room b.room_id) in
      spawn_impact_effect at.x at.y b.room_id impact w

  -- One round of the loop over the bullets, on the bullet at the index: whether it is gone, and the kill.
  unfoldable pub update_bullet :
      ℕ
      → List PlayerSimulationContext
      → GameRuleConfig
      → ℕ
      → BulletState
      → GameWorld
      → Bool × Option KillEvent × GameWorld
  update_bullet delta_time contexts rules index before world =
      let b = moved_bullet delta_time before in
      let w = record world { bullets = set world.bullets index b } in
      if f.le b.remaining_life_seconds float_zero
      then finish_bullet index (none, w)
      else if meets_obstacle b
      then finish_bullet index (none, obstacle_effect before b w)
      else elim (find_hit b w contexts) [
        | none ↦ (false, none, w)
        | some (c, p) ↦ finish_bullet index (apply_hit rules b c p w)
      ]

  unfoldable pub bullet_loop :
      ℕ
      → ℕ
      → List PlayerSimulationContext
      → GameRuleConfig
      → ℕ
      → GameWorld
      → List KillEvent × GameWorld
  bullet_loop zero delta_time contexts rules index w = ([], w)
  bullet_loop (suc fuel) delta_time contexts rules index w = elim (get_elem? w.bullets index) [
    | none ↦ ([], w)
    | some b ↦
        let (gone, kill, w1) = update_bullet delta_time contexts rules index b w in
        let (kills, left) =
          bullet_loop fuel delta_time contexts rules (if gone then index else index + 1) w1 in
        (add_kill kill kills, left)
  ]

  -- Each round leaves one bullet less to be visited.
  unfoldable pub update_bullets :
      ℕ → List PlayerSimulationContext → GameWorld → GameRuleConfig → List KillEvent × GameWorld
  update_bullets delta_time contexts w rules =
      bullet_loop (suc (length w.bullets)) delta_time contexts rules 0 w
