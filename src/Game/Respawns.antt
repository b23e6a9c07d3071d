-- ===== src/Game/Respawns.antt =====
-- Server/Game/GameSimulation.cpp: `UpdateRespawns`, `RespawnPlayer` and `UpdatePlayerTimers`. The float
-- operations are the parameter `f`.
use windows_iocp_udp.Prelude.{ℕ, false, not, ◌==◌, if◌then◌else◌, List, [], ◌∷◌, Option, none, some}
use windows_iocp_udp.Prelude.Table.{nat_key}
use windows_iocp_udp.Game.{Floats, float_zero, float_one}
use windows_iocp_udp.Game.Layout.{get_spawn_point_for_room}
use windows_iocp_udp.Game.Movement.{flag_none}
use windows_iocp_udp.Game.World.{
  GameRuleConfig, PlayerState, spawn_effect, GameWorld, find_player, write_player,
}
use windows_iocp_udp.Game.Simulation.{PlayerSimulationContext, spawn_impact_effect}

abbrev pub respawned_player : GameRuleConfig → ℕ → PlayerState → PlayerState
respawned_player rules room p =
    let spawn = get_spawn_point_for_room room 0 in
    record p {
      x = spawn.x;
      y = spawn.y;
      hp = rules.initial_player_hp;
      is_dead = false;
      respawn_remaining_seconds = float_zero;
      invincibility_remaining_seconds = rules.respawn_invincibility_seconds;
      hit_flash_remaining_seconds = float_zero;
      fire_cooldown_remaining_seconds = float_zero;
      input_flags = flag_none;
      last_move_direction_x = float_one;
      last_move_direction_y = float_zero;
    }

unfoldable pub respawn_player : ℕ → ℕ → GameWorld → GameRuleConfig → GameWorld
unfolding find_player spawn_impact_effect
respawn_player player_id room w rules = elim (find_player w player_id) [
  | none ↦ w
  | some p ↦
      let q = respawned_player rules room p in
      spawn_impact_effect q.x q.y room spawn_effect (write_player w player_id q)
]

abbrev pub context_of : ℕ → List PlayerSimulationContext → Option PlayerSimulationContext
context_of player_id [] = none
context_of player_id (c ∷ cs) = if c.player_id == player_id then some c else context_of player_id cs

module _ (f : Floats) where
  unfoldable pub update_respawn :
      ℕ → List PlayerSimulationContext → GameRuleConfig → ℕ → PlayerState → GameWorld → GameWorld
  update_respawn delta_time contexts rules player_id p w =
      let left = f.sub p.respawn_remaining_seconds delta_time in
      let w1 = write_player w player_id (record p { respawn_remaining_seconds = left }) in
      if not p.is_dead
      then w
      else if f.lt float_zero left
      then w1
      else elim (context_of player_id contexts) [
        | none ↦ w1
        | some c ↦ respawn_player player_id c.room_id w1 rules
      ]

  -- The walk over the table: a round writes no entry but its own.
  unfoldable pub respawn_loop :
      ℕ
      → List PlayerSimulationContext
      → GameRuleConfig
      → List (ℕ × PlayerState)
      → GameWorld
      → GameWorld
  respawn_loop delta_time contexts rules [] w = w
  respawn_loop delta_time contexts rules ((player_id, p) ∷ table) w =
      respawn_loop delta_time contexts rules table
        (update_respawn delta_time contexts rules player_id p w)

  unfoldable pub update_respawns :
      ℕ → List PlayerSimulationContext → GameWorld → GameRuleConfig → GameWorld
  update_respawns delta_time contexts w rules =
      respawn_loop delta_time contexts rules w.player_table w

  unfoldable pub update_timer : ℕ → ℕ → ℕ
  update_timer delta_time remaining =
      let left = f.sub remaining delta_time in
      if f.le remaining float_zero
      then remaining
      else if f.lt left float_zero
      then float_zero
      else left

  abbrev pub tick_player : ℕ → PlayerState → PlayerState
  tick_player delta_time p = record p {
    invincibility_remaining_seconds = update_timer delta_time p.invincibility_remaining_seconds;
    hit_flash_remaining_seconds = update_timer delta_time p.hit_flash_remaining_seconds;
    fire_cooldown_remaining_seconds = update_timer delta_time p.fire_cooldown_remaining_seconds;
  }

  abbrev pub tick_players : ℕ → List (ℕ × PlayerState) → List (ℕ × PlayerState)
  tick_players delta_time [] = []
  tick_players delta_time ((player_id, p) ∷ table) =
      (player_id, tick_player delta_time p) ∷ tick_players delta_time table

  unfoldable pub update_player_timers : ℕ → GameWorld → GameWorld
  update_player_timers delta_time w = record w {
    player_table = tick_players delta_time w.player_table;
  }
