-- ===== src/Tests/Game.antt =====
-- The laws of the game on a bullet that kills a player, with numbers in place of floats.
use windows_iocp_udp.Prelude.{
  ◌⊎◌, ◌&&◌, ℕ, ◌+◌, ◌-◌, ◌*◌, ◌/◌, ◌≡◌, refl, true, false, ◌==◌, ltb, leb, List, [], ◌∷◌, some,
  arith,
}
use windows_iocp_udp.Prelude.Int.{same_id, pos, ◌-ℤ◌}
use windows_iocp_udp.Prelude.Table.{find, nat_key}
use windows_iocp_udp.Game.{Floats}
use windows_iocp_udp.Game.Layout.{get_wall_rect_list_for_room}
use windows_iocp_udp.Game.Movement.{
  is_circle_outside_world_bounds, is_circle_colliding_with_any_wall,
}
use windows_iocp_udp.Game.World.{
  GameRuleConfig, PlayerState, BulletState, GameWorld, empty_world, clear_room_transient_state,
  remove_bullet_at,
}
use windows_iocp_udp.Game.World.Pool.{count_if, clear_room-count}
use windows_iocp_udp.Game.Simulation.{
  PlayerSimulationContext, KillEvent, bullet_loop, update_bullet, meets_obstacle, find_hit, can_hit,
  is_bullet_colliding_with_player, apply_hit, update_players, update_bullets,
}
use windows_iocp_udp.Game.Respawns.{update_respawns, update_player_timers}
use windows_iocp_udp.Game.Simulation.Bullets.{score_of, scored, update_bullets-score}
use windows_iocp_udp.Game.Simulation.Lives.{AllLiving, tick-AllLiving}
use windows_iocp_udp.Game.Simulation.Rounds.{update_bullets-ends}
use windows_iocp_udp.Game.Matches.{MatchHistoryTracker, enter_player, record_kill, score_kill}
use windows_iocp_udp.Game.Matches.Invariant.{
  AllPlayed, enter, leave, kill, run_operations, operations-AllPlayed,
}
use windows_iocp_udp.Game.Matches.Scores.{
  score_at, counted_kill, is_countable, record_kill-scores, kills_are_recorded,
}

abbrev pub numbers : Floats
numbers = record {
  add = ◌+◌;
  sub = ◌-◌;
  mul = ◌*◌;
  div = ◌/◌;
  sqrt = λ x. x;
  lt = ltb;
  le = leb;
  eq = ◌==◌;
}

abbrev pub rules : GameRuleConfig
rules = record {
  initial_player_hp = pos 100;
  respawn_delay_seconds = 3;
  respawn_invincibility_seconds = 1;
  hit_flash_duration_seconds = 1;
}

abbrev player : ℕ → PlayerState
player i = record {
  player_id = i;
  x = 1000000;
  y = 1000000;
  move_speed = 1;
  input_flags = 0;
  hp = pos 100;
  is_dead = false;
  kill_count = 0;
  death_count = 0;
  respawn_remaining_seconds = 0;
  invincibility_remaining_seconds = 0;
  hit_flash_remaining_seconds = 0;
  fire_cooldown_remaining_seconds = 0;
  last_move_direction_x = 0;
  last_move_direction_y = 0;
}

-- A bullet of the first player.
abbrev bullet : ℕ → BulletState
bullet room = record {
  bullet_id = 1;
  owner_player_id = 1;
  owner_persistent_player_id = pos 41;
  room_id = room;
  x = 1000000;
  y = 1000000;
  velocity_x = 0;
  velocity_y = 0;
  remaining_life_seconds = 5;
  damage = pos 100;
  radius = 4;
}

abbrev context : ℕ → PlayerSimulationContext
context i = record { player_id = i; persistent_player_id = pos (40 + i); room_id = 9 }

abbrev contexts : List PlayerSimulationContext
contexts = context 1 ∷ context 2 ∷ []

abbrev duel : GameWorld
duel = record empty_world {
  player_table = (1, player 1) ∷ (2, player 2) ∷ [];
  bullets = bullet 9 ∷ bullet 8 ∷ [];
}

duel_is_won :
    score_of (find (update_bullets numbers 1 contexts duel rules).1.player_table 2) ≡ some (1, 0)
unfolding update_bullets bullet_loop update_bullet meets_obstacle is_circle_outside_world_bounds
    is_circle_colliding_with_any_wall get_wall_rect_list_for_room find_hit can_hit
    is_bullet_colliding_with_player remove_bullet_at apply_hit ◌-ℤ◌
duel_is_won = refl

update_bullets-score_example :
    let r = update_bullets numbers 1 contexts duel rules in
    score_of (find r.1.player_table 2) ≡ scored 2 r.0 (some (0, 0))
update_bullets-score_example =
    update_bullets-score numbers 1 contexts duel rules 2 (omega arith, omega arith)

tick-AllLiving_example :
    AllLiving (update_players numbers 1 contexts duel)
    × AllLiving (update_bullets numbers 1 contexts duel rules).1
    × AllLiving (update_respawns numbers 1 contexts duel rules)
    × AllLiving (update_player_timers numbers 1 duel)
tick-AllLiving_example = tick-AllLiving numbers 1 contexts rules duel refl (refl, (refl, tt))

update_bullets-ends_example :
    bullet_loop numbers (3 + 5) 1 contexts rules 0 duel
    ≡ update_bullets numbers 1 contexts duel rules
update_bullets-ends_example = update_bullets-ends numbers 1 contexts rules 5 duel

clear_room-count_example :
    let left = clear_room_transient_state duel 9 in
    (count_if (λ b. true) left.bullets ≡ 1) × (count_if (λ e. true) left.pending_impact_effects ≡ 0)
clear_room-count_example = clear_room-count duel 9 (λ b. true) (λ e. true)

abbrev shot : KillEvent
shot = record {
  killer_player_id = 1;
  killer_persistent_player_id = pos 41;
  victim_player_id = 2;
  victim_persistent_player_id = pos 42;
  room_id = 9;
}

abbrev no_matches : MatchHistoryTracker
no_matches = record { active_match_table = []; completed_match_list = [] }

abbrev match : MatchHistoryTracker
match = run_operations (enter 9 (pos 41) 5 ∷ enter 9 (pos 42) 6 ∷ []) no_matches

operations-AllPlayed_example :
    AllPlayed (run_operations (enter 9 (pos 41) 5 ∷ kill shot ∷ leave 9 (pos 41) 7 ∷ []) no_matches)
operations-AllPlayed_example =
    operations-AllPlayed (enter 9 (pos 41) 5 ∷ kill shot ∷ leave 9 (pos 41) 7 ∷ []) no_matches tt

record_kill-scores_example :
    let r = record_kill match shot in
    (r.0 ≡ is_countable match shot)
    × ((r.0 ≡ true) ⊎ (r.1 ≡ match))
    × (score_at r.1 9 (pos 42)
        ≡ counted_kill
            (r.0 && same_id (pos 41) (pos 42))
            (r.0 && same_id (pos 42) (pos 42))
            (score_at match 9 (pos 42)))
unfolding record_kill enter_player score_kill
record_kill-scores_example = record_kill-scores match shot 9 (pos 42)

kills_are_recorded_example : (record_kill match shot).0 ≡ true
unfolding enter_player
kills_are_recorded_example =
    kills_are_recorded match shot
      (operations-AllPlayed (enter 9 (pos 41) 5 ∷ enter 9 (pos 42) 6 ∷ []) no_matches tt) refl refl
      refl refl refl
