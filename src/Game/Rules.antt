-- ===== src/Game/Rules.antt =====
-- Common/Game/GameRules.h, WeaponRules.h and SimulationConstants.h: the rules that hold where no configuration
-- says otherwise; and what only the client takes of Movement.h and WorldCollision.h. A player is a square there.
use windows_iocp_udp.Prelude.{ℕ, Bool, false, ◌&&◌, if◌then◌else◌, true, List, [], ◌∷◌}
use windows_iocp_udp.Prelude.Int.{pos}
use windows_iocp_udp.Game.{Floats, float_clamp}
use windows_iocp_udp.Game.Layout.{WallRect}
use windows_iocp_udp.Game.Movement.{WorldBounds, Point, build_normalized_move_direction}
use windows_iocp_udp.Game.World.{GameRuleConfig, WeaponRule}

-- 3, 3.0F, 1.2F and 0.15F.
abbrev default_game_rule_config : GameRuleConfig
default_game_rule_config = record {
  initial_player_hp = pos 3;
  respawn_delay_seconds = 0x40400000;
  respawn_invincibility_seconds = 0x3f99999a;
  hit_flash_duration_seconds = 0x3e19999a;
}

-- 1, 600.0F, 1.5F, 6.0F and 0.15F.
abbrev default_basic_weapon_rule : WeaponRule
default_basic_weapon_rule = record {
  bullet_damage = pos 1;
  bullet_speed = 0x44160000;
  bullet_life_seconds = 0x3fc00000;
  bullet_radius = 0x40c00000;
  fire_cooldown_seconds = 0x3e19999a;
}

-- 0.05F.
abbrev default_fixed_delta_seconds : ℕ
default_fixed_delta_seconds = 0x3d4ccccd

module _ (f : Floats) where
  unfoldable apply_movement : Point → ℕ → ℕ → ℕ → Point
  apply_movement p flags delta_seconds move_speed =
      let direction = build_normalized_move_direction f flags in
      let move_distance = f.mul move_speed delta_seconds in
      record {
        x = f.add p.x (f.mul direction.x move_distance);
        y = f.add p.y (f.mul direction.y move_distance);
      }

  unfoldable clamp_position_to_world_bounds : Point → ℕ → WorldBounds → Point
  clamp_position_to_world_bounds p half_extent bounds = record {
    x = float_clamp f p.x (f.add bounds.min_x half_extent) (f.sub bounds.max_x half_extent);
    y = float_clamp f p.y (f.add bounds.min_y half_extent) (f.sub bounds.max_y half_extent);
  }

  unfoldable is_aabb_overlapping_wall : ℕ → ℕ → ℕ → ℕ → WallRect → Bool
  is_aabb_overlapping_wall min_x min_y max_x max_y w =
      f.lt min_x w.max_x && f.lt w.min_x max_x && f.lt min_y w.max_y && f.lt w.min_y max_y

  unfoldable is_player_colliding_with_wall : ℕ → ℕ → ℕ → WallRect → Bool
  is_player_colliding_with_wall x y half_extent w =
      is_aabb_overlapping_wall (f.sub x half_extent) (f.sub y half_extent) (f.add x half_extent)
        (f.add y half_extent) w

  unfoldable is_player_colliding_with_any_wall : ℕ → ℕ → ℕ → List WallRect → Bool
  is_player_colliding_with_any_wall x y half_extent [] = false
  is_player_colliding_with_any_wall x y half_extent (w ∷ walls) =
      if is_player_colliding_with_wall x y half_extent w
      then true
      else is_player_colliding_with_any_wall x y half_extent walls
