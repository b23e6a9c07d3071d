-- ===== src/Game/World.antt =====
-- Server/Game: PlayerState.h, BulletState.h, ImpactEffectState.h, StatePool.h, GameWorld.h and .cpp, and
-- BulletFactory.h; the rules of Common/Game/GameRules.h and WeaponRules.h. The table of players is walked,
-- so it is a list of entries. A reference that the code writes through is a write of the entry.
pub mod Pool
use windows_iocp_udp.Prelude.{
  ℕ, zero, suc, ◌+◌, Bool, true, false, ◌==◌, ltb, leb, if◌then◌else◌, List, [], ◌∷◌, ◌++◌, length,
  set, Option, none, some,
}
use windows_iocp_udp.Prelude.Int.{ℤ, pos}
use windows_iocp_udp.Prelude.Words.{add32}
use windows_iocp_udp.Prelude.Table.{find, put, erase, nat_key}
use windows_iocp_udp.Game.{Floats, float_zero, float_one}

pub record GameRuleConfig : Type 0 where
  pub initial_player_hp : ℤ
  pub respawn_delay_seconds : ℕ
  pub respawn_invincibility_seconds : ℕ
  pub hit_flash_duration_seconds : ℕ

-- `WeaponType` has one value, so a weapon's rule is the configured one.
pub record WeaponRule : Type 0 where
  pub bullet_damage : ℤ
  pub bullet_speed : ℕ
  pub bullet_life_seconds : ℕ
  pub bullet_radius : ℕ
  pub fire_cooldown_seconds : ℕ

pub record PlayerState : Type 0 where
  pub player_id : ℕ
  pub x : ℕ
  pub y : ℕ
  pub move_speed : ℕ
  pub input_flags : ℕ
  pub hp : ℤ
  pub is_dead : Bool
  pub kill_count : ℕ
  pub death_count : ℕ
  pub respawn_remaining_seconds : ℕ
  pub invincibility_remaining_seconds : ℕ
  pub hit_flash_remaining_seconds : ℕ
  pub fire_cooldown_remaining_seconds : ℕ
  pub last_move_direction_x : ℕ
  pub last_move_direction_y : ℕ

pub record BulletState : Type 0 where
  pub bullet_id : ℕ
  pub owner_player_id : ℕ
  pub owner_persistent_player_id : ℤ
  pub room_id : ℕ
  pub x : ℕ
  pub y : ℕ
  pub velocity_x : ℕ
  pub velocity_y : ℕ
  pub remaining_life_seconds : ℕ
  pub damage : ℤ
  pub radius : ℕ

pub data EffectType : Type 0 where
  none_effect impact spawn_effect : EffectType

pub record ImpactEffectState : Type 0 where
  pub room_id : ℕ
  pub effect_type : EffectType
  pub x : ℕ
  pub y : ℕ

pub record GameWorld : Type 0 where
  pub player_table : List (ℕ × PlayerState)
  pub bullets : List BulletState
  pub pending_impact_effects : List ImpactEffectState
  pub next_player_id : ℕ
  pub next_bullet_id : ℕ
  pub server_tick : ℕ

-- `StatePool`.
module _ {ℓ} {A : Type ℓ} where
  abbrev pub last_or : A → List A → A
  last_or d [] = d
  last_or d (x ∷ xs) = last_or x xs

  abbrev pub but_last : List A → List A
  but_last [] = []
  but_last (x ∷ []) = []
  but_last (x ∷ (y ∷ ys)) = x ∷ but_last (y ∷ ys)

  abbrev pub passes_at : (A → Bool) → ℕ → List A → Bool
  passes_at p i [] = false
  passes_at p zero (x ∷ xs) = p x
  passes_at p (suc i) (x ∷ xs) = passes_at p i xs

  -- The last element takes the place of the removed one.
  unfoldable pub remove_at : ℕ → List A → List A
  remove_at index [] = []
  remove_at index (x ∷ xs) =
      if leb (length (x ∷ xs)) index
      then x ∷ xs
      else if ltb (index + 1) (length (x ∷ xs))
      then but_last (set (x ∷ xs) index (last_or x xs))
      else but_last (x ∷ xs)

  -- The loops of `ClearRoomTransientState`, with fuel for the rounds: an element is tested again after
  -- another has taken its place.
  unfoldable pub clear_loop : ℕ → (A → Bool) → ℕ → List A → List A
  clear_loop zero doomed index xs = xs
  clear_loop (suc fuel) doomed index xs = elim (ltb index (length xs)) [
    | false ↦ xs
    | true ↦ elim (passes_at doomed index xs) [
      | false ↦ clear_loop fuel doomed (index + 1) xs
      | true ↦ clear_loop fuel doomed index (remove_at index xs)
    ]
  ]

abbrev pub empty_world : GameWorld
empty_world = record {
  player_table = [];
  bullets = [];
  pending_impact_effects = [];
  next_player_id = 1;
  next_bullet_id = 1;
  server_tick = 0;
}

unfoldable pub clear : GameWorld → GameWorld
clear w = empty_world

unfoldable pub allocate_player_id : GameWorld → ℕ × GameWorld
allocate_player_id w = (w.next_player_id, record w { next_player_id = add32 w.next_player_id 1 })

unfoldable pub allocate_bullet_id : GameWorld → ℕ × GameWorld
allocate_bullet_id w = (w.next_bullet_id, record w { next_bullet_id = add32 w.next_bullet_id 1 })

unfoldable pub advance_server_tick : GameWorld → GameWorld
advance_server_tick w = record w { server_tick = add32 w.server_tick 1 }

unfoldable pub find_player : GameWorld → ℕ → Option PlayerState
find_player w player_id = find w.player_table player_id

unfoldable pub upsert_player : GameWorld → PlayerState → GameWorld
upsert_player w p = record w { player_table = put w.player_table p.player_id p }

-- A write through the pointer that `FindPlayer` gave.
abbrev pub write_player : GameWorld → ℕ → PlayerState → GameWorld
write_player w player_id p = record w { player_table = put w.player_table player_id p }

unfoldable pub remove_player : GameWorld → ℕ → GameWorld
remove_player w player_id = record w { player_table = erase w.player_table player_id }

unfoldable pub add_bullet : GameWorld → BulletState → GameWorld
add_bullet w b = record w { bullets = w.bullets ++ b ∷ [] }

unfoldable pub remove_bullet_at : GameWorld → ℕ → GameWorld
unfolding remove_at
remove_bullet_at w index = record w { bullets = remove_at index w.bullets }

abbrev after_one : Option ℕ → Option ℕ
after_one none = none
after_one (some i) = some (i + 1)

-- The index of the first bullet with the id.
abbrev pub index_of_bullet : ℕ → List BulletState → Option ℕ
index_of_bullet bullet_id [] = none
index_of_bullet bullet_id (b ∷ bs) =
    if b.bullet_id == bullet_id then some 0 else after_one (index_of_bullet bullet_id bs)

unfoldable pub remove_bullet : GameWorld → ℕ → GameWorld
unfolding remove_bullet_at
remove_bullet w bullet_id = elim (index_of_bullet bullet_id w.bullets) [
  | none ↦ w
  | some index ↦ remove_bullet_at w index
]

unfoldable pub add_pending_impact_effect : GameWorld → ImpactEffectState → GameWorld
add_pending_impact_effect w e = record w {
  pending_impact_effects = w.pending_impact_effects ++ e ∷ [];
}

unfoldable pub clear_pending_impact_effects : GameWorld → GameWorld
clear_pending_impact_effects w = record w { pending_impact_effects = [] }

-- The fuel is one round more than the elements.
unfoldable pub clear_room_transient_state : GameWorld → ℕ → GameWorld
clear_room_transient_state w room = record w {
  bullets =
      clear_loop (suc (length w.bullets)) (λ (b : BulletState). b.room_id == room) 0 w.bullets;
  pending_impact_effects =
      clear_loop (suc (length w.pending_impact_effects))
        (λ (e : ImpactEffectState). e.room_id == room) 0 w.pending_impact_effects;
}

-- BulletFactory.h.
unfoldable pub create_bullet_state :
    Floats → ℕ → ℕ → ℤ → ℕ → PlayerState → ℕ → ℕ → WeaponRule → BulletState
create_bullet_state f bullet_id owner owner_persistent room p direction_x direction_y rule =
    let length = f.sqrt (f.add (f.mul direction_x direction_x) (f.mul direction_y direction_y)) in
    let moving = f.lt float_zero length in
    let x = if moving then f.div direction_x length else float_one in
    let y = if moving then f.div direction_y length else float_zero in
    record {
      bullet_id = bullet_id;
      owner_player_id = owner;
      owner_persistent_player_id = owner_persistent;
      room_id = room;
      x = p.x;
      y = p.y;
      velocity_x = f.mul x rule.bullet_speed;
      velocity_y = f.mul y rule.bullet_speed;
      remaining_life_seconds = rule.bullet_life_seconds;
      damage = rule.bullet_damage;
      radius = rule.bullet_radius;
    }
