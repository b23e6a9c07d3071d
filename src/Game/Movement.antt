-- ===== src/Game/Movement.antt =====
-- Common/Game/InputFlags.h, Movement.h, SimulationConstants.h and WorldCollision.h: how a player moves and
-- what a circle meets. A loop over the walls is recursion on their list.
use windows_iocp_udp.Prelude.{
  ℕ, zero, suc, Bool, false, not, ◌&&◌, ◌||◌, ◌==◌, if◌then◌else◌, List, [], ◌∷◌, bit_and,
}
use windows_iocp_udp.Game.{
  Floats, float_zero, float_half, float_one, float_clamp, float_min, float_max,
}
use windows_iocp_udp.Game.Layout.{WallRect}

-- `InputFlags`.
abbrev pub flag_none : ℕ
flag_none = 0

abbrev pub flag_up : ℕ
flag_up = 1

abbrev pub flag_down : ℕ
flag_down = 2

abbrev pub flag_left : ℕ
flag_left = 4

abbrev pub flag_right : ℕ
flag_right = 8

abbrev pub has_flag : ℕ → ℕ → Bool
has_flag flags flag = not (bit_and flags flag == 0)

pub record WorldBounds : Type 0 where
  pub min_x : ℕ
  pub min_y : ℕ
  pub max_x : ℕ
  pub max_y : ℕ

-- 0, 0, 1280 and 720.
abbrev pub default_world_bounds : WorldBounds
default_world_bounds = record { min_x = 0; min_y = 0; max_x = 0x44a00000; max_y = 0x44340000 }

-- 10.0F.
abbrev pub player_half_extent : ℕ
player_half_extent = 0x41200000

-- 220.0F.
abbrev pub default_move_speed : ℕ
default_move_speed = 0x435c0000

pub record MoveDirection : Type 0 where
  pub x : ℕ
  pub y : ℕ

pub record Point : Type 0 where
  pub x : ℕ
  pub y : ℕ

module _ (f : Floats) where
  -- The four tests on the flags.
  abbrev direction_of : ℕ → MoveDirection
  direction_of flags =
      let x0 = float_zero in
      let x1 = if has_flag flags flag_left then f.sub x0 float_one else x0 in
      let x2 = if has_flag flags flag_right then f.add x1 float_one else x1 in
      let y1 = if has_flag flags flag_up then f.sub x0 float_one else x0 in
      let y2 = if has_flag flags flag_down then f.add y1 float_one else y1 in
      record { x = x2; y = y2 }

  unfoldable pub build_normalized_move_direction : ℕ → MoveDirection
  build_normalized_move_direction flags =
      let d = direction_of flags in
      let length_squared = f.add (f.mul d.x d.x) (f.mul d.y d.y) in
      if f.le length_squared float_zero
      then d
      else let length = f.sqrt length_squared in
        record { x = f.div d.x length; y = f.div d.y length }

  unfoldable pub is_range_overlapping : ℕ → ℕ → ℕ → ℕ → Bool
  is_range_overlapping min_a max_a min_b max_b = f.lt min_a max_b && f.lt min_b max_a

  -- The two loops of `TryMoveAlongXAxis` over the walls, from the target on.
  unfoldable pub max_allowed_x : ℕ → ℕ → ℕ → ℕ → ℕ → List WallRect → ℕ
  max_allowed_x allowed x low high half_extent [] = allowed
  max_allowed_x allowed x low high half_extent (w ∷ walls) =
      let contact = f.sub w.min_x half_extent in
      max_allowed_x
        (if not (is_range_overlapping low high w.min_y w.max_y)
          then allowed
          else if f.le x contact
          then float_min f allowed contact
          else allowed)
        x low high half_extent walls

  unfoldable pub min_allowed_x : ℕ → ℕ → ℕ → ℕ → ℕ → List WallRect → ℕ
  min_allowed_x allowed x low high half_extent [] = allowed
  min_allowed_x allowed x low high half_extent (w ∷ walls) =
      let contact = f.add w.max_x half_extent in
      min_allowed_x
        (if not (is_range_overlapping low high w.min_y w.max_y)
          then allowed
          else if f.le contact x
          then float_max f allowed contact
          else allowed)
        x low high half_extent walls

  unfoldable pub try_move_along_x_axis : ℕ → ℕ → ℕ → ℕ → WorldBounds → List WallRect → ℕ
  try_move_along_x_axis x y delta_x half_extent bounds walls =
      if f.eq delta_x float_zero
      then x
      else let target =
          float_clamp f (f.add x delta_x) (f.add bounds.min_x half_extent)
            (f.sub bounds.max_x half_extent) in
        let low = f.sub y half_extent in
        let high = f.add y half_extent in
        if f.lt float_zero delta_x
        then max_allowed_x target x low high half_extent walls
        else min_allowed_x target x low high half_extent walls

  unfoldable pub max_allowed_y : ℕ → ℕ → ℕ → ℕ → ℕ → List WallRect → ℕ
  max_allowed_y allowed y low high half_extent [] = allowed
  max_allowed_y allowed y low high half_extent (w ∷ walls) =
      let contact = f.sub w.min_y half_extent in
      max_allowed_y
        (if not (is_range_overlapping low high w.min_x w.max_x)
          then allowed
          else if f.le y contact
          then float_min f allowed contact
          else allowed)
        y low high half_extent walls

  unfoldable pub min_allowed_y : ℕ → ℕ → ℕ → ℕ → ℕ → List WallRect → ℕ
  min_allowed_y allowed y low high half_extent [] = allowed
  min_allowed_y allowed y low high half_extent (w ∷ walls) =
      let contact = f.add w.max_y half_extent in
      min_allowed_y
        (if not (is_range_overlapping low high w.min_x w.max_x)
          then allowed
          else if f.le contact y
          then float_max f allowed contact
          else allowed)
        y low high half_extent walls

  unfoldable pub try_move_along_y_axis : ℕ → ℕ → ℕ → ℕ → WorldBounds → List WallRect → ℕ
  try_move_along_y_axis x y delta_y half_extent bounds walls =
      if f.eq delta_y float_zero
      then y
      else let target =
          float_clamp f (f.add y delta_y) (f.add bounds.min_y half_extent)
            (f.sub bounds.max_y half_extent) in
        let low = f.sub x half_extent in
        let high = f.add x half_extent in
        if f.lt float_zero delta_y
        then max_allowed_y target y low high half_extent walls
        else min_allowed_y target y low high half_extent walls

  unfoldable pub move_player_with_wall_collision :
      Point → ℕ → ℕ → ℕ → ℕ → WorldBounds → List WallRect → Point
  move_player_with_wall_collision p flags delta_seconds move_speed half_extent bounds walls =
      let d = build_normalized_move_direction flags in
      let distance = f.mul move_speed delta_seconds in
      let x = try_move_along_x_axis p.x p.y (f.mul d.x distance) half_extent bounds walls in
      let y = try_move_along_y_axis x p.y (f.mul d.y distance) half_extent bounds walls in
      record { x = x; y = y }

  unfoldable pub is_circle_outside_world_bounds : Point → ℕ → WorldBounds → Bool
  is_circle_outside_world_bounds p radius bounds =
      f.lt p.x (f.add bounds.min_x radius)
      || f.lt (f.sub bounds.max_x radius) p.x
      || f.lt p.y (f.add bounds.min_y radius)
      || f.lt (f.sub bounds.max_y radius) p.y

  unfoldable pub is_circle_colliding_with_wall : Point → ℕ → WallRect → Bool
  is_circle_colliding_with_wall p radius w =
      let delta_x = f.sub p.x (float_clamp f p.x w.min_x w.max_x) in
      let delta_y = f.sub p.y (float_clamp f p.y w.min_y w.max_y) in
      f.le (f.add (f.mul delta_x delta_x) (f.mul delta_y delta_y)) (f.mul radius radius)

  unfoldable pub is_circle_colliding_with_any_wall : Point → ℕ → List WallRect → Bool
  is_circle_colliding_with_any_wall p radius [] = false
  is_circle_colliding_with_any_wall p radius (w ∷ walls) =
      is_circle_colliding_with_wall p radius w || is_circle_colliding_with_any_wall p radius walls

  unfoldable pub is_circle_colliding_with_world_or_walls :
      Point → ℕ → WorldBounds → List WallRect → Bool
  is_circle_colliding_with_world_or_walls p radius bounds walls =
      is_circle_outside_world_bounds p radius bounds
      || is_circle_colliding_with_any_wall p radius walls

  abbrev pub between : Point → Point → ℕ → Point
  between start end t = record {
    x = f.add start.x (f.mul (f.sub end.x start.x) t);
    y = f.add start.y (f.mul (f.sub end.y start.y) t);
  }

  -- The twelve rounds of the search, each from the bounds that the last one left; the right one is given back.
  unfoldable pub search_impact : ℕ → ℕ → ℕ → Point → Point → ℕ → WorldBounds → List WallRect → ℕ
  search_impact zero left right start end radius bounds walls = right
  search_impact (suc rounds) left right start end radius bounds walls =
      let mid = f.mul (f.add left right) float_half in
      let hit =
        is_circle_colliding_with_world_or_walls (between start end mid) radius bounds walls in
      search_impact rounds (if hit then left else mid) (if hit then mid else right) start end radius
        bounds walls

  unfoldable pub find_circle_impact_position :
      Point → Point → ℕ → WorldBounds → List WallRect → Point
  find_circle_impact_position start end radius bounds walls =
      if not (is_circle_colliding_with_world_or_walls end radius bounds walls)
      then end
      else between start end (search_impact 12 float_zero float_one start end radius bounds walls)
