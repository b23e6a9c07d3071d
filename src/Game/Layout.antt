-- ===== src/Game/Layout.antt =====
-- Common/Game/RoomLayout.h: the walls of each room and the points where players enter. A float is its bit
-- pattern, so that 60.0F is `0x42700000`; a room's number is the pattern of its 32 bits.
use windows_iocp_udp.Prelude.{ℕ, ◌%◌, ◌==◌, if◌then◌else◌, List, [], ◌∷◌, length, get_or}

pub record SpawnPoint : Type 0 where
  pub x : ℕ
  pub y : ℕ

pub record WallRect : Type 0 where
  pub min_x : ℕ
  pub min_y : ℕ
  pub max_x : ℕ
  pub max_y : ℕ

abbrev pub wall : ℕ → ℕ → ℕ → ℕ → WallRect
wall min_x min_y max_x max_y = record { min_x = min_x; min_y = min_y; max_x = max_x; max_y = max_y }

abbrev pub spawn : ℕ → ℕ → SpawnPoint
spawn x y = record { x = x; y = y }

abbrev pub room1_wall_rect_list : List WallRect
room1_wall_rect_list =
    wall 0x42f00000 0x42f00000 0x43340000 0x440c0000
    ∷ wall 0x43e60000 0x42a00000 0x44020000 0x43d20000
    ∷ wall 0x44480000 0x435c0000 0x44570000 0x441b0000
    ∷ []

abbrev pub room1_spawn_point_list : List SpawnPoint
room1_spawn_point_list =
    spawn 0x42700000 0x42700000
    ∷ spawn 0x42700000 0x44200000
    ∷ spawn 0x448e8000 0x42700000
    ∷ spawn 0x448e8000 0x44200000
    ∷ spawn 0x43a00000 0x43af0000
    ∷ spawn 0x44750000 0x43af0000
    ∷ []

abbrev pub room2_wall_rect_list : List WallRect
room2_wall_rect_list =
    wall 0x43340000 0x42f00000 0x43820000 0x43480000
    ∷ wall 0x43340000 0x43a00000 0x43820000 0x43c80000
    ∷ wall 0x440c0000 0x430c0000 0x44200000 0x44020000
    ∷ wall 0x44660000 0x43820000 0x447a0000 0x43aa0000
    ∷ []

abbrev pub room2_spawn_point_list : List SpawnPoint
room2_spawn_point_list =
    spawn 0x42a00000 0x42a00000
    ∷ spawn 0x42a00000 0x441b0000
    ∷ spawn 0x448ac000 0x42a00000
    ∷ spawn 0x448ac000 0x441b0000
    ∷ spawn 0x43be0000 0x42c80000
    ∷ spawn 0x44430000 0x44160000
    ∷ []

abbrev pub room3_wall_rect_list : List WallRect
room3_wall_rect_list =
    wall 0x43200000 0x43200000 0x44820000 0x435c0000
    ∷ wall 0x43200000 0x43f00000 0x44820000 0x44070000
    ∷ wall 0x438c0000 0x43820000 0x43b40000 0x43dc0000
    ∷ wall 0x440c0000 0x43820000 0x44200000 0x43dc0000
    ∷ wall 0x44520000 0x43820000 0x44660000 0x43dc0000
    ∷ []

abbrev pub room3_spawn_point_list : List SpawnPoint
room3_spawn_point_list =
    spawn 0x42a00000 0x43af0000
    ∷ spawn 0x448c0000 0x43af0000
    ∷ spawn 0x435c0000 0x42c80000
    ∷ spawn 0x435c0000 0x44160000
    ∷ spawn 0x44750000 0x42c80000
    ∷ spawn 0x44750000 0x44160000
    ∷ []

unfoldable pub get_wall_rect_list_for_room : ℕ → List WallRect
get_wall_rect_list_for_room room =
    if room == 1
    then room1_wall_rect_list
    else if room == 2
    then room2_wall_rect_list
    else if room == 3
    then room3_wall_rect_list
    else []

unfoldable pub get_spawn_point_list_for_room : ℕ → List SpawnPoint
get_spawn_point_list_for_room room =
    if room == 1
    then room1_spawn_point_list
    else if room == 2
    then room2_spawn_point_list
    else if room == 3
    then room3_spawn_point_list
    else []

abbrev pub fallback_spawn_point : SpawnPoint
fallback_spawn_point = spawn 0x42c80000 0x42c80000

abbrev pick_spawn_point : List SpawnPoint → ℕ → SpawnPoint
pick_spawn_point [] index = fallback_spawn_point
pick_spawn_point (p ∷ ps) index = get_or (p ∷ ps) (index % length (p ∷ ps)) fallback_spawn_point

unfoldable pub get_spawn_point_for_room : ℕ → ℕ → SpawnPoint
unfolding get_spawn_point_list_for_room
get_spawn_point_for_room room index = pick_spawn_point (get_spawn_point_list_for_room room) index
