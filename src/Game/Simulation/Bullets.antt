-- ===== src/Game/Simulation/Bullets.antt =====
-- What the bullets of GameSimulation.cpp do to the players: lives, deaths and kills.
use mathlib.Core.Path.{subst}
use windows_iocp_udp.Prelude.{
  ℕ, zero, suc, ◌+◌, ◌%◌, ◌<◌, ◌≡◌, refl, sym, ap, ◌∙◌, Bool, true, ◌==◌, if◌then◌else◌, List, [],
  ◌∷◌, length, set, get_elem?, Option, none, some, arith, Option-cases, Bool-cases, inl, inr,
}
use windows_iocp_udp.Prelude.Words.{u32_mod, add32}
use windows_iocp_udp.Prelude.Table.{find, put, find-put, nat_key}
use windows_iocp_udp.Game.{Floats, float_zero}
use windows_iocp_udp.Game.World.{
  GameRuleConfig, PlayerState, BulletState, GameWorld, remove_bullet_at,
}
use windows_iocp_udp.Game.Simulation.{
  PlayerSimulationContext, KillEvent, spawn_impact_effect, hit_player, killed_player, count_kill,
  apply_hit, can_hit, find_hit, moved_bullet, meets_obstacle, update_bullet, add_kill, bullet_loop,
  update_bullets,
}

-- Deaths and kills of a player.
abbrev pub score_of : Option PlayerState → Option (ℕ × ℕ)
score_of none = none
score_of (some p) = some (p.death_count, p.kill_count)

-- How often a player is the victim, and the killer, of the events.
abbrev pub victim_count : ℕ → List KillEvent → ℕ
victim_count j [] = 0
victim_count j (e ∷ es) = (if e.victim_player_id == j then 1 else 0) + victim_count j es

abbrev pub killer_count : ℕ → List KillEvent → ℕ
killer_count j [] = 0
killer_count j (e ∷ es) = (if e.killer_player_id == j then 1 else 0) + killer_count j es

abbrev pub scored : ℕ → List KillEvent → Option (ℕ × ℕ) → Option (ℕ × ℕ)
scored j es none = none
scored j es (some (deaths, kills)) =
    some ((deaths + victim_count j es) % u32_mod, (kills + killer_count j es) % u32_mod)

abbrev pub IsWord : Option (ℕ × ℕ) → Type 0
IsWord none = Unit {0}
IsWord (some (deaths, kills)) = (deaths < u32_mod) × (kills < u32_mod)

scored-nil : (j : ℕ) (s : Option (ℕ × ℕ)) → IsWord s → scored j [] s ≡ s
scored-nil j none h = refl
scored-nil j (some (deaths, kills)) h = ground arith

scored-IsWord : (j : ℕ) (es : List KillEvent) (s : Option (ℕ × ℕ)) → IsWord (scored j es s)
scored-IsWord j es none = tt
scored-IsWord j es (some (deaths, kills)) = omega arith

scored-add :
    (j : ℕ) (e : Option KillEvent) (es : List KillEvent) (s : Option (ℕ × ℕ))
    → scored j es (scored j (add_kill e []) s) ≡ scored j (add_kill e es) s
scored-add j none es none = refl
scored-add j none es (some (deaths, kills)) = ground arith
scored-add j (some e) es none = refl
scored-add j (some e) es (some (deaths, kills)) = ground arith

abbrev counted : Bool → Option PlayerState → Option PlayerState
counted b none = none
counted b (some p) = if b then some (record p { kill_count = add32 p.kill_count 1 }) else some p

find-count_kill :
    (w : GameWorld) (owner j : ℕ)
    → find (count_kill w owner).player_table j ≡ counted (owner == j) (find w.player_table j)
unfolding count_kill
find-count_kill w owner j = elim (Option-cases (find w.player_table owner)) [
  | inl e ↦ ground (arith, e, ap (find w.player_table) {x = owner} {y = j})
  | inr (p, e) ↦ ground (
    arith,
    e,
    ap (find w.player_table) {x = owner} {y = j},
    find-put w.player_table owner j (record p { kill_count = add32 p.kill_count 1 }),
  )
]

score-apply_hit :
    (rules : GameRuleConfig) (b : BulletState) (c : PlayerSimulationContext) (p : PlayerState)
    (w : GameWorld) (j : ℕ)
    → find w.player_table c.player_id ≡ some p
    → IsWord (score_of (find w.player_table j))
    → let r = apply_hit rules b c p w in
      score_of (find r.1.player_table j)
      ≡ scored j (add_kill r.0 []) (score_of (find w.player_table j))
unfolding apply_hit spawn_impact_effect
score-apply_hit rules b c p w j e small =
    let hurt = hit_player rules b p in
    let dead = killed_player rules hurt in
    let table = put w.player_table c.player_id hurt in
    ground (
      arith,
      e,
      find-put w.player_table c.player_id j hurt,
      find-put table c.player_id j dead,
      find-count_kill (record w { player_table = put table c.player_id dead }) b.owner_player_id j,
      ap (find w.player_table) {x = c.player_id} {y = j},
    )

module _ (f : Floats) where
  -- The player that a bullet hits is there and passes the tests.
  pub find_hit-found :
      (b : BulletState) (w : GameWorld) (cs : List PlayerSimulationContext)
      (c : PlayerSimulationContext) (p : PlayerState)
      → find_hit f b w cs ≡ some (c, p)
      → (find w.player_table c.player_id ≡ some p) × (can_hit f b c p ≡ true)
  unfolding find_hit
  find_hit-found b w [] c p e = ground arith
  find_hit-found b w (d ∷ ds) c p e = elim (Option-cases (find w.player_table d.player_id)) [
    | inl gone ↦ ground (arith, gone, find_hit-found b w ds c p)
    | inr (q, there) ↦ elim (Bool-cases (can_hit f b d q)) [
      | inl hits ↦ ground (arith, there, hits)
      | inr misses ↦ ground (arith, there, misses, find_hit-found b w ds c p)
    ]
  ]

  module _ (delta_time : ℕ) (contexts : List PlayerSimulationContext) (rules : GameRuleConfig) where
    score-update_bullet :
        (index : ℕ) (b : BulletState) (w : GameWorld) (j : ℕ)
        → IsWord (score_of (find w.player_table j))
        → let r = update_bullet f delta_time contexts rules index b w in
          score_of (find r.2.player_table j)
          ≡ scored j (add_kill r.1 []) (score_of (find w.player_table j))
    unfolding update_bullet spawn_impact_effect remove_bullet_at
    score-update_bullet index b w j small =
        let moved = moved_bullet f delta_time b in
        let w1 = record w { bullets = set w.bullets index moved } in
        let same = sym (scored-nil j (score_of (find w.player_table j)) small) in
        elim (Bool-cases (f.le moved.remaining_life_seconds float_zero)) [
          | inl over ↦ rw (over, update_bullet) same
          | inr alive ↦ elim (Bool-cases (meets_obstacle f moved)) [
            | inl met ↦ rw (alive, met, update_bullet) same
            | inr free ↦ elim (Option-cases (find_hit f moved w1 contexts)) [
              | inl missed ↦ rw (alive, free, missed, update_bullet) same
              | inr ((c, p), hit) ↦
                  let found = find_hit-found moved w1 contexts c p hit in
                  rw (alive, free, hit, update_bullet)
                    (score-apply_hit rules moved c p w1 j found.0 small)
            ]
          ]
        ]

    score-bullet_loop :
        (fuel index : ℕ) (w : GameWorld) (j : ℕ)
        → IsWord (score_of (find w.player_table j))
        → let r = bullet_loop f fuel delta_time contexts rules index w in
          score_of (find r.1.player_table j) ≡ scored j r.0 (score_of (find w.player_table j))
    unfolding bullet_loop
    score-bullet_loop zero index w j small = sym (scored-nil j _ small)
    score-bullet_loop (suc fuel) index w j small = elim (Option-cases (get_elem? w.bullets index)) [
      | inl over ↦ rw (over, bullet_loop) (sym (scored-nil j _ small))
      | inr (b, there) ↦
          let r = update_bullet f delta_time contexts rules index b w in
          let next = if r.0 then index else index + 1 in
          let once = score-update_bullet index b w j small in
          let word =
            subst IsWord (sym once)
              (scored-IsWord j (add_kill r.1 []) (score_of (find w.player_table j))) in
          let rest = score-bullet_loop fuel next r.2 j word in
          rw (there, bullet_loop) (rest ∙ ap (scored j _) once ∙ scored-add j r.1 _ _)
    ]

  -- The kill events of a tick are the deaths and the kills of the tick: a player's death count grows by the
  -- events with the player as the victim, the kill count by those with the player as the killer, in 32
  -- bits; no player comes or goes. The counts are below 2 ^ 32 before.
  pub update_bullets-score :
      (delta_time : ℕ) (contexts : List PlayerSimulationContext) (w : GameWorld)
      (rules : GameRuleConfig) (j : ℕ)
      → IsWord (score_of (find w.player_table j))
      → let r = update_bullets f delta_time contexts w rules in
        score_of (find r.1.player_table j) ≡ scored j r.0 (score_of (find w.player_table j))
  unfolding update_bullets
  update_bullets-score delta_time contexts w rules j small =
      score-bullet_loop delta_time contexts rules (suc (length w.bullets)) 0 w j small
