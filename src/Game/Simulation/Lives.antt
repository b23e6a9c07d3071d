-- ===== src/Game/Simulation/Lives.antt =====
-- A player of GameSimulation.cpp is alive exactly while hit points are left, and what a tick of the game
-- keeps.
use mathlib.Core.Path.{subst}
use windows_iocp_udp.Prelude.{
  ℕ, zero, suc, ◌+◌, ◌≡◌, sym, ap, ◌∙◌, true, false, not, if◌then◌else◌, List, [], ◌∷◌, length, set,
  get_elem?, some, arith, Option-cases, Bool-cases, inl, inr,
}
use windows_iocp_udp.Prelude.Int.{is_positive}
use windows_iocp_udp.Prelude.Table.{
  find, put-put, nat_key, AllValues, AllValues-put, AllValues-find,
}
use windows_iocp_udp.Game.{Floats, float_zero}
use windows_iocp_udp.Game.World.{
  GameRuleConfig, PlayerState, BulletState, GameWorld, write_player, remove_bullet_at,
}
use windows_iocp_udp.Game.Simulation.{
  PlayerSimulationContext, spawn_impact_effect, hit_player, killed_player, count_kill, apply_hit,
  can_hit, find_hit, moved_bullet, meets_obstacle, update_bullet, bullet_loop, update_bullets,
  update_player, update_players,
}
use windows_iocp_udp.Game.Respawns.{
  context_of, respawn_player, respawned_player, update_respawn, respawn_loop, update_respawns,
  tick_players, update_player_timers,
}
use windows_iocp_udp.Game.Simulation.Bullets.{find_hit-found}

abbrev pub IsLiving : PlayerState → Type 0
IsLiving p = is_positive p.hp ≡ not p.is_dead

abbrev pub AllLiving : GameWorld → Type 0
AllLiving w = AllValues IsLiving w.player_table

count_kill-AllLiving : (w : GameWorld) (owner : ℕ) → AllLiving w → AllLiving (count_kill w owner)
unfolding count_kill
count_kill-AllLiving w owner h = elim (Option-cases (find w.player_table owner)) [
  | inl e ↦ rw (e, count_kill) h
  | inr (p, e) ↦
      rw (e, count_kill)
        (AllValues-put IsLiving w.player_table owner _ h
          (AllValues-find IsLiving w.player_table owner p h e))
]

apply_hit-AllLiving :
    (rules : GameRuleConfig) (b : BulletState) (c : PlayerSimulationContext) (p : PlayerState)
    (w : GameWorld)
    → p.is_dead ≡ false
    → AllLiving w
    → AllLiving (apply_hit rules b c p w).1
unfolding apply_hit spawn_impact_effect
apply_hit-AllLiving rules b c p w alive h =
    let hurt = hit_player rules b p in
    elim (Bool-cases (is_positive hurt.hp)) [
      | inl left ↦
          rw (left, apply_hit)
            (AllValues-put IsLiving w.player_table c.player_id hurt h (left ∙ sym (ap not alive)))
      | inr out ↦
          rw (out, apply_hit)
            (count_kill-AllLiving _ b.owner_player_id (
              subst (AllValues IsLiving)
                (sym (put-put w.player_table c.player_id hurt (killed_player rules hurt)))
                (AllValues-put IsLiving w.player_table c.player_id (killed_player rules hurt) h
                  out)))
    ]

module _ (f : Floats) where
  find_hit-alive :
      (b : BulletState) (w : GameWorld) (cs : List PlayerSimulationContext)
      (c : PlayerSimulationContext) (p : PlayerState)
      → find_hit f b w cs ≡ some (c, p)
      → p.is_dead ≡ false
  unfolding can_hit
  find_hit-alive b w cs c p e = ground (arith, find_hit-found f b w cs c p e)

  module _ (delta_time : ℕ) (contexts : List PlayerSimulationContext) (rules : GameRuleConfig) where
    update_bullet-AllLiving :
        (index : ℕ) (b : BulletState) (w : GameWorld)
        → AllLiving w
        → AllLiving (update_bullet f delta_time contexts rules index b w).2
    unfolding update_bullet spawn_impact_effect remove_bullet_at
    update_bullet-AllLiving index b w h =
        let moved = moved_bullet f delta_time b in
        let w1 = record w { bullets = set w.bullets index moved } in
        elim (Bool-cases (f.le moved.remaining_life_seconds float_zero)) [
          | inl over ↦ rw (over, update_bullet) h
          | inr flies ↦ elim (Bool-cases (meets_obstacle f moved)) [
            | inl met ↦ rw (flies, met, update_bullet) h
            | inr free ↦ elim (Option-cases (find_hit f moved w1 contexts)) [
              | inl missed ↦ rw (flies, free, missed, update_bullet) h
              | inr ((c, p), hit) ↦
                  rw (flies, free, hit, update_bullet)
                    (apply_hit-AllLiving rules moved c p w1
                      (find_hit-alive moved w1 contexts c p hit) h)
            ]
          ]
        ]

    bullet_loop-AllLiving :
        (fuel index : ℕ) (w : GameWorld)
        → AllLiving w
        → AllLiving (bullet_loop f fuel delta_time contexts rules index w).1
    unfolding bullet_loop
    bullet_loop-AllLiving zero index w h = h
    bullet_loop-AllLiving (suc fuel) index w h = elim (Option-cases (get_elem? w.bullets index)) [
      | inl over ↦ rw (over, bullet_loop) h
      | inr (b, there) ↦
          let r = update_bullet f delta_time contexts rules index b w in
          rw (there, bullet_loop)
            (bullet_loop-AllLiving fuel (if r.0 then index else index + 1) r.2
              (update_bullet-AllLiving index b w h))
    ]

    update_player-AllLiving :
        (c : PlayerSimulationContext) (w : GameWorld)
        → AllLiving w
        → AllLiving (update_player f delta_time c w)
    unfolding update_player
    update_player-AllLiving c w h = elim (Option-cases (find w.player_table c.player_id)) [
      | inl e ↦ rw (e, update_player) h
      | inr (p, e) ↦ elim (Bool-cases p.is_dead) [
        | inl dead ↦ rw (e, dead, update_player) h
        | inr alive ↦
            rw (e, alive, update_player)
              (AllValues-put IsLiving w.player_table c.player_id _ h
                (AllValues-find IsLiving w.player_table c.player_id p h e ∙ ap not alive))
      ]
    ]

    update_players-AllLiving :
        (cs : List PlayerSimulationContext) (w : GameWorld)
        → AllLiving w
        → AllLiving (update_players f delta_time cs w)
    unfolding update_players
    update_players-AllLiving [] w h = h
    update_players-AllLiving (c ∷ cs) w h =
        update_players-AllLiving cs (update_player f delta_time c w) (update_player-AllLiving c w h)

    module _ (full : is_positive rules.initial_player_hp ≡ true) where
      respawn_player-AllLiving :
          (player_id room : ℕ) (w : GameWorld)
          → AllLiving w
          → AllLiving (respawn_player player_id room w rules)
      unfolding respawn_player spawn_impact_effect
      respawn_player-AllLiving player_id room w h =
          elim (Option-cases (find w.player_table player_id)) [
            | inl e ↦ rw (e, respawn_player) h
            | inr (p, e) ↦
                rw (e, respawn_player)
                  (AllValues-put IsLiving w.player_table player_id (respawned_player rules room p) h
                    full)
          ]

      update_respawn-AllLiving :
          (player_id : ℕ) (p : PlayerState) (w : GameWorld)
          → IsLiving p
          → AllLiving w
          → AllLiving (update_respawn f delta_time contexts rules player_id p w)
      unfolding update_respawn
      update_respawn-AllLiving player_id p w living h =
          let left = f.sub p.respawn_remaining_seconds delta_time in
          elim (Bool-cases p.is_dead) [
            | inr alive ↦ rw (alive, update_respawn) h
            | inl dead ↦
                let q : PlayerState = record p { respawn_remaining_seconds = left } in
                let kept = AllValues-put IsLiving w.player_table player_id q h living in
                let dead_kept =
                  AllValues-put IsLiving w.player_table player_id (record q { is_dead = true }) h
                    (living ∙ ap not dead) in
                elim (Bool-cases (f.lt float_zero left)) [
                  | inl waits ↦ rw (dead, waits, update_respawn) dead_kept
                  | inr over ↦ elim (Option-cases (context_of player_id contexts)) [
                    | inl gone ↦ rw (dead, over, gone, update_respawn) kept
                    | inr (c, there) ↦
                        rw (dead, over, there, update_respawn)
                          (respawn_player-AllLiving player_id c.room_id (write_player w player_id q)
                            kept)
                  ]
                ]
          ]

      respawn_loop-AllLiving :
          (table : List (ℕ × PlayerState)) (w : GameWorld)
          → AllValues IsLiving table
          → AllLiving w
          → AllLiving (respawn_loop f delta_time contexts rules table w)
      unfolding respawn_loop
      respawn_loop-AllLiving [] w all h = h
      respawn_loop-AllLiving ((player_id, p) ∷ table) w all h =
          respawn_loop-AllLiving table _ all.1 (update_respawn-AllLiving player_id p w all.0 h)

    tick_players-AllLiving :
        (table : List (ℕ × PlayerState))
        → AllValues IsLiving table
        → AllValues IsLiving (tick_players f delta_time table)
    tick_players-AllLiving [] all = tt
    tick_players-AllLiving ((player_id, p) ∷ table) all =
        (all.0, tick_players-AllLiving table all.1)

  -- A player is dead exactly when no hit points are left, and every part of a tick keeps that for all the
  -- players: their moves, the bullets, the respawns and the timers. A new life starts with hit points.
  pub tick-AllLiving :
      (delta_time : ℕ) (contexts : List PlayerSimulationContext) (rules : GameRuleConfig)
      (w : GameWorld)
      → is_positive rules.initial_player_hp ≡ true
      → AllLiving w
      → AllLiving (update_players f delta_time contexts w)
        × AllLiving (update_bullets f delta_time contexts w rules).1
        × AllLiving (update_respawns f delta_time contexts w rules)
        × AllLiving (update_player_timers f delta_time w)
  unfolding update_bullets update_respawns update_player_timers
  tick-AllLiving delta_time contexts rules w full h = (
    update_players-AllLiving delta_time contexts rules contexts w h,
    bullet_loop-AllLiving delta_time contexts rules (suc (length w.bullets)) 0 w h,
    respawn_loop-AllLiving delta_time contexts rules full w.player_table w h h,
    tick_players-AllLiving delta_time contexts rules w.player_table h,
  )
