-- ===== src/Game/Simulation/Rounds.antt =====
-- The loop over the bullets in GameSimulation.cpp comes to an end: a round removes the bullet that it visits
-- or goes on to the next.
use windows_iocp_udp.Prelude.{
  ℕ, zero, suc, ◌+◌, ◌-◌, ◌≤◌, ◌<◌, ◌≡◌, refl, if◌then◌else◌, List, [], ◌∷◌, length, length-set,
  set, get_elem?, none, some, arith, Option-cases, Bool-cases, inl, inr,
}
use windows_iocp_udp.Prelude.Int.{is_positive}
use windows_iocp_udp.Prelude.Table.{find, nat_key}
use windows_iocp_udp.Game.{Floats, float_zero}
use windows_iocp_udp.Game.World.{
  GameRuleConfig, PlayerState, BulletState, GameWorld, last_or, but_last, remove_at,
  remove_bullet_at,
}
use windows_iocp_udp.Game.Simulation.{
  PlayerSimulationContext, spawn_impact_effect, hit_player, count_kill, apply_hit, find_hit,
  moved_bullet, meets_obstacle, update_bullet, bullet_loop, update_bullets,
}

module _ {ℓ} {A : Type ℓ} where
  length-but_last-tail : (xs : List A) → length (but_last xs) ≡ length xs - 1
  length-but_last-tail [] = refl
  length-but_last-tail (x ∷ []) = refl
  length-but_last-tail (x ∷ (y ∷ ys)) = omega (arith, length-but_last-tail (y ∷ ys))

  length-remove_at : (i : ℕ) (xs : List A) → i < length xs → length (remove_at i xs) ≡ length xs - 1
  unfolding remove_at
  length-remove_at i [] h = refl
  length-remove_at i (x ∷ xs) h =
      let tail = length-but_last-tail (set (x ∷ xs) i (last_or x xs)) in
      ground (arith, tail, length-set (x ∷ xs) i (last_or x xs), length-but_last-tail (x ∷ xs))

  get_elem-some : (xs : List A) (i : ℕ) (x : A) → get_elem? xs i ≡ some x → i < length xs
  get_elem-some [] i x e = absurd (ground arith)
  get_elem-some (y ∷ ys) zero x e = omega arith
  get_elem-some (y ∷ ys) (suc i) x e = omega (arith, get_elem-some ys i x e)

  get_elem-none : (xs : List A) (i : ℕ) → length xs ≤ i → get_elem? xs i ≡ none
  get_elem-none [] i h = refl
  get_elem-none (y ∷ ys) zero h = absurd (omega arith)
  get_elem-none (y ∷ ys) (suc i) h = get_elem-none ys i (omega arith)

bullets-count_kill : (w : GameWorld) (owner : ℕ) → (count_kill w owner).bullets ≡ w.bullets
unfolding count_kill
bullets-count_kill w owner = elim (Option-cases (find w.player_table owner)) [
  | inl e ↦ rw (e, count_kill) refl
  | inr (p, e) ↦ rw (e, count_kill) refl
]

bullets-apply_hit :
    (rules : GameRuleConfig) (b : BulletState) (c : PlayerSimulationContext) (p : PlayerState)
    (w : GameWorld)
    → (apply_hit rules b c p w).1.bullets ≡ w.bullets
unfolding apply_hit spawn_impact_effect
bullets-apply_hit rules b c p w = elim (Bool-cases (is_positive (hit_player rules b p).hp)) [
  | inl left ↦ rw (left, apply_hit) refl
  | inr out ↦ rw (out, apply_hit) (bullets-count_kill _ b.owner_player_id)
]

module _ (f : Floats) (delta_time : ℕ) (contexts : List PlayerSimulationContext)
    (rules : GameRuleConfig) where
  -- The bullets left to be visited are one less.
  length-update_bullet :
      (index : ℕ) (b : BulletState) (w : GameWorld)
      → index < length w.bullets
      → let r = update_bullet f delta_time contexts rules index b w in
        length r.2.bullets - (if r.0 then index else index + 1) ≡ length w.bullets - (index + 1)
  unfolding update_bullet spawn_impact_effect remove_bullet_at
  length-update_bullet index b w h =
      let moved = moved_bullet f delta_time b in
      let w1 = record w { bullets = set w.bullets index moved } in
      let size = length-set w.bullets index moved in
      let cut = length-remove_at index w1.bullets (omega (arith, size)) in
      elim (Bool-cases (f.le moved.remaining_life_seconds float_zero)) [
        | inl over ↦ rw (over, update_bullet) (omega (arith, size, cut))
        | inr flies ↦ elim (Bool-cases (meets_obstacle f moved)) [
          | inl met ↦ rw (flies, met, update_bullet) (omega (arith, size, cut))
          | inr free ↦ elim (Option-cases (find_hit f moved w1 contexts)) [
            | inl missed ↦ rw (flies, free, missed, update_bullet) (omega (arith, size))
            | inr ((c, p), hit) ↦
                rw (flies, free, hit, update_bullet)
                  (rw (bullets-apply_hit rules moved c p w1) (omega (arith, size, cut)))
          ]
        ]
      ]

  -- With a round more than the bullets left to be visited, more rounds change nothing.
  bullet_loop-rounds :
      (fuel extra index : ℕ) (w : GameWorld)
      → length w.bullets - index < fuel
      → bullet_loop f (fuel + extra) delta_time contexts rules index w
        ≡ bullet_loop f fuel delta_time contexts rules index w
  unfolding bullet_loop
  bullet_loop-rounds zero extra index w h = absurd (omega arith)
  bullet_loop-rounds (suc fuel) extra index w h =
      let shift : suc fuel + extra ≡ suc (fuel + extra) = omega arith in
      elim (Option-cases (get_elem? w.bullets index)) [
        | inl over ↦ rw (shift, over, bullet_loop) refl
        | inr (b, there) ↦
            let r = update_bullet f delta_time contexts rules index b w in
            let next = if r.0 then index else index + 1 in
            let inside = get_elem-some w.bullets index b there in
            let less = length-update_bullet index b w inside in
            let rest = bullet_loop-rounds fuel extra next r.2 (omega (arith, less, inside, h)) in
            rw (shift, there, bullet_loop) (rw rest refl)
      ]

  -- The loop over the bullets ends: it has made all its rounds when the fuel is used up, so that more fuel
  -- gives the same kills and the same world, whatever the float operations answer.
  pub update_bullets-ends :
      (extra : ℕ) (w : GameWorld)
      → bullet_loop f (suc (length w.bullets) + extra) delta_time contexts rules 0 w
        ≡ update_bullets f delta_time contexts w rules
  unfolding update_bullets
  update_bullets-ends extra w = bullet_loop-rounds (suc (length w.bullets)) extra 0 w (omega arith)
