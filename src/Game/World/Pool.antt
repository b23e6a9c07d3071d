-- ===== src/Game/World/Pool.antt =====
-- What is left in a pool of StatePool.h when elements are removed by putting the last in their place.
use mathlib.Core.List.{append_assoc, append-nil}
use windows_iocp_udp.Prelude.{
  ℕ, zero, suc, ◌+◌, ◌<◌, ◌≡◌, refl, sym, ap, ◌∙◌, Bool, true, false, not, ◌&&◌, ◌==◌, ltb,
  if◌then◌else◌, List, [], ◌∷◌, ◌++◌, length, length-append, set, Bool-cases, inl, inr, arith,
}
use windows_iocp_udp.Game.World.{
  GameWorld, BulletState, ImpactEffectState, last_or, but_last, passes_at, remove_at, clear_loop,
  clear_room_transient_state,
}

module _ {ℓ} {A : Type ℓ} where
  -- How many elements pass a test.
  abbrev pub count_if : (A → Bool) → List A → ℕ
  count_if p [] = 0
  count_if p (x ∷ xs) = (if p x then 1 else 0) + count_if p xs

  -- What a removal leaves behind the elements in front.
  abbrev closed_up : List A → List A
  closed_up [] = []
  closed_up (y ∷ ys) = last_or y ys ∷ but_last (y ∷ ys)

module _ {ℓ} {A : Type ℓ} where
  count_if-append :
      (p : A → Bool) (xs ys : List A) → count_if p (xs ++ ys) ≡ count_if p xs + count_if p ys
  count_if-append p [] ys = omega arith
  count_if-append p (x ∷ xs) ys = omega (arith, count_if-append p xs ys)

  set-middle :
      (front back : List A) (x v : A) → set (front ++ x ∷ back) (length front) v ≡ front ++ v ∷ back
  set-middle [] back x v = refl
  set-middle (y ∷ front) back x v = ap (λ t. y ∷ t) (set-middle front back x v)

  but_last-middle :
      (front back : List A) (v : A) → but_last (front ++ v ∷ back) ≡ front ++ but_last (v ∷ back)
  but_last-middle [] back v = refl
  but_last-middle (y ∷ []) back v = refl
  but_last-middle (y ∷ (z ∷ front)) back v = ap (λ t. y ∷ t) (but_last-middle (z ∷ front) back v)

  last_or-middle : (front back : List A) (d x : A) → last_or d (front ++ x ∷ back) ≡ last_or x back
  last_or-middle [] back d x = refl
  last_or-middle (y ∷ front) back d x = last_or-middle front back y x

  passes_at-middle :
      (p : A → Bool) (front back : List A) (x : A)
      → passes_at p (length front) (front ++ x ∷ back) ≡ p x
  passes_at-middle p [] back x = refl
  passes_at-middle p (y ∷ front) back x = passes_at-middle p front back x

  length-but_last : (x : A) (xs : List A) → length (but_last (x ∷ xs)) ≡ length xs
  length-but_last x [] = refl
  length-but_last x (y ∷ ys) = ap suc (length-but_last y ys)

  count_if-closed :
      (p : A → Bool) (x : A) (xs : List A)
      → (if p (last_or x xs) then 1 else 0) + count_if p (but_last (x ∷ xs)) ≡ count_if p (x ∷ xs)
  count_if-closed p x [] = refl
  count_if-closed p x (y ∷ ys) = omega (arith, count_if-closed p y ys)

  remove_at-middle :
      (front back : List A) (x : A)
      → remove_at (length front) (front ++ x ∷ back) ≡ front ++ closed_up back
  unfolding remove_at
  remove_at-middle [] [] x = ground arith
  remove_at-middle [] (b ∷ bs) x = ground arith
  remove_at-middle (y ∷ front) [] x =
      let size = length-append front (x ∷ []) in
      let cut = but_last-middle (y ∷ front) [] x in ground (arith, size, cut)
  remove_at-middle (y ∷ front) (b ∷ bs) x =
      let size = length-append front (x ∷ (b ∷ bs)) in
      let last = last_or-middle front (b ∷ bs) y x in
      let written = set-middle (y ∷ front) (b ∷ bs) x (last_or b bs) in
      let cut = but_last-middle (y ∷ front) (b ∷ bs) (last_or b bs) in
      let moved =
        ap (λ v. but_last (set (y ∷ (front ++ x ∷ (b ∷ bs))) (suc (length front)) v)) last
        ∙ ap but_last written
        ∙ cut in
      ground (arith, size, moved)

  module _ (doomed : A → Bool) (fuel i : ℕ) (xs : List A) where
    round_done : ltb i (length xs) ≡ false → clear_loop (suc fuel) doomed i xs ≡ xs
    unfolding clear_loop
    round_done e = rw (e, clear_loop)

    round_spares :
        ltb i (length xs) ≡ true
        → passes_at doomed i xs ≡ false
        → clear_loop (suc fuel) doomed i xs ≡ clear_loop fuel doomed (i + 1) xs
    unfolding clear_loop
    round_spares e h = rw (e, h, clear_loop)

    round_removes :
        ltb i (length xs) ≡ true
        → passes_at doomed i xs ≡ true
        → clear_loop (suc fuel) doomed i xs ≡ clear_loop fuel doomed i (remove_at i xs)
    unfolding clear_loop
    round_removes e h = rw (e, h, clear_loop)

  length-closed_up : (xs : List A) → length (closed_up xs) ≡ length xs
  length-closed_up [] = refl
  length-closed_up (y ∷ ys) = ap suc (length-but_last y ys)

  count_if-closed_up : (p : A → Bool) (xs : List A) → count_if p (closed_up xs) ≡ count_if p xs
  count_if-closed_up p [] = refl
  count_if-closed_up p (y ∷ ys) = count_if-closed p y ys

  -- The loop keeps the elements in front and, of the others, those that the test spares.
  clear_loop-count :
      (p doomed : A → Bool) (fuel : ℕ) (front back : List A)
      → length back < fuel
      → count_if p (clear_loop fuel doomed (length front) (front ++ back))
        ≡ count_if p front + count_if (λ x. p x && not (doomed x)) back
  clear_loop-count p doomed zero front back short = absurd (omega arith)
  clear_loop-count p doomed (suc fuel) front [] short =
      let whole = append-nil front in
      let stop =
        round_done doomed fuel (length front) (front ++ []) (ground (arith, ap length whole)) in
      ap (count_if p) (stop ∙ whole) ∙ omega arith
  clear_loop-count p doomed (suc fuel) front (x ∷ back) short =
      let xs = front ++ x ∷ back in
      let more : ltb (length front) (length xs) ≡ true =
        ground (arith, length-append front (x ∷ back)) in
      let here = passes_at-middle doomed front back x in
      elim (Bool-cases (doomed x)) [
        | inl out ↦
            let step = round_removes doomed fuel (length front) xs more (here ∙ out) in
            let rest =
              clear_loop-count p doomed fuel front (closed_up back)
                (omega (arith, length-closed_up back)) in
            let same = count_if-closed_up (λ y. p y && not (doomed y)) back in
            ap (count_if p)
              (step ∙ ap (clear_loop fuel doomed (length front)) (remove_at-middle front back x))
            ∙ rest
            ∙ ground (arith, same)
        | inr spared ↦
            let step = round_spares doomed fuel (length front) xs more (here ∙ spared) in
            let rest = clear_loop-count p doomed fuel (front ++ x ∷ []) back (omega arith) in
            let index : length front + 1 ≡ length (front ++ x ∷ []) =
              omega (arith, length-append front (x ∷ [])) in
            ap (count_if p) step
            ∙ ap (λ (i : ℕ). count_if p (clear_loop fuel doomed i xs)) index
            ∙ ap (λ ys. count_if p (clear_loop fuel doomed (length (front ++ x ∷ [])) ys))
                (sym (append_assoc front (x ∷ []) back))
            ∙ rest
            ∙ ground (arith, count_if-append p front (x ∷ []))
      ]

  clear_pool-count :
      (p doomed : A → Bool) (xs : List A)
      → count_if p (clear_loop (suc (length xs)) doomed 0 xs)
        ≡ count_if (λ x. p x && not (doomed x)) xs
  clear_pool-count p doomed xs =
      clear_loop-count p doomed (suc (length xs)) [] xs (omega arith) ∙ omega arith

-- Emptying a room leaves in the world exactly the bullets and the effects of the other rooms, each as often
-- as before: so it is for every test on them.
pub clear_room-count :
    (w : GameWorld) (room : ℕ) (p : BulletState → Bool) (q : ImpactEffectState → Bool)
    → let left = clear_room_transient_state w room in
      (count_if p left.bullets ≡ count_if (λ b. p b && not (b.room_id == room)) w.bullets)
      × (count_if q left.pending_impact_effects
          ≡ count_if (λ e. q e && not (e.room_id == room)) w.pending_impact_effects)
unfolding clear_room_transient_state
clear_room-count w room p q = (
  clear_pool-count p (λ (b : BulletState). b.room_id == room) w.bullets,
  clear_pool-count q (λ (e : ImpactEffectState). e.room_id == room) w.pending_impact_effects,
)
