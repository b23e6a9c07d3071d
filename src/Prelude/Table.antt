-- ===== src/Prelude/Table.antt =====
-- Unordered maps that the code walks: the list of the entries, each key once, in the order of a walk. The
-- equality of the keys is an instance.
use mathlib.Core.Path.{◌≡◌, refl, sym, ap, subst}
use mathlib.Core.Logic.{◌↔◌, inl, inr}
use mathlib.Core.Bool.{Bool, true}
use mathlib.Core.Option.{Option, none, some}
use mathlib.Core.List.{List, [], ◌∷◌}
use Prim.Native.Nat.{ℕ}
use native.Mathlib.Omega.{arith}
use windows_iocp_udp.Prelude.Tests.{◌==◌, ==_iff, if◌then◌else◌, Bool-cases, eq_of_iff}
use windows_iocp_udp.Prelude.Int.{ℤ, same_id, same_id_iff}

pub record Key {ℓ} (K : Type ℓ) : Type ℓ where
  pub same : K → K → Bool
  pub same_iff : (a b : K) → (same a b ≡ true) ↔ (a ≡ b)

instance abbrev pub nat_key : Key ℕ
nat_key = record { same = ◌==◌; same_iff = ==_iff }

instance abbrev pub int_key : Key ℤ
int_key = record { same = same_id; same_iff = same_id_iff }

module _ {ℓ κ} {K : Type ℓ} {V : Type κ} ⦃e : Key K⦄ where
  abbrev pub find : List (K × V) → K → Option V
  find [] j = none
  find ((k, v) ∷ t) j = if e.same k j then some v else find t j

  abbrev pub put : List (K × V) → K → V → List (K × V)
  put [] j v = (j, v) ∷ []
  put ((k, w) ∷ t) j v = if e.same k j then (k, v) ∷ t else (k, w) ∷ put t j v

  abbrev pub erase : List (K × V) → K → List (K × V)
  erase [] j = []
  erase ((k, w) ∷ t) j = if e.same k j then erase t j else (k, w) ∷ erase t j

  -- Each key stands in the table once.
  abbrev pub Unique : List (K × V) → Type κ
  Unique [] = Unit
  Unique ((k, v) ∷ t) = (find t k ≡ none) × Unique t

module _ {ℓ} {K : Type ℓ} ⦃e : Key K⦄ where
  pub same_refl : (k : K) → e.same k k ≡ true
  same_refl k = (e.same_iff k k).1 refl

  pub same_left : (i k j : K) → e.same i k ≡ true → e.same i j ≡ e.same k j
  same_left i k j h = ap (λ x. e.same x j) ((e.same_iff i k).0 h)

  pub same_right : (i k j : K) → e.same k j ≡ true → e.same i k ≡ e.same i j
  same_right i k j h = ap (e.same i) ((e.same_iff k j).0 h)

  pub same_symm : (i k : K) → e.same i k ≡ e.same k i
  same_symm i k =
      eq_of_iff (e.same i k) (e.same k i) (λ h. (e.same_iff k i).1 (sym ((e.same_iff i k).0 h)))
        (λ h. (e.same_iff i k).1 (sym ((e.same_iff k i).0 h)))

module _ {ℓ κ} {K : Type ℓ} {V : Type κ} ⦃e : Key K⦄ where
  pub find-put :
      (t : List (K × V)) (k j : K) (v : V)
      → find (put t k v) j ≡ (if e.same k j then some v else find t j)
  find-put [] k j v = refl
  find-put ((i, w) ∷ t) k j v = elim (Bool-cases (e.same i k)) [
    | inl h ↦ ground (arith, h, same_left i k j h)
    | inr h ↦ ground (arith, h, same_right i k j, find-put t k j v)
  ]

  pub find-erase :
      (t : List (K × V)) (k j : K) → find (erase t k) j ≡ (if e.same k j then none else find t j)
  find-erase [] k j = ground arith
  find-erase ((i, w) ∷ t) k j = elim (Bool-cases (e.same i k)) [
    | inl h ↦ ground (arith, h, same_left i k j h, find-erase t k j)
    | inr h ↦ ground (arith, h, same_right i k j, find-erase t k j)
  ]

  pub put-Unique : (t : List (K × V)) (k : K) (v : V) → Unique t → Unique (put t k v)
  put-Unique [] k v u = (refl, tt)
  put-Unique ((i, w) ∷ t) k v u = elim (Bool-cases (e.same i k)) [
    | inl h ↦ ground (arith, h)
    | inr h ↦ ground (arith, h, put-Unique t k v u.1, find-put t k i v, same_symm i k)
  ]

  pub erase-Unique : (t : List (K × V)) (k : K) → Unique t → Unique (erase t k)
  erase-Unique [] k u = tt
  erase-Unique ((i, w) ∷ t) k u = elim (Bool-cases (e.same i k)) [
    | inl h ↦ ground (arith, h, erase-Unique t k u.1)
    | inr h ↦ ground (arith, h, erase-Unique t k u.1, find-erase t k i, same_symm i k)
  ]

  pub find-same : (t : List (K × V)) (k j : K) → e.same k j ≡ true → find t k ≡ find t j
  find-same t k j h = ap (find t) ((e.same_iff k j).0 h)

module _ {ℓ κ μ} {K : Type ℓ} {V : Type κ} ⦃e : Key K⦄ (P : V → Type μ) where
  -- A predicate on every value of a table.
  abbrev pub AllValues : List (K × V) → Type μ
  AllValues [] = Unit
  AllValues ((k, v) ∷ t) = P v × AllValues t

module _ {ℓ κ μ} {K : Type ℓ} {V : Type κ} ⦃e : Key K⦄ (P : V → Type μ) where
  pub AllValues-put :
      (t : List (K × V)) (k : K) (v : V) → AllValues P t → P v → AllValues P (put t k v)
  AllValues-put [] k v h p = (p, tt)
  AllValues-put ((i, w) ∷ t) k v h p = elim (Bool-cases (e.same i k)) [
    | inl s ↦ rw s (p, h.1)
    | inr s ↦ rw s (h.0, AllValues-put t k v h.1 p)
  ]

  pub AllValues-erase : (t : List (K × V)) (k : K) → AllValues P t → AllValues P (erase t k)
  AllValues-erase [] k h = tt
  AllValues-erase ((i, w) ∷ t) k h = elim (Bool-cases (e.same i k)) [
    | inl s ↦ rw s (AllValues-erase t k h.1)
    | inr s ↦ rw s (h.0, AllValues-erase t k h.1)
  ]

  pub AllValues-find : (t : List (K × V)) (k : K) (v : V) → AllValues P t → find t k ≡ some v → P v
  AllValues-find [] k v h f = absurd (ground arith)
  AllValues-find ((i, w) ∷ t) k v h f = elim (Bool-cases (e.same i k)) [
    | inl s ↦ subst P (ground (arith, s)) h.0
    | inr s ↦ AllValues-find t k v h.1 (ground (arith, s))
  ]

module _ {ℓ κ} {K : Type ℓ} {V : Type κ} ⦃e : Key K⦄ where
  pub put-put : (t : List (K × V)) (k : K) (v w : V) → put (put t k v) k w ≡ put t k w
  put-put [] k v w = ground (arith, same_refl k)
  put-put ((i, u) ∷ t) k v w = elim (Bool-cases (e.same i k)) [
    | inl s ↦ ground (arith, s)
    | inr s ↦ ground (arith, s, put-put t k v w)
  ]
