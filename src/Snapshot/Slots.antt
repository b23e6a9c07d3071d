-- ===== src/Snapshot/Slots.antt =====
-- Lists that tabulate a function of the index, for the slots of SnapshotChunkAssemblerCore.h.
use windows_iocp_udp.Prelude.{
  ℕ, zero, suc, ◌+◌, ◌≤◌, ◌<◌, ◌≡◌, refl, ap, ◌∙◌, Bool, true, false, ◌&&◌, ◌||◌, leb, ◌==◌,
  if◌then◌else◌, List, [], ◌∷◌, length, get_or, set, replicate, arith,
}

abbrev pub tab {ℓ} : {B : Type ℓ} → (ℕ → B) → ℕ → ℕ → List B
tab f i zero = []
tab f i (suc n) = f i ∷ tab f (i + 1) n

-- How many of the `n` indices from `i` pass the test.
abbrev pub tally : (ℕ → Bool) → ℕ → ℕ → ℕ
tally p i zero = 0
tally p i (suc n) = (if p i then 1 else 0) + tally p (i + 1) n

abbrev pub covers : (ℕ → Bool) → ℕ → ℕ → Bool
covers p i zero = true
covers p i (suc n) = p i && covers p (i + 1) n

abbrev pub mark : (ℕ → Bool) → ℕ → ℕ → Bool
mark p key j = j == key || p j

abbrev pub with_value {ℓ} : {B : Type ℓ} → (ℕ → B) → ℕ → B → ℕ → B
with_value f key v j = if j == key then v else f j

module _ {ℓ} {B : Type ℓ} where
  pub tab_ext : (f g : ℕ → B) (i n : ℕ) → ((j : ℕ) → i ≤ j → f j ≡ g j) → tab f i n ≡ tab g i n
  tab_ext f g i zero h = refl
  tab_ext f g i (suc n) h =
      let e : f i ≡ g i = h i (omega arith) in
      ap (λ b. b ∷ tab f (i + 1) n) e
      ∙ ap (λ t. g i ∷ t) (tab_ext f g (i + 1) n (λ j q. h j (omega arith)))

  pub length-tab : (f : ℕ → B) (i n : ℕ) → length (tab f i n) ≡ n
  length-tab f i zero = refl
  length-tab f i (suc n) = omega (arith, length-tab f (i + 1) n)

  pub replicate-tab : (b : B) (i n : ℕ) → replicate n b ≡ tab (λ j. b) i n
  replicate-tab b i zero = refl
  replicate-tab b i (suc n) = ap (λ t. b ∷ t) (replicate-tab b (i + 1) n)

  pub get_or-tab : (f : ℕ → B) (i n k : ℕ) (d : B) → k < n → get_or (tab f i n) k d ≡ f (i + k)
  get_or-tab f i zero k d h = absurd (omega arith)
  get_or-tab f i (suc n) zero d h = let e : i ≡ i + 0 = omega arith in ap f e
  get_or-tab f i (suc n) (suc k) d h =
      let e : i + 1 + k ≡ i + suc k = omega arith in
      get_or-tab f (i + 1) n k d (omega arith) ∙ ap f e

  pub set-tab :
      (f : ℕ → B) (i n k : ℕ) (v : B)
      → k < n
      → set (tab f i n) k v ≡ tab (with_value f (i + k) v) i n
  set-tab f i zero k v h = absurd (omega arith)
  set-tab f i (suc n) zero v h =
      ap (λ b. b ∷ tab f (i + 1) n) (ground arith)
      ∙ ap (λ t. with_value f (i + 0) v i ∷ t)
          (tab_ext f (with_value f (i + 0) v) (i + 1) n (λ j q. ground arith))
  set-tab f i (suc n) (suc k) v h =
      let e : i + 1 + k ≡ i + suc k = omega arith in
      ap (λ t. f i ∷ t) (set-tab f (i + 1) n k v (omega arith))
      ∙ ap (λ (key : ℕ). f i ∷ tab (with_value f key v) (i + 1) n) e
      ∙ ap (λ b. b ∷ tab (with_value f (i + suc k) v) (i + 1) n) (ground arith)

pub tally_ext :
    (p q : ℕ → Bool) (i n : ℕ) → ((j : ℕ) → i ≤ j → p j ≡ q j) → tally p i n ≡ tally q i n
tally_ext p q i zero h = refl
tally_ext p q i (suc n) h = ground (arith, h i, tally_ext p q (i + 1) n (λ j r. h j (omega arith)))

pub tally-le : (p : ℕ → Bool) (i n : ℕ) → tally p i n ≤ n
tally-le p i zero = omega arith
tally-le p i (suc n) = ground (arith, tally-le p (i + 1) n)

pub tally-none : (i n : ℕ) → tally (λ j. false) i n ≡ 0
tally-none i zero = refl
tally-none i (suc n) = omega (arith, tally-none (i + 1) n)

-- Marking an index that was not marked counts one more.
pub tally-mark :
    (p : ℕ → Bool) (i n k : ℕ)
    → k < n
    → p (i + k) ≡ false
    → tally (mark p (i + k)) i n ≡ tally p i n + 1
tally-mark p i zero k h u = absurd (omega arith)
tally-mark p i (suc n) zero h u =
    let e : i + 0 ≡ i = omega arith in
    let at_i : p i ≡ false = rw e at u in
    ground (arith, at_i, tally_ext (mark p (i + 0)) p (i + 1) n (λ j q. ground arith))
tally-mark p i (suc n) (suc k) h u =
    let e : i + suc k ≡ i + 1 + k = omega arith in
    let rest : tally (mark p (i + suc k)) (i + 1) n ≡ tally p (i + 1) n + 1 =
      ap (λ (t : ℕ). tally (mark p t) (i + 1) n) e
      ∙ tally-mark p (i + 1) n k (omega arith) (rw e at u) in
    ground (arith, rest)

pub covers-tally : (p : ℕ → Bool) (i n : ℕ) → covers p i n ≡ leb n (tally p i n)
covers-tally p i zero = refl
covers-tally p i (suc n) = ground (arith, covers-tally p (i + 1) n, tally-le p (i + 1) n)

pub covers-mark :
    (p : ℕ → Bool) (key i n : ℕ) → covers (mark p key) i n ≡ false → covers p i n ≡ false
covers-mark p key i zero h = h
covers-mark p key i (suc n) h = ground (arith, covers-mark p key (i + 1) n)

pub tab-covers {ℓ} :
    {B : Type ℓ} (p : ℕ → Bool) (f : ℕ → B) (d : B) (i n : ℕ)
    → covers p i n ≡ true
    → tab (λ j. if p j then f j else d) i n ≡ tab f i n
tab-covers p f d i zero h = refl
tab-covers p f d i (suc n) h = ground (arith, tab-covers p f d (i + 1) n)
