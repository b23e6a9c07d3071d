-- ===== src/Reliable/AckTracker/History.antt =====
-- The tracker of ReliableUdpProtocol.h against the history of all numbers that it observed.
use Prim.Native.Nat.{max}
pub use windows_iocp_udp.Prelude.{contains}
use windows_iocp_udp.Prelude.{
  ℕ, ◌<◌, ◌≤◌, ◌^◌, ◌≡◌, inr, refl, true, false, ◌&&◌, arith, List, [], ◌∷◌, All,
}
use windows_iocp_udp.Sequence.{is_sequence_newer}
use windows_iocp_udp.Reliable.AckTracker.{
  AckTracker, fresh, is_sequence_acked, observe_received_sequence,
}
use windows_iocp_udp.Reliable.AckTracker.Window.{
  within, acked-observe, latest-observe_newer, latest-observe_older,
}

-- The tracker after a history of observations, the last one first.
unfoldable pub after : (ℕ → ℕ) → List ℕ → AckTracker
after wide [] = fresh
after wide (s ∷ past) = observe_received_sequence wide (after wide past) s

abbrev pub newest : List ℕ → ℕ
newest [] = 0
newest (s ∷ past) = max s (newest past)

abbrev pub Below : ℕ → List ℕ → Type 0
Below n = All (λ s. s < n)

pub contains-le-newest : (x : ℕ) (past : List ℕ) → contains x past ≡ true → x ≤ newest past
contains-le-newest x [] h = ground arith
contains-le-newest x (s ∷ past) h = ground (arith, contains-le-newest x past)

pub newest-lt : (n : ℕ) (past : List ℕ) → Below n past → 0 < n → newest past < n
newest-lt n [] b h = h
newest-lt n (s ∷ past) b h = omega (arith, newest-lt n past b.1 h)

observe-latest :
    (wide : ℕ → ℕ) (t : AckTracker) (s : ℕ)
    → t.latest_received_sequence < 2 ^ 31
    → s < 2 ^ 31
    → (t.has_received_any_sequence ≡ false → t.latest_received_sequence ≡ 0)
    → ((observe_received_sequence wide t s).latest_received_sequence
        ≡ max s t.latest_received_sequence)
      × ((observe_received_sequence wide t s).has_received_any_sequence ≡ true)
unfolding observe_received_sequence is_sequence_newer
observe-latest wide t s hl hs hf =
    ground (arith, latest-observe_newer wide t s, latest-observe_older wide t s)

module _ (wide : ℕ → ℕ) where
  pub after-latest :
      (past : List ℕ)
      → Below (2 ^ 31) past
      → ((after wide past).latest_received_sequence ≡ newest past)
        × ((after wide past).has_received_any_sequence ≡ false → newest past ≡ 0)
  unfolding after
  after-latest [] b = (refl, λ e. refl)
  after-latest (s ∷ past) b = ground (
    arith,
    after-latest past b.1,
    newest-lt (2 ^ 31) past b.1 (omega arith),
    observe-latest wide (after wide past) s,
  )

acked-fresh : (wide : ℕ → ℕ) (x : ℕ) → is_sequence_acked (after wide []) x ≡ false
unfolding after is_sequence_acked
acked-fresh wide x = refl

pub after-has :
    (wide : ℕ → ℕ) (s : ℕ) (past : List ℕ)
    → (after wide (s ∷ past)).has_received_any_sequence ≡ true
unfolding after observe_received_sequence
after-has wide s past = ground (
  arith,
  latest-observe_newer wide (after wide past) s,
  latest-observe_older wide (after wide past) s,
)

-- As long as the numbers stay below 2 ^ 31, a number is reported as received after a history of
-- observations exactly when it is in the history and within 32 of the newest one, whatever the order
-- in which they came. The processor's shift by 32 is taken to clear the word.
pub acked-after :
    (wide : ℕ → ℕ) (past : List ℕ) (x : ℕ)
    → ((a : ℕ) → wide a ≡ 0)
    → Below (2 ^ 31) past
    → x < 2 ^ 31
    → is_sequence_acked (after wide past) x ≡ (within (newest past) x && contains x past)
unfolding after
acked-after wide [] x clears b hx = ground (arith, acked-fresh wide x)
acked-after wide (s ∷ past) x clears b hx =
    let t = after wide past in
    let old = after-latest wide past b.1 in
    let new = after-latest wide (s ∷ past) b in
    let bound = newest-lt (2 ^ 31) past b.1 (omega arith) in
    let step =
      acked-observe wide t s x (omega arith) (omega arith) (omega arith)
        (inr (clears t.ack_bitfield)) in
    ground (arith, step, acked-after wide past x clears b.1, contains-le-newest x past)
