-- ===== src/Auth/ReplayGuard/History.antt =====
-- The guard of PacketReplayGuard.cpp against all numbers that it was shown.
use Prim.Native.Nat.{max}
use windows_iocp_udp.Prelude.{ℕ, ◌<◌, ◌^◌, ◌≡◌, refl, true, false, not, ◌&&◌, arith, List, [], ◌∷◌}
use windows_iocp_udp.Sequence.{is_sequence_newer}
use windows_iocp_udp.Reliable.AckTracker.History.{
  contains, newest, newest-lt, contains-le-newest, Below,
}
use windows_iocp_udp.Auth.ReplayGuard.{ReplayGuard, fresh, observe, try_accept}
use windows_iocp_udp.Auth.ReplayGuard.Window.{
  IsValid, within, received, observe-IsValid, status-observe, received-observe, newer_fields,
  older_fields,
}

-- The guard after a list of numbers, the last one first.
unfoldable pub after : List ℕ → ReplayGuard
after [] = fresh
after (s ∷ past) = (try_accept (after past) s).1

fresh-IsValid : IsValid fresh
fresh-IsValid = record { small = omega arith; clean = λ e. refl; marked = λ e. absurd (cc) }

after-IsValid : (past : List ℕ) → Below (2 ^ 31) past → IsValid (after past)
unfolding after try_accept
after-IsValid [] b = fresh-IsValid
after-IsValid (s ∷ past) b = observe-IsValid (after past) s (after-IsValid past b.1) (omega arith)

observe-latest :
    (g : ReplayGuard) (s : ℕ)
    → g.latest_sequence < 2 ^ 31
    → s < 2 ^ 31
    → (g.has_received_sequence ≡ false → g.latest_sequence ≡ 0)
    → ((observe g s).1.latest_sequence ≡ max s g.latest_sequence)
      × ((observe g s).1.has_received_sequence ≡ true)
unfolding observe is_sequence_newer
observe-latest g s hl hs hf = ground (arith, newer_fields g s, older_fields g s)

after-latest :
    (past : List ℕ)
    → Below (2 ^ 31) past
    → ((after past).latest_sequence ≡ newest past)
      × ((after past).has_received_sequence ≡ false → newest past ≡ 0)
unfolding after try_accept
after-latest [] b = (refl, λ e. refl)
after-latest (s ∷ past) b = ground (
  arith,
  after-latest past b.1,
  newest-lt (2 ^ 31) past b.1 (omega arith),
  observe-latest (after past) s,
)

received-fresh : (x : ℕ) → received (after []) x ≡ false
unfolding after received
received-fresh x = refl

received-after :
    (past : List ℕ) (x : ℕ)
    → Below (2 ^ 31) past
    → x < 2 ^ 31
    → received (after past) x ≡ (within (newest past) x && contains x past)
unfolding after try_accept
received-after [] x b hx = ground (arith, received-fresh x)
received-after (s ∷ past) x b hx =
    let g = after past in
    let old = after-latest past b.1 in
    let new = after-latest (s ∷ past) b in
    let bound = newest-lt (2 ^ 31) past b.1 (omega arith) in
    ground (
      arith,
      received-observe g s x (after-IsValid past b.1) (omega arith) (omega arith),
      received-after past x b.1 hx,
      contains-le-newest x past,
    )

-- No replay: as long as the numbers stay below 2 ^ 31, a number is accepted exactly when it was never
-- shown to the guard before and lies less than 256 behind the newest one, whatever came in between.
pub try_accept-after :
    (past : List ℕ) (s : ℕ)
    → Below (2 ^ 31) past
    → s < 2 ^ 31
    → (try_accept (after past) s).0 ≡ (within (max s (newest past)) s && not (contains s past))
unfolding try_accept
try_accept-after past s b hs =
    let g = after past in
    let old = after-latest past b in
    let bound = newest-lt (2 ^ 31) past b (omega arith) in
    ground (
      arith,
      status-observe g s (after-IsValid past b) (omega arith),
      observe-latest g s,
      received-after past s b hs,
      contains-le-newest s past,
    )
