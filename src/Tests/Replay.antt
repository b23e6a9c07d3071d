-- ===== src/Tests/Replay.antt =====
-- The laws of PacketReplayGuard.cpp on single guards.
use windows_iocp_udp.Prelude.{◌≡◌, refl, true, false, [], ◌∷◌, arith}
use windows_iocp_udp.Prelude.Bits.{test_bit}
use windows_iocp_udp.Auth.ReplayGuard.{ReplayGuard, try_accept}
use windows_iocp_udp.Auth.ReplayGuard.Window.{IsValid}
use windows_iocp_udp.Auth.ReplayGuard.History.{after, try_accept-after}

try_accept-after_example : (try_accept (after (9 ∷ 4 ∷ 300 ∷ [])) 9).0 ≡ false
try_accept-after_example =
    try_accept-after (9 ∷ 4 ∷ 300 ∷ []) 9 (omega arith, (omega arith, (omega arith, tt)))
      (omega arith)

-- 300, 299 and 296 were received.
abbrev guarded : ReplayGuard
guarded = record { latest_sequence = 300; received_bitfield = 19; has_received_sequence = true }

guarded-IsValid : IsValid guarded
unfolding test_bit
guarded-IsValid = record { small = omega arith; clean = λ e. absurd (cc); marked = λ e. refl }
