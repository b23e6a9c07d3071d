-- ===== src/Auth/ReplayGuard.antt =====
-- Common/Net/Auth/PacketReplayGuard.h and PacketReplayGuard.cpp. `std::bitset<256>` is a number below
-- 2 ^ 256: `set` joins a bit, `<<=` drops what passes the width, `test` reads a digit.
pub mod Window
pub mod History
use windows_iocp_udp.Prelude.{
  ℕ, ◌*◌, ◌%◌, ◌^◌, Bool, true, false, not, leb, ◌==◌, if◌then◌else◌, bit_or,
}
use windows_iocp_udp.Prelude.Bits.{test_bit}
use windows_iocp_udp.Prelude.Words.{sub32}
use windows_iocp_udp.Sequence.{is_sequence_newer}

pub data ObserveStatus : Type 0 where
  new_sequence duplicate too_old : ObserveStatus

abbrev pub replay_window_bit_count : ℕ
replay_window_bit_count = 256

pub record ReplayGuard : Type 0 where
  pub latest_sequence : ℕ
  pub received_bitfield : ℕ
  pub has_received_sequence : Bool

-- The member initialisers.
abbrev pub fresh : ReplayGuard
fresh = record { latest_sequence = 0; received_bitfield = 0; has_received_sequence = false }

unfoldable pub reset : ReplayGuard → ReplayGuard
reset g = record g { latest_sequence = 0; received_bitfield = 0; has_received_sequence = false }

abbrev pub set_bit : ℕ → ℕ → ℕ
set_bit bits index = bit_or bits (2 ^ index)

abbrev pub shift_bits : ℕ → ℕ → ℕ
shift_bits bits distance = bits * 2 ^ distance % 2 ^ 256

-- The two branches of `Observe` behind its first tests.
unfoldable pub observe_newer : ReplayGuard → ℕ → ObserveStatus × ReplayGuard
observe_newer g sequence =
    let distance = sub32 sequence g.latest_sequence in
    (
      new_sequence,
      record g {
        received_bitfield =
            set_bit
              (if leb replay_window_bit_count distance
                then 0
                else shift_bits g.received_bitfield distance)
              0;
        latest_sequence = sequence;
      },
    )

unfoldable pub observe_older : ReplayGuard → ℕ → ObserveStatus × ReplayGuard
observe_older g sequence =
    let distance = sub32 g.latest_sequence sequence in
    if leb replay_window_bit_count distance
    then (too_old, g)
    else if test_bit g.received_bitfield distance
    then (duplicate, g)
    else (new_sequence, record g { received_bitfield = set_bit g.received_bitfield distance })

unfoldable pub observe : ReplayGuard → ℕ → ObserveStatus × ReplayGuard
observe g sequence =
    if not g.has_received_sequence
    then (
      new_sequence,
      record g {
        latest_sequence = sequence;
        received_bitfield = set_bit g.received_bitfield 0;
        has_received_sequence = true;
      },
    )
    else if sequence == g.latest_sequence
    then (duplicate, g)
    else if is_sequence_newer sequence g.latest_sequence
    then observe_newer g sequence
    else observe_older g sequence

abbrev pub is_new : ObserveStatus → Bool
is_new new_sequence = true
is_new duplicate = false
is_new too_old = false

unfoldable pub try_accept : ReplayGuard → ℕ → Bool × ReplayGuard
try_accept g sequence = let (status, g') = observe g sequence in (is_new status, g')
