-- ===== src/Reliable/AckTracker.antt =====
-- Common/Net/Reliable/ReliableUdpProtocol.h: which sequence numbers have been received.
-- A shift of a 32-bit word by 32 places is undefined in C++: its result is the parameter `wide`.
pub mod Window
pub mod History
use windows_iocp_udp.Prelude.{
  ℕ, ◌-◌, ◌*◌, ◌%◌, ◌^◌, Bool, true, false, not, ltb, ◌==◌, if◌then◌else◌, bit_and, bit_or, ◌||◌,
}
use windows_iocp_udp.Prelude.Words.{u32_mod, sub32}
use windows_iocp_udp.Sequence.{is_sequence_newer}

abbrev pub reliable_ack_bit_count : ℕ
reliable_ack_bit_count = 32

-- The free function `IsSequenceAcked`.
unfoldable pub is_sequence_acked_by : ℕ → ℕ → ℕ → Bool
unfolding is_sequence_newer
is_sequence_acked_by sequence ack_sequence ack_bitfield =
    let distance = sub32 ack_sequence sequence in
    if sequence == ack_sequence
    then true
    else if is_sequence_newer sequence ack_sequence
    then false
    else if distance == 0 || ltb reliable_ack_bit_count distance
    then false
    else not (bit_and ack_bitfield (2 ^ (distance - 1)) == 0)

pub record AckTracker : Type 0 where
  pub latest_received_sequence : ℕ
  pub ack_bitfield : ℕ
  pub has_received_any_sequence : Bool

-- The member initialisers.
abbrev pub fresh : AckTracker
fresh = record { latest_received_sequence = 0; ack_bitfield = 0; has_received_any_sequence = false }

unfoldable pub reset : AckTracker → AckTracker
reset t = record t {
  latest_received_sequence = 0;
  ack_bitfield = 0;
  has_received_any_sequence = false;
}

-- `a << d` on `std::uint32_t`, for `d` up to 32.
abbrev pub shl32 : (ℕ → ℕ) → ℕ → ℕ → ℕ
shl32 wide a d = if ltb d 32 then a * 2 ^ d % u32_mod else wide a

module _ (wide : ℕ → ℕ) where
  -- The two branches of `ObserveReceivedSequence` behind its first tests.
  unfoldable pub observe_newer : AckTracker → ℕ → AckTracker
  observe_newer t sequence =
      let distance = sub32 sequence t.latest_received_sequence in
      record t {
        ack_bitfield =
            if ltb reliable_ack_bit_count distance
            then 0
            else bit_or (shl32 wide t.ack_bitfield distance) (2 ^ (distance - 1));
        latest_received_sequence = sequence;
      }

  unfoldable pub observe_older : AckTracker → ℕ → AckTracker
  observe_older t sequence =
      let distance = sub32 t.latest_received_sequence sequence in
      if distance == 0 || ltb reliable_ack_bit_count distance
      then t
      else record t { ack_bitfield = bit_or t.ack_bitfield (2 ^ (distance - 1)) }

  unfoldable pub observe_received_sequence : AckTracker → ℕ → AckTracker
  observe_received_sequence t sequence =
      if not t.has_received_any_sequence
      then record {
        latest_received_sequence = sequence;
        ack_bitfield = 0;
        has_received_any_sequence = true;
      }
      else if sequence == t.latest_received_sequence
      then t
      else if is_sequence_newer sequence t.latest_received_sequence
      then observe_newer t sequence
      else observe_older t sequence

unfoldable pub is_sequence_acked : AckTracker → ℕ → Bool
is_sequence_acked t sequence =
    if not t.has_received_any_sequence
    then false
    else is_sequence_acked_by sequence t.latest_received_sequence t.ack_bitfield
