-- ===== src/Snapshot.antt =====
-- Common/Net/Snapshot/SnapshotChunkAssemblerCore.h: the chunks of a room's snapshot are collected and
-- put together. The two tables are functions from the room; the calls of the log function are the list
-- of their first arguments. `CleanupExpiredAssemblies` treats each room alone, whatever the order.
pub mod Slots
pub mod Invariant
pub mod Ticks
pub mod Arrival
use windows_iocp_udp.Prelude.{
  ℕ, ◌+◌, ◌%◌, Bool, true, false, not, ◌&&◌, ◌||◌, ltb, leb, ◌==◌, if◌then◌else◌, List, [], ◌∷◌,
  concat, get_or, set, replicate, Option, none, some,
}
use windows_iocp_udp.Prelude.Words.{u16_mod}

pub record ChunkView {ℓ} (A : Type ℓ) : Type ℓ where
  pub room_id : ℕ
  pub server_tick : ℕ
  pub chunk_index : ℕ
  pub chunk_count : ℕ
  pub data_list : List A

pub record AssembledChunk {ℓ} (A : Type ℓ) : Type ℓ where
  pub room_id : ℕ
  pub server_tick : ℕ
  pub data_list : List A

pub record AssemblyState {ℓ} (A : Type ℓ) : Type ℓ where
  pub server_tick : ℕ
  pub chunk_count : ℕ
  pub received_chunk_count : ℕ
  pub received_chunk_flag_list : List ℕ
  pub chunk_data_list : List (List A)
  pub last_updated_time : ℕ

pub record Assembler {ℓ} (A : Type ℓ) : Type ℓ where
  pub assembly_table : ℕ → Option (AssemblyState A)
  pub last_applied_tick_table : ℕ → Option ℕ

-- The names that `PushChunk` passes to its log function.
pub data ChunkEvent : Type 0 where
  invalid_chunk_header_drop stale_drop_older_than_applied stale_drop_already_applied : ChunkEvent
  reset_assembly stale_drop_older_than_active_assembly duplicate_chunk_drop : ChunkEvent
  accepted_chunk waiting_more_chunks assembled_complete : ChunkEvent

pub record PushResult {ℓ} (A : Type ℓ) : Type ℓ where
  pub assembled : Option (AssembledChunk A)
  pub events : List ChunkEvent
  pub assembler : Assembler A

-- A table with one entry written or erased.
abbrev pub with_entry {ℓ} : {B : Type ℓ} → (ℕ → Option B) → ℕ → Option B → ℕ → Option B
with_entry table key entry room = if room == key then entry else table room

abbrev pub is_some {ℓ} : {B : Type ℓ} → Option B → Bool
is_some none = false
is_some (some b) = true

abbrev pub or_zero : Option ℕ → ℕ
or_zero none = 0
or_zero (some n) = n

module _ {ℓ} {A : Type ℓ} where
  -- The member initialisers of an assembly state.
  abbrev pub no_assembly : AssemblyState A
  no_assembly = record {
    server_tick = 0;
    chunk_count = 0;
    received_chunk_count = 0;
    received_chunk_flag_list = [];
    chunk_data_list = [];
    last_updated_time = 0;
  }

  unfoldable pub clear : Assembler A → Assembler A
  clear s = record { assembly_table = λ room. none; last_applied_tick_table = λ room. none }

  unfoldable pub reset_room : Assembler A → ℕ → Assembler A
  reset_room s room = record {
    assembly_table = with_entry s.assembly_table room none;
    last_applied_tick_table = with_entry s.last_applied_tick_table room none;
  }

  -- `currentTime - lastUpdatedTime <= assemblyTimeout`.
  abbrev pub still_alive : ℕ → ℕ → AssemblyState A → Bool
  still_alive now timeout st = leb now (st.last_updated_time + timeout)

  abbrev pub drop_expired : ℕ → ℕ → Option (AssemblyState A) → Option (AssemblyState A)
  drop_expired now timeout none = none
  drop_expired now timeout (some st) = if still_alive now timeout st then some st else none

  unfoldable pub cleanup_expired_assemblies : Assembler A → ℕ → ℕ → Assembler A
  cleanup_expired_assemblies s now timeout = record s {
    assembly_table = λ room. drop_expired now timeout (s.assembly_table room);
  }

  -- `assemblyTable_[roomId]`.
  abbrev pub state_or_new : Option (AssemblyState A) → AssemblyState A
  state_or_new none = no_assembly
  state_or_new (some st) = st

  unfoldable pub need_reset : AssemblyState A → ChunkView A → Bool
  need_reset st v =
      st.chunk_count == 0
      || ltb st.server_tick v.server_tick
      || not (v.chunk_count == st.chunk_count)

  -- The assembly state that a reset leaves.
  unfoldable pub begin_assembly : ChunkView A → ℕ → AssemblyState A
  begin_assembly v now = record {
    server_tick = v.server_tick;
    chunk_count = v.chunk_count;
    received_chunk_count = 0;
    received_chunk_flag_list = replicate v.chunk_count 0;
    chunk_data_list = replicate v.chunk_count [];
    last_updated_time = now;
  }

  unfoldable pub store_chunk : AssemblyState A → ChunkView A → AssemblyState A
  store_chunk st v = record st {
    chunk_data_list = set st.chunk_data_list v.chunk_index v.data_list;
    received_chunk_flag_list = set st.received_chunk_flag_list v.chunk_index 1;
    received_chunk_count = (st.received_chunk_count + 1) % u16_mod;
  }

  -- `FlattenChunkDataList`.
  unfoldable pub flatten_chunk_data_list : List (List A) → List A
  flatten_chunk_data_list chunks = concat chunks

  -- `PushChunk` once the chunk is stored.
  unfoldable pub finish_chunk :
      Assembler A → AssemblyState A → ChunkView A → List ChunkEvent → PushResult A
  finish_chunk s st v events =
      if ltb st.received_chunk_count st.chunk_count
      then record {
        assembled = none;
        events = waiting_more_chunks ∷ events;
        assembler = record s { assembly_table = with_entry s.assembly_table v.room_id (some st) };
      }
      else record {
        assembled = some (record {
          room_id = v.room_id;
          server_tick = st.server_tick;
          data_list = flatten_chunk_data_list st.chunk_data_list;
        });
        events = assembled_complete ∷ events;
        assembler = record {
          assembly_table = with_entry s.assembly_table v.room_id none;
          last_applied_tick_table =
              with_entry s.last_applied_tick_table v.room_id (some st.server_tick);
        };
      }

  -- `PushChunk` from the duplicate test on; the events are the last one first.
  unfoldable pub place_chunk :
      Assembler A → AssemblyState A → ChunkView A → List ChunkEvent → PushResult A
  place_chunk s st v events =
      if not (get_or st.received_chunk_flag_list v.chunk_index 0 == 0)
      then record {
        assembled = none;
        events = duplicate_chunk_drop ∷ events;
        assembler = record s { assembly_table = with_entry s.assembly_table v.room_id (some st) };
      }
      else finish_chunk s (store_chunk st v) v (accepted_chunk ∷ events)

  -- `PushChunk` once the chunk is not stale against the applied tick.
  unfoldable pub collect_chunk : Assembler A → ChunkView A → ℕ → PushResult A
  collect_chunk s v now =
      let st = state_or_new (s.assembly_table v.room_id) in
      if need_reset st v
      then place_chunk s (begin_assembly v now) v (reset_assembly ∷ [])
      else if ltb v.server_tick st.server_tick
      then record {
        assembled = none;
        events = stale_drop_older_than_active_assembly ∷ [];
        assembler = s;
      }
      else place_chunk s (record st { last_updated_time = now }) v []

  unfoldable pub push_chunk : Assembler A → ChunkView A → ℕ → PushResult A
  push_chunk s v now =
      let applied = s.last_applied_tick_table v.room_id in
      let has_applied_tick = is_some applied in
      let last_applied_tick = or_zero applied in
      let has_assembly_state = is_some (s.assembly_table v.room_id) in
      if v.chunk_count == 0 || leb v.chunk_count v.chunk_index
      then dropped invalid_chunk_header_drop
      else if has_applied_tick && ltb v.server_tick last_applied_tick
      then dropped stale_drop_older_than_applied
      else if has_applied_tick && v.server_tick == last_applied_tick && not has_assembly_state
      then dropped stale_drop_already_applied
      else collect_chunk s v now
    where
      dropped : ChunkEvent → PushResult A
      dropped event = record { assembled = none; events = event ∷ []; assembler = s }
