-- ===== src/Snapshot/Invariant.antt =====
-- What every push of SnapshotChunkAssemblerCore.h keeps, and what an assembled snapshot says.
use windows_iocp_udp.Prelude.{
  ℕ, zero, suc, ◌+◌, ◌≤◌, ◌<◌, ◌≡◌, ◌≢◌, refl, ◌∙◌, false, ltb, ◌==◌, if◌then◌else◌, List, [], ◌∷◌,
  length, length-set, length-replicate, get_or, set, replicate, Option, none, some, arith,
  Bool-cases, inl, inr,
}
use windows_iocp_udp.Prelude.Words.{u16_mod}
use windows_iocp_udp.Snapshot.{
  ChunkView, AssemblyState, Assembler, ChunkEvent, with_entry, state_or_new, need_reset,
  begin_assembly, store_chunk, finish_chunk, place_chunk, collect_chunk, push_chunk,
}

-- How many chunks the flags report.
abbrev pub flagged : List ℕ → ℕ
flagged [] = 0
flagged (f ∷ fs) = (if f == 0 then 0 else 1) + flagged fs

flagged-set :
    (fs : List ℕ) (k : ℕ)
    → k < length fs
    → get_or fs k 0 ≡ 0
    → flagged (set fs k 1) ≡ flagged fs + 1
flagged-set [] k h e = absurd (omega arith)
flagged-set (f ∷ fs) zero h e = ground arith
flagged-set (f ∷ fs) (suc k) h e = ground (arith, flagged-set fs k (omega arith) e)

flagged-le : (fs : List ℕ) → flagged fs ≤ length fs
flagged-le [] = omega arith
flagged-le (f ∷ fs) = ground (arith, flagged-le fs)

flagged-replicate : (n : ℕ) → flagged (replicate n 0) ≡ 0
flagged-replicate zero = refl
flagged-replicate (suc n) = omega (arith, flagged-replicate n)

module _ {ℓ} {A : Type ℓ} where
  -- One slot and one flag for each chunk, and a count of the flags that are set.
  pub record HasSlots (st : AssemblyState A) : Type ℓ where
    pub fits : st.chunk_count < u16_mod
    pub flags : length st.received_chunk_flag_list ≡ st.chunk_count
    pub slots : length st.chunk_data_list ≡ st.chunk_count
    pub counted : flagged st.received_chunk_flag_list ≡ st.received_chunk_count

  abbrev pub IsIncomplete : Option (AssemblyState A) → Type ℓ
  IsIncomplete none = Unit
  IsIncomplete (some st) = HasSlots st × (st.received_chunk_count < st.chunk_count)

  -- Every assembly in the table misses a chunk.
  abbrev pub IsValid : Assembler A → Type ℓ
  IsValid s = (room : ℕ) → IsIncomplete (s.assembly_table room)

  begin-HasSlots :
      (v : ChunkView A) (now : ℕ) → v.chunk_count < u16_mod → HasSlots (begin_assembly v now)
  unfolding begin_assembly
  begin-HasSlots v now h = record {
    fits = h;
    flags = length-replicate v.chunk_count 0;
    slots = length-replicate v.chunk_count [];
    counted = flagged-replicate v.chunk_count;
  }

  store-HasSlots :
      (st : AssemblyState A) (v : ChunkView A)
      → HasSlots st
      → v.chunk_index < st.chunk_count
      → get_or st.received_chunk_flag_list v.chunk_index 0 ≡ 0
      → HasSlots (store_chunk st v)
  unfolding store_chunk
  store-HasSlots st v w h e =
      let marked =
        flagged-set st.received_chunk_flag_list v.chunk_index (omega (arith, w.flags)) e in
      let most = flagged-le (set st.received_chunk_flag_list v.chunk_index 1) in
      let same = length-set st.received_chunk_flag_list v.chunk_index 1 in
      record {
        fits = w.fits;
        flags = omega (arith, same, w.flags);
        slots = length-set st.chunk_data_list v.chunk_index v.data_list ∙ w.slots;
        counted = omega (arith, marked, most, same, w.flags, w.counted, w.fits);
      }

  with_entry-IsIncomplete :
      (table : ℕ → Option (AssemblyState A)) (key room : ℕ) (entry : Option (AssemblyState A))
      → ((r : ℕ) → IsIncomplete (table r))
      → IsIncomplete entry
      → IsIncomplete (with_entry table key entry room)
  with_entry-IsIncomplete table key room entry v e = elim (Bool-cases (room == key)) [
    | inl h ↦ rw h e
    | inr h ↦ rw h (v room)
  ]

  finish-IsValid :
      (s : Assembler A) (st : AssemblyState A) (v : ChunkView A) (events : List ChunkEvent)
      → IsValid s
      → HasSlots st
      → IsValid (finish_chunk s st v events).assembler
  unfolding finish_chunk
  finish-IsValid s st v events valid w room =
      elim (Bool-cases (ltb st.received_chunk_count st.chunk_count)) [
        | inl h ↦ rw h (
            with_entry-IsIncomplete s.assembly_table v.room_id room (some st) valid
              (w, ground arith))
        | inr h ↦ rw h (with_entry-IsIncomplete s.assembly_table v.room_id room none valid tt)
      ]

  place-IsValid :
      (s : Assembler A) (st : AssemblyState A) (v : ChunkView A) (events : List ChunkEvent)
      → IsValid s
      → HasSlots st
      → st.received_chunk_count < st.chunk_count
      → v.chunk_index < st.chunk_count
      → IsValid (place_chunk s st v events).assembler
  unfolding place_chunk
  place-IsValid s st v events valid w less h =
      elim (Bool-cases (get_or st.received_chunk_flag_list v.chunk_index 0 == 0)) [
        | inl e ↦
            rw e (
              finish-IsValid s (store_chunk st v) v _ valid
                (store-HasSlots st v w h (ground arith)))
        | inr e ↦ rw e (λ room.
            with_entry-IsIncomplete s.assembly_table v.room_id room (some st) valid (w, less))
      ]

  pub need_reset-false :
      (st : AssemblyState A) (v : ChunkView A)
      → need_reset st v ≡ false
      → (st.chunk_count ≢ 0) × (v.server_tick ≤ st.server_tick) × (v.chunk_count ≡ st.chunk_count)
  unfolding need_reset
  need_reset-false st v h = ground arith

  entry-HasSlots :
      (entry : Option (AssemblyState A))
      → (state_or_new entry).chunk_count ≢ 0
      → IsIncomplete entry
      → HasSlots (state_or_new entry)
        × ((state_or_new entry).received_chunk_count < (state_or_new entry).chunk_count)
  entry-HasSlots none h v = absurd (h refl)
  entry-HasSlots (some st) h v = v

  touch-HasSlots :
      (st : AssemblyState A) (now : ℕ)
      → HasSlots st
      → HasSlots (record st { last_updated_time = now })
  touch-HasSlots st now w = record {
    fits = w.fits;
    flags = w.flags;
    slots = w.slots;
    counted = w.counted;
  }

  collect-IsValid :
      (s : Assembler A) (v : ChunkView A) (now : ℕ)
      → IsValid s
      → v.chunk_count < u16_mod
      → v.chunk_index < v.chunk_count
      → IsValid (collect_chunk s v now).assembler
  unfolding collect_chunk
  collect-IsValid s v now valid fits h =
      let st = state_or_new (s.assembly_table v.room_id) in
      elim (Bool-cases (need_reset st v)) [
        | inl e ↦ rw e (
            place-IsValid s (begin_assembly v now) v _ valid (begin-HasSlots v now fits)
              (unfold begin_assembly in omega arith) (unfold begin_assembly in h))
        | inr e ↦
            let (some_chunks, tick, same) = need_reset-false st v e in
            let (w, less) =
              entry-HasSlots (s.assembly_table v.room_id) some_chunks (valid v.room_id) in
            elim (Bool-cases (ltb v.server_tick st.server_tick)) [
              | inl old ↦ rw (e, old) valid
              | inr old ↦
                  rw (e, old)
                    (place-IsValid s (record st { last_updated_time = now }) v [] valid
                      (touch-HasSlots st now w) less (omega (arith, same)))
            ]
      ]

  -- A push keeps the assembler valid: each assembly in the table has one slot and one flag for each of
  -- its chunks, counts the flags that are set, and still misses a chunk. The chunk count of a view is a
  -- 16-bit number.
  pub push_chunk-IsValid :
      (s : Assembler A) (v : ChunkView A) (now : ℕ)
      → IsValid s
      → v.chunk_count < u16_mod
      → IsValid (push_chunk s v now).assembler
  unfolding push_chunk
  push_chunk-IsValid s v now valid fits = ground (arith, collect-IsValid s v now valid fits)
