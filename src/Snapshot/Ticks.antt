-- ===== src/Snapshot/Ticks.antt =====
-- The ticks that SnapshotChunkAssemblerCore.h applies, and which chunks it drops.
use windows_iocp_udp.Prelude.{
  ℕ, ◌≤◌, ◌<◌, ◌≡◌, ◌≢◌, refl, true, ltb, ◌==◌, List, [], get_or, replicate, none, some, arith,
  Bool-cases, Option-cases, ◌⊎◌, inl, inr, zero, suc,
}
use windows_iocp_udp.Snapshot.{
  ChunkView, AssembledChunk, AssemblyState, Assembler, ChunkEvent, PushResult, or_zero,
  state_or_new, need_reset, begin_assembly, store_chunk, finish_chunk, place_chunk, collect_chunk,
  push_chunk,
}
use windows_iocp_udp.Snapshot.Invariant.{need_reset-false}

module _ {ℓ} {A : Type ℓ} where
  -- A push of the chunk of one room leaves the others alone, and an applied tick is the chunk's.
  pub record Applies (s : Assembler A) (v : ChunkView A) (r : PushResult A) : Type ℓ where
    pub others :
        (room : ℕ)
        → room ≢ v.room_id
        → (r.assembler.assembly_table room ≡ s.assembly_table room)
          × (r.assembler.last_applied_tick_table room ≡ s.last_applied_tick_table room)
    pub kept :
        r.assembled ≡ none
        → (room : ℕ) → r.assembler.last_applied_tick_table room ≡ s.last_applied_tick_table room
    pub applied :
        (a : AssembledChunk A)
        → r.assembled ≡ some a
        → (a.room_id ≡ v.room_id)
          × (a.server_tick ≡ v.server_tick)
          × (r.assembler.assembly_table v.room_id ≡ none)
          × (r.assembler.last_applied_tick_table v.room_id ≡ some v.server_tick)

  finish-Applies :
      (s : Assembler A) (st : AssemblyState A) (v : ChunkView A) (events : List ChunkEvent)
      → st.server_tick ≡ v.server_tick
      → Applies s v (finish_chunk s st v events)
  unfolding finish_chunk
  finish-Applies s st v events e = record {
    others = λ room h. ground arith;
    kept = λ h room. ground arith;
    applied = λ a h. ground arith;
  }

  place-Applies :
      (s : Assembler A) (st : AssemblyState A) (v : ChunkView A) (events : List ChunkEvent)
      → st.server_tick ≡ v.server_tick
      → Applies s v (place_chunk s st v events)
  unfolding place_chunk store_chunk
  place-Applies s st v events e =
      elim (Bool-cases (get_or st.received_chunk_flag_list v.chunk_index 0 == 0)) [
        | inl h ↦ rw h (finish-Applies s (store_chunk st v) v _ e)
        | inr h ↦ rw h (record {
          others = λ room u. ground arith;
          kept = λ u room. refl;
          applied = λ a u. ground arith;
        })
      ]

  kept-Applies :
      (s : Assembler A) (v : ChunkView A) (events : List ChunkEvent)
      → Applies s v (record { assembled = none; events = events; assembler = s })
  kept-Applies s v events = record {
    others = λ room u. (refl, refl);
    kept = λ u room. refl;
    applied = λ a u. ground arith;
  }

  collect-Applies :
      (s : Assembler A) (v : ChunkView A) (now : ℕ) → Applies s v (collect_chunk s v now)
  unfolding collect_chunk
  collect-Applies s v now =
      let st = state_or_new (s.assembly_table v.room_id) in
      elim (Bool-cases (need_reset st v)) [
        | inl e ↦ rw e (place-Applies s (begin_assembly v now) v _ (unfold begin_assembly in refl))
        | inr e ↦
            let (some_chunks, tick, same) = need_reset-false st v e in
            elim (Bool-cases (ltb v.server_tick st.server_tick)) [
              | inl old ↦ rw (e, old) (kept-Applies s v _)
              | inr old ↦
                  rw (e, old)
                    (place-Applies s (record st { last_updated_time = now }) v [] (ground arith))
            ]
      ]

  push-Applies : (s : Assembler A) (v : ChunkView A) (now : ℕ) → Applies s v (push_chunk s v now)
  unfolding push_chunk
  push-Applies s v now = ground (arith, collect-Applies s v now, kept-Applies s v)

  -- What an assembled snapshot says: it is of the chunk's room and tick, the room's assembly is gone, and
  -- the tick is now the one applied, no lower than the one applied before.
  assembled-push_chunk :
      (s : Assembler A) (v : ChunkView A) (now : ℕ) (a : AssembledChunk A)
      → (push_chunk s v now).assembled ≡ some a
      → (a.room_id ≡ v.room_id)
        × (a.server_tick ≡ v.server_tick)
        × ((push_chunk s v now).assembler.assembly_table v.room_id ≡ none)
        × ((push_chunk s v now).assembler.last_applied_tick_table v.room_id ≡ some v.server_tick)
        × (or_zero (s.last_applied_tick_table v.room_id) ≤ v.server_tick)
  assembled-push_chunk s v now a e =
      let (room, tick, gone, applied) = (push-Applies s v now).applied a e in
      (room, tick, gone, applied, unfold push_chunk in ground arith)

  -- The applied tick of a room never goes back, whatever chunk of whatever room is pushed.
  pub applied_tick-push_chunk :
      (s : Assembler A) (v : ChunkView A) (now room : ℕ)
      → or_zero (s.last_applied_tick_table room)
        ≤ or_zero ((push_chunk s v now).assembler.last_applied_tick_table room)
  applied_tick-push_chunk s v now room =
      let r = push_chunk s v now in
      elim (Option-cases r.assembled) [
        | inl e ↦ ground (arith, (push-Applies s v now).kept e room)
        | inr (a, e) ↦
            let (id, tick, gone, applied, before) = assembled-push_chunk s v now a e in
            ground (arith, (push-Applies s v now).others room)
      ]

  -- A chunk below the applied tick, or at it while the room has no assembly, changes nothing.
  pub stale-push_chunk :
      (s : Assembler A) (v : ChunkView A) (now applied : ℕ)
      → s.last_applied_tick_table v.room_id ≡ some applied
      → (v.server_tick < applied)
        ⊎ ((v.server_tick ≡ applied) × (s.assembly_table v.room_id ≡ none))
      → ((push_chunk s v now).assembled ≡ none) × ((push_chunk s v now).assembler ≡ s)
  unfolding push_chunk
  stale-push_chunk s v now applied e old = ground arith

  -- A chunk of an older tick whose chunk count differs from that of the assembly in progress throws the
  -- newer assembly away and starts one of its own tick, as long as it is no older than the applied tick
  -- and its snapshot has more than one chunk.
  pub older_chunk_restarts :
      (s : Assembler A) (v : ChunkView A) (now : ℕ) (st : AssemblyState A)
      → s.assembly_table v.room_id ≡ some st
      → v.server_tick < st.server_tick
      → v.chunk_count ≢ st.chunk_count
      → or_zero (s.last_applied_tick_table v.room_id) ≤ v.server_tick
      → v.chunk_index < v.chunk_count
      → 1 < v.chunk_count
      → (push_chunk s v now).assembler.assembly_table v.room_id
        ≡ some (store_chunk (begin_assembly v now) v)
  unfolding push_chunk collect_chunk need_reset place_chunk finish_chunk store_chunk begin_assembly
  older_chunk_restarts s v now st e old differs applied index several =
      ground (arith, clean v.chunk_count v.chunk_index)
    where
      clean : (n i : ℕ) → (get_or (replicate {A = ℕ} n 0) i 0 == 0) ≡ true
      clean zero i = refl
      clean (suc n) zero = refl
      clean (suc n) (suc i) = clean n i
