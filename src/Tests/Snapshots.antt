-- ===== src/Tests/Snapshots.antt =====
-- The laws of SnapshotChunkAssemblerCore.h on a snapshot of two chunks.
use windows_iocp_udp.Prelude.{ℕ, ◌+◌, ◌≤◌, ◌≡◌, refl, List, [], ◌∷◌, none, some, arith}
use windows_iocp_udp.Snapshot.{
  Assembler, AssemblyState, AssembledChunk, ChunkView, push_chunk, or_zero, begin_assembly,
  store_chunk,
}
use windows_iocp_udp.Snapshot.Invariant.{IsValid, push_chunk-IsValid}
use windows_iocp_udp.Snapshot.Ticks.{applied_tick-push_chunk, older_chunk_restarts}
use windows_iocp_udp.Snapshot.Arrival.{view, after, IsAhead, assembled-after}

abbrev nothing : Assembler ℕ
nothing = record { assembly_table = λ room. none; last_applied_tick_table = λ room. some 8 }

abbrev chunk : ℕ → List ℕ
chunk j = (j + 40) ∷ []

nothing-IsValid : IsValid nothing
nothing-IsValid room = tt

nothing-IsAhead : IsAhead 1 9 2 chunk nothing
nothing-IsAhead = record { unapplied = refl; older = λ st e. ground arith }

assembled-after_example :
    (push_chunk
      (after 1 9 2 chunk nothing ((1, 61) ∷ (1, 60) ∷ []))
      (view 1 9 2 chunk 0)
      62).assembled
    ≡ some (record { room_id = 1; server_tick = 9; data_list = 40 ∷ 41 ∷ [] })
assembled-after_example =
    assembled-after 1 9 2 chunk nothing ((1, 61) ∷ (1, 60) ∷ []) 0 62 (omega arith) nothing-IsAhead
      (omega arith, (omega arith, (omega arith, tt))) refl

abbrev single : ℕ → ChunkView ℕ
single tick = record {
  room_id = 1;
  server_tick = tick;
  chunk_index = 0;
  chunk_count = 1;
  data_list = 7 ∷ [];
}

push_chunk-IsValid_example : IsValid (push_chunk nothing (single 9) 60).assembler
push_chunk-IsValid_example = push_chunk-IsValid nothing (single 9) 60 nothing-IsValid (omega arith)

abbrev single_whole : AssembledChunk ℕ
single_whole = record { room_id = 1; server_tick = 9; data_list = 7 ∷ [] }

applied_tick-push_chunk_example :
    8 ≤ or_zero ((push_chunk nothing (single 9) 60).assembler.last_applied_tick_table 1)
applied_tick-push_chunk_example = applied_tick-push_chunk nothing (single 9) 60 1

abbrev half_done : AssemblyState ℕ
half_done = record {
  server_tick = 12;
  chunk_count = 3;
  received_chunk_count = 1;
  received_chunk_flag_list = 1 ∷ 0 ∷ 0 ∷ [];
  chunk_data_list = (5 ∷ []) ∷ [] ∷ [] ∷ [];
  last_updated_time = 50;
}

abbrev at_work : Assembler ℕ
at_work = record {
  assembly_table = λ room. some half_done;
  last_applied_tick_table = λ room. some 8;
}

older_chunk_restarts_example :
    (push_chunk at_work (view 1 9 2 chunk 0) 60).assembler.assembly_table 1
    ≡ some (store_chunk (begin_assembly (view 1 9 2 chunk 0) 60) (view 1 9 2 chunk 0))
older_chunk_restarts_example =
    older_chunk_restarts at_work (view 1 9 2 chunk 0) 60 half_done refl (omega arith) (omega arith)
      (omega arith) (omega arith) (omega arith)
