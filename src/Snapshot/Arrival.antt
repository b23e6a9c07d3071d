-- ===== src/Snapshot/Arrival.antt =====
-- The chunks of one snapshot in whatever order they arrive: SnapshotChunkAssemblerCore.h against the
-- list of the chunk indices that came in.
use windows_iocp_udp.Prelude.{
  ℕ, zero, suc, ◌+◌, ◌<◌, ◌≡◌, refl, sym, ap, ◌∙◌, Bool, true, false, ◌&&◌, leb, ◌==◌,
  if◌then◌else◌, List, [], ◌∷◌, contains, concat, get_or, set, Option, none, some, arith, All,
  Bool-cases, Option-cases, inl, inr,
}
use windows_iocp_udp.Prelude.Words.{u16_mod}
use windows_iocp_udp.Snapshot.{
  ChunkView, AssembledChunk, AssemblyState, Assembler, ChunkEvent, PushResult, or_zero, is_some,
  state_or_new, need_reset, begin_assembly, store_chunk, finish_chunk, place_chunk, collect_chunk,
  push_chunk, flatten_chunk_data_list, reset_assembly,
}
use windows_iocp_udp.Snapshot.Slots.{
  tab, tally, covers, mark, tab_ext, replicate-tab, get_or-tab, set-tab, tally-le, tally-none,
  tally-mark, covers-tally, covers-mark, tab-covers,
}

abbrev flag : Bool → ℕ
flag b = if b then 1 else 0

module _ {A : Type 0} (room tick count : ℕ) (chunk : ℕ → List A) where
  -- The view of the chunk with an index.
  abbrev pub view : ℕ → ChunkView A
  view index = record {
    room_id = room;
    server_tick = tick;
    chunk_index = index;
    chunk_count = count;
    data_list = chunk index;
  }

  -- The assembler after a list of arrivals, the last one first, each with its time.
  unfoldable pub after : Assembler A → List (ℕ × ℕ) → Assembler A
  after s [] = s
  after s ((index, now) ∷ past) = (push_chunk (after s past) (view index) now).assembler

  abbrev pub indices : List (ℕ × ℕ) → List ℕ
  indices [] = []
  indices ((index, now) ∷ past) = index ∷ indices past

  -- The assembly that holds the chunks that pass the test, and no other.
  pub record Holds (p : ℕ → Bool) (st : AssemblyState A) : Type 0 where
    pub ticked : st.server_tick ≡ tick
    pub sized : st.chunk_count ≡ count
    pub flags : st.received_chunk_flag_list ≡ tab (λ j. flag (p j)) 0 count
    pub slots : st.chunk_data_list ≡ tab (λ j. if p j then chunk j else []) 0 count
    pub counted : st.received_chunk_count ≡ tally p 0 count

  begin-Holds : (index now : ℕ) → Holds (λ j. false) (begin_assembly (view index) now)
  unfolding begin_assembly
  begin-Holds index now = record {
    ticked = refl;
    sized = refl;
    flags = replicate-tab 0 0 count;
    slots = replicate-tab [] 0 count;
    counted = sym (tally-none 0 count);
  }

  store-Holds :
      (p : ℕ → Bool) (st : AssemblyState A) (index : ℕ)
      → count < u16_mod
      → index < count
      → p index ≡ false
      → Holds p st
      → Holds (mark p index) (store_chunk st (view index))
  unfolding store_chunk
  store-Holds p st index fits h free w =
      let at_zero : 0 + index ≡ index = omega arith in
      let still_free : p (0 + index) ≡ false = ap p at_zero ∙ free in
      let one_more : tally (mark p index) 0 count ≡ tally p 0 count + 1 =
        ap (λ (k : ℕ). tally (mark p k) 0 count) (sym at_zero)
        ∙ tally-mark p 0 count index h still_free in
      record {
        ticked = w.ticked;
        sized = w.sized;
        flags =
            ap (λ fs. set fs index 1) w.flags
            ∙ set-tab (λ j. flag (p j)) 0 count index 1 h
            ∙ tab_ext _ _ 0 count (λ j q. ground arith);
        slots =
            ap (λ xs. set xs index (chunk index)) w.slots
            ∙ set-tab (λ j. if p j then chunk j else []) 0 count index (chunk index) h
            ∙ tab_ext _ _ 0 count (λ j q. ground (arith, ap chunk {x = j} {y = index}));
        counted = omega (arith, w.counted, one_more, tally-le (mark p index) 0 count);
      }

  -- The snapshot put together, and the outcome of the last chunk of a set.
  abbrev pub whole : AssembledChunk A
  whole = record { room_id = room; server_tick = tick; data_list = concat (tab chunk 0 count) }

  abbrev pub whole_if : Bool → Option (AssembledChunk A)
  whole_if complete = if complete then some whole else none

  finish-Holds :
      (s : Assembler A) (p : ℕ → Bool) (st : AssemblyState A) (index : ℕ) (events : List ChunkEvent)
      → Holds p st
      → ((finish_chunk s st (view index) events).assembled ≡ whole_if (covers p 0 count))
        × (covers p 0 count ≡ false
            → (finish_chunk s st (view index) events).assembler.assembly_table room ≡ some st)
        × (covers p 0 count ≡ false
            → (finish_chunk s st (view index) events).assembler.last_applied_tick_table
              ≡ s.last_applied_tick_table)
  unfolding finish_chunk flatten_chunk_data_list
  finish-Holds s p st index events w = ground (
    arith,
    w.ticked,
    w.sized,
    w.counted,
    w.slots,
    covers-tally p 0 count,
    tally-le p 0 count,
    tab-covers p chunk [] 0 count,
    ap concat {x = st.chunk_data_list} {y = tab chunk 0 count},
  )

  -- The assembly in progress holds exactly these chunks, and the applied ticks are those of `s`.
  abbrev pub InProgress : Assembler A → (ℕ → Bool) → Assembler A → Type 0
  InProgress s p s' =
      ((st : AssemblyState A) × (s'.assembly_table room ≡ some st) × Holds p st)
      × (s'.last_applied_tick_table ≡ s.last_applied_tick_table)

  abbrev Outcome : Assembler A → (ℕ → Bool) → PushResult A → Type 0
  Outcome s p r =
      (r.assembled ≡ whole_if (covers p 0 count))
      × (covers p 0 count ≡ false → InProgress s p r.assembler)

  mark_again : (p : ℕ → Bool) (index : ℕ) → p index ≡ true → mark p index ≡ p
  mark_again p index h = λ i j. pointwise j i
    where
      pointwise : (j : ℕ) → mark p index j ≡ p j
      pointwise j = ground (arith, ap p {x = j} {y = index})

  place-Outcome :
      (s : Assembler A) (p : ℕ → Bool) (st : AssemblyState A) (index : ℕ) (events : List ChunkEvent)
      → count < u16_mod
      → index < count
      → covers p 0 count ≡ false
      → Holds p st
      → Outcome s (mark p index) (place_chunk s st (view index) events)
  unfolding place_chunk
  place-Outcome s p st index events fits h missing w =
      let read : get_or st.received_chunk_flag_list index 0 ≡ flag (p (0 + index)) =
        ap (λ fs. get_or fs index 0) w.flags ∙ get_or-tab (λ j. flag (p j)) 0 count index 0 h in
      let at_zero : 0 + index ≡ index = omega arith in
      let seen : get_or st.received_chunk_flag_list index 0 ≡ flag (p index) =
        read ∙ ap (λ (k : ℕ). flag (p k)) at_zero in
      elim (Bool-cases (p index)) [
        | inl held ↦
            let again = mark_again p index held in
            let zero_not : (get_or st.received_chunk_flag_list index 0 == 0) ≡ false =
              ground arith in
            rw (zero_not, again, missing) (refl, λ u. ((st, ground arith, w), refl))
        | inr free ↦
            let is_zero : (get_or st.received_chunk_flag_list index 0 == 0) ≡ true = ground arith in
            let stored = store-Holds p st index fits h free w in
            let (result, table, ticks) =
              finish-Holds s (mark p index) (store_chunk st (view index)) index _ stored in
            rw is_zero (result, λ u. ((store_chunk st (view index), table u, stored), ticks u))
      ]

  -- The room has applied no tick that is as new, and is not at work on one.
  pub record IsAhead (s : Assembler A) : Type 0 where
    pub unapplied :
        (is_some (s.last_applied_tick_table room)
          && leb tick (or_zero (s.last_applied_tick_table room)))
        ≡ false
    pub older : (st : AssemblyState A) → s.assembly_table room ≡ some st → st.server_tick < tick

  resets :
      (s : Assembler A) (index : ℕ)
      → IsAhead s
      → need_reset (state_or_new (s.assembly_table room)) (view index) ≡ true
  unfolding need_reset
  resets s index ahead = elim (Option-cases (s.assembly_table room)) [
    | inl e ↦ rw e refl
    | inr (st, e) ↦ ground (arith, ahead.older st e)
  ]

  first-Outcome :
      (s : Assembler A) (index now : ℕ)
      → count < u16_mod
      → index < count
      → IsAhead s
      → Outcome s (mark (λ j. false) index) (push_chunk s (view index) now)
  unfolding push_chunk collect_chunk
  first-Outcome s index now fits h ahead =
      let missing : covers (λ j. false) 0 count ≡ false = uncovered count (omega arith) in
      ground (
        arith,
        ahead.unapplied,
        resets s index ahead,
        place-Outcome s (λ j. false) (begin_assembly (view index) now) index (reset_assembly ∷ [])
            fits h missing (begin-Holds index now),
      )
    where
      uncovered : (n : ℕ) → 0 < n → covers (λ j. false) 0 n ≡ false
      uncovered zero q = absurd (omega arith)
      uncovered (suc n) q = refl

  next-Outcome :
      (s s' : Assembler A) (p : ℕ → Bool) (index now : ℕ)
      → count < u16_mod
      → index < count
      → IsAhead s
      → covers p 0 count ≡ false
      → InProgress s p s'
      → Outcome s (mark p index) (push_chunk s' (view index) now)
  unfolding push_chunk collect_chunk need_reset
  next-Outcome s s' p index now fits h ahead missing ((st, e, w), ticks) =
      let touched : AssemblyState A = record st { last_updated_time = now } in
      let same : Holds p touched = record {
        ticked = w.ticked;
        sized = w.sized;
        flags = w.flags;
        slots = w.slots;
        counted = w.counted;
      } in
      ground (
        arith,
        ahead.unapplied,
        w.ticked,
        w.sized,
        place-Outcome s' p touched index [] fits h missing same,
      )

  abbrev pub arrived : List (ℕ × ℕ) → ℕ → Bool
  arrived past j = contains j (indices past)

  -- One push after any arrivals that leave the snapshot incomplete.
  push-Outcome :
      (s : Assembler A) (past : List (ℕ × ℕ)) (index now : ℕ)
      → count < u16_mod
      → IsAhead s
      → All (λ j. j < count) (index ∷ indices past)
      → covers (arrived past) 0 count ≡ false
      → Outcome s (mark (arrived past) index) (push_chunk (after s past) (view index) now)
  unfolding after
  push-Outcome s [] index now fits ahead below missing =
      first-Outcome s index now fits below.0 ahead
  push-Outcome s ((last, time) ∷ past) index now fits ahead below missing =
      let before = covers-mark (arrived past) last 0 count missing in
      let (result, more) = push-Outcome s past last time fits ahead below.1 before in
      next-Outcome s (after s ((last, time) ∷ past)) (arrived ((last, time) ∷ past)) index now fits
        below.0 ahead missing (more missing)

  -- Order does not matter: after chunks of a snapshot came in that do not complete it yet, in any order, at
  -- any times and some of them repeatedly, the next chunk puts the snapshot together exactly when all chunks
  -- have then come in, and the result is the data of the chunks in the order of their indices. Before, the
  -- room has not applied a tick as new and is not at work on one; the indices are below the chunk count,
  -- which is a 16-bit number.
  pub assembled-after :
      (s : Assembler A) (past : List (ℕ × ℕ)) (index now : ℕ)
      → count < u16_mod
      → IsAhead s
      → All (λ j. j < count) (index ∷ indices past)
      → covers (arrived past) 0 count ≡ false
      → (push_chunk (after s past) (view index) now).assembled
        ≡ (if covers (arrived ((index, now) ∷ past)) 0 count then some whole else none)
  assembled-after s past index now fits ahead below missing =
      (push-Outcome s past index now fits ahead below missing).0
