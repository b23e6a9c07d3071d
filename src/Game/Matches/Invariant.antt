-- ===== src/Game/Matches/Invariant.antt =====
-- The matches under way of MatchHistoryTracker.cpp: each has a player in it, and a score for each player in
-- it.
use windows_iocp_udp.Prelude.{
  ℕ, ◌≡◌, refl, sym, ap, ◌∙◌, Bool, true, false, not, ◌&&◌, ◌||◌, List, [], ◌∷◌, Option, none, some,
  arith, Option-cases, Bool-cases, inl, inr,
}
use windows_iocp_udp.Prelude.Int.{ℤ, is_positive, same_id}
use windows_iocp_udp.Prelude.Table.{
  find, put, find-put, find-same, nat_key, int_key, AllValues, AllValues-put, AllValues-find,
  AllValues-erase,
}
use windows_iocp_udp.Game.Simulation.{KillEvent}
use windows_iocp_udp.Game.Matches.{
  MatchPlayerStats, ActiveMatch, MatchHistoryTracker, StatsTable, is_positive_room, is_active,
  erase_player, new_stats, stats_or_new, enter_player, leave_match, leave_player, killed, died,
  score_kill, record_kill, complete_all, extract_completed_matches, clear,
}

abbrev pub has_score : Option MatchPlayerStats → Bool
has_score none = false
has_score (some s) = true

abbrev pub all_scored : StatsTable → List ℤ → Bool
all_scored table [] = true
all_scored table (p ∷ ps) = has_score (find table p) && all_scored table ps

abbrev pub has_player : List ℤ → Bool
has_player [] = false
has_player (p ∷ ps) = true

abbrev pub IsPlayed : ActiveMatch → Type 0
IsPlayed m =
    (has_player m.active_player_set ≡ true)
    × (all_scored m.player_stats_table m.active_player_set ≡ true)

abbrev pub AllPlayed : MatchHistoryTracker → Type 0
AllPlayed t = AllValues IsPlayed t.active_match_table

-- The operations of the tracker.
pub data Operation : Type 0 where
  enter : ℕ → ℤ → ℕ → Operation
  leave : ℕ → ℤ → ℕ → Operation
  kill : KillEvent → Operation
  complete : ℕ → Operation
  extract reset : Operation

abbrev pub run_operation : Operation → MatchHistoryTracker → MatchHistoryTracker
run_operation (enter room player now) t = (enter_player t room player now).1
run_operation (leave room player now) t = (leave_player t room player now).1
run_operation (kill e) t = (record_kill t e).1
run_operation (complete now) t = complete_all t now
run_operation extract t = (extract_completed_matches t).1
run_operation reset t = clear t

abbrev pub run_operations : List Operation → MatchHistoryTracker → MatchHistoryTracker
run_operations [] t = t
run_operations (o ∷ os) t = run_operations os (run_operation o t)

all_scored-put :
    (table : StatsTable) (player : ℤ) (s : MatchPlayerStats) (ps : List ℤ)
    → all_scored table ps ≡ true
    → all_scored (put table player s) ps ≡ true
all_scored-put table player s [] h = refl
all_scored-put table player s (p ∷ ps) h =
    ground (arith, find-put table player p s, all_scored-put table player s ps)

all_scored-erase :
    (table : StatsTable) (player : ℤ) (ps : List ℤ)
    → all_scored table ps ≡ true
    → all_scored table (erase_player player ps) ≡ true
all_scored-erase table player [] h = refl
all_scored-erase table player (p ∷ ps) h = ground (arith, all_scored-erase table player ps)

-- What an active player's score is found as.
pub score_of_active :
    (table : StatsTable) (player : ℤ) (ps : List ℤ)
    → all_scored table ps ≡ true
    → is_active player ps ≡ true
    → has_score (find table player) ≡ true
score_of_active table player [] h a = absurd (ground arith)
score_of_active table player (p ∷ ps) h a = elim (Bool-cases (same_id p player)) [
  | inl s ↦ ground (arith, find-same table p player s)
  | inr s ↦ score_of_active table player ps (ground arith) (ground arith)
]

stats_or_new-scored :
    (table : StatsTable) (player : ℤ) (ps : List ℤ)
    → all_scored table ps ≡ true
    → all_scored (stats_or_new (find table player) table player) (player ∷ ps) ≡ true
stats_or_new-scored table player ps h = elim (Option-cases (find table player)) [
  | inl e ↦ ground (
    arith,
    e,
    find-put table player player (new_stats player),
    all_scored-put table player (new_stats player) ps h,
  )
  | inr (s, e) ↦ ground (arith, e)
]

score_kill-scored :
    (table scored : StatsTable) (killer victim : ℤ) (ps : List ℤ)
    → score_kill table killer victim ≡ some scored
    → all_scored table ps ≡ true
    → all_scored scored ps ≡ true
unfolding score_kill
score_kill-scored table scored killer victim ps e h = elim (Option-cases (find table killer)) [
  | inl gone ↦ absurd (ground arith)
  | inr (k, there) ↦
      let once = put table killer (killed k) in
      elim (Option-cases (find once victim)) [
        | inl gone ↦ absurd (ground arith)
        | inr (v, found) ↦
            let kept =
              all_scored-put once victim (died v) ps
                (all_scored-put table killer (killed k) ps h) in
            ground (arith, kept)
      ]
]

module _ (t : MatchHistoryTracker) (h : AllPlayed t) where
  enter_player-AllPlayed :
      (room : ℕ) (player : ℤ) (now : ℕ) → AllPlayed (enter_player t room player now).1
  unfolding enter_player
  enter_player-AllPlayed room player now =
      elim (Bool-cases (not (is_positive_room room) || not (is_positive player))) [
        | inl bad ↦ rw (bad, enter_player) h
        | inr good ↦ elim (Option-cases (find t.active_match_table room)) [
          | inl new ↦
              rw (good, new, enter_player)
                (AllValues-put IsPlayed t.active_match_table room _ h
                  (refl, stats_or_new-scored [] player [] refl))
          | inr (m, e) ↦
              let played = AllValues-find IsPlayed t.active_match_table room m h e in
              elim (Bool-cases (is_active player m.active_player_set)) [
                | inl there ↦
                    rw (good, e, there, enter_player)
                      (AllValues-put IsPlayed t.active_match_table room m h played)
                | inr away ↦
                    rw (good, e, away, enter_player)
                      (AllValues-put IsPlayed t.active_match_table room _ h (
                        refl,
                        stats_or_new-scored m.player_stats_table player m.active_player_set
                            played.1,
                      ))
              ]
        ]
      ]

  leave_match-AllPlayed :
      (room : ℕ) (m : ActiveMatch) (player : ℤ) (now : ℕ) (left : List ℤ)
      → erase_player player m.active_player_set ≡ left
      → IsPlayed m
      → AllPlayed (leave_match t room m player now)
  unfolding leave_match
  leave_match-AllPlayed room m player now [] e played =
      rw (e, leave_match) (AllValues-erase IsPlayed t.active_match_table room h)
  leave_match-AllPlayed room m player now (p ∷ ps) e played =
      let kept =
        ap (all_scored m.player_stats_table) (sym e)
        ∙ all_scored-erase m.player_stats_table player m.active_player_set played.1 in
      rw (e, leave_match) (AllValues-put IsPlayed t.active_match_table room _ h (refl, kept))

  leave_player-AllPlayed :
      (room : ℕ) (player : ℤ) (now : ℕ) → AllPlayed (leave_player t room player now).1
  unfolding leave_player
  leave_player-AllPlayed room player now =
      elim (Bool-cases (not (is_positive_room room) || not (is_positive player))) [
        | inl bad ↦ rw (bad, leave_player) h
        | inr good ↦ elim (Option-cases (find t.active_match_table room)) [
          | inl new ↦ rw (good, new, leave_player) h
          | inr (m, e) ↦ elim (Bool-cases (is_active player m.active_player_set)) [
            | inr away ↦ rw (good, e, away, leave_player) h
            | inl there ↦
                rw (good, e, there, leave_player)
                  (leave_match-AllPlayed room m player now _ refl
                    (AllValues-find IsPlayed t.active_match_table room m h e))
          ]
        ]
      ]

  record_kill-AllPlayed : (e : KillEvent) → AllPlayed (record_kill t e).1
  unfolding record_kill
  record_kill-AllPlayed e =
      let bad =
        not (is_positive_room e.room_id)
        || not (is_positive e.killer_persistent_player_id)
        || not (is_positive e.victim_persistent_player_id) in
      elim (Bool-cases bad) [
        | inl b ↦ rw (b, record_kill) h
        | inr good ↦ elim (Option-cases (find t.active_match_table e.room_id)) [
          | inl new ↦ rw (good, new, record_kill) h
          | inr (m, there) ↦
              let played = AllValues-find IsPlayed t.active_match_table e.room_id m h there in
              let scores =
                score_kill m.player_stats_table e.killer_persistent_player_id
                  e.victim_persistent_player_id in
              elim (Option-cases scores) [
                | inl none_left ↦ rw (good, there, none_left, record_kill) h
                | inr (s, found) ↦
                    rw (good, there, found, record_kill)
                      (AllValues-put IsPlayed t.active_match_table e.room_id _ h (
                        played.0,
                        score_kill-scored m.player_stats_table s e.killer_persistent_player_id
                            e.victim_persistent_player_id m.active_player_set found played.1,
                      ))
              ]
        ]
      ]

operation-AllPlayed :
    (o : Operation) (t : MatchHistoryTracker) → AllPlayed t → AllPlayed (run_operation o t)
unfolding complete_all extract_completed_matches clear
operation-AllPlayed (enter room player now) t h = enter_player-AllPlayed t h room player now
operation-AllPlayed (leave room player now) t h = leave_player-AllPlayed t h room player now
operation-AllPlayed (kill e) t h = record_kill-AllPlayed t h e
operation-AllPlayed (complete now) t h = tt
operation-AllPlayed extract t h = h
operation-AllPlayed reset t h = tt

-- However players enter and leave, kill and are killed, and matches are completed and extracted: each match
-- under way has a player in it, and a score for each player in it.
pub operations-AllPlayed :
    (os : List Operation) (t : MatchHistoryTracker) → AllPlayed t → AllPlayed (run_operations os t)
operations-AllPlayed [] t h = h
operations-AllPlayed (o ∷ os) t h =
    operations-AllPlayed os (run_operation o t) (operation-AllPlayed o t h)
