-- ===== src/Game/Matches/Scores.antt =====
-- What a kill does to the scores of MatchHistoryTracker.cpp.
use windows_iocp_udp.Prelude.{
  ℕ, ◌≡◌, ◌⊎◌, refl, sym, ◌∙◌, Bool, true, false, not, ◌&&◌, ◌||◌, ◌==◌, if◌then◌else◌, [], Option,
  none, some, arith, Option-cases, Bool-cases, inl, inr,
}
use windows_iocp_udp.Prelude.Int.{ℤ, is_positive, same_id}
use windows_iocp_udp.Prelude.Words.{add32}
use windows_iocp_udp.Prelude.Table.{
  find, put, find-put, find-same, nat_key, int_key, AllValues-find,
}
use windows_iocp_udp.Game.Simulation.{KillEvent}
use windows_iocp_udp.Game.Matches.{
  MatchPlayerStats, ActiveMatch, MatchHistoryTracker, StatsTable, is_positive_room, is_active,
  players_of, killed, died, score_kill, record_kill,
}
use windows_iocp_udp.Game.Matches.Invariant.{AllPlayed, IsPlayed, score_of_active}

abbrev pub kills_and_deaths : Option MatchPlayerStats → Option (ℕ × ℕ)
kills_and_deaths none = none
kills_and_deaths (some s) = some (s.kill_count, s.death_count)

abbrev pub stats_of : Option ActiveMatch → StatsTable
stats_of none = []
stats_of (some m) = m.player_stats_table

-- The score of a player in the match of a room, where there is one.
abbrev pub score_at : MatchHistoryTracker → ℕ → ℤ → Option (ℕ × ℕ)
score_at t room player = kills_and_deaths (find (stats_of (find t.active_match_table room)) player)

abbrev pub counted_kill : Bool → Bool → Option (ℕ × ℕ) → Option (ℕ × ℕ)
counted_kill kills dies none = none
counted_kill kills dies (some (kill_count, death_count)) = some (
  if kills then add32 kill_count 1 else kill_count,
  if dies then add32 death_count 1 else death_count,
)

score_kill-scores :
    (table scored : StatsTable) (killer victim player : ℤ)
    → score_kill table killer victim ≡ some scored
    → kills_and_deaths (find scored player)
      ≡ counted_kill
          (same_id killer player)
          (same_id victim player)
          (kills_and_deaths (find table player))
unfolding score_kill
score_kill-scores table scored killer victim player e = elim (Option-cases (find table killer)) [
  | inl gone ↦ absurd (ground arith)
  | inr (k, there) ↦
      let once = put table killer (killed k) in
      elim (Option-cases (find once victim)) [
        | inl gone ↦ absurd (ground arith)
        | inr (v, found) ↦ ground (
          arith,
          find-put once victim player (died v),
          find-put table killer player (killed k),
          find-put table killer victim (killed k),
          find-same table killer player,
          find-same once victim player,
          find-same table victim player,
        )
      ]
]

-- How a kill changes the score of a player in the match of a room.
counted-scores :
    (t : MatchHistoryTracker) (e : KillEvent) (room : ℕ) (player : ℤ)
    → let r = record_kill t e in
      let here = r.0 && e.room_id == room in
      score_at r.1 room player
      ≡ counted_kill
          (here && same_id e.killer_persistent_player_id player)
          (here && same_id e.victim_persistent_player_id player)
          (score_at t room player)
unfolding record_kill
counted-scores t e room player =
    let bad =
      not (is_positive_room e.room_id)
      || not (is_positive e.killer_persistent_player_id)
      || not (is_positive e.victim_persistent_player_id) in
    let same = unchanged (score_at t room player) in
    elim (Bool-cases bad) [
      | inl b ↦ rw (b, record_kill) same
      | inr good ↦ elim (Option-cases (find t.active_match_table e.room_id)) [
        | inl new ↦ rw (good, new, record_kill) same
        | inr (m, there) ↦
            let scores =
              score_kill m.player_stats_table e.killer_persistent_player_id
                e.victim_persistent_player_id in
            elim (Option-cases scores) [
              | inl none_left ↦ rw (good, there, none_left, record_kill) same
              | inr (s, found) ↦
                  rw (good, there, found, record_kill)
                    (recorded m s there (
                      score_kill-scores m.player_stats_table s e.killer_persistent_player_id
                        e.victim_persistent_player_id player found))
            ]
      ]
    ]
  where
    unchanged : (s : Option (ℕ × ℕ)) → s ≡ counted_kill false false s
    unchanged none = refl
    unchanged (some s) = refl

    recorded :
        (m : ActiveMatch) (s : StatsTable)
        → find t.active_match_table e.room_id ≡ some m
        → kills_and_deaths (find s player)
          ≡ counted_kill
              (same_id e.killer_persistent_player_id player)
              (same_id e.victim_persistent_player_id player)
              (kills_and_deaths (find m.player_stats_table player))
        → kills_and_deaths (
            find
              (stats_of (
                find
                  (put t.active_match_table e.room_id (record m { player_stats_table = s }))
                  room))
              player)
          ≡ counted_kill
              (e.room_id == room && same_id e.killer_persistent_player_id player)
              (e.room_id == room && same_id e.victim_persistent_player_id player)
              (score_at t room player)
    recorded m s there h =
        let next = record m { player_stats_table = s } in
        let put_here = find-put t.active_match_table e.room_id room next in
        elim (Bool-cases (e.room_id == room)) [
          | inl here ↦
              let at = sym (find-same t.active_match_table e.room_id room here) ∙ there in
              rw (put_here, here, at) h
          | inr away ↦ rw (put_here, away) (unchanged (score_at t room player))
        ]

abbrev pub has_score : Option (ℕ × ℕ) → Bool
has_score none = false
has_score (some s) = true

-- The ids of a kill are positive, and the match of its room has a score for the killer and for the victim.
abbrev pub is_countable : MatchHistoryTracker → KillEvent → Bool
is_countable t e =
    is_positive_room e.room_id
    && is_positive e.killer_persistent_player_id
    && is_positive e.victim_persistent_player_id
    && has_score (score_at t e.room_id e.killer_persistent_player_id)
    && has_score (score_at t e.room_id e.victim_persistent_player_id)

score_kill_cases :
    (table : StatsTable) (killer victim : ℤ)
    → let found =
        has_score (kills_and_deaths (find table killer))
        && has_score (kills_and_deaths (find table victim)) in
      ((score_kill table killer victim ≡ none) × (found ≡ false))
      ⊎ ((scored : StatsTable) × (score_kill table killer victim ≡ some scored) × (found ≡ true))
unfolding score_kill
score_kill_cases table killer victim = elim (Option-cases (find table killer)) [
  | inl gone ↦ inl (ground (arith, gone), ground (arith, gone))
  | inr (k, there) ↦ elim (Option-cases (find table victim)) [
    | inl gone ↦ inl (ground (arith, there, gone), ground (arith, there, gone))
    | inr (v, too) ↦ elim (Option-cases (find (put table killer (killed k)) victim)) [
      | inl lost ↦ absurd (ground (arith, too, lost, find-put table killer victim (killed k)))
      | inr (v', found) ↦ inr (
        put (put table killer (killed k)) victim (died v'),
        ground (arith, there, too, found),
        ground (arith, there, too),
      )
    ]
  ]
]

recorded_or_same :
    (t : MatchHistoryTracker) (e : KillEvent)
    → ((record_kill t e).0 ≡ is_countable t e)
      × (((record_kill t e).0 ≡ true) ⊎ ((record_kill t e).1 ≡ t))
unfolding record_kill
recorded_or_same t e = elim (Option-cases (find t.active_match_table e.room_id)) [
  | inl new ↦ (ground (arith, new), inr (ground (arith, new)))
  | inr (m, there) ↦
      elim (score_kill_cases m.player_stats_table e.killer_persistent_player_id
        e.victim_persistent_player_id) [
          | inl (none_left, unscored) ↦
              (ground (arith, there, none_left, unscored), inr (ground (arith, there, none_left)))
          | inr (scored, found, both) ↦
              (ground (arith, there, found, both), ground (arith, there, found))
        ]
]

-- A kill is recorded exactly when its ids are positive and the match of its room has a score for the killer
-- and for the victim. One that is recorded counts as a kill of the killer and as a death of the victim in
-- that match, also when both are the same player, and changes no other score; one that is not changes
-- nothing in the tracker.
pub record_kill-scores :
    (t : MatchHistoryTracker) (e : KillEvent) (room : ℕ) (player : ℤ)
    → let r = record_kill t e in
      let here = r.0 && e.room_id == room in
      (r.0 ≡ is_countable t e)
      × ((r.0 ≡ true) ⊎ (r.1 ≡ t))
      × (score_at r.1 room player
          ≡ counted_kill
              (here && same_id e.killer_persistent_player_id player)
              (here && same_id e.victim_persistent_player_id player)
              (score_at t room player))
record_kill-scores t e room player =
    let (recorded, kept) = recorded_or_same t e in (recorded, kept, counted-scores t e room player)

abbrev pub is_playing : MatchHistoryTracker → ℕ → ℤ → Bool
is_playing t room player = is_active player (players_of (find t.active_match_table room))

-- Where each match has a score for each player in it, a kill between two players of a room's match is
-- recorded. The ids are positive.
pub kills_are_recorded :
    (t : MatchHistoryTracker) (e : KillEvent)
    → AllPlayed t
    → is_positive_room e.room_id ≡ true
    → is_positive e.killer_persistent_player_id ≡ true
    → is_positive e.victim_persistent_player_id ≡ true
    → is_playing t e.room_id e.killer_persistent_player_id ≡ true
    → is_playing t e.room_id e.victim_persistent_player_id ≡ true
    → (record_kill t e).0 ≡ true
unfolding record_kill score_kill
kills_are_recorded t e h room killer victim a b =
    elim (Option-cases (find t.active_match_table e.room_id)) [
      | inl new ↦ absurd (ground (arith, new))
      | inr (m, there) ↦
          let played = AllValues-find IsPlayed t.active_match_table e.room_id m h there in
          let i = e.killer_persistent_player_id in
          let j = e.victim_persistent_player_id in
          let first =
            score_of_active m.player_stats_table i m.active_player_set played.1
              (ground (arith, there)) in
          let second =
            score_of_active m.player_stats_table j m.active_player_set played.1
              (ground (arith, there)) in
          elim (Option-cases (find m.player_stats_table i)) [
            | inl gone ↦ absurd (ground arith)
            | inr (k, found) ↦ elim (Option-cases (find m.player_stats_table j)) [
              | inl gone ↦ absurd (ground arith)
              | inr (v, too) ↦
                  ground (arith, there, found, too, find-put m.player_stats_table i j (killed k))
            ]
          ]
    ]
