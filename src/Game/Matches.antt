-- ===== src/Game/Matches.antt =====
-- Server/Game/MatchHistoryTracker.h and .cpp: who plays in which room, and with which score. A room's number
-- is the pattern of its 32 bits, so a positive one is below 2 ^ 31. `std::ranges::sort` is insertion sort:
-- the ids in a table are different, so there is one sorted list.
pub mod Invariant
pub mod Scores
use windows_iocp_udp.Prelude.{
  ℕ, ◌+◌, ◌^◌, Bool, true, false, not, ◌&&◌, ◌||◌, ltb, if◌then◌else◌, List, [], ◌∷◌, ◌++◌, length,
  Option, none, some,
}
use windows_iocp_udp.Prelude.Int.{ℤ, pos, negsuc, is_positive, same_id, leb_id}
use windows_iocp_udp.Prelude.Words.{add32}
use windows_iocp_udp.Prelude.Table.{find, put, erase, nat_key, int_key}
use windows_iocp_udp.Game.Simulation.{KillEvent}

pub record MatchPlayerStats : Type 0 where
  pub persistent_player_id : ℤ
  pub kill_count : ℕ
  pub death_count : ℕ

pub record CompletedMatch : Type 0 where
  pub room_id : ℕ
  pub started_at : ℕ
  pub ended_at : ℕ
  pub player_stats_list : List MatchPlayerStats

abbrev pub StatsTable : Type 0
StatsTable = List (ℤ × MatchPlayerStats)

pub record ActiveMatch : Type 0 where
  pub room_id : ℕ
  pub started_at : ℕ
  pub player_stats_table : StatsTable
  pub active_player_set : List ℤ

pub record MatchHistoryTracker : Type 0 where
  pub active_match_table : List (ℕ × ActiveMatch)
  pub completed_match_list : List CompletedMatch

abbrev pub is_positive_room : ℕ → Bool
is_positive_room room = ltb 0 room && ltb room (2 ^ 31)

-- `contains`, `insert` and `erase` of the set of players.
abbrev pub is_active : ℤ → List ℤ → Bool
is_active player [] = false
is_active player (p ∷ ps) = same_id p player || is_active player ps

abbrev pub erase_player : ℤ → List ℤ → List ℤ
erase_player player [] = []
erase_player player (p ∷ ps) =
    if same_id p player then erase_player player ps else p ∷ erase_player player ps

abbrev pub values : StatsTable → List MatchPlayerStats
values [] = []
values ((player, s) ∷ t) = s ∷ values t

unfoldable pub insert_sorted : MatchPlayerStats → List MatchPlayerStats → List MatchPlayerStats
insert_sorted s [] = s ∷ []
insert_sorted s (t ∷ ts) =
    let rest = insert_sorted s ts in
    if leb_id s.persistent_player_id t.persistent_player_id then s ∷ (t ∷ ts) else t ∷ rest

unfoldable pub sort_stats : List MatchPlayerStats → List MatchPlayerStats
unfolding insert_sorted
sort_stats [] = []
sort_stats (s ∷ ss) = insert_sorted s (sort_stats ss)

unfoldable pub build_completed_match : ActiveMatch → ℕ → CompletedMatch
build_completed_match m ended_at = record {
  room_id = m.room_id;
  started_at = m.started_at;
  ended_at = ended_at;
  player_stats_list = sort_stats (values m.player_stats_table);
}

abbrev pub new_stats : ℤ → MatchPlayerStats
new_stats player = record { persistent_player_id = player; kill_count = 0; death_count = 0 }

-- `try_emplace` of the room and of the player's score.
abbrev pub match_or_new : Option ActiveMatch → ℕ → ℕ → ActiveMatch
match_or_new none room now = record {
  room_id = room;
  started_at = now;
  player_stats_table = [];
  active_player_set = [];
}
match_or_new (some m) room now = m

abbrev pub stats_or_new : Option MatchPlayerStats → StatsTable → ℤ → StatsTable
stats_or_new none table player = put table player (new_stats player)
stats_or_new (some s) table player = table

abbrev pub with_match : MatchHistoryTracker → ℕ → ActiveMatch → MatchHistoryTracker
with_match t room m = record t { active_match_table = put t.active_match_table room m }

unfoldable pub enter_player : MatchHistoryTracker → ℕ → ℤ → ℕ → Bool × MatchHistoryTracker
enter_player t room player now =
    let m = match_or_new (find t.active_match_table room) room now in
    if not (is_positive_room room) || not (is_positive player)
    then (false, t)
    else if is_active player m.active_player_set
    then (false, with_match t room m)
    else (
      true,
      with_match t room (record m {
        active_player_set = player ∷ m.active_player_set;
        player_stats_table =
            stats_or_new (find m.player_stats_table player) m.player_stats_table player;
      }),
    )

-- The room of a player who leaves: the last one to leave completes the match.
unfoldable pub leave_match : MatchHistoryTracker → ℕ → ActiveMatch → ℤ → ℕ → MatchHistoryTracker
leave_match t room m player now = elim (erase_player player m.active_player_set) [
  | [] ↦ record {
    active_match_table = erase t.active_match_table room;
    completed_match_list =
        t.completed_match_list
        ++ build_completed_match (record m { active_player_set = [] }) now ∷ [];
  }
  | p ∷ ps ↦ with_match t room (record m { active_player_set = p ∷ ps })
]

unfoldable pub leave_player : MatchHistoryTracker → ℕ → ℤ → ℕ → Bool × MatchHistoryTracker
leave_player t room player now =
    if not (is_positive_room room) || not (is_positive player)
    then (false, t)
    else elim (find t.active_match_table room) [
      | none ↦ (false, t)
      | some m ↦
          if not (is_active player m.active_player_set)
          then (false, t)
          else (true, leave_match t room m player now)
    ]

abbrev pub killed : MatchPlayerStats → MatchPlayerStats
killed s = record s { kill_count = add32 s.kill_count 1 }

abbrev pub died : MatchPlayerStats → MatchPlayerStats
died s = record s { death_count = add32 s.death_count 1 }

-- The two increments, one after the other: the victim may be the killer.
unfoldable pub score_kill : StatsTable → ℤ → ℤ → Option StatsTable
score_kill table killer victim = elim (find table killer) [
  | none ↦ none
  | some k ↦ elim (find table victim) [
    | none ↦ none
    | some v ↦
        let scored = put table killer (killed k) in
        elim (find scored victim) [ none ↦ none | some v' ↦ some (put scored victim (died v')) ]
  ]
]

unfoldable pub record_kill : MatchHistoryTracker → KillEvent → Bool × MatchHistoryTracker
record_kill t e =
    if not (is_positive_room e.room_id)
      || not (is_positive e.killer_persistent_player_id)
      || not (is_positive e.victim_persistent_player_id)
    then (false, t)
    else elim (find t.active_match_table e.room_id) [
      | none ↦ (false, t)
      | some m ↦
          elim (score_kill m.player_stats_table e.killer_persistent_player_id
            e.victim_persistent_player_id) [
              | none ↦ (false, t)
              | some scored ↦
                  (true, with_match t e.room_id (record m { player_stats_table = scored }))
            ]
    ]

unfoldable pub record_kills : MatchHistoryTracker → List KillEvent → ℕ × MatchHistoryTracker
record_kills t [] = (0, t)
record_kills t (e ∷ es) =
    let (recorded, t1) = record_kill t e in
    let (count, left) = record_kills t1 es in ((if recorded then 1 else 0) + count, left)

abbrev pub complete_matches : List (ℕ × ActiveMatch) → ℕ → List CompletedMatch
complete_matches [] now = []
complete_matches ((room, m) ∷ table) now = build_completed_match m now ∷ complete_matches table now

unfoldable pub complete_all : MatchHistoryTracker → ℕ → MatchHistoryTracker
complete_all t now = record {
  active_match_table = [];
  completed_match_list = t.completed_match_list ++ complete_matches t.active_match_table now;
}

unfoldable pub extract_completed_matches :
    MatchHistoryTracker → List CompletedMatch × MatchHistoryTracker
extract_completed_matches t = (t.completed_match_list, record t { completed_match_list = [] })

unfoldable pub clear : MatchHistoryTracker → MatchHistoryTracker
clear t = record { active_match_table = []; completed_match_list = [] }

abbrev pub players_of : Option ActiveMatch → List ℤ
players_of none = []
players_of (some m) = m.active_player_set

unfoldable pub get_active_player_count : MatchHistoryTracker → ℕ → ℕ
get_active_player_count t room = length (players_of (find t.active_match_table room))
