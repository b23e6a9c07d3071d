-- ===== src/Server/UdpServer/Upkeep.antt =====
-- Server/Net/UdpServer.cpp: commands, the tick of the game, timeouts, resends and the stop, while the server's
-- mutex is held.
use windows_iocp_udp.Prelude.{ℕ, Bool, if◌then◌else◌, List, [], ◌∷◌}
use windows_iocp_udp.Identity.{EndpointKey}
use windows_iocp_udp.Game.{Floats}
use windows_iocp_udp.Game.World
use windows_iocp_udp.Game.World.{advance_server_tick, clear_pending_impact_effects}
use windows_iocp_udp.Game.Simulation.{
  PlayerSimulationContext, KillEvent, update_players, update_bullets,
}
use windows_iocp_udp.Game.Respawns.{update_respawns, update_player_timers}
use windows_iocp_udp.Game.Matches.{
  MatchHistoryTracker, CompletedMatch, leave_player, record_kills, complete_all,
  extract_completed_matches,
}
use windows_iocp_udp.Server.Peers
use windows_iocp_udp.Server.Peers.{for_each_joined_peer, PeerState, PeerTable, RecoverablePeer}
use windows_iocp_udp.Server.Peers.Operations.{refresh_recv_time}
use windows_iocp_udp.Server.Accounts
use windows_iocp_udp.Server.Accounts.{remove_expired}
use windows_iocp_udp.Server.Sessions
use windows_iocp_udp.Server.Sessions.{Registry, ResendBatch}
use windows_iocp_udp.Server.Sessions.ResendPass.{extract_resend_batch}
use windows_iocp_udp.Server.Leaving.{mark_timed_out, remove_expired_peers}
use windows_iocp_udp.Server.Commands.{apply_input_command, fire_bullet}
use windows_iocp_udp.Server.UdpServer.{ServerConfig, UdpServer, with_peers}

unfoldable pub keep_alive_section : EndpointKey → ℕ → UdpServer → UdpServer
keep_alive_section key now s = record s {
  peer_room_manager = (refresh_recv_time s.peer_room_manager key now).1;
}

-- The joined peers, in the order of the walk.
abbrev pub player_contexts : PeerTable → List PlayerSimulationContext
player_contexts [] = []
player_contexts ((key, p) ∷ table) =
    let rest = player_contexts table in
    if p.is_joined
    then record {
      player_id = p.player_id;
      persistent_player_id = p.persistent_player_id;
      room_id = p.room_id;
    }
      ∷ rest
    else rest

abbrev pub processed_peer : PeerState → PeerState
processed_peer p = record p { last_processed_input_sequence = p.last_accepted_input_sequence }

abbrev pub commit_processed_input_sequences : PeerTable → PeerTable
commit_processed_input_sequences table = for_each_joined_peer processed_peer table

abbrev pub remove_sessions : List RecoverablePeer → Registry → Registry
remove_sessions [] r = r
remove_sessions (p ∷ ps) r = remove_sessions ps (Sessions.remove r p.endpoint_key).1

abbrev pub leave_matches : List RecoverablePeer → ℕ → MatchHistoryTracker → MatchHistoryTracker
leave_matches [] system_now t = t
leave_matches (p ∷ ps) system_now t =
    leave_matches ps system_now (leave_player t p.room_id p.persistent_player_id system_now).1

module _ (config : ServerConfig) where
  -- The locked part of `ProcessPeerTimeouts`.
  unfoldable pub timeouts_section :
      ℕ → ℕ → UdpServer → List RecoverablePeer × List RecoverablePeer × UdpServer
  timeouts_section now system_now s =
      let (lost, peers1, w1) =
        mark_timed_out now config.peer_timeout s.peer_room_manager s.game_world in
      let (expired, peers2, w2) =
        remove_expired_peers now config.reconnect_grace_period peers1 w1 in
      (
        lost,
        expired,
        record {
          peer_room_manager = peers2;
          authenticated_account_registry =
              (remove_expired s.authenticated_account_registry now config.peer_timeout).1;
          game_world = w2;
          reliable_udp_session_registry = remove_sessions lost s.reliable_udp_session_registry;
          match_history_tracker = leave_matches expired system_now s.match_history_tracker;
        },
      )

  module _ (f : Floats) where
    unfoldable pub input_section : EndpointKey → ℕ → ℕ → ℕ → UdpServer → UdpServer
    input_section key input_sequence flags now s =
        let (applied, peers, w) =
          apply_input_command f key input_sequence flags s.peer_room_manager s.game_world now in
        with_peers s peers w

    unfoldable pub fire_section : EndpointKey → ℕ → UdpServer → UdpServer
    fire_section key now s =
        let (fired, peers, w) =
          fire_bullet f key s.peer_room_manager s.game_world config.weapon_rule now in
        with_peers s peers w

    -- The locked part of `UpdateGameTick`, with how many kills there were and how many of them the matches
    -- recorded.
    unfoldable pub tick_section : UdpServer → List KillEvent × ℕ × UdpServer
    tick_section s =
        let contexts = player_contexts s.peer_room_manager.peer_table in
        let delta_time = config.fixed_delta_seconds in
        let (kills, w1) =
          update_bullets f delta_time contexts (update_players f delta_time contexts s.game_world)
            config.game_rule in
        let peers = record s.peer_room_manager {
          peer_table = commit_processed_input_sequences s.peer_room_manager.peer_table;
        } in
        let (recorded, t) = record_kills s.match_history_tracker kills in
        let w2 =
          update_player_timers f delta_time
            (update_respawns f delta_time contexts w1 config.game_rule) in
        (
          kills,
          recorded,
          record s {
            peer_room_manager = peers;
            game_world = advance_server_tick w2;
            match_history_tracker = t;
          },
        )

unfoldable pub resends_section : ℕ → UdpServer → ResendBatch × UdpServer
resends_section now s =
    let (batch, left) = extract_resend_batch s.reliable_udp_session_registry now in
    (batch, record s { reliable_udp_session_registry = left })

-- `ClearPendingImpactEffects` of `BroadcastSnapshots`.
unfoldable pub snapshots_section : UdpServer → UdpServer
snapshots_section s = record s { game_world = clear_pending_impact_effects s.game_world }

unfoldable pub completed_matches_section : UdpServer → List CompletedMatch × UdpServer
completed_matches_section s =
    let (matches, t) = extract_completed_matches s.match_history_tracker in
    (matches, record s { match_history_tracker = t })

-- The locked part of `Stop`.
unfoldable pub stop_section : Bool → ℕ → UdpServer → UdpServer
stop_section was_running system_now s = record {
  peer_room_manager = Peers.clear s.peer_room_manager;
  authenticated_account_registry = Accounts.clear s.authenticated_account_registry;
  game_world = World.clear s.game_world;
  reliable_udp_session_registry = Sessions.clear s.reliable_udp_session_registry;
  match_history_tracker =
      if was_running
      then complete_all s.match_history_tracker system_now
      else s.match_history_tracker;
}
