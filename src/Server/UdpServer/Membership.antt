-- ===== src/Server/UdpServer/Membership.antt =====
-- Server/Net/UdpServer.cpp: peers join, leave, are kicked and change rooms, while the server's mutex is held.
use windows_iocp_udp.Prelude.{ℕ, ◌==◌, if◌then◌else◌, List, Option, none, some}
use windows_iocp_udp.Identity.{EndpointKey, SessionToken}
use windows_iocp_udp.Packet.Codec.{PacketCodec}
use windows_iocp_udp.Packet.Codecs.Session.{leave_response, leave_response_codec}
use windows_iocp_udp.Packet.Codecs.Room.{join_room_response_codec}
use windows_iocp_udp.Packet.Codecs.Control.{server_disconnect_codec}
use windows_iocp_udp.Game.Matches.{enter_player, leave_player}
use windows_iocp_udp.Server.Peers.{find_joined_peer_by_player_id}
use windows_iocp_udp.Server.Sessions.{upsert}
use windows_iocp_udp.Server.Join.{is_admitted, JoinAuthenticatedPeerResult}
use windows_iocp_udp.Server.Join.Authenticated.{join_authenticated_peer}
use windows_iocp_udp.Server.Leaving.{LeaveResult, PeerRoomChange, leave_peer, change_room}
use windows_iocp_udp.Server.UdpServer.{
  ServerConfig, UdpServer, build_join_room_response, build_reliable, close_session, is_new,
  with_peers,
}

module _ (config : ServerConfig) where
  unfoldable pub join_section :
      EndpointKey → SessionToken → ℕ → ℕ → UdpServer → JoinAuthenticatedPeerResult × UdpServer
  join_section key token now system_now s =
      let (result, accounts, peers, w) =
        join_authenticated_peer key token config.initial_room_id s.authenticated_account_registry
          s.peer_room_manager s.game_world config.game_rule now in
      let r = result.join_result in
      (
        result,
        record {
          peer_room_manager = peers;
          authenticated_account_registry = accounts;
          game_world = w;
          reliable_udp_session_registry =
              if is_admitted result.status
              then upsert config.hundred_ms s.reliable_udp_session_registry key config.reliable_udp
                  token
              else s.reliable_udp_session_registry;
          match_history_tracker =
              if is_new result.status
              then (enter_player s.match_history_tracker r.room_id r.persistent_player_id
                  system_now).1
              else s.match_history_tracker;
        },
      )

  -- A peer that left: the match, and the session with the packet that tells the peer.
  unfoldable pub after_leave :
      {A : Type 0}
      → PacketCodec A
      → A
      → EndpointKey
      → LeaveResult
      → ℕ
      → ℕ
      → UdpServer
      → Option (List ℕ) × UdpServer
  after_leave c packet key r now system_now s =
      let (bytes, built) = build_reliable c packet key now s.reliable_udp_session_registry in
      (
        bytes,
        record s {
          match_history_tracker =
              (leave_player s.match_history_tracker r.room_id r.persistent_player_id system_now).1;
          reliable_udp_session_registry = close_session key bytes built;
        },
      )

  -- `LeavePeer`, and what follows it where the peer was there, with the packet that tells the peer.
  unfoldable pub leave_with :
      {A : Type 0}
      → PacketCodec A
      → A
      → EndpointKey
      → ℕ
      → ℕ
      → UdpServer
      → Option (LeaveResult × Option (List ℕ)) × UdpServer
  leave_with c packet key now system_now s =
      let (left, peers, w) = leave_peer key s.peer_room_manager s.game_world in
      let s1 = with_peers s peers w in
      elim left [
        | none ↦ (none, s1)
        | some r ↦
            let (bytes, s2) = after_leave c packet key r now system_now s1 in (some (r, bytes), s2)
      ]

  unfoldable pub leave_section :
      EndpointKey → ℕ → ℕ → UdpServer → Option (LeaveResult × Option (List ℕ)) × UdpServer
  unfolding leave_with
  leave_section key now system_now s =
      leave_with leave_response_codec leave_response key now system_now s

  -- The reason `Kicked` is 1.
  unfoldable pub kick_section :
      ℕ → ℕ → ℕ → UdpServer → Option (EndpointKey × LeaveResult × Option (List ℕ)) × UdpServer
  kick_section player_id now system_now s =
      if player_id == 0
      then (none, s)
      else elim (find_joined_peer_by_player_id s.peer_room_manager player_id) [
        | none ↦ (none, s)
        | some p ↦
            let (left, s1) =
              leave_with server_disconnect_codec (record { reason = 1 }) p.endpoint_key now
                system_now s in
            elim left [
              | none ↦ (none, s1)
              | some (r, bytes) ↦ (some (p.endpoint_key, r, bytes), s1)
            ]
      ]

  unfoldable pub room_section :
      EndpointKey
      → ℕ
      → ℕ
      → ℕ
      → ℕ
      → UdpServer
      → Option (PeerRoomChange × Option (List ℕ)) × UdpServer
  room_section key room now later system_now s =
      let (changed, peers, w) = change_room key room s.peer_room_manager s.game_world now in
      let s1 = with_peers s peers w in
      elim changed [
        | none ↦ (none, s1)
        | some r ↦
            let (left, t1) =
              leave_player s.match_history_tracker r.previous_room_id r.persistent_player_id
                system_now in
            let (entered, t2) = enter_player t1 r.next_room_id r.persistent_player_id system_now in
            let (bytes, built) =
              build_reliable join_room_response_codec (build_join_room_response r) key later
                s.reliable_udp_session_registry in
            (
              some (r, bytes),
              record s1 { match_history_tracker = t2; reliable_udp_session_registry = built },
            )
      ]
