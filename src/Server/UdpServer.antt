-- ===== src/Server/UdpServer.antt =====
-- Server/Net/UdpServer.h and .cpp: the state of the server that its mutex guards, and the packets that it
-- builds. What each handler does while it holds the mutex is in Membership and in Upkeep. The clocks' readings
-- are arguments. Logs and metrics are left out.
pub mod Membership
pub mod Upkeep
pub mod Requests
pub mod Receive
pub mod Serving
pub mod Served
pub mod Kept
pub mod Interleaving
pub mod Guarded
use windows_iocp_udp.Prelude.{
  ℕ, Bool, true, false, if◌then◌else◌, List, [], ◌∷◌, Option, none, some,
}
use windows_iocp_udp.Identity.{EndpointKey}
use windows_iocp_udp.Packet.Codec.{PacketCodec, serialize_packet}
use windows_iocp_udp.Packet.Codecs.Session.{JoinResponse}
use windows_iocp_udp.Packet.Codecs.Room.{JoinRoomResponse, PlayerJoined, PlayerLeft}
use windows_iocp_udp.Reliable.Session.{ReliableUdpConfig}
use windows_iocp_udp.Game.World.{GameRuleConfig, WeaponRule, GameWorld}
use windows_iocp_udp.Game.Matches.{MatchHistoryTracker}
use windows_iocp_udp.Server.Peers.{PeerRoomManager}
use windows_iocp_udp.Server.Accounts.{AccountTable}
use windows_iocp_udp.Server.Sessions
use windows_iocp_udp.Server.Sessions.{
  Registry, OutgoingResult, outgoing, refused, build_outgoing_packet, begin_close,
}
use windows_iocp_udp.Server.Join.{JoinAuthenticatedPeerStatus, joined, JoinResult}
use windows_iocp_udp.Server.Leaving.{PeerRoomChange}

-- What the handlers read of `ServerConfig`; 100 ms in clock ticks is what a session starts with.
pub record ServerConfig : Type 0 where
  pub initial_room_id : ℕ
  pub game_rule : GameRuleConfig
  pub weapon_rule : WeaponRule
  pub reliable_udp : ReliableUdpConfig
  pub peer_timeout : ℕ
  pub reconnect_grace_period : ℕ
  pub fixed_delta_seconds : ℕ
  pub hundred_ms : ℕ

pub record UdpServer : Type 0 where
  pub peer_room_manager : PeerRoomManager
  pub authenticated_account_registry : AccountTable
  pub game_world : GameWorld
  pub reliable_udp_session_registry : Registry
  pub match_history_tracker : MatchHistoryTracker

abbrev pub build_join_response : JoinResult → JoinResponse
build_join_response r = record {
  player_id = r.player_id;
  room_id = r.room_id;
  spawn_x = r.spawn_position.x;
  spawn_y = r.spawn_position.y;
}

abbrev pub build_join_room_response : PeerRoomChange → JoinRoomResponse
build_join_room_response r = record {
  room_id = r.next_room_id;
  spawn_x = r.spawn_position.x;
  spawn_y = r.spawn_position.y;
}

abbrev pub build_player_joined : ℕ → ℕ → ℕ → ℕ → PlayerJoined
build_player_joined player_id room x y = record {
  player_id = player_id;
  room_id = room;
  x = x;
  y = y;
}

abbrev pub build_player_left : ℕ → ℕ → PlayerLeft
build_player_left player_id room = record { player_id = player_id; room_id = room }

abbrev pub outgoing_bytes : OutgoingResult → Option (List ℕ)
outgoing_bytes (outgoing packet) = some packet
outgoing_bytes (refused why) = none

-- The three functions that build a reliable packet of the server.
unfoldable pub build_reliable :
    {A : Type 0} → PacketCodec A → A → EndpointKey → ℕ → Registry → Option (List ℕ) × Registry
build_reliable c packet key now r = elim (serialize_packet c packet) [
  | none ↦ (none, r)
  | some bytes ↦
      let (result, r1) = build_outgoing_packet r key bytes now in (outgoing_bytes result, r1)
]

-- The session of a peer that is gone: it closes behind its last packet, or at once where there is none.
unfoldable pub close_session : EndpointKey → Option (List ℕ) → Registry → Registry
close_session key none r = (Sessions.remove r key).1
close_session key (some packet) r = (begin_close r key).1

abbrev pub is_new : JoinAuthenticatedPeerStatus → Bool
is_new joined = true
is_new status = false

abbrev pub with_peers : UdpServer → PeerRoomManager → GameWorld → UdpServer
with_peers s peers w = record s { peer_room_manager = peers; game_world = w }
