-- ===== src/Server/UdpServer/Requests.antt =====
-- Server/Net/UdpServer.cpp: the requests of the peers, with the packets that go to the packet sender. The part
-- behind the mutex is a section; a broadcast takes the mutex again.
use windows_iocp_udp.Prelude.{ℕ, List, [], ◌∷◌, ◌++◌, Option, none, some}
use windows_iocp_udp.Identity.{EndpointKey, SessionToken}
use windows_iocp_udp.Packet.Codec.{PacketCodec, serialize_packet}
use windows_iocp_udp.Packet.Codecs.Session.{join_response_codec}
use windows_iocp_udp.Packet.Codecs.Room.{player_joined_codec, player_left_codec}
use windows_iocp_udp.Server.Peers.{RecoverablePeer}
use windows_iocp_udp.Server.Peers.Operations.{build_room_endpoint_key_list}
use windows_iocp_udp.Server.Sessions.{ResendTask}
use windows_iocp_udp.Server.Join.{
  JoinAuthenticatedPeerStatus, joined, recovered, existing_peer, unauthenticated, rejected,
  JoinResult,
}
use windows_iocp_udp.Server.UdpServer.{
  ServerConfig, UdpServer, build_join_response, build_player_joined, build_player_left,
}
use windows_iocp_udp.Server.UdpServer.Membership.{
  join_section, leave_section, kick_section, room_section,
}
use windows_iocp_udp.Server.UdpServer.Upkeep.{timeouts_section, resends_section}

-- The server, and the packets handed to the packet sender so far.
pub record Running : Type 0 where
  pub server : UdpServer
  pub sent : List (EndpointKey × List ℕ)

-- The readings of the clocks that a handler makes, in their order.
pub record Readings : Type 0 where
  pub now : ℕ
  pub later : ℕ
  pub system_now : ℕ

unfoldable pub send_packet : EndpointKey → Option (List ℕ) → Running → Running
send_packet key none r = r
send_packet key (some bytes) r = record r { sent = r.sent ++ (key, bytes) ∷ [] }

unfoldable pub broadcast_packet : List EndpointKey → Option (List ℕ) → Running → Running
broadcast_packet [] bytes r = r
broadcast_packet (key ∷ keys) bytes r = broadcast_packet keys bytes (send_packet key bytes r)

module _ {A : Type 0} (c : PacketCodec A) (packet : A) where
  unfoldable pub send_serialized_packet : EndpointKey → Running → Running
  send_serialized_packet key r = send_packet key (serialize_packet c packet) r

  -- To the members of a room.
  unfoldable pub broadcast_to_room : ℕ → Running → Running
  broadcast_to_room room r =
      broadcast_packet (build_room_endpoint_key_list r.server.peer_room_manager room)
        (serialize_packet c packet) r

unfoldable pub broadcast_player_joined : ℕ → ℕ → ℕ → ℕ → Running → Running
broadcast_player_joined room player_id x y r =
    broadcast_to_room player_joined_codec (build_player_joined player_id room x y) room r

unfoldable pub broadcast_player_left : ℕ → ℕ → Running → Running
broadcast_player_left room player_id r =
    broadcast_to_room player_left_codec (build_player_left player_id room) room r

-- What follows the locked part of `ProcessJoinRequest`.
unfoldable pub answer_join :
    JoinAuthenticatedPeerStatus → JoinResult → EndpointKey → Running → Running
unfolding broadcast_player_joined
answer_join unauthenticated result key r = r
answer_join rejected result key r = r
answer_join existing_peer result key r =
    send_serialized_packet join_response_codec (build_join_response result) key r
answer_join recovered result key r =
    send_serialized_packet join_response_codec (build_join_response result) key r
answer_join joined result key r =
    broadcast_player_joined result.room_id result.player_id result.spawn_position.x
      result.spawn_position.y
      (send_serialized_packet join_response_codec (build_join_response result) key r)

module _ (config : ServerConfig) where
  unfoldable pub process_join_request : EndpointKey → SessionToken → Readings → Running → Running
  process_join_request key token at r =
      let (result, s) = join_section config key token at.now at.system_now r.server in
      answer_join result.status result.join_result key (record r { server = s })

  unfoldable pub process_leave_request : EndpointKey → Readings → Running → Running
  process_leave_request key at r =
      let (left, s) = leave_section config key at.now at.system_now r.server in
      elim left [
        | none ↦ record r { server = s }
        | some (result, bytes) ↦
            broadcast_player_left result.room_id result.player_id
              (send_packet key bytes (record r { server = s }))
      ]

  unfoldable pub process_join_room_request : EndpointKey → ℕ → Readings → Running → Running
  process_join_room_request key room at r =
      let (changed, s) = room_section config key room at.now at.later at.system_now r.server in
      elim changed [
        | none ↦ record r { server = s }
        | some (result, bytes) ↦
            broadcast_player_joined result.next_room_id result.player_id result.spawn_position.x
              result.spawn_position.y
              (broadcast_player_left result.previous_room_id result.player_id
                (send_packet key bytes (record r { server = s })))
      ]

  unfoldable pub kick_player : ℕ → Readings → Running → Running
  kick_player player_id at r =
      let (kicked, s) = kick_section config player_id at.now at.system_now r.server in
      elim kicked [
        | none ↦ record r { server = s }
        | some (key, result, bytes) ↦
            broadcast_player_left result.room_id result.player_id
              (send_packet key bytes (record r { server = s }))
      ]

  unfoldable pub broadcast_expired : List RecoverablePeer → Running → Running
  broadcast_expired [] r = r
  broadcast_expired (p ∷ ps) r =
      broadcast_expired ps (broadcast_player_left p.room_id p.player_id r)

  unfoldable pub process_peer_timeouts : Readings → Running → Running
  process_peer_timeouts at r =
      let (lost, expired, s) = timeouts_section config at.now at.system_now r.server in
      broadcast_expired expired (record r { server = s })

unfoldable pub send_tasks : List ResendTask → Running → Running
send_tasks [] r = r
send_tasks (t ∷ ts) r = send_tasks ts (send_packet t.endpoint_key (some t.packet_buffer) r)

unfoldable pub process_reliable_resends : ℕ → Running → Running
process_reliable_resends now r =
    let (batch, s) = resends_section now r.server in
    send_tasks batch.task_list (record r { server = s })
