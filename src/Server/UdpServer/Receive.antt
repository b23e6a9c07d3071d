-- ===== src/Server/UdpServer/Receive.antt =====
-- Server/Net/UdpServer.cpp: `RegisterPacketHandlers`, `DispatchPacket` and `DispatchReliablePacket`, from the
-- bytes of a packet to its handler. The handler of a login is registered only where it is attached; its
-- processor is an argument.
use windows_iocp_udp.Prelude.{ℕ, not, if◌then◌else◌, List, [], length, Option, none, some}
use windows_iocp_udp.Identity.{EndpointKey}
use windows_iocp_udp.Packet.PacketType
use windows_iocp_udp.Packet.PacketType.{is_packet_transport_reliability_valid}
use windows_iocp_udp.Packet.Header.{
  deserialize_packet_header, is_reliable_packet_header, is_authenticated_packet_header,
}
use windows_iocp_udp.Packet.Codecs.Session.{JoinRequest, join_request_codec, leave_request_codec}
use windows_iocp_udp.Packet.Codecs.Command.{InputCommand, input_command_codec, fire_request_codec}
use windows_iocp_udp.Packet.Codecs.Room.{JoinRoomRequest, join_room_request_codec}
use windows_iocp_udp.Packet.Codecs.Control.{keep_alive_codec}
use windows_iocp_udp.Reliable.PacketBuilder.{
  ReliableUdpPacketView, parse_reliable_udp_packet, build_game_packet_from_view,
}
use windows_iocp_udp.Auth.AuthenticatedPacket.{requires_client_packet_authentication}
use windows_iocp_udp.Game.{Floats}
use windows_iocp_udp.Server.Sessions
use windows_iocp_udp.Server.Sessions.{
  AuthenticateResult, ReceivedStatus, no_session, ack_only, invalid_ack, new_data, old_data,
  authenticate_incoming_packet, process_received_packet,
}
use windows_iocp_udp.Server.Dispatch.{
  succeeded, invalid_packet_header, invalid_packet_payload, DispatchResult, dispatched, Processor,
  HandlerTable, register_handler, dispatch, endpoint_only_handler, typed_handler, validated_handler,
  validate_input_command, validate_join_room_request,
}
use windows_iocp_udp.Server.UdpServer.{ServerConfig, UdpServer}
use windows_iocp_udp.Server.UdpServer.Upkeep.{input_section, fire_section, keep_alive_section}
use windows_iocp_udp.Server.UdpServer.Requests.{
  Running, Readings, send_packet, process_join_request, process_leave_request,
  process_join_room_request,
}

abbrev pub with_sessions : UdpServer → Sessions.Registry → UdpServer
with_sessions s r = record s { reliable_udp_session_registry = r }

abbrev on_server : (UdpServer → UdpServer) → Running → Running
on_server change r = record r { server = change r.server }

module _ (f : Floats) (config : ServerConfig) (login : Option (ℕ × Processor Running))
    (at : Readings) where
  abbrev pub handle_join_request : EndpointKey → JoinRequest → Running → Running
  handle_join_request key packet = process_join_request config key packet.session_token at

  abbrev pub handle_input_command : EndpointKey → InputCommand → Running → Running
  handle_input_command key packet =
      on_server (input_section config f key packet.input_sequence packet.input_flags at.now)

  abbrev pub handle_fire_request : EndpointKey → Running → Running
  handle_fire_request key = on_server (fire_section config f key at.now)

  abbrev pub handle_keep_alive : EndpointKey → Running → Running
  handle_keep_alive key = on_server (keep_alive_section key at.now)

  abbrev pub handle_leave_request : EndpointKey → Running → Running
  handle_leave_request key = process_leave_request config key at

  abbrev pub handle_join_room_request : EndpointKey → JoinRoomRequest → Running → Running
  handle_join_room_request key packet = process_join_room_request config key packet.room_id at

  abbrev register_login : Option (ℕ × Processor Running) → HandlerTable Running
  register_login none = []
  register_login (some (size, processor)) =
      register_handler [] PacketType.account_login_request size processor

  -- `RegisterPacketHandlers`.
  unfoldable pub handler_table : HandlerTable Running
  handler_table =
      let t0 = register_login login in
      let t1 =
        register_handler t0 PacketType.join_request join_request_codec.fixed_wire_size
          (typed_handler join_request_codec handle_join_request) in
      let t2 =
        register_handler t1 PacketType.input_command input_command_codec.fixed_wire_size
          (validated_handler input_command_codec validate_input_command handle_input_command) in
      let t3 =
        register_handler t2 PacketType.fire_request fire_request_codec.fixed_wire_size
          (endpoint_only_handler handle_fire_request) in
      let t4 =
        register_handler t3 PacketType.keep_alive keep_alive_codec.fixed_wire_size
          (endpoint_only_handler handle_keep_alive) in
      let t5 =
        register_handler t4 PacketType.leave_request leave_request_codec.fixed_wire_size
          (endpoint_only_handler handle_leave_request) in
      register_handler t5 PacketType.join_room_request join_room_request_codec.fixed_wire_size (
        validated_handler join_room_request_codec validate_join_room_request
          handle_join_room_request)

-- The two functions behind the authentication, on any table of handlers.
module _ (wide : ℕ → ℕ) (table : HandlerTable Running) where
  abbrev dispatch_game_packet :
      EndpointKey → ReliableUdpPacketView → ℕ → Option (List ℕ) → Running → DispatchResult × Running
  dispatch_game_packet key view size none r =
      (dispatched invalid_packet_payload (some view.packet_header.type) size, r)
  dispatch_game_packet key view size (some game_packet) r = dispatch table key game_packet r

  -- `DispatchReliablePacket` once the session has taken the packet.
  unfoldable pub dispatch_received :
      ReceivedStatus
      → Option (List ℕ)
      → EndpointKey
      → ReliableUdpPacketView
      → ℕ
      → Running
      → DispatchResult × Running
  dispatch_received no_session ack key view size r =
      (dispatched invalid_packet_header (some view.packet_header.type) size, r)
  dispatch_received ack_only ack key view size r =
      (dispatched succeeded (some view.packet_header.type) size, r)
  dispatch_received invalid_ack ack key view size r =
      (dispatched succeeded (some view.packet_header.type) size, r)
  dispatch_received old_data ack key view size r =
      (dispatched succeeded (some view.packet_header.type) size, send_packet key ack r)
  dispatch_received new_data ack key view size r =
      dispatch_game_packet key view size (build_game_packet_from_view view) (send_packet key ack r)

  unfoldable pub dispatch_reliable_packet :
      EndpointKey → List ℕ → Running → DispatchResult × Running
  dispatch_reliable_packet key packet r = elim (parse_reliable_udp_packet packet) [
    | none ↦ (dispatched invalid_packet_header none (length packet), r)
    | some view ↦
        let (result, sessions) =
          process_received_packet wide r.server.reliable_udp_session_registry key view in
        dispatch_received result.status result.ack_packet_buffer key view (length packet)
          (record r { server = with_sessions r.server sessions })
  ]

  -- `DispatchPacket` behind the authentication.
  unfoldable pub dispatch_admitted : EndpointKey → List ℕ → Running → DispatchResult × Running
  dispatch_admitted key packet r = elim (deserialize_packet_header packet) [
    | none ↦ (dispatched invalid_packet_header none (length packet), r)
    | some h ↦
        let reliable = is_reliable_packet_header h in
        if not (is_packet_transport_reliability_valid h.type reliable)
        then (dispatched invalid_packet_header (some h.type) (length packet), r)
        else if reliable
        then dispatch_reliable_packet key packet r
        else dispatch table key packet r
  ]

  -- The buffer is there exactly where the authentication succeeded.
  abbrev pub dispatch_authenticated :
      Option (List ℕ) → EndpointKey → ℕ → ℕ → Running → DispatchResult × Running
  dispatch_authenticated none key packet_type size r =
      (dispatched invalid_packet_header (some packet_type) size, r)
  dispatch_authenticated (some packet) key packet_type size r = dispatch_admitted key packet r

  module _ (hash : List ℕ → List ℕ → Option (List ℕ)) where
    unfoldable pub dispatch_packet : EndpointKey → List ℕ → Running → DispatchResult × Running
    dispatch_packet key packet r = elim (deserialize_packet_header packet) [
      | none ↦ dispatch table key packet r
      | some h ↦
          let (result, sessions) =
            authenticate_incoming_packet hash r.server.reliable_udp_session_registry key packet in
          if requires_client_packet_authentication h.type
          then dispatch_authenticated result.packet_buffer key h.type (length packet)
              (record r { server = with_sessions r.server sessions })
          else if is_authenticated_packet_header h
          then (dispatched invalid_packet_header (some h.type) (length packet), r)
          else dispatch_admitted key packet r
    ]
