-- ===== src/Server/UdpServer/Kept.antt =====
-- The sections of UdpServer.cpp that change no session of a peer that stays keep the peers and the sessions in
-- step: a change of rooms, the timeouts, and the commands.
use windows_iocp_udp.Prelude.{ℕ, refl, Option-cases, Bool-cases, inl, inr}
use windows_iocp_udp.Identity.{EndpointKey}
use windows_iocp_udp.Game.{Floats, float_zero}
use windows_iocp_udp.Game.World.{find_player}
use windows_iocp_udp.Sequence.{is_sequence_newer}
use windows_iocp_udp.Packet.Codecs.Room.{join_room_response_codec}
use windows_iocp_udp.Server.Peers.{PeerState, find_joined_peer}
use windows_iocp_udp.Server.Peers.Keyed.{mark-IsKeyed, expired-IsKeyed}
use windows_iocp_udp.Server.Peers.Recovery.{mark-IsConsistent, expired-IsConsistent}
use windows_iocp_udp.Server.Peers.Operations.{
  mark_timed_out_peers_recoverable, remove_expired_recoverable_peers,
}
use windows_iocp_udp.Server.Peers.Connected.{mark-Loses, expired-Loses, mark-AllLost}
use windows_iocp_udp.Server.Leaving.{change_room, mark_timed_out, remove_expired_peers}
use windows_iocp_udp.Server.Join.Joins.{IsSound}
use windows_iocp_udp.Server.Leaving.Connected.{change_room-Loses}
use windows_iocp_udp.Server.Commands.{find_joined_peer_player, apply_input_command, fire_bullet}
use windows_iocp_udp.Server.UdpServer.{ServerConfig, UdpServer, build_join_room_response}
use windows_iocp_udp.Server.UdpServer.Membership.{room_section}
use windows_iocp_udp.Server.UdpServer.Upkeep.{
  remove_sessions, timeouts_section, input_section, fire_section,
}
use windows_iocp_udp.Server.UdpServer.Serving.{
  IsServed, Loses-IsServing, build_reliable-IsServing, remove_sessions-IsServing,
  write_peer-IsServing,
}

module _ (config : ServerConfig) where
  pub room_section-IsServed :
      (key : EndpointKey) (room now later system_now : ℕ) (s : UdpServer)
      → IsServed s
      → IsServed (room_section config key room now later system_now s).1
  unfolding room_section
  room_section-IsServed key room now later system_now s serving =
      let peers = s.peer_room_manager in
      let r = change_room key room peers s.game_world now in
      let (sound, loses) = change_room-Loses key room now peers s.game_world serving.0 in
      let sessions = s.reliable_udp_session_registry in
      let serving1 = Loses-IsServing peers r.1 sessions serving sound loses in
      elim (Option-cases r.0) [
        | inl e ↦ rw (e, room_section) serving1
        | inr (x, e) ↦
            rw (e, room_section)
              (build_reliable-IsServing join_room_response_codec (build_join_room_response x) key
                later r.1 sessions serving1)
      ]

  pub timeouts_section-IsServed :
      (now system_now : ℕ) (s : UdpServer)
      → IsServed s
      → IsServed (timeouts_section config now system_now s).2
  unfolding timeouts_section mark_timed_out remove_expired_peers
  timeouts_section-IsServed now system_now s serving =
      let peers = s.peer_room_manager in
      let (consistent, keyed) = serving.0 in
      let sessions = s.reliable_udp_session_registry in
      let timeout = config.peer_timeout in
      let grace = config.reconnect_grace_period in
      let marked = mark_timed_out_peers_recoverable peers now timeout in
      let sound1 : IsSound marked.1 =
        (mark-IsConsistent peers now timeout consistent, mark-IsKeyed peers now timeout keyed) in
      let serving1 =
        Loses-IsServing peers marked.1 sessions serving sound1 (mark-Loses peers now timeout) in
      let serving2 =
        remove_sessions-IsServing marked.1 marked.0 sessions serving1
          (mark-AllLost peers now timeout consistent) in
      let left = (remove_expired_recoverable_peers marked.1 now grace).1 in
      Loses-IsServing marked.1 left (remove_sessions marked.0 sessions) serving2
        (
          expired-IsConsistent marked.1 now grace sound1.0,
          expired-IsKeyed marked.1 now grace sound1.0 sound1.1,
        )
        (expired-Loses marked.1 now grace sound1.0)

  module _ (f : Floats) where
    pub input_section-IsServed :
        (key : EndpointKey) (input_sequence flags now : ℕ) (s : UdpServer)
        → IsServed s
        → IsServed (input_section config f key input_sequence flags now s)
    unfolding input_section apply_input_command find_joined_peer_player
    input_section-IsServed key input_sequence flags now s serving =
        let peers = s.peer_room_manager in
        elim (Option-cases (find_joined_peer peers key)) [
          | inl free ↦ rw (free, apply_input_command) serving
          | inr (p, e) ↦ elim (Option-cases (find_player s.game_world p.player_id)) [
            | inl gone ↦ rw (e, gone, apply_input_command) serving
            | inr (q, there) ↦ elim (Bool-cases q.is_dead) [
              | inl dead ↦ rw (e, there, dead, apply_input_command) serving
              | inr alive ↦
                  elim (Bool-cases
                    (is_sequence_newer input_sequence p.last_accepted_input_sequence)) [
                      | inr old ↦ rw (e, there, alive, old, apply_input_command) serving
                      | inl new ↦
                          rw (e, there, alive, new, apply_input_command)
                            (write_peer-IsServing peers key p _ s.reliable_udp_session_registry
                              serving e refl refl refl refl)
                    ]
            ]
          ]
        ]

    pub fire_section-IsServed :
        (key : EndpointKey) (now : ℕ) (s : UdpServer)
        → IsServed s
        → IsServed (fire_section config f key now s)
    unfolding fire_section fire_bullet find_joined_peer_player
    fire_section-IsServed key now s serving =
        let peers = s.peer_room_manager in
        let sessions = s.reliable_udp_session_registry in
        elim (Option-cases (find_joined_peer peers key)) [
          | inl free ↦ rw (free, fire_bullet) serving
          | inr (p, e) ↦
              let seen : PeerState = record p { last_recv_time = now } in
              let kept =
                write_peer-IsServing peers key p seen sessions serving e refl refl refl refl in
              elim (Option-cases (find_player s.game_world p.player_id)) [
                | inl gone ↦ rw (e, gone, fire_bullet) serving
                | inr (q, there) ↦ elim (Bool-cases q.is_dead) [
                  | inl dead ↦ rw (e, there, dead, fire_bullet) serving
                  | inr alive ↦
                      elim (Bool-cases (f.lt float_zero q.fire_cooldown_remaining_seconds)) [
                        | inl waits ↦ rw (e, there, alive, waits, fire_bullet) kept
                        | inr fires ↦ rw (e, there, alive, fires, fire_bullet) kept
                      ]
                ]
              ]
        ]
