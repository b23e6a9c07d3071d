-- ===== src/Server/UdpServer/Served.antt =====
-- Every connected peer of UdpServer.cpp has a session, whatever the threads of the server do under its mutex
-- and in whatever order.
use windows_iocp_udp.Prelude.{
  ℕ, ◌≡◌, ◌⊎◌, refl, Bool, true, false, ◌==◌, none, arith, Option-cases, Bool-cases, inl, inr,
}
use windows_iocp_udp.Identity.{EndpointKey, SessionToken}
use windows_iocp_udp.Packet.Codec.{PacketCodec}
use windows_iocp_udp.Packet.Codecs.Session.{leave_response, leave_response_codec}
use windows_iocp_udp.Packet.Codecs.Control.{ServerDisconnect, server_disconnect_codec}
use windows_iocp_udp.Server.Peers.{find_joined_peer_by_player_id}
use windows_iocp_udp.Server.Peers.Connected.{connected_token}
use windows_iocp_udp.Server.Sessions.Invariant.{upsert-IsCoherent}
use windows_iocp_udp.Server.Sessions.Serving.{upsert-serves}
use windows_iocp_udp.Server.Join.{is_admitted}
use windows_iocp_udp.Server.Join.Authenticated.{join_authenticated_peer}
use windows_iocp_udp.Server.Leaving.{LeaveResult, leave_peer}
use windows_iocp_udp.Server.Join.Connected.{join_authenticated-Joins}
use windows_iocp_udp.Server.Join.Joins.{Joins}
use windows_iocp_udp.Server.Leaving.Connected.{leave_peer-Drops}
use windows_iocp_udp.Server.UdpServer.{ServerConfig, UdpServer, build_reliable, with_peers}
use windows_iocp_udp.Server.UdpServer.Membership.{
  join_section, after_leave, leave_with, leave_section, kick_section,
}
use windows_iocp_udp.Server.UdpServer.Serving.{
  IsServed, Loses-IsServing, build_reliable-IsServing, close_session-IsServing, Drops-nobody,
}

module _ (config : ServerConfig) where
  pub join_section-IsServed :
      (key : EndpointKey) (token : SessionToken) (now system_now : ℕ) (s : UdpServer)
      → IsServed s
      → IsServed (join_section config key token now system_now s).1
  unfolding join_section
  join_section-IsServed key token now system_now s (sound, coherent, served) =
      let r =
        join_authenticated_peer key token config.initial_room_id s.authenticated_account_registry
          s.peer_room_manager s.game_world config.game_rule now in
      let joins =
        join_authenticated-Joins key token config.initial_room_id now config.game_rule
          s.authenticated_account_registry s.peer_room_manager s.game_world sound in
      go (is_admitted r.0.status) refl joins
    where
      go :
          let r =
            join_authenticated_peer key token config.initial_room_id
              s.authenticated_account_registry s.peer_room_manager s.game_world config.game_rule
              now in
          (b : Bool)
          → is_admitted r.0.status ≡ b
          → Joins b key token s.peer_room_manager r.2
          → IsServed (join_section config key token now system_now s).1
      go false e (sound', loses) =
          rw (e, join_section) (sound', coherent, λ j t h. served j t (loses j t h))
      go true e (sound', gains) =
          let sessions = s.reliable_udp_session_registry in
          let upserted = upsert-serves config.hundred_ms sessions key config.reliable_udp token in
          rw (e, join_section)
            (
              sound',
              upsert-IsCoherent config.hundred_ms sessions key config.reliable_udp token coherent,
              λ j t h. elim (gains j t h) [
                | inl (here, own) ↦ ground (arith, upserted.1 j here, own)
                | inr (other, before) ↦ upserted.0 j t other (served j t before)
              ],
            )

  after_leave-IsServed :
      {A : Type 0} (c : PacketCodec A) (packet : A) (key : EndpointKey) (left : LeaveResult)
      (now system_now : ℕ) (s : UdpServer)
      → IsServed s
      → connected_token s.peer_room_manager key ≡ none
      → IsServed (after_leave config c packet key left now system_now s).1
  unfolding after_leave
  after_leave-IsServed c packet key left now system_now s serving nobody =
      let sessions = s.reliable_udp_session_registry in
      let built = build_reliable c packet key now sessions in
      close_session-IsServing s.peer_room_manager key built.0 built.1
        (build_reliable-IsServing c packet key now s.peer_room_manager sessions serving) nobody

  -- The peers after a leave, and that nobody is connected where it succeeded.
  left-IsServed :
      (key : EndpointKey) (s : UdpServer)
      → IsServed s
      → let r = leave_peer key s.peer_room_manager s.game_world in
        IsServed (with_peers s r.1 r.2) × ((r.0 ≡ none) ⊎ (connected_token r.1 key ≡ none))
  left-IsServed key s serving =
      let peers = s.peer_room_manager in
      let (sound, loses, cases) = leave_peer-Drops key peers s.game_world serving.0 in
      let left = (leave_peer key peers s.game_world).1 in
      (
        Loses-IsServing peers left s.reliable_udp_session_registry serving sound loses,
        elim cases [ inl stays ↦ inl stays | inr drops ↦ inr (Drops-nobody key peers left drops) ],
      )

  leave_with-IsServed :
      {A : Type 0} (c : PacketCodec A) (packet : A) (key : EndpointKey) (now system_now : ℕ)
      (s : UdpServer)
      → IsServed s
      → IsServed (leave_with config c packet key now system_now s).1
  unfolding leave_with
  leave_with-IsServed c packet key now system_now s serving =
      let r = leave_peer key s.peer_room_manager s.game_world in
      let s1 = with_peers s r.1 r.2 in
      let (serving1, cases) = left-IsServed key s serving in
      elim (Option-cases r.0) [
        | inl e ↦ rw (e, leave_with) serving1
        | inr (left, e) ↦ elim cases [
          | inl stays ↦ absurd (ground (arith, e, stays))
          | inr nobody ↦
              rw (e, leave_with)
                (after_leave-IsServed c packet key left now system_now s1 serving1 nobody)
        ]
      ]

  pub leave_section-IsServed :
      (key : EndpointKey) (now system_now : ℕ) (s : UdpServer)
      → IsServed s
      → IsServed (leave_section config key now system_now s).1
  unfolding leave_section
  leave_section-IsServed key now system_now s serving =
      leave_with-IsServed leave_response_codec leave_response key now system_now s serving

  pub kick_section-IsServed :
      (player_id now system_now : ℕ) (s : UdpServer)
      → IsServed s
      → IsServed (kick_section config player_id now system_now s).1
  unfolding kick_section
  kick_section-IsServed player_id now system_now s serving = elim (Bool-cases (player_id == 0)) [
    | inl nobody ↦ rw (nobody, kick_section) serving
    | inr somebody ↦
        elim (Option-cases (find_joined_peer_by_player_id s.peer_room_manager player_id)) [
          | inl gone ↦ rw (somebody, gone, kick_section) serving
          | inr (p, e) ↦
              let notice : ServerDisconnect = record { reason = 1 } in
              let kicked =
                leave_with-IsServed server_disconnect_codec notice p.endpoint_key now system_now s
                  serving in
              elim (Option-cases
                (leave_with config server_disconnect_codec notice p.endpoint_key now system_now
                  s).0) [
                    | inl stays ↦ rw (somebody, e, stays, kick_section) kicked
                    | inr (r, left) ↦ rw (somebody, e, left, kick_section) kicked
                  ]
        ]
  ]
