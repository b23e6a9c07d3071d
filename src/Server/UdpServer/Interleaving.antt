-- ===== src/Server/UdpServer/Interleaving.antt =====
-- The threads of UdpServer.cpp, as the sequence of what they do while they hold the mutex.
use windows_iocp_udp.Prelude.{
  ℕ, ◌≡◌, refl, Bool, List, [], ◌∷◌, Option, none, arith, Bool-cases, inl, inr,
}
use windows_iocp_udp.Server.EndpointTable.{endpoint_key}
use windows_iocp_udp.Identity.{EndpointKey, SessionToken}
use windows_iocp_udp.Reliable.PacketBuilder.{ReliableUdpPacketView}
use windows_iocp_udp.Game.{Floats}
use windows_iocp_udp.Server.Peers
use windows_iocp_udp.Server.Peers.{PeerState, PeerTable, PeerRoomManager, find_entry}
use windows_iocp_udp.Server.Peers.Tables.{Unique}
use windows_iocp_udp.Server.Peers.Consistency.{lives_in, refresh-IsConsistent}
use windows_iocp_udp.Server.Peers.Keyed.{is_at, refresh-IsKeyed}
use windows_iocp_udp.Server.Peers.Connected.{token_of, refresh-Loses}
use windows_iocp_udp.Server.Peers.Operations.{refresh_recv_time}
use windows_iocp_udp.Server.Accounts
use windows_iocp_udp.Server.Accounts.{apply}
use windows_iocp_udp.Server.Sessions
use windows_iocp_udp.Server.Sessions.{
  Registry, authenticate_incoming_packet, process_received_packet,
}
use windows_iocp_udp.Server.Sessions.ResendPass.{extract_resend_batch}
use windows_iocp_udp.Server.Sessions.Invariant.{
  authenticate-IsCoherent, process-IsCoherent, extract_resend_batch-IsCoherent,
}
use windows_iocp_udp.Server.Sessions.Serving.{authenticate-Keeps, received-Keeps, resend-Keeps}
use windows_iocp_udp.Server.UdpServer.{ServerConfig, UdpServer}
use windows_iocp_udp.Server.UdpServer.Membership.{
  join_section, leave_section, kick_section, room_section,
}
use windows_iocp_udp.Server.UdpServer.Upkeep.{
  keep_alive_section, commit_processed_input_sequences, timeouts_section, input_section,
  fire_section, tick_section, resends_section, snapshots_section, completed_matches_section,
  stop_section,
}
use windows_iocp_udp.Server.UdpServer.Receive.{with_sessions}
use windows_iocp_udp.Server.UdpServer.Serving.{
  IsServed, IsServing, Loses-IsServing, Keeps-IsServing,
}
use windows_iocp_udp.Server.UdpServer.Served.{
  join_section-IsServed, leave_section-IsServed, kick_section-IsServed,
}
use windows_iocp_udp.Server.UdpServer.Kept.{
  room_section-IsServed, timeouts_section-IsServed, input_section-IsServed, fire_section-IsServed,
}

-- What a thread does between taking the mutex and giving it back, with what it has read before.
pub data Section : Type 0 where
  authenticate : EndpointKey → List ℕ → Section
  receive : EndpointKey → ReliableUdpPacketView → Section
  login : Accounts.Request → Option SessionToken → Section
  join : EndpointKey → SessionToken → ℕ → ℕ → Section
  input : EndpointKey → ℕ → ℕ → ℕ → Section
  fire keep_alive : EndpointKey → ℕ → Section
  leave : EndpointKey → ℕ → ℕ → Section
  change_room : EndpointKey → ℕ → ℕ → ℕ → ℕ → Section
  kick : ℕ → ℕ → ℕ → Section
  timeouts : ℕ → ℕ → Section
  resends : ℕ → Section
  tick snapshots completed_matches : Section
  stop : Bool → ℕ → Section

-- The locked part of `ProcessAccountLoginResponses`.
abbrev pub login_section : Accounts.Request → Option SessionToken → UdpServer → UdpServer
login_section q generated s = record s {
  authenticated_account_registry =
      (apply q s.authenticated_account_registry s.peer_room_manager generated).1;
}

commit-find :
    (table : PeerTable) (j : EndpointKey) (t : SessionToken) (room : ℕ)
    → (token_of (find_entry (commit_processed_input_sequences table) j)
        ≡ token_of (find_entry table j))
      × (lives_in (find_entry (commit_processed_input_sequences table) j) room
          ≡ lives_in (find_entry table j) room)
      × (is_at j (find_entry (commit_processed_input_sequences table) j)
          ≡ is_at j (find_entry table j))
commit-find [] j t room = (refl, refl, refl)
commit-find ((k, p) ∷ table) j t room = elim (Bool-cases p.is_joined) [
  | inl into ↦ ground (arith, into, commit-find table j t room)
  | inr out ↦ ground (arith, out, commit-find table j t room)
]

commit-absent :
    (table : PeerTable) (k : EndpointKey)
    → find_entry table k ≡ none
    → find_entry (commit_processed_input_sequences table) k ≡ none
commit-absent [] k h = refl
commit-absent ((i, p) ∷ table) k h = ground (arith, commit-absent table k)

commit-Unique : (table : PeerTable) → Unique table → Unique (commit_processed_input_sequences table)
commit-Unique [] u = tt
commit-Unique ((k, p) ∷ table) u = (commit-absent table k u.0, commit-Unique table u.1)

commit-IsServing :
    (peers : PeerRoomManager) (r : Registry)
    → IsServing peers r
    → IsServing (record peers { peer_table = commit_processed_input_sequences peers.peer_table }) r
commit-IsServing peers r serving =
    let (c, keyed) = serving.0 in
    let table = peers.peer_table in
    let next = record peers { peer_table = commit_processed_input_sequences table } in
    let nothing : SessionToken = record { high = 0; low = 0 } in
    Loses-IsServing peers next r serving
      (
        record {
          unique = commit-Unique table c.unique;
          listed = λ room j. ground (arith, c.listed room j, commit-find table j nothing room);
          inhabited = c.inhabited;
        },
        λ j. ground (arith, keyed j, commit-find table j nothing 0),
      )
      (λ j t h. ground (arith, h, commit-find table j t 0))

module _ (f : Floats) (config : ServerConfig) (hash : List ℕ → List ℕ → Option (List ℕ))
    (wide : ℕ → ℕ) where
  abbrev pub run_section : Section → UdpServer → UdpServer
  run_section (authenticate key packet) s =
      with_sessions s
        (authenticate_incoming_packet hash s.reliable_udp_session_registry key packet).1
  run_section (receive key view) s =
      with_sessions s (process_received_packet wide s.reliable_udp_session_registry key view).1
  run_section (login q generated) s = login_section q generated s
  run_section (join key token now system_now) s = (join_section config key token now system_now s).1
  run_section (input key input_sequence flags now) s =
      input_section config f key input_sequence flags now s
  run_section (fire key now) s = fire_section config f key now s
  run_section (keep_alive key now) s = keep_alive_section key now s
  run_section (leave key now system_now) s = (leave_section config key now system_now s).1
  run_section (change_room key room now later system_now) s =
      (room_section config key room now later system_now s).1
  run_section (kick player_id now system_now) s = (kick_section config player_id now system_now s).1
  run_section (timeouts now system_now) s = (timeouts_section config now system_now s).2
  run_section (resends now) s = (resends_section now s).1
  run_section tick s = (tick_section config f s).2
  run_section snapshots s = snapshots_section s
  run_section completed_matches s = (completed_matches_section s).1
  run_section (stop was_running system_now) s = stop_section was_running system_now s

  abbrev pub run_sections : List Section → UdpServer → UdpServer
  run_sections [] s = s
  run_sections (a ∷ rest) s = run_sections rest (run_section a s)

  section-IsServed : (a : Section) (s : UdpServer) → IsServed s → IsServed (run_section a s)
  unfolding keep_alive_section resends_section tick_section snapshots_section
      completed_matches_section stop_section Peers.clear Sessions.clear
  section-IsServed (authenticate key packet) s serving =
      let r = s.reliable_udp_session_registry in
      Keeps-IsServing s.peer_room_manager r (authenticate_incoming_packet hash r key packet).1
        serving (authenticate-IsCoherent hash r key packet serving.1)
        (authenticate-Keeps hash r key packet)
  section-IsServed (receive key view) s serving =
      let r = s.reliable_udp_session_registry in
      Keeps-IsServing s.peer_room_manager r (process_received_packet wide r key view).1 serving
        (process-IsCoherent wide r key view serving.1) (received-Keeps wide r key view)
  section-IsServed (login q generated) s serving = serving
  section-IsServed (join key token now system_now) s serving =
      join_section-IsServed config key token now system_now s serving
  section-IsServed (input key input_sequence flags now) s serving =
      input_section-IsServed config f key input_sequence flags now s serving
  section-IsServed (fire key now) s serving = fire_section-IsServed config f key now s serving
  section-IsServed (keep_alive key now) s serving =
      let peers = s.peer_room_manager in
      let (consistent, keyed) = serving.0 in
      Loses-IsServing peers (refresh_recv_time peers key now).1 s.reliable_udp_session_registry
        serving (refresh-IsConsistent peers key now consistent, refresh-IsKeyed peers key now keyed)
        (refresh-Loses peers key now)
  section-IsServed (leave key now system_now) s serving =
      leave_section-IsServed config key now system_now s serving
  section-IsServed (change_room key room now later system_now) s serving =
      room_section-IsServed config key room now later system_now s serving
  section-IsServed (kick player_id now system_now) s serving =
      kick_section-IsServed config player_id now system_now s serving
  section-IsServed (timeouts now system_now) s serving =
      timeouts_section-IsServed config now system_now s serving
  section-IsServed (resends now) s serving =
      let r = s.reliable_udp_session_registry in
      Keeps-IsServing s.peer_room_manager r (extract_resend_batch r now).1 serving
        (extract_resend_batch-IsCoherent r now serving.1) (resend-Keeps r now serving.1)
  section-IsServed tick s serving =
      commit-IsServing s.peer_room_manager s.reliable_udp_session_registry serving
  section-IsServed snapshots s serving = serving
  section-IsServed completed_matches s serving = serving
  section-IsServed (stop was_running system_now) s serving = (
    (record { unique = tt; listed = λ room j. refl; inhabited = λ room. refl }, λ j. refl),
    (tt, λ j closing. ground arith),
    λ j t h. ground arith,
  )

  -- Whatever the threads of the server do while they hold its mutex, in whatever order, with whatever packets,
  -- clocks and float operations: where every connected peer has a session with its own token that is not
  -- closing, and the tables of the peers and of the sessions are in order, this is so afterwards.
  pub sections-IsServed :
      (sections : List Section) (s : UdpServer) → IsServed s → IsServed (run_sections sections s)
  sections-IsServed [] s serving = serving
  sections-IsServed (a ∷ rest) s serving =
      sections-IsServed rest (run_section a s) (section-IsServed a s serving)
