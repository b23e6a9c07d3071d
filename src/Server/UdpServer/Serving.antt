-- ===== src/Server/UdpServer/Serving.antt =====
-- The peers and the sessions of UdpServer.cpp belong together, whatever the threads of the server do under
-- its mutex and in whatever order.
use windows_iocp_udp.Prelude.{
  ℕ, ◌≡◌, ap, ◌∙◌, true, List, [], ◌∷◌, Option, none, some, arith, Option-cases, Bool-cases, inl,
  inr,
}
use windows_iocp_udp.Identity.{EndpointKey, endpoint_eq, endpoint_eq_iff, SessionToken}
use windows_iocp_udp.Packet.Codec.{PacketCodec, serialize_packet}
use windows_iocp_udp.Server.Peers.{PeerState, PeerRoomManager, RecoverablePeer, find_joined_peer}
use windows_iocp_udp.Server.Peers.Consistency.{joined_read, put-IsConsistent}
use windows_iocp_udp.Server.Peers.Keyed.{put-IsKeyed, peer-IsAt}
use windows_iocp_udp.Server.Peers.Connected.{
  token_of, connected_token, Loses, Drops, put-Loses, AllLost,
}
use windows_iocp_udp.Server.Sessions
use windows_iocp_udp.Server.Sessions.{Registry, build_outgoing_packet, begin_close}
use windows_iocp_udp.Server.Sessions.Invariant.{
  IsCoherent, build-IsCoherent, begin_close-IsCoherent, erase-IsCoherent,
}
use windows_iocp_udp.Server.Sessions.Serving.{
  serves, Keeps, KeepsOthers, outgoing-Keeps, remove-KeepsOthers, begin_close-KeepsOthers,
}
use windows_iocp_udp.Server.Join.{write_peer}
use windows_iocp_udp.Server.Join.Joins.{IsSound}
use windows_iocp_udp.Server.UdpServer.{UdpServer, build_reliable, close_session}
use windows_iocp_udp.Server.UdpServer.Upkeep.{remove_sessions}

-- Every connected peer has a session with its token, which is not closing.
abbrev pub AllServed : PeerRoomManager → Registry → Type 0
AllServed peers r =
    (j : EndpointKey) (t : SessionToken) → connected_token peers j ≡ some t → serves r j t ≡ true

abbrev pub IsServing : PeerRoomManager → Registry → Type 0
IsServing peers r = IsSound peers × IsCoherent r × AllServed peers r

abbrev pub IsServed : UdpServer → Type 0
IsServed s = IsServing s.peer_room_manager s.reliable_udp_session_registry

pub Loses-IsServing :
    (peers peers' : PeerRoomManager) (r : Registry)
    → IsServing peers r
    → IsSound peers'
    → Loses peers peers'
    → IsServing peers' r
Loses-IsServing peers peers' r (sound, coherent, served) sound' loses =
    (sound', coherent, λ j t h. served j t (loses j t h))

pub Keeps-IsServing :
    (peers : PeerRoomManager) (r r' : Registry)
    → IsServing peers r
    → IsCoherent r'
    → Keeps r r'
    → IsServing peers r'
Keeps-IsServing peers r r' (sound, coherent, served) coherent' keeps =
    (sound, coherent', λ j t h. keeps j t (served j t h))

-- The session of an endpoint may go where nobody is connected.
pub KeepsOthers-IsServing :
    (peers : PeerRoomManager) (key : EndpointKey) (r r' : Registry)
    → IsServing peers r
    → connected_token peers key ≡ none
    → IsCoherent r'
    → KeepsOthers key r r'
    → IsServing peers r'
KeepsOthers-IsServing peers key r r' (sound, coherent, served) nobody coherent' keeps = (
  sound,
  coherent',
  λ j t h. elim (Bool-cases (endpoint_eq key j)) [
    | inl e ↦
        let here = ap (connected_token peers) ((endpoint_eq_iff key j).0 e) in
        absurd (ground (arith, here, nobody, h))
    | inr e ↦ keeps j t e (served j t h)
  ],
)

pub build_reliable-IsServing :
    {A : Type 0} (c : PacketCodec A) (packet : A) (key : EndpointKey) (now : ℕ)
    (peers : PeerRoomManager) (r : Registry)
    → IsServing peers r
    → IsServing peers (build_reliable c packet key now r).1
unfolding build_reliable
build_reliable-IsServing c packet key now peers r serving =
    elim (Option-cases (serialize_packet c packet)) [
      | inl e ↦ rw (e, build_reliable) serving
      | inr (bytes, e) ↦
          rw (e, build_reliable)
            (Keeps-IsServing peers r (build_outgoing_packet r key bytes now).1 serving
              (build-IsCoherent r key bytes now serving.1) (outgoing-Keeps r key bytes now))
    ]

pub remove_session-IsServing :
    (peers : PeerRoomManager) (key : EndpointKey) (r : Registry)
    → IsServing peers r
    → connected_token peers key ≡ none
    → IsServing peers (Sessions.remove r key).1
unfolding Sessions.remove
remove_session-IsServing peers key r serving nobody =
    KeepsOthers-IsServing peers key r (Sessions.remove r key).1 serving nobody
      (erase-IsCoherent r key serving.1) (remove-KeepsOthers r key)

pub close_session-IsServing :
    (peers : PeerRoomManager) (key : EndpointKey) (bytes : Option (List ℕ)) (r : Registry)
    → IsServing peers r
    → connected_token peers key ≡ none
    → IsServing peers (close_session key bytes r)
unfolding close_session
close_session-IsServing peers key none r serving nobody =
    remove_session-IsServing peers key r serving nobody
close_session-IsServing peers key (some bytes) r serving nobody =
    KeepsOthers-IsServing peers key r (begin_close r key).1 serving nobody
      (begin_close-IsCoherent r key serving.1) (begin_close-KeepsOthers r key)

pub remove_sessions-IsServing :
    (peers : PeerRoomManager) (lost : List RecoverablePeer) (r : Registry)
    → IsServing peers r
    → AllLost peers lost
    → IsServing peers (remove_sessions lost r)
remove_sessions-IsServing peers [] r serving all = serving
remove_sessions-IsServing peers (p ∷ ps) r serving all =
    remove_sessions-IsServing peers ps (Sessions.remove r p.endpoint_key).1
      (remove_session-IsServing peers p.endpoint_key r serving all.0) all.1

pub Drops-nobody :
    (key : EndpointKey) (s s' : PeerRoomManager) → Drops key s s' → connected_token s' key ≡ none
Drops-nobody key s s' drops = elim (Option-cases (connected_token s' key)) [
  | inl e ↦ e
  | inr (t, e) ↦ absurd (ground (arith, drops key t e))
]

pub write_peer-IsServing :
    (peers : PeerRoomManager) (key : EndpointKey) (p q : PeerState) (r : Registry)
    → IsServing peers r
    → find_joined_peer peers key ≡ some p
    → q.is_joined ≡ p.is_joined
    → q.room_id ≡ p.room_id
    → q.endpoint_key ≡ p.endpoint_key
    → token_of (some q) ≡ token_of (some p)
    → IsServing (write_peer peers key q) r
write_peer-IsServing peers key p q r serving e joined room at token =
    let (consistent, keyed) = serving.0 in
    let read = joined_read peers key p e in
    let here = ap (λ k. endpoint_eq k key) at ∙ peer-IsAt peers key p keyed e in
    Loses-IsServing peers (write_peer peers key q) r serving
      (
        put-IsConsistent peers key p q consistent read.0 joined room,
        put-IsKeyed peers key q keyed here,
      )
      (put-Loses peers key p q read.0 token)
