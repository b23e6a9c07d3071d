-- ===== src/Server/Peers/Connected.antt =====
-- Who is connected, and with which token, after the operations of PeerRoomManager.cpp.
use windows_iocp_udp.Prelude.{
  ℕ, ◌≡◌, ◌⊎◌, refl, sym, ap, ◌∙◌, Bool, true, false, ◌&&◌, ◌==◌, if◌then◌else◌, List, [], ◌∷◌,
  Option, none, some, arith, Option-cases, Bool-cases, inl, inr,
}
use windows_iocp_udp.Server.EndpointTable.{endpoint_key}
use windows_iocp_udp.Identity.{EndpointKey, endpoint_eq, endpoint_eq_iff, SessionToken}
use windows_iocp_udp.Server.Peers.{
  PeerState, PeerTable, PeerRoomManager, RecoverablePeer, is_connected, find_entry, put_entry,
  erase_entry, first_peer, find_joined_peer,
}
use windows_iocp_udp.Server.Peers.Operations.{
  refresh_recv_time, reconnected, rebind_recoverable_peer, rebind_to, move_peer, remove_peer,
  change_peer_room, change_room_of, is_timed_out, mark_loop, mark_timed_out_peers_recoverable,
  is_expired, remove_expired_recoverable_peers,
}
use windows_iocp_udp.Server.Peers.Tables.{Unique, find-put, find-erase}
use windows_iocp_udp.Server.Peers.Consistency.{find-same, IsConsistent, joined_read}
use windows_iocp_udp.Server.Peers.Recovery.{find-mark_loop, find-expire_loop, rebound}

-- The token of a joined and connected peer.
abbrev pub token_of : Option PeerState → Option SessionToken
token_of none = none
token_of (some p) =
    if p.is_joined && is_connected p.connection_state then some p.session_token else none

abbrev pub connected_token : PeerRoomManager → EndpointKey → Option SessionToken
connected_token s j = token_of (find_entry s.peer_table j)

-- Nobody is connected who was not.
abbrev pub Loses : PeerRoomManager → PeerRoomManager → Type 0
Loses s s' =
    (j : EndpointKey) (t : SessionToken)
    → connected_token s' j ≡ some t
    → connected_token s j ≡ some t

-- The same, and nobody is connected at the endpoint.
abbrev pub Drops : EndpointKey → PeerRoomManager → PeerRoomManager → Type 0
Drops key s s' =
    (j : EndpointKey) (t : SessionToken)
    → connected_token s' j ≡ some t
    → (endpoint_eq key j ≡ false) × (connected_token s j ≡ some t)

-- The same, and perhaps somebody with the token at the endpoint.
abbrev pub Gains : EndpointKey → SessionToken → PeerRoomManager → PeerRoomManager → Type 0
Gains key token s s' =
    (j : EndpointKey) (t : SessionToken)
    → connected_token s' j ≡ some t
    → ((endpoint_eq key j ≡ true) × (t ≡ token))
      ⊎ ((endpoint_eq key j ≡ false) × (connected_token s j ≡ some t))

pub put-Loses :
    (s : PeerRoomManager) (key : EndpointKey) (p q : PeerState)
    → find_entry s.peer_table key ≡ some p
    → token_of (some q) ≡ token_of (some p)
    → Loses s (record s { peer_table = put_entry s.peer_table key q })
put-Loses s key p q there same j t h =
    let read = find-put s.peer_table key j q in
    elim (Bool-cases (endpoint_eq key j)) [
      | inl e ↦
          let at = sym (find-same s.peer_table key j e) ∙ there in
          ap token_of at ∙ sym same ∙ ground (arith, e, read, h)
      | inr e ↦ ground (arith, e, read, h)
    ]

pub refresh-Loses :
    (s : PeerRoomManager) (key : EndpointKey) (now : ℕ) → Loses s (refresh_recv_time s key now).1
unfolding refresh_recv_time
refresh-Loses s key now = elim (Option-cases (find_joined_peer s key)) [
  | inl e ↦ rw (e, refresh_recv_time) (λ j t h. h)
  | inr (p, e) ↦
      rw (e, refresh_recv_time)
        (put-Loses s key p (record p { last_recv_time = now }) (joined_read s key p e).0 refl)
]

pub remove-Drops : (s : PeerRoomManager) (key : EndpointKey) → Drops key s (remove_peer s key).1
unfolding remove_peer
remove-Drops s key j t h = elim (Option-cases (find_entry s.peer_table key)) [
  | inl e ↦ ground (arith, e, find-same s.peer_table key j)
  | inr (p, e) ↦ elim (Bool-cases p.is_joined) [
    | inl into ↦ ground (arith, e, into, find-erase s.peer_table key j)
    | inr out ↦ ground (arith, e, out, find-erase s.peer_table key j)
  ]
]

pub change-Loses :
    (s : PeerRoomManager) (key : EndpointKey) (next now : ℕ)
    → Loses s (change_peer_room s key next now).1
unfolding change_peer_room change_room_of
change-Loses s key next now = elim (Option-cases (find_joined_peer s key)) [
  | inl e ↦ rw (e, change_peer_room) (λ j t h. h)
  | inr (p, e) ↦ elim (Bool-cases (p.room_id == next)) [
    | inl same ↦ rw (e, same, change_peer_room, change_room_of) (λ j t h. h)
    | inr other ↦
        rw (e, other, change_peer_room, change_room_of)
          (put-Loses s key p (record p { room_id = next; last_recv_time = now })
            (joined_read s key p e).0 refl)
  ]
]

pub mark-Loses :
    (s : PeerRoomManager) (now timeout : ℕ)
    → Loses s (mark_timed_out_peers_recoverable s now timeout).1
unfolding mark_timed_out_peers_recoverable
mark-Loses s now timeout j t h = elim (Option-cases (find_entry s.peer_table j)) [
  | inl e ↦ ground (arith, e, find-mark_loop now timeout s.peer_table j)
  | inr (p, e) ↦ elim (Bool-cases (is_timed_out now timeout p)) [
    | inl late ↦ ground (arith, e, late, find-mark_loop now timeout s.peer_table j)
    | inr fine ↦ ground (arith, e, fine, find-mark_loop now timeout s.peer_table j)
  ]
]

pub expired-Loses :
    (s : PeerRoomManager) (now grace : ℕ)
    → IsConsistent s
    → Loses s (remove_expired_recoverable_peers s now grace).1
unfolding remove_expired_recoverable_peers
expired-Loses s now grace c j t h =
    let read = find-expire_loop now grace s.peer_table s.room_table j c.unique in
    elim (Option-cases (find_entry s.peer_table j)) [
      | inl e ↦ ground (arith, e, read)
      | inr (p, e) ↦ elim (Bool-cases (is_expired now grace p)) [
        | inl late ↦ ground (arith, e, late, read)
        | inr fine ↦ ground (arith, e, fine, read)
      ]
    ]

pub rebind-Gains :
    (s : PeerRoomManager) (previous next : EndpointKey) (now : ℕ) (p : PeerState)
    → find_joined_peer s previous ≡ some p
    → (rebind_recoverable_peer s previous next now).0 ≡ true
    → Gains next p.session_token s (rebind_recoverable_peer s previous next now).1
unfolding rebind_recoverable_peer rebind_to move_peer
rebind-Gains s previous next now p e done j t h =
    let read = joined_read s previous p e in
    elim (Bool-cases (endpoint_eq previous next)) [
      | inl same ↦
          let here = (endpoint_eq_iff previous next).0 same in
          ground (arith, e, same, here, find-put s.peer_table previous j (reconnected p now))
      | inr differ ↦ elim (Option-cases (find_entry s.peer_table next)) [
        | inr (q, taken) ↦ absurd (ground (arith, e, differ, taken))
        | inl free ↦ elim (Option-cases (s.room_table p.room_id)) [
          | inl gone ↦ absurd (ground (arith, e, differ, free, gone))
          | inr (members, there) ↦ ground (
            arith,
            e,
            differ,
            free,
            there,
            find-put (erase_entry s.peer_table previous) next j (rebound p next now),
            find-erase s.peer_table previous j,
          )
        ]
      ]
    ]

-- A rebind that fails changes nothing.
pub rebind_fails :
    (s : PeerRoomManager) (previous next : EndpointKey) (now : ℕ)
    → (rebind_recoverable_peer s previous next now).0 ≡ false
    → (rebind_recoverable_peer s previous next now).1 ≡ s
unfolding rebind_recoverable_peer rebind_to move_peer
rebind_fails s previous next now failed = ground arith

-- The peers that a timeout pass reports are not connected after it.
abbrev pub AllLost : PeerRoomManager → List RecoverablePeer → Type 0
AllLost s [] = Unit {0}
AllLost s (r ∷ rs) = (connected_token s r.endpoint_key ≡ none) × AllLost s rs

-- Each entry of the second table is found in the first.
abbrev pub AllFound : PeerTable → PeerTable → Type 0
AllFound full [] = Unit {0}
AllFound full ((k, p) ∷ table) = (find_entry full k ≡ some p) × AllFound full table

AllFound-cons :
    (k : EndpointKey) (p : PeerState) (full table : PeerTable)
    → find_entry full k ≡ none
    → AllFound full table
    → AllFound ((k, p) ∷ full) table
AllFound-cons k p full [] new all = tt
AllFound-cons k p full ((i, q) ∷ table) new all =
    (ground (arith, all.0, find-same full k i), AllFound-cons k p full table new all.1)

pub Unique-AllFound : (table : PeerTable) → Unique table → AllFound table table
Unique-AllFound [] u = tt
Unique-AllFound ((k, p) ∷ table) u =
    (ground arith, AllFound-cons k p table table u.0 (Unique-AllFound table u.1))

pub first_peer-found :
    (test : PeerState → Bool) (full table : PeerTable) (p : PeerState)
    → AllFound full table
    → first_peer test table ≡ some p
    → (k : EndpointKey) × (find_entry full k ≡ some p) × (test p ≡ true)
first_peer-found test full [] p all h = absurd (ground arith)
first_peer-found test full ((k, q) ∷ table) p all h = elim (Bool-cases (test q)) [
  | inl passes ↦ (k, ground (arith, all.0, passes), ground (arith, passes))
  | inr fails ↦ first_peer-found test full table p all.1 (ground (arith, fails))
]

mark_loop-AllLost :
    (s : PeerRoomManager) (now timeout : ℕ) (table : PeerTable)
    → AllFound s.peer_table table
    → AllLost (mark_timed_out_peers_recoverable s now timeout).1 (mark_loop now timeout table).0
unfolding mark_loop mark_timed_out_peers_recoverable
mark_loop-AllLost s now timeout [] all = tt
mark_loop-AllLost s now timeout ((k, p) ∷ table) all =
    elim (Bool-cases (is_timed_out now timeout p)) [
      | inl late ↦
          rw (late, mark_loop)
            (
              ground (arith, late, all.0, find-mark_loop now timeout s.peer_table k),
              mark_loop-AllLost s now timeout table all.1,
            )
      | inr fine ↦ rw (fine, mark_loop) (mark_loop-AllLost s now timeout table all.1)
    ]

pub mark-AllLost :
    (s : PeerRoomManager) (now timeout : ℕ)
    → IsConsistent s
    → let r = mark_timed_out_peers_recoverable s now timeout in AllLost r.1 r.0
unfolding mark_timed_out_peers_recoverable
mark-AllLost s now timeout c =
    mark_loop-AllLost s now timeout s.peer_table (Unique-AllFound s.peer_table c.unique)
