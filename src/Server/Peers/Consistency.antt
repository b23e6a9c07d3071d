-- ===== src/Server/Peers/Consistency.antt =====
-- The two tables of PeerRoomManager.cpp agree: a room lists exactly the joined peers that are in it.
use windows_iocp_udp.Prelude.{
  ℕ, ◌≡◌, ◌≢◌, refl, Bool, true, false, not, ◌↔◌, ◌&&◌, ◌==◌, Option, none, some, arith,
  Option-cases, Bool-cases, inl, inr,
}
pub use windows_iocp_udp.Server.EndpointTable.{find-same}
use windows_iocp_udp.Server.EndpointTable.{endpoint_key}
use windows_iocp_udp.Identity.{EndpointKey, endpoint_eq_iff}
use windows_iocp_udp.Server.Peers.{
  PeerState, PeerRoomManager, find_entry, put_entry, is_in, members_of, leave_room,
  find_joined_peer, find_peer,
}
use windows_iocp_udp.Server.Peers.Operations.{
  upsert_joined_peer, joined_in, peer_or_new, refresh_recv_time, remove_peer, change_peer_room,
  change_room_of,
}
use windows_iocp_udp.Server.Peers.Tables.{
  Unique, find-put, find-erase, put-Unique, erase-Unique, members-leave_room, members-enter_room,
  is_inhabited, inhabited-leave_room, inhabited-enter_room,
}

-- The peer is joined and in the room.
abbrev pub lives_in : Option PeerState → ℕ → Bool
lives_in none room = false
lives_in (some p) room = p.is_joined && p.room_id == room

pub record IsConsistent (s : PeerRoomManager) : Type 0 where
  pub unique : Unique s.peer_table
  pub listed :
      (room : ℕ) (key : EndpointKey)
      → is_in (members_of (s.room_table room)) key ≡ lives_in (find_entry s.peer_table key) room
  pub inhabited : (room : ℕ) → is_inhabited (s.room_table room) ≡ true

pub joined_read :
    (s : PeerRoomManager) (key : EndpointKey) (p : PeerState)
    → find_joined_peer s key ≡ some p
    → (find_entry s.peer_table key ≡ some p) × (p.is_joined ≡ true)
unfolding find_joined_peer find_peer
joined_read s key p e = ground arith

-- A write that changes neither the room nor whether the peer is joined.
pub put-IsConsistent :
    (s : PeerRoomManager) (key : EndpointKey) (p q : PeerState)
    → IsConsistent s
    → find_entry s.peer_table key ≡ some p
    → q.is_joined ≡ p.is_joined
    → q.room_id ≡ p.room_id
    → IsConsistent (record s { peer_table = put_entry s.peer_table key q })
put-IsConsistent s key p q c e joined room = record {
  unique = put-Unique s.peer_table key q c.unique;
  listed = λ r j.
      ground (arith, c.listed r j, find-put s.peer_table key j q, find-same s.peer_table key j);
  inhabited = c.inhabited;
}

-- A peer that joins a room keeps the tables consistent, unless it is joined in another room.
pub upsert-IsConsistent :
    (s : PeerRoomManager) (key : EndpointKey) (player_id room_id now : ℕ)
    → IsConsistent s
    → ((r : ℕ) → r ≢ room_id → lives_in (find_entry s.peer_table key) r ≡ false)
    → IsConsistent (upsert_joined_peer s key player_id room_id now)
unfolding upsert_joined_peer
upsert-IsConsistent s key player_id room_id now c free =
    let q = joined_in (peer_or_new (find_entry s.peer_table key)) key player_id room_id now in
    record {
      unique = put-Unique s.peer_table key q c.unique;
      listed = λ r j. ground (
        arith,
        c.listed r j,
        members-enter_room s.room_table room_id r key j,
        find-put s.peer_table key j q,
        find-same s.peer_table key j,
        free r,
      );
      inhabited = λ r. inhabited-enter_room s.room_table room_id r key (c.inhabited r);
    }

-- The peer is joined and in another room.
abbrev pub lives_elsewhere : Option PeerState → ℕ → Bool
lives_elsewhere none room = false
lives_elsewhere (some p) room = p.is_joined && not (p.room_id == room)

-- A join keeps the tables consistent exactly when the peer is not joined in another room.
pub upsert-IsConsistent_iff :
    (s : PeerRoomManager) (key : EndpointKey) (player_id room_id now : ℕ)
    → IsConsistent s
    → IsConsistent (upsert_joined_peer s key player_id room_id now)
      ↔ (lives_elsewhere (find_entry s.peer_table key) room_id ≡ false)
unfolding upsert_joined_peer
upsert-IsConsistent_iff s key player_id room_id now c = (only_if, if_nowhere)
  where
    only_if :
        IsConsistent (upsert_joined_peer s key player_id room_id now)
        → lives_elsewhere (find_entry s.peer_table key) room_id ≡ false
    only_if c' = elim (Option-cases (find_entry s.peer_table key)) [
      | inl new ↦ rw new refl
      | inr (p, e) ↦
          let q = joined_in (peer_or_new (find_entry s.peer_table key)) key player_id room_id now in
          ground (
            arith,
            e,
            c.listed p.room_id key,
            c'.listed p.room_id key,
            members-enter_room s.room_table room_id p.room_id key key,
            find-put s.peer_table key key q,
            endpoint_eq_iff key key,
          )
    ]

    if_nowhere :
        lives_elsewhere (find_entry s.peer_table key) room_id ≡ false
        → IsConsistent (upsert_joined_peer s key player_id room_id now)
    if_nowhere h = upsert-IsConsistent s key player_id room_id now c (λ r other.
        elim (Option-cases (find_entry s.peer_table key)) [
          | inl new ↦ rw new refl
          | inr (p, e) ↦ ground (arith, e, h, other)
        ])

pub refresh-IsConsistent :
    (s : PeerRoomManager) (key : EndpointKey) (now : ℕ)
    → IsConsistent s
    → IsConsistent (refresh_recv_time s key now).1
unfolding refresh_recv_time
refresh-IsConsistent s key now c = elim (Option-cases (find_joined_peer s key)) [
  | inl e ↦ rw (e, refresh_recv_time) c
  | inr (p, e) ↦
      rw (e, refresh_recv_time)
        (put-IsConsistent s key p (record p { last_recv_time = now }) c (joined_read s key p e).0
          refl refl)
]

pub remove-IsConsistent :
    (s : PeerRoomManager) (key : EndpointKey) → IsConsistent s → IsConsistent (remove_peer s key).1
unfolding remove_peer
remove-IsConsistent s key c = elim (Option-cases (find_entry s.peer_table key)) [
  | inl e ↦ rw (e, remove_peer) c
  | inr (p, e) ↦ elim (Bool-cases p.is_joined) [
    | inr out ↦
        rw (e, out, remove_peer)
          (record {
            unique = erase-Unique s.peer_table key c.unique;
            listed = λ r j.
                ground (
                  arith,
                  c.listed r j,
                  find-erase s.peer_table key j,
                  find-same s.peer_table key j,
                );
            inhabited = c.inhabited;
          })
    | inl joined ↦
        rw (e, joined, remove_peer)
          (record {
            unique = erase-Unique s.peer_table key c.unique;
            listed = λ r j. ground (
              arith,
              c.listed r j,
              find-erase s.peer_table key j,
              find-same s.peer_table key j,
              members-leave_room s.room_table p.room_id r key j,
            );
            inhabited = λ r. inhabited-leave_room s.room_table p.room_id r key (c.inhabited r);
          })
  ]
]

pub change-IsConsistent :
    (s : PeerRoomManager) (key : EndpointKey) (next_room_id now : ℕ)
    → IsConsistent s
    → IsConsistent (change_peer_room s key next_room_id now).1
unfolding change_peer_room change_room_of
change-IsConsistent s key next now c = elim (Option-cases (find_joined_peer s key)) [
  | inl e ↦ rw (e, change_peer_room) c
  | inr (p, e) ↦ elim (Bool-cases (p.room_id == next)) [
    | inl same ↦ rw (e, same, change_peer_room, change_room_of) c
    | inr other ↦
        let q : PeerState = record p { room_id = next; last_recv_time = now } in
        let read = joined_read s key p e in
        rw (e, other, change_peer_room, change_room_of)
          (record {
            unique = put-Unique s.peer_table key q c.unique;
            listed = λ r j. ground (
              arith,
              read,
              c.listed r j,
              find-put s.peer_table key j q,
              find-same s.peer_table key j,
              members-enter_room (leave_room s.room_table p.room_id key) next r key j,
              members-leave_room s.room_table p.room_id r key j,
            );
            inhabited = λ r.
                inhabited-enter_room (leave_room s.room_table p.room_id key) next r key
                  (inhabited-leave_room s.room_table p.room_id r key (c.inhabited r));
          })
  ]
]
