-- ===== src/Server/Leaving/Connected.antt =====
-- Who is connected after a leave and a change of rooms in PeerSessionService.cpp.
use windows_iocp_udp.Prelude.{ℕ, ◌≡◌, ◌⊎◌, refl, ◌==◌, none, Option-cases, Bool-cases, inl, inr}
use windows_iocp_udp.Server.EndpointTable.{endpoint_key}
use windows_iocp_udp.Identity.{EndpointKey}
use windows_iocp_udp.Game.World.{GameWorld, find_player}
use windows_iocp_udp.Game.Matches.{is_positive_room}
use windows_iocp_udp.Server.Peers.{PeerRoomManager, find_joined_peer}
use windows_iocp_udp.Server.Peers.Operations.{remove_peer, change_peer_room}
use windows_iocp_udp.Server.Peers.Consistency.{remove-IsConsistent, change-IsConsistent}
use windows_iocp_udp.Server.Peers.Keyed.{remove-IsKeyed, change-IsKeyed}
use windows_iocp_udp.Server.Peers.Connected.{Loses, Drops, remove-Drops, change-Loses}
use windows_iocp_udp.Server.Leaving.{leave_peer, change_room, enter_changed_room}
use windows_iocp_udp.Server.Join.Joins.{IsSound}

pub leave_peer-Drops :
    (key : EndpointKey) (s : PeerRoomManager) (w : GameWorld)
    → IsSound s
    → let r = leave_peer key s w in IsSound r.1 × Loses s r.1 × ((r.0 ≡ none) ⊎ Drops key s r.1)
unfolding leave_peer
leave_peer-Drops key s w sound =
    let s1 = (remove_peer s key).1 in
    let sound1 : IsSound s1 = (remove-IsConsistent s key sound.0, remove-IsKeyed s key sound.1) in
    let drops = remove-Drops s key in
    elim (Option-cases (find_joined_peer s key)) [
      | inl free ↦ rw (free, leave_peer) (sound, λ j t h. h, inl refl)
      | inr (p, e) ↦ elim (Option-cases (remove_peer s key).0) [
        | inl odd ↦ rw (e, odd, leave_peer) (sound1, λ j t h. (drops j t h).1, inl refl)
        | inr (x, done) ↦ rw (e, done, leave_peer) (sound1, λ j t h. (drops j t h).1, inr drops)
      ]
    ]

pub change_room-Loses :
    (key : EndpointKey) (room now : ℕ) (s : PeerRoomManager) (w : GameWorld)
    → IsSound s
    → let r = change_room key room s w now in IsSound r.1 × Loses s r.1
unfolding change_room enter_changed_room
change_room-Loses key room now s w sound =
    let changed = change_peer_room s key room now in
    let sound1 : IsSound changed.1 =
      (change-IsConsistent s key room now sound.0, change-IsKeyed s key room now sound.1) in
    let kept = change-Loses s key room now in
    elim (Bool-cases (is_positive_room room)) [
      | inr bad ↦ rw (bad, change_room) (sound, λ j t h. h)
      | inl good ↦ elim (Option-cases (find_joined_peer s key)) [
        | inl free ↦ rw (good, free, change_room) (sound, λ j t h. h)
        | inr (p, e) ↦ elim (Option-cases (find_player w p.player_id)) [
          | inl gone ↦ rw (good, e, gone, change_room) (sound, λ j t h. h)
          | inr (q, there) ↦ elim (Bool-cases q.is_dead) [
            | inl dead ↦ rw (good, e, there, dead, change_room) (sound, λ j t h. h)
            | inr alive ↦ elim (Bool-cases (p.room_id == room)) [
              | inl same ↦ rw (good, e, there, alive, same, change_room) (sound, λ j t h. h)
              | inr other ↦ elim (Option-cases changed.0) [
                | inl none_there ↦
                    rw (good, e, there, alive, other, none_there, change_room) (sound1, kept)
                | inr (r, done) ↦
                    rw (good, e, there, alive, other, done, change_room) (sound1, kept)
              ]
            ]
          ]
        ]
      ]
    ]
