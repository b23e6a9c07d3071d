-- ===== src/Server/Peers/Tables.antt =====
-- Lookups in the tables of PeerRoomManager.h after a write.
use windows_iocp_udp.Prelude.{
  ℕ, ◌≡◌, refl, ap, Bool, true, false, not, ◌&&◌, ◌||◌, ◌==◌, List, [], ◌∷◌, Option, none, some,
  arith,
}
pub use windows_iocp_udp.Server.EndpointTable.{
  Unique, find-put, find-erase, find-same, put-Unique, erase-Unique,
}
use windows_iocp_udp.Server.EndpointTable.{endpoint_key}
use windows_iocp_udp.Identity.{EndpointKey, endpoint_eq}
use windows_iocp_udp.Server.Peers.{
  RoomTable, is_in, insert_member, erase_member, members_of, unless_empty, erase_from_room,
  leave_room, enter_room,
}

is_in-same :
    (members : List EndpointKey) (key j : EndpointKey)
    → endpoint_eq key j ≡ true
    → is_in members key ≡ is_in members j
is_in-same [] key j e = refl
is_in-same (k ∷ ks) key j e = ground (arith, is_in-same ks key j e)

pub is_in-insert :
    (members : List EndpointKey) (key j : EndpointKey)
    → is_in (insert_member members key) j ≡ (endpoint_eq key j || is_in members j)
is_in-insert members key j = ground (arith, is_in-same members key j)

pub is_in-erase :
    (members : List EndpointKey) (key j : EndpointKey)
    → is_in (erase_member members key) j ≡ (not (endpoint_eq key j) && is_in members j)
is_in-erase [] key j = ground arith
is_in-erase (k ∷ ks) key j = ground (arith, is_in-erase ks key j)

members-erase_from_room :
    (o : Option (List EndpointKey)) (key j : EndpointKey)
    → is_in (members_of (erase_from_room o key)) j
      ≡ (not (endpoint_eq key j) && is_in (members_of o) j)
members-erase_from_room none key j = ground arith
members-erase_from_room (some members) key j =
    ground (arith, is_in-erase members key j, unless (erase_member members key))
  where
    unless : (ks : List EndpointKey) → is_in (members_of (unless_empty ks)) j ≡ is_in ks j
    unless [] = refl
    unless (k ∷ ks) = refl

pub members-leave_room :
    (rooms : RoomTable) (room r : ℕ) (key j : EndpointKey)
    → is_in (members_of (leave_room rooms room key r)) j
      ≡ (not (r == room && endpoint_eq key j) && is_in (members_of (rooms r)) j)
unfolding leave_room
members-leave_room rooms room r key j =
    ground (arith, members-erase_from_room (rooms room) key j, ap rooms {x = r} {y = room})

pub members-enter_room :
    (rooms : RoomTable) (room r : ℕ) (key j : EndpointKey)
    → is_in (members_of (enter_room rooms room key r)) j
      ≡ (r == room && endpoint_eq key j || is_in (members_of (rooms r)) j)
unfolding enter_room
members-enter_room rooms room r key j =
    ground (arith, is_in-insert (members_of (rooms room)) key j, ap rooms {x = r} {y = room})

-- A room in the table has a member.
abbrev pub is_inhabited : Option (List EndpointKey) → Bool
is_inhabited none = true
is_inhabited (some []) = false
is_inhabited (some (k ∷ ks)) = true

inhabited-unless_empty : (ks : List EndpointKey) → is_inhabited (unless_empty ks) ≡ true
inhabited-unless_empty [] = refl
inhabited-unless_empty (k ∷ ks) = refl

pub inhabited-insert :
    (members : List EndpointKey) (key : EndpointKey)
    → is_inhabited (some (insert_member members key)) ≡ true
inhabited-insert [] key = refl
inhabited-insert (k ∷ ks) key = ground arith

pub inhabited-leave_room :
    (rooms : RoomTable) (room r : ℕ) (key : EndpointKey)
    → is_inhabited (rooms r) ≡ true
    → is_inhabited (leave_room rooms room key r) ≡ true
unfolding leave_room
inhabited-leave_room rooms room r key h = ground (arith, left (rooms room))
  where
    left : (o : Option (List EndpointKey)) → is_inhabited (erase_from_room o key) ≡ true
    left none = refl
    left (some members) = inhabited-unless_empty (erase_member members key)

pub inhabited-enter_room :
    (rooms : RoomTable) (room r : ℕ) (key : EndpointKey)
    → is_inhabited (rooms r) ≡ true
    → is_inhabited (enter_room rooms room key r) ≡ true
unfolding enter_room
inhabited-enter_room rooms room r key h =
    ground (arith, inhabited-insert (members_of (rooms room)) key)
