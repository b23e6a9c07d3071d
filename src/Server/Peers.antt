-- ===== src/Server/Peers.antt =====
-- Server/Service/PeerState.h and PeerRoomManager.h and .cpp: the peers by endpoint, and the members of each
-- room. The peer table is walked, so it is a list of entries, each key once, in the order of the walk; the
-- room table is only looked up, so it is a function. Ids are only compared, times are clock ticks.
pub mod Operations
pub mod Tables
pub mod Consistency
pub mod Recovery
pub mod Broadcast
pub mod Connected
pub mod Keyed
use windows_iocp_udp.Prelude.{
  ℕ, ◌+◌, Bool, true, false, not, ◌&&◌, ◌||◌, ◌==◌, if◌then◌else◌, List, [], ◌∷◌, length, Option,
  none, some,
}
use windows_iocp_udp.Prelude.Int.{ℤ, pos}
pub use windows_iocp_udp.Prelude.Int.{is_positive, same_id}
use windows_iocp_udp.Server.EndpointTable.{EndpointTable}
pub use windows_iocp_udp.Server.EndpointTable.{find_entry, put_entry, erase_entry}
use windows_iocp_udp.Identity.{
  SessionToken, EndpointKey, endpoint_eq, token_eq, invalid_session_token, is_valid_session_token,
}

pub data PeerConnectionState : Type 0 where
  connected recoverable : PeerConnectionState

pub record PeerState : Type 0 where
  pub endpoint_key : EndpointKey
  pub account_id : ℤ
  pub persistent_player_id : ℤ
  pub session_token : SessionToken
  pub nickname : List ℕ
  pub player_id : ℕ
  pub last_accepted_input_sequence : ℕ
  pub last_processed_input_sequence : ℕ
  pub room_id : ℕ
  pub is_joined : Bool
  pub connection_state : PeerConnectionState
  pub last_recv_time : ℕ
  pub recoverable_since : ℕ

-- The member initialisers.
abbrev pub new_peer : PeerState
new_peer = record {
  endpoint_key = record { address = 0; port = 0 };
  account_id = pos 0;
  persistent_player_id = pos 0;
  session_token = invalid_session_token;
  nickname = [];
  player_id = 0;
  last_accepted_input_sequence = 0;
  last_processed_input_sequence = 0;
  room_id = 0;
  is_joined = false;
  connection_state = connected;
  last_recv_time = 0;
  recoverable_since = 0;
}

abbrev pub PeerTable : Type 0
PeerTable = EndpointTable PeerState

abbrev pub RoomTable : Type 0
RoomTable = ℕ → Option (List EndpointKey)

pub record PeerRoomManager : Type 0 where
  pub peer_table : PeerTable
  pub room_table : RoomTable

-- `RecoverablePeer` and `ExpiredRecoverablePeer`.
pub record RecoverablePeer : Type 0 where
  pub endpoint_key : EndpointKey
  pub player_id : ℕ
  pub persistent_player_id : ℤ
  pub room_id : ℕ

pub record RoomChangeResult : Type 0 where
  pub player_id : ℕ
  pub previous_room_id : ℕ
  pub next_room_id : ℕ

abbrev pub is_connected : PeerConnectionState → Bool
is_connected connected = true
is_connected recoverable = false

abbrev pub is_recoverable : PeerConnectionState → Bool
is_recoverable connected = false
is_recoverable recoverable = true

-- `contains`, `insert` and `erase` of a room's set of members.
abbrev pub is_in : List EndpointKey → EndpointKey → Bool
is_in [] key = false
is_in (k ∷ ks) key = endpoint_eq k key || is_in ks key

abbrev pub insert_member : List EndpointKey → EndpointKey → List EndpointKey
insert_member members key = if is_in members key then members else key ∷ members

abbrev pub erase_member : List EndpointKey → EndpointKey → List EndpointKey
erase_member [] key = []
erase_member (k ∷ ks) key =
    if endpoint_eq k key then erase_member ks key else k ∷ erase_member ks key

abbrev pub members_of : Option (List EndpointKey) → List EndpointKey
members_of none = []
members_of (some members) = members

abbrev pub unless_empty : List EndpointKey → Option (List EndpointKey)
unless_empty [] = none
unless_empty (k ∷ ks) = some (k ∷ ks)

abbrev pub erase_from_room : Option (List EndpointKey) → EndpointKey → Option (List EndpointKey)
erase_from_room none key = none
erase_from_room (some members) key = unless_empty (erase_member members key)

-- The room table after a member is erased, and an emptied room with it.
unfoldable pub leave_room : RoomTable → ℕ → EndpointKey → RoomTable
leave_room rooms room key r = if r == room then erase_from_room (rooms room) key else rooms r

-- `roomTable_[roomId].insert(endpointKey)`.
unfoldable pub enter_room : RoomTable → ℕ → EndpointKey → RoomTable
enter_room rooms room key r =
    if r == room then some (insert_member (members_of (rooms room)) key) else rooms r

unfoldable pub clear : PeerRoomManager → PeerRoomManager
clear s = record { peer_table = []; room_table = λ room. none }

unfoldable pub find_peer : PeerRoomManager → EndpointKey → Option PeerState
find_peer s key = find_entry s.peer_table key

abbrev pub if_joined : Option PeerState → Option PeerState
if_joined none = none
if_joined (some p) = if not p.is_joined then none else some p

unfoldable pub find_joined_peer : PeerRoomManager → EndpointKey → Option PeerState
unfolding find_peer
find_joined_peer s key = if_joined (find_peer s key)

-- The first entry of the walk whose peer passes the test.
abbrev pub first_peer : (PeerState → Bool) → PeerTable → Option PeerState
first_peer test [] = none
first_peer test ((k, p) ∷ table) = if test p then some p else first_peer test table

unfoldable pub find_joined_peer_by_account_id : PeerRoomManager → ℤ → Option PeerState
find_joined_peer_by_account_id s account_id =
    if not (is_positive account_id)
    then none
    else first_peer (λ p. p.is_joined && same_id p.account_id account_id) s.peer_table

unfoldable pub find_joined_peer_by_player_id : PeerRoomManager → ℕ → Option PeerState
find_joined_peer_by_player_id s player_id =
    first_peer (λ p. p.is_joined && p.player_id == player_id) s.peer_table

unfoldable pub find_recoverable_peer_by_session_token :
    PeerRoomManager → SessionToken → Option PeerState
find_recoverable_peer_by_session_token s token =
    if not (is_valid_session_token token)
    then none
    else first_peer
        (λ p. p.is_joined && is_recoverable p.connection_state && token_eq p.session_token token)
        s.peer_table

unfoldable pub find_room_member_set : PeerRoomManager → ℕ → Option (List EndpointKey)
find_room_member_set s room = s.room_table room

unfoldable pub get_room_member_count : PeerRoomManager → ℕ → ℕ
unfolding find_room_member_set
get_room_member_count s room = length (members_of (find_room_member_set s room))

abbrev count_joined : PeerTable → ℕ
count_joined [] = 0
count_joined ((k, p) ∷ table) = (if p.is_joined then 1 else 0) + count_joined table

unfoldable pub get_joined_peer_count : PeerRoomManager → ℕ
get_joined_peer_count s = count_joined s.peer_table

-- `ForEachJoinedPeer`, with an action on the peer.
abbrev pub for_each_joined_peer : (PeerState → PeerState) → PeerTable → PeerTable
for_each_joined_peer action [] = []
for_each_joined_peer action ((key, p) ∷ table) =
    (key, if p.is_joined then action p else p) ∷ for_each_joined_peer action table
