-- ===== src/Packet/PacketType.antt =====
-- Common/Packet/PacketType.h and PacketReliability.h. A packet type is its 16-bit wire value: the
-- readers cast any value to the enumeration.
use windows_iocp_udp.Prelude.{
  ℕ, Bool, true, false, ltb, ◌==◌, if◌then◌else◌, List, [], ◌∷◌, get_or, length,
}

abbrev pub none : ℕ
none = 0

abbrev pub join_request : ℕ
join_request = 1

abbrev pub join_response : ℕ
join_response = 2

abbrev pub input_command : ℕ
input_command = 3

abbrev pub fire_request : ℕ
fire_request = 4

abbrev pub leave_request : ℕ
leave_request = 5

abbrev pub join_room_request : ℕ
join_room_request = 6

abbrev pub join_room_response : ℕ
join_room_response = 7

abbrev pub player_joined : ℕ
player_joined = 8

abbrev pub player_left : ℕ
player_left = 9

abbrev pub player_snapshot : ℕ
player_snapshot = 10

abbrev pub bullet_snapshot : ℕ
bullet_snapshot = 11

abbrev pub impact_effect : ℕ
impact_effect = 12

abbrev pub account_login_request : ℕ
account_login_request = 13

abbrev pub account_login_response : ℕ
account_login_response = 14

abbrev pub leave_response : ℕ
leave_response = 15

abbrev pub keep_alive : ℕ
keep_alive = 16

abbrev pub server_disconnect : ℕ
server_disconnect = 17

pub data PacketReliability : Type 0 where
  unreliable reliable : PacketReliability

abbrev pub packet_reliability_table : List PacketReliability
packet_reliability_table =
    unreliable ∷ unreliable ∷ unreliable ∷ unreliable ∷ unreliable ∷ reliable ∷ reliable ∷ reliable
    ∷ unreliable ∷ unreliable ∷ unreliable ∷ unreliable ∷ unreliable ∷ unreliable ∷ unreliable
    ∷ reliable ∷ unreliable ∷ reliable ∷ []

unfoldable pub get_packet_reliability : ℕ → PacketReliability
get_packet_reliability packet_type =
    if ltb packet_type (length packet_reliability_table)
    then get_or packet_reliability_table packet_type unreliable
    else unreliable

abbrev is_reliable : PacketReliability → Bool
is_reliable reliable = true
is_reliable unreliable = false

unfoldable pub is_reliable_packet_type : ℕ → Bool
unfolding get_packet_reliability
is_reliable_packet_type packet_type = is_reliable (get_packet_reliability packet_type)

abbrev same : Bool → Bool → Bool
same true b = b
same false true = false
same false false = true

unfoldable pub is_packet_transport_reliability_valid : ℕ → Bool → Bool
unfolding is_reliable_packet_type
is_packet_transport_reliability_valid packet_type reliable_transport =
    if packet_type == none
    then reliable_transport
    else same (is_reliable_packet_type packet_type) reliable_transport
