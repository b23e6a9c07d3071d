-- ===== src/Tests/Server.antt =====
-- The laws of the server on a peer that logs in, joins, plays and leaves.
use windows_iocp_udp.Prelude.{
  ℕ, ◌≡◌, ◌≢◌, ◌⊎◌, refl, false, suc, List, [], ◌∷◌, Option, some, none, arith,
}
use windows_iocp_udp.Prelude.Int.{pos}
use windows_iocp_udp.Identity.{EndpointKey, SessionToken}
use windows_iocp_udp.Reliable.Session.{ReliableUdpConfig}
use windows_iocp_udp.Game.World.{empty_world}
use windows_iocp_udp.Server.Accounts
use windows_iocp_udp.Server.Sessions
use windows_iocp_udp.Server.Sessions.{authenticate_incoming_packet}
use windows_iocp_udp.Server.Dispatch.{
  HandlerTable, succeeded, processed, dispatched, dispatch, dispatch_parsed, run_handler,
}
use windows_iocp_udp.Packet.Header.{deserialize_packet_header, read_packet_header}
use windows_iocp_udp.Packet.Reader.{read_uint16, read_uint8}
use windows_iocp_udp.Server.UdpServer.{ServerConfig, UdpServer}
use windows_iocp_udp.Server.UdpServer.Requests.{Running}
use windows_iocp_udp.Server.UdpServer.Receive.{with_sessions, dispatch_packet, handler_table}
use windows_iocp_udp.Server.UdpServer.Serving.{IsServed}
use windows_iocp_udp.Server.UdpServer.Interleaving.{
  Section, login, join, input, timeouts, leave, tick, resends, run_sections, sections-IsServed,
}
use windows_iocp_udp.Server.UdpServer.Guarded.{ComesFirst, only_authentic_packets_act}
use windows_iocp_udp.Tests.Game.{numbers, rules}

abbrev key : EndpointKey
key = record { address = 5; port = 1 }

abbrev token : SessionToken
token = record { high = 3; low = 4 }

abbrev reliable : ReliableUdpConfig
reliable = record { max_pending_packet_count = 64; max_resend_count = pos 5; resend_interval = 100 }

abbrev config : ServerConfig
config = record {
  initial_room_id = 9;
  game_rule = rules;
  weapon_rule = record {
    bullet_damage = pos 100;
    bullet_speed = 1;
    bullet_life_seconds = 5;
    bullet_radius = 4;
    fire_cooldown_seconds = 1;
  };
  reliable_udp = reliable;
  peer_timeout = 50;
  reconnect_grace_period = 50;
  fixed_delta_seconds = 1;
  hundred_ms = 100;
}

abbrev started : UdpServer
started = record {
  peer_room_manager = record { peer_table = []; room_table = λ room. none };
  authenticated_account_registry = [];
  game_world = empty_world;
  reliable_udp_session_registry = record { session_table = []; closing_endpoint_set = λ j. false };
  match_history_tracker = record { active_match_table = []; completed_match_list = [] };
}

abbrev request : Accounts.Request
request = record {
  endpoint_key = key;
  account_id = pos 1;
  persistent_player_id = pos 41;
  nickname = 65 ∷ [];
  current_time = 1;
}

abbrev sections : List Section
sections =
    login request (some token)
    ∷ join key token 2 2
    ∷ input key 1 1 3
    ∷ tick
    ∷ timeouts 90 90
    ∷ join key token 95 95
    ∷ leave key 96 96
    ∷ resends 97
    ∷ []

abbrev hash : List ℕ → List ℕ → Option (List ℕ)
hash k covered = none

sections-IsServed_example : IsServed (run_sections numbers config hash (λ x. x) sections started)
sections-IsServed_example =
    sections-IsServed numbers config hash (λ x. x) sections started
      (
        (record { unique = tt; listed = λ room j. refl; inhabited = λ room. refl }, λ j. refl),
        (tt, λ j closing. ground arith),
        λ j t h. ground arith,
      )

abbrev counting : HandlerTable ℕ
counting =
    (
      16,
      record {
        expected_packet_size = 6;
        packet_processor = some (λ k p s. (processed succeeded 0, suc s));
      },
    )
    ∷ []

abbrev counted_packet : List ℕ
counted_packet = 6 ∷ 0 ∷ 16 ∷ 0 ∷ 5 ∷ 0 ∷ []

-- The packet reaches its handler.
counted_once : dispatch counting key counted_packet 0 ≡ (
  record (dispatched succeeded (some 16) 6) {
    declared_packet_size = 6;
    expected_packet_size = 6;
    protocol_version = 5;
  },
  1,
)
unfolding dispatch dispatch_parsed run_handler deserialize_packet_header read_packet_header
    read_uint16 read_uint8
counted_once = refl

abbrev running : Running
running = record { server = started; sent = [] }

abbrev handlers : HandlerTable Running
handlers = handler_table numbers config none (record { now = 1; later = 1; system_now = 1 })

abbrev fire_packet : List ℕ
fire_packet = 6 ∷ 0 ∷ 4 ∷ 0 ∷ 1 ∷ 0 ∷ []

only_authentic_packets_act_example :
    let answer = dispatch_packet (λ x. x) handlers hash key fire_packet running in
    let sessions =
      authenticate_incoming_packet hash started.reliable_udp_session_registry key fire_packet in
    ComesFirst fire_packet
    ⊎ (sessions.0.status ≡ Sessions.succeeded)
    ⊎ ((answer.0.status ≢ succeeded)
        × (answer.1.sent ≡ [])
        × (with_sessions answer.1.server sessions.1 ≡ with_sessions started sessions.1))
only_authentic_packets_act_example =
    only_authentic_packets_act (λ x. x) handlers hash key fire_packet running
