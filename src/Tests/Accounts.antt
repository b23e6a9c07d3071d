-- ===== src/Tests/Accounts.antt =====
-- The laws of AccountLoginAdmissionService.cpp on one registered account.
use windows_iocp_udp.Prelude.{ℕ, ◌≡◌, ◌≢◌, refl, true, if◌then◌else◌, [], ◌∷◌, none, some, arith}
use windows_iocp_udp.Prelude.Int.{pos}
use windows_iocp_udp.Identity.{SessionToken, EndpointKey, endpoint_eq, is_valid_session_token}
use windows_iocp_udp.Server.EndpointTable.{find_entry}
use windows_iocp_udp.Server.Peers.{
  PeerRoomManager, find_joined_peer, find_peer, find_joined_peer_by_account_id,
}
use windows_iocp_udp.Server.Accounts.{
  AccountTable, Request, authenticated, apply, admit, register, upsert, find,
  find_endpoint_by_account_id,
}
use windows_iocp_udp.Server.Accounts.Single.{IsSingle, apply-IsSingle}
use windows_iocp_udp.Server.Accounts.Admission.{requested, apply_authenticated}

abbrev endpoint : ℕ → EndpointKey
endpoint port = record { address = 5; port = port }

abbrev token : SessionToken
token = record { high = 1; low = 2 }

abbrev request : ℕ → Request
request port = record {
  endpoint_key = endpoint port;
  account_id = pos 21;
  persistent_player_id = pos 31;
  nickname = 97 ∷ [];
  current_time = 60;
}

abbrev registered : AccountTable
registered = (endpoint 1, requested (request 1) token) ∷ []

abbrev no_peers : PeerRoomManager
no_peers = record { peer_table = []; room_table = λ room. none }

registered-IsSingle : IsSingle registered
registered-IsSingle = record { unique = (refl, tt); single = λ j k a b ea eb same. ground arith }

apply-IsSingle_example : IsSingle (apply (request 2) registered no_peers (some token)).1
apply-IsSingle_example =
    apply-IsSingle (request 2) registered no_peers (some token) registered-IsSingle

granted : (apply (request 1) registered no_peers (some token)).0.status ≡ authenticated
unfolding apply admit register upsert find find_endpoint_by_account_id find_joined_peer find_peer
    find_joined_peer_by_account_id is_valid_session_token
granted = refl

apply_authenticated_example :
    (find_joined_peer no_peers (endpoint 1) ≡ none)
    × (find_joined_peer_by_account_id no_peers (pos 21) ≡ none)
    × ((t : SessionToken) × (some token ≡ some t)
        × (is_valid_session_token t ≡ true)
        × ((apply (request 1) registered no_peers (some token)).0.session_token ≡ t)
        × ((j : EndpointKey)
            → find_entry (apply (request 1) registered no_peers (some token)).1 j ≡ (
                if endpoint_eq (endpoint 1) j
                then some (requested (request 1) t)
                else find_entry registered j)))
apply_authenticated_example =
    apply_authenticated (request 1) registered no_peers (some token) granted

denied : (apply (request 2) registered no_peers (some token)).0.status ≢ authenticated
unfolding apply admit register upsert find find_endpoint_by_account_id find_joined_peer find_peer
    find_joined_peer_by_account_id is_valid_session_token
denied e = absurd (cc)
