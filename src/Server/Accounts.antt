-- ===== src/Server/Accounts.antt =====
-- Server/Service/AuthenticatedAccountRegistry.h and .cpp, AccountLoginAdmissionService.h and .cpp: which
-- endpoint has logged in to which account. `GenerateSessionToken` calls the random number generator of
-- Windows: what it returns is an argument.
pub mod Single
pub mod Admission
use windows_iocp_udp.Prelude.{
  ℕ, ◌+◌, Bool, true, false, not, ◌||◌, ltb, ◌==◌, if◌then◌else◌, List, [], ◌∷◌, Option, none, some,
}
use windows_iocp_udp.Prelude.Int.{ℤ}
use windows_iocp_udp.Identity.{
  SessionToken, EndpointKey, endpoint_eq, token_eq, invalid_session_token, is_valid_session_token,
}
use windows_iocp_udp.Server.EndpointTable.{EndpointTable, find_entry, put_entry, erase_entry}
use windows_iocp_udp.Server.Peers.{
  PeerState, PeerRoomManager, is_positive, same_id, find_joined_peer,
  find_joined_peer_by_account_id,
}

pub record AuthenticatedAccount : Type 0 where
  pub account_id : ℤ
  pub persistent_player_id : ℤ
  pub session_token : SessionToken
  pub nickname : List ℕ
  pub authenticated_time : ℕ

abbrev pub AccountTable : Type 0
AccountTable = EndpointTable AuthenticatedAccount

abbrev pub is_empty : List ℕ → Bool
is_empty [] = true
is_empty (c ∷ cs) = false

unfoldable pub upsert : AccountTable → EndpointKey → AuthenticatedAccount → Bool × AccountTable
upsert table key account =
    if not (is_positive account.account_id)
      || not (is_positive account.persistent_player_id)
      || not (is_valid_session_token account.session_token)
      || is_empty account.nickname
    then (false, table)
    else (true, put_entry table key account)

unfoldable pub find : AccountTable → EndpointKey → Option AuthenticatedAccount
find table key = find_entry table key

abbrev pub with_token : SessionToken → Option AuthenticatedAccount → Option AuthenticatedAccount
with_token token none = none
with_token token (some a) = if not (token_eq a.session_token token) then none else some a

unfoldable pub find_with_token :
    AccountTable → EndpointKey → SessionToken → Option AuthenticatedAccount
unfolding find
find_with_token table key token = with_token token (find table key)

abbrev pub first_endpoint : ℤ → AccountTable → Option EndpointKey
first_endpoint account_id [] = none
first_endpoint account_id ((k, a) ∷ table) =
    if same_id a.account_id account_id then some k else first_endpoint account_id table

unfoldable pub find_endpoint_by_account_id : AccountTable → ℤ → Option EndpointKey
find_endpoint_by_account_id table account_id =
    if not (is_positive account_id) then none else first_endpoint account_id table

abbrev pub is_some {ℓ} : {B : Type ℓ} → Option B → Bool
is_some none = false
is_some (some b) = true

unfoldable pub remove : AccountTable → EndpointKey → Bool × AccountTable
remove table key = (is_some (find_entry table key), erase_entry table key)

unfoldable pub expire_accounts : ℕ → ℕ → AccountTable → ℕ × AccountTable
expire_accounts now timeout [] = (0, [])
expire_accounts now timeout ((k, a) ∷ table) =
    let (count, left) = expire_accounts now timeout table in
    if ltb now (a.authenticated_time + timeout) then (count, (k, a) ∷ left) else (count + 1, left)

unfoldable pub remove_expired : AccountTable → ℕ → ℕ → ℕ × AccountTable
remove_expired table now timeout =
    if timeout == 0 then (0, table) else expire_accounts now timeout table

unfoldable pub clear : AccountTable → AccountTable
clear table = []

unfoldable pub contains_account : AccountTable → EndpointKey → Bool
contains_account table key = is_some (find_entry table key)

pub data Status : Type 0 where
  authenticated existing_session already_logged_in token_generation_failed registration_failed :
      Status

pub record Request : Type 0 where
  pub endpoint_key : EndpointKey
  pub account_id : ℤ
  pub persistent_player_id : ℤ
  pub nickname : List ℕ
  pub current_time : ℕ

pub record Result : Type 0 where
  pub status : Status
  pub session_token : SessionToken

abbrev pub refused : Status → Result
refused status = record { status = status; session_token = invalid_session_token }

abbrev pub is_elsewhere : EndpointKey → Option EndpointKey → Bool
is_elsewhere key none = false
is_elsewhere key (some k) = not (endpoint_eq k key)

-- `Apply` for an endpoint with a joined peer.
unfoldable pub apply_to_peer : Request → AccountTable → PeerState → Result × AccountTable
unfolding remove
apply_to_peer q table p =
    if not (same_id p.account_id q.account_id)
    then (refused already_logged_in, table)
    else if not (is_valid_session_token p.session_token)
    then (refused registration_failed, table)
    else if not (same_id p.persistent_player_id q.persistent_player_id)
    then (refused registration_failed, table)
    else (
      record { status = existing_session; session_token = p.session_token },
      (remove table q.endpoint_key).1,
    )

unfoldable pub register : Request → AccountTable → Option SessionToken → Result × AccountTable
register q table none = (refused token_generation_failed, table)
register q table (some token) = finish (upsert table q.endpoint_key account)
  where
    account : AuthenticatedAccount
    account = record {
      account_id = q.account_id;
      persistent_player_id = q.persistent_player_id;
      session_token = token;
      nickname = q.nickname;
      authenticated_time = q.current_time;
    }

    finish : Bool × AccountTable → Result × AccountTable
    finish r =
        if not r.0
        then (refused registration_failed, r.1)
        else (record { status = authenticated; session_token = token }, r.1)

-- The tests on the account that the endpoint has logged in to.
abbrev pub account_refusal : Request → Option AuthenticatedAccount → Option Status
account_refusal q none = none
account_refusal q (some a) =
    if not (same_id a.account_id q.account_id)
    then some already_logged_in
    else if not (same_id a.persistent_player_id q.persistent_player_id)
    then some registration_failed
    else none

-- `Apply` for an endpoint with no joined peer.
unfoldable pub admit :
    Request → AccountTable → PeerRoomManager → Option SessionToken → Result × AccountTable
unfolding find
admit q table peers generated =
    if is_some (find_joined_peer_by_account_id peers q.account_id)
    then (refused already_logged_in, table)
    else if is_elsewhere q.endpoint_key (find_endpoint_by_account_id table q.account_id)
    then (refused already_logged_in, table)
    else elim (account_refusal q (find table q.endpoint_key)) [
      | some status ↦ (refused status, table)
      | none ↦ register q table generated
    ]

unfoldable pub apply :
    Request → AccountTable → PeerRoomManager → Option SessionToken → Result × AccountTable
apply q table peers generated =
    if not (is_positive q.account_id)
      || not (is_positive q.persistent_player_id)
      || is_empty q.nickname
    then (refused registration_failed, table)
    else elim (find_joined_peer peers q.endpoint_key) [
      | some p ↦ apply_to_peer q table p
      | none ↦ admit q table peers generated
    ]
