-- ===== src/Server/Accounts/Single.antt =====
-- One account has one endpoint: AuthenticatedAccountRegistry.cpp and AccountLoginAdmissionService.cpp.
use windows_iocp_udp.Prelude.{
  ◌≡◌, refl, true, false, [], ◌∷◌, Option, none, some, arith, Option-cases, Bool-cases, inl, inr,
}
use windows_iocp_udp.Prelude.Int.{ℤ, pos, negsuc}
use windows_iocp_udp.Identity.{SessionToken, EndpointKey, endpoint_eq}
use windows_iocp_udp.Server.EndpointTable.{
  endpoint_key, find_entry, put_entry, erase_entry, find-put, find-erase, find-same, Unique,
  put-Unique, erase-Unique,
}
use windows_iocp_udp.Server.Peers.{PeerRoomManager, is_positive, same_id}
use windows_iocp_udp.Server.Accounts.{
  AuthenticatedAccount, AccountTable, first_endpoint, find_endpoint_by_account_id, upsert, remove,
  Request, is_elsewhere, apply_to_peer, register, admit, apply,
}

same_id_sym : (a b : ℤ) → same_id a b ≡ same_id b a
same_id_sym (pos m) (pos n) = ground arith
same_id_sym (pos m) (negsuc n) = refl
same_id_sym (negsuc m) (pos n) = refl
same_id_sym (negsuc m) (negsuc n) = ground arith

-- Two entries of one account are one entry, and each endpoint has one entry.
pub record IsSingle (table : AccountTable) : Type 0 where
  pub unique : Unique table
  pub single :
      (j k : EndpointKey) (a b : AuthenticatedAccount)
      → find_entry table j ≡ some a
      → find_entry table k ≡ some b
      → same_id a.account_id b.account_id ≡ true
      → endpoint_eq j k ≡ true

-- Every entry of the account stands at the endpoint.
abbrev OnlyAt : AccountTable → EndpointKey → ℤ → Type 0
OnlyAt table key account_id =
    (j : EndpointKey) (a : AuthenticatedAccount)
    → find_entry table j ≡ some a
    → same_id a.account_id account_id ≡ true
    → endpoint_eq j key ≡ true

put-IsSingle :
    (table : AccountTable) (key : EndpointKey) (account : AuthenticatedAccount)
    → IsSingle table
    → OnlyAt table key account.account_id
    → IsSingle (put_entry table key account)
put-IsSingle table key account c only = record {
  unique = put-Unique table key account c.unique;
  single = λ j k a b ea eb same. ground (
    arith,
    find-put table key j account,
    find-put table key k account,
    only j a,
    only k b,
    c.single j k a b,
    same_id_sym account.account_id b.account_id,
  );
}

erase-IsSingle :
    (table : AccountTable) (key : EndpointKey) → IsSingle table → IsSingle (erase_entry table key)
erase-IsSingle table key c = record {
  unique = erase-Unique table key c.unique;
  single = λ j k a b ea eb same.
      ground (arith, find-erase table key j, find-erase table key k, c.single j k a b);
}

first_endpoint-none :
    (account_id : ℤ) (table : AccountTable) (j : EndpointKey) (a : AuthenticatedAccount)
    → first_endpoint account_id table ≡ none
    → find_entry table j ≡ some a
    → same_id a.account_id account_id ≡ false
first_endpoint-none account_id [] j a h e = ground arith
first_endpoint-none account_id ((k, b) ∷ table) j a h e =
    ground (arith, first_endpoint-none account_id table j a)

first_endpoint-some :
    (account_id : ℤ) (table : AccountTable) (key : EndpointKey)
    → Unique table
    → first_endpoint account_id table ≡ some key
    → (a : AuthenticatedAccount) × (find_entry table key ≡ some a)
      × (same_id a.account_id account_id ≡ true)
first_endpoint-some account_id [] key u h = absurd (ground arith)
first_endpoint-some account_id ((k, b) ∷ table) key u h =
    elim (Bool-cases (same_id b.account_id account_id)) [
      | inl same ↦ (b, ground arith, same)
      | inr other ↦
          let (a, found, same) = first_endpoint-some account_id table key u.1 (ground arith) in
          (a, ground (arith, find-same table k key), same)
    ]

-- The test on the other endpoints passes only if no other endpoint has the account.
admitted-OnlyAt :
    (table : AccountTable) (key : EndpointKey) (account_id : ℤ)
    → IsSingle table
    → is_positive account_id ≡ true
    → is_elsewhere key (find_endpoint_by_account_id table account_id) ≡ false
    → OnlyAt table key account_id
unfolding find_endpoint_by_account_id
admitted-OnlyAt table key account_id c positive here j a e same =
    elim (Option-cases (first_endpoint account_id table)) [
      | inl nowhere ↦ ground (arith, first_endpoint-none account_id table j a)
      | inr (k, there) ↦
          let (b, found, held) = first_endpoint-some account_id table k c.unique there in
          ground (arith, c.single j k a b, same_ids account_id a.account_id b.account_id)
    ]
  where
    same_ids : (x y z : ℤ) → same_id y x ≡ true → same_id z x ≡ true → same_id y z ≡ true
    same_ids (pos l) (pos m) (pos n) p q = ground arith
    same_ids (negsuc l) (negsuc m) (negsuc n) p q = ground arith
    same_ids (pos l) (pos m) (negsuc n) p q = absurd (ground arith)
    same_ids (pos l) (negsuc m) z p q = absurd (ground arith)
    same_ids (negsuc l) (pos m) z p q = absurd (ground arith)
    same_ids (negsuc l) (negsuc m) (pos n) p q = absurd (ground arith)

register-IsSingle :
    (q : Request) (table : AccountTable) (generated : Option SessionToken)
    → IsSingle table
    → OnlyAt table q.endpoint_key q.account_id
    → IsSingle (register q table generated).1
unfolding register upsert
register-IsSingle q table none c only = c
register-IsSingle q table (some token) c only = ground (
  arith,
  put-IsSingle table q.endpoint_key
      (record {
        account_id = q.account_id;
        persistent_player_id = q.persistent_player_id;
        session_token = token;
        nickname = q.nickname;
        authenticated_time = q.current_time;
      })
      c only,
)

admit-IsSingle :
    (q : Request) (table : AccountTable) (peers : PeerRoomManager) (generated : Option SessionToken)
    → IsSingle table
    → is_positive q.account_id ≡ true
    → IsSingle (admit q table peers generated).1
unfolding admit
admit-IsSingle q table peers generated c positive = ground (
  arith,
  admitted-OnlyAt table q.endpoint_key q.account_id c positive,
  register-IsSingle q table generated c,
)

-- A login request never gives one account two endpoints: if each account in the registry has one endpoint
-- and each endpoint one account, the same holds after the request, whatever its outcome.
pub apply-IsSingle :
    (q : Request) (table : AccountTable) (peers : PeerRoomManager) (generated : Option SessionToken)
    → IsSingle table
    → IsSingle (apply q table peers generated).1
unfolding apply apply_to_peer remove
apply-IsSingle q table peers generated c =
    ground (arith, erase-IsSingle table q.endpoint_key c, admit-IsSingle q table peers generated c)
