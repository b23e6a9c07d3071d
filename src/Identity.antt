-- ===== src/Identity.antt =====
-- Common/Net/SessionToken.h and EndpointKey.h: values that name a peer and its session, and the hash of an
-- endpoint.
use windows_iocp_udp.Prelude.{
  ℕ, ◌*◌, ◌%◌, ◌+◌, ◌^◌, ◌<◌, bit_or, Bool, not, ◌&&◌, ◌==◌, ◌≡◌, ◌↔◌, arith, true,
}
use windows_iocp_udp.Prelude.Bits.{bit_or_shifted}
use windows_iocp_udp.Prelude.Words.{u64_mod}

pub record SessionToken : Type 0 where
  pub high : ℕ
  pub low : ℕ

abbrev pub invalid_session_token : SessionToken
invalid_session_token = record { high = 0; low = 0 }

abbrev pub token_eq : SessionToken → SessionToken → Bool
token_eq a b = a.high == b.high && a.low == b.low

unfoldable pub is_valid_session_token : SessionToken → Bool
is_valid_session_token token = not (token_eq token invalid_session_token)

pub record EndpointKey : Type 0 where
  pub address : ℕ
  pub port : ℕ

abbrev pub endpoint_eq : EndpointKey → EndpointKey → Bool
endpoint_eq a b = a.address == b.address && a.port == b.port

pub token_eq_iff : (a b : SessionToken) → (token_eq a b ≡ true) ↔ (a ≡ b)
token_eq_iff a b = ground arith

pub endpoint_eq_iff : (a b : EndpointKey) → (endpoint_eq a b ≡ true) ↔ (a ≡ b)
endpoint_eq_iff a b = ground arith

-- What `EndpointKeyHasher` hashes: the address above the port.
unfoldable pub combined : EndpointKey → ℕ
combined key = bit_or (key.address * 2 ^ 16 % u64_mod) key.port

-- `EndpointKeyHasher`, for the hash function of the standard library.
abbrev pub endpoint_key_hasher : (ℕ → ℕ) → EndpointKey → ℕ
endpoint_key_hasher hash key = hash (combined key)

combined_lem :
    (key : EndpointKey)
    → key.address < 2 ^ 32
    → key.port < 2 ^ 16
    → combined key ≡ key.address * 2 ^ 16 + key.port
unfolding combined
combined_lem key h p =
    let fits : key.address * 2 ^ 16 % u64_mod ≡ key.address * 2 ^ 16 = omega arith in
    rw fits (bit_or_shifted 16 key.address key.port p)

-- Endpoints of a 32-bit address and a 16-bit port are told apart by what is hashed.
combined-injective :
    (a b : EndpointKey)
    → a.address < 2 ^ 32
    → b.address < 2 ^ 32
    → a.port < 2 ^ 16
    → b.port < 2 ^ 16
    → combined a ≡ combined b
    → a ≡ b
combined-injective a b ha hb pa pb e =
    let first : combined a ≡ a.address * 2 ^ 16 + a.port = combined_lem a ha pa in
    let second : combined b ≡ b.address * 2 ^ 16 + b.port = combined_lem b hb pb in
    ground (arith, first, second)
