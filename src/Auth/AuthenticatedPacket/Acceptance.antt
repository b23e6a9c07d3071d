-- ===== src/Auth/AuthenticatedPacket/Acceptance.antt =====
-- What a packet that AuthenticatedUdpPacket.cpp parses and verifies carries.
use mathlib.Core.List.{append-nil}
use windows_iocp_udp.Prelude.{
  zero, suc, ℕ, ◌-◌, ◌≤◌, ◌≡◌, ap, sym, ◌∙◌, true, List, [], ◌∷◌, length, take, drop, take_front,
  length-drop, Option, some, arith, Option-cases, inl, inr,
}
use windows_iocp_udp.Identity.{SessionToken, is_valid_session_token}
use windows_iocp_udp.Packet.Header.{Bytes}
use windows_iocp_udp.Auth.AuthenticatedPacket.{
  AuthenticatedUdpPacketView, build_session_token_key, difference_loop,
  compute_packet_authentication_tag, verify_packet_authentication_tag,
  verify_authenticated_udp_packet, parse_trailer, parse_authenticated_udp_packet,
}
use windows_iocp_udp.Auth.AuthenticatedPacket.Tags.{difference_equal}

parse_facts :
    (packet : List ℕ) (v : AuthenticatedUdpPacketView)
    → parse_authenticated_udp_packet packet ≡ some v
    → (42 ≤ length packet)
      × (v.packet_data ≡ packet)
      × (v.authentication.tag ≡ take 32 (drop (length packet - 32) packet))
unfolding parse_authenticated_udp_packet parse_trailer
parse_facts packet v e = ground arith

-- The last bytes of a list, taken.
take_all : (n : ℕ) (xs : List ℕ) → length xs ≡ n → take n xs ≡ xs
take_all n xs e = ap (take n) (sym (append-nil xs)) ∙ take_front n xs [] e

Bytes-drop : (n : ℕ) (xs : List ℕ) → Bytes xs → Bytes (drop n xs)
Bytes-drop zero xs b = b
Bytes-drop (suc n) [] b = b
Bytes-drop (suc n) (x ∷ xs) b = Bytes-drop n xs b.1

module _ (hash : List ℕ → List ℕ → Option (List ℕ))
    (hash_bytes : (key covered tag : List ℕ)
      → hash key covered ≡ some tag
      → Bytes tag × (length tag ≡ 32))
    (token : SessionToken) where
  verified_tag :
      (covered tag : List ℕ)
      → Bytes tag
      → length tag ≡ 32
      → verify_packet_authentication_tag hash token covered tag ≡ true
      → (is_valid_session_token token ≡ true)
        × (hash (build_session_token_key token) covered ≡ some tag)
  unfolding verify_packet_authentication_tag compute_packet_authentication_tag
  verified_tag covered tag bytes size accepted =
      elim (Option-cases (hash (build_session_token_key token) covered)) [
        | inl none_e ↦ ground (arith, none_e)
        | inr (expected, some_e) ↦
            let (expected_bytes, expected_size) =
              hash_bytes (build_session_token_key token) covered expected some_e in
            let checked : difference_loop 0 expected tag ≡ 0 = ground (arith, some_e) in
            let same =
              difference_equal 0 expected tag expected_bytes bytes (expected_size ∙ sym size)
                checked in
            let valid : is_valid_session_token token ≡ true = ground arith in
            (valid, some_e ∙ ap some same.1)
      ]

  verify_cut :
      (packet : List ℕ) (v : AuthenticatedUdpPacketView)
      → 42 ≤ length packet
      → v.packet_data ≡ packet
      → v.authentication.tag ≡ drop (length packet - 32) packet
      → verify_authenticated_udp_packet hash token v ≡ true
      → verify_packet_authentication_tag hash token
          (take (length packet - 32) packet)
          (drop (length packet - 32) packet)
        ≡ true
  unfolding verify_authenticated_udp_packet
  verify_cut packet v long whole tag accepted = ground (arith, whole, tag)

  -- A packet that parses and verifies carries the tag of the token: the token is valid, and the last 32
  -- bytes are what the hash yields, under the token's key, for all the bytes before them, the header and
  -- the sequence number included. The packet consists of bytes, and the hash yields 32 bytes when it
  -- yields any.
  pub accepted_packet_is_sealed :
      (packet : List ℕ) (v : AuthenticatedUdpPacketView)
      → Bytes packet
      → parse_authenticated_udp_packet packet ≡ some v
      → verify_authenticated_udp_packet hash token v ≡ true
      → (is_valid_session_token token ≡ true)
        × (hash (build_session_token_key token) (take (length packet - 32) packet)
            ≡ some (drop (length packet - 32) packet))
  accepted_packet_is_sealed packet v bytes parsed accepted =
      let (long, whole, tag) = parse_facts packet v parsed in
      let size : length (drop (length packet - 32) packet) ≡ 32 =
        omega (arith, length-drop (length packet - 32) packet) in
      let last = tag ∙ take_all 32 (drop (length packet - 32) packet) size in
      let checked = verify_cut packet v long whole last accepted in
      verified_tag (take (length packet - 32) packet) (drop (length packet - 32) packet)
        (Bytes-drop (length packet - 32) packet bytes) size checked
