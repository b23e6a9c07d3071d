-- ===== src/Packet/Codecs/Account.antt =====
-- Common/Packet/Account/AccountPacket.h and AccountPacketCodec.h. A text is the list of its bytes.
use windows_iocp_udp.Prelude.{
  ℕ, ◌+◌, ◌<◌, ◌^◌, refl, inl, List, [], ◌∷◌, ◌++◌, length, arith, Bool, true, ◌==◌, ◌||◌, ◌≡◌,
}
use windows_iocp_udp.Prelude.Words.{u16_mod, u64_mod}
use windows_iocp_udp.Identity.{SessionToken}
use windows_iocp_udp.Packet.PacketType
use windows_iocp_udp.Packet.Reader.{
  pure, guard, ◌>>=◌, ◌>>◌, read_uint8, read_uint64, read_int64, read_string,
}
use windows_iocp_udp.Packet.Writer.{write_uint8, write_uint64, write_int64, write_string}
use windows_iocp_udp.Packet.Wire.{
  Reads-bind, Reads-last, Reads-guard, Writes-then, bytes64, string_bytes, read_uint8-Reads,
  lengths,
}
use windows_iocp_udp.Packet.Wire.Fields.{
  read_uint64-Reads, read_int64-Reads, read_string-Reads, write_uint8-Writes, write_uint64-Writes,
  write_int64-Writes, write_string-Writes,
}
use windows_iocp_udp.Packet.Header.{serialized_packet_header_size}
use windows_iocp_udp.Packet.Codec.{PacketCodec, IsLawful}

pub record AccountLoginRequest : Type 0 where
  pub request_id : ℕ
  pub login_name : List ℕ
  pub password_hash : List ℕ

abbrev pub account_login_request_codec : PacketCodec AccountLoginRequest
account_login_request_codec = record {
  packet_type = PacketType.account_login_request;
  fixed_wire_size = 0;
  get_serialized_size = λ packet.
      serialized_packet_header_size
      + 8
      + (2 + length packet.login_name)
      + (2 + length packet.password_hash);
  write_payload = λ w packet.
      write_string (write_string (write_uint64 w packet.request_id) packet.login_name)
        packet.password_hash;
  read_payload = do
    request_id ← read_uint64
    login_name ← read_string
    password_hash ← read_string
    pure (record {
      request_id = request_id;
      login_name = login_name;
      password_hash = password_hash;
    });
}

-- So do those of a login request, with a login name and a password hash shorter than 2 ^ 16.
pub account_login_request_codec-IsLawful :
    IsLawful account_login_request_codec
      (λ p.
        (p.request_id < u64_mod)
        × (length p.login_name < u16_mod)
        × (length p.password_hash < u16_mod))
      (λ p. bytes64 p.request_id ++ (string_bytes p.login_name ++ string_bytes p.password_hash))
account_login_request_codec-IsLawful = record {
  type_fits = omega arith;
  writes = λ a v.
      Writes-then (λ w. write_uint64 w a.request_id)
        (λ w. write_string (write_string w a.login_name) a.password_hash) _ _
        (write_uint64-Writes a.request_id)
        (Writes-then (λ w. write_string w a.login_name) (λ w. write_string w a.password_hash) _ _
          (write_string-Writes a.login_name v.1) (write_string-Writes a.password_hash v.2));
  reads = λ a v.
      Reads-bind read_uint64 _ (bytes64 a.request_id)
        (string_bytes a.login_name ++ string_bytes a.password_hash) a.request_id a
        (read_uint64-Reads a.request_id v.0)
        (Reads-bind read_string _ (string_bytes a.login_name) (string_bytes a.password_hash)
          a.login_name a (read_string-Reads a.login_name v.1)
          (Reads-last read_string _ (string_bytes a.password_hash) a.password_hash a
            (read_string-Reads a.password_hash v.2) refl));
  sizes = λ a v. grind lengths;
  fixed = λ a. inl refl;
}

-- A status is its wire value: succeeded, invalid request, invalid credentials, server error and already
-- logged in, from 0 to 4.
pub record AccountLoginResponse : Type 0 where
  pub request_id : ℕ
  pub status : ℕ
  pub account_id : ℕ
  pub session_token : SessionToken
  pub nickname : List ℕ

unfoldable pub is_valid_account_login_response_status : ℕ → Bool
is_valid_account_login_response_status status =
    status == 0 || status == 1 || status == 2 || status == 3 || status == 4

valid_status-lt :
    (status : ℕ) → is_valid_account_login_response_status status ≡ true → status < 2 ^ 8
unfolding is_valid_account_login_response_status
valid_status-lt status h = ground arith

abbrev pub account_login_response_codec : PacketCodec AccountLoginResponse
account_login_response_codec = record {
  packet_type = PacketType.account_login_response;
  fixed_wire_size = 0;
  get_serialized_size =
      λ packet. serialized_packet_header_size + 8 + 1 + 8 + 8 + 8 + (2 + length packet.nickname);
  write_payload = λ w packet.
      write_string
        (write_uint64
          (write_uint64
            (write_int64 (write_uint8 (write_uint64 w packet.request_id) packet.status)
              packet.account_id)
            packet.session_token.high)
          packet.session_token.low)
        packet.nickname;
  read_payload = do
    request_id ← read_uint64
    raw_status ← read_uint8
    guard (is_valid_account_login_response_status raw_status)
    account_id ← read_int64
    high ← read_uint64
    low ← read_uint64
    nickname ← read_string
    pure (record {
      request_id = request_id;
      status = raw_status;
      account_id = account_id;
      session_token = record { high = high; low = low };
      nickname = nickname;
    });
}

-- The two directions of the codec of a login answer agree on every answer whose status is one of the
-- five of the enumeration, whose numbers fit their words and whose nickname is shorter than 2 ^ 16: what
-- is written is exactly the named bytes, they read back as the answer, and the sizes are right.
pub account_login_response_codec-IsLawful :
    IsLawful account_login_response_codec
      (λ p.
        (p.request_id < u64_mod)
        × (is_valid_account_login_response_status p.status ≡ true)
        × (p.account_id < u64_mod)
        × (p.session_token.high < u64_mod)
        × (p.session_token.low < u64_mod)
        × (length p.nickname < u16_mod))
      (λ p.
        bytes64 p.request_id
        ++ ((p.status ∷ [])
            ++ (bytes64 p.account_id
                ++ (bytes64 p.session_token.high
                    ++ (bytes64 p.session_token.low ++ string_bytes p.nickname)))))
account_login_response_codec-IsLawful = record {
  type_fits = omega arith;
  writes = λ a v.
      Writes-then (λ w. write_uint64 w a.request_id)
        (λ w.
          write_string
            (write_uint64
              (write_uint64 (write_int64 (write_uint8 w a.status) a.account_id)
                a.session_token.high)
              a.session_token.low)
            a.nickname)
        _ _ (write_uint64-Writes a.request_id)
        (Writes-then (λ w. write_uint8 w a.status)
          (λ w.
            write_string
              (write_uint64 (write_uint64 (write_int64 w a.account_id) a.session_token.high)
                a.session_token.low)
              a.nickname)
          _ _ (write_uint8-Writes a.status (valid_status-lt a.status v.1))
          (Writes-then (λ w. write_int64 w a.account_id)
            (λ w.
              write_string (write_uint64 (write_uint64 w a.session_token.high) a.session_token.low)
                a.nickname)
            _ _ (write_int64-Writes a.account_id)
            (Writes-then (λ w. write_uint64 w a.session_token.high)
              (λ w. write_string (write_uint64 w a.session_token.low) a.nickname) _ _
              (write_uint64-Writes a.session_token.high)
              (Writes-then (λ w. write_uint64 w a.session_token.low)
                (λ w. write_string w a.nickname) _ _ (write_uint64-Writes a.session_token.low)
                (write_string-Writes a.nickname v.5)))));
  reads = λ a v.
      Reads-bind read_uint64 _ (bytes64 a.request_id)
        ((a.status ∷ [])
          ++ (bytes64 a.account_id
              ++ (bytes64 a.session_token.high
                  ++ (bytes64 a.session_token.low ++ string_bytes a.nickname))))
        a.request_id a (read_uint64-Reads a.request_id v.0)
        (Reads-bind read_uint8 _ (a.status ∷ [])
          (bytes64 a.account_id
            ++ (bytes64 a.session_token.high
                ++ (bytes64 a.session_token.low ++ string_bytes a.nickname)))
          a.status a (read_uint8-Reads a.status)
          (Reads-guard _ _
            (bytes64 a.account_id
              ++ (bytes64 a.session_token.high
                  ++ (bytes64 a.session_token.low ++ string_bytes a.nickname)))
            a v.1
            (Reads-bind read_int64 _ (bytes64 a.account_id)
              (bytes64 a.session_token.high
                ++ (bytes64 a.session_token.low ++ string_bytes a.nickname))
              a.account_id a (read_int64-Reads a.account_id v.2)
              (Reads-bind read_uint64 _ (bytes64 a.session_token.high)
                (bytes64 a.session_token.low ++ string_bytes a.nickname) a.session_token.high a
                (read_uint64-Reads a.session_token.high v.3)
                (Reads-bind read_uint64 _ (bytes64 a.session_token.low) (string_bytes a.nickname)
                  a.session_token.low a (read_uint64-Reads a.session_token.low v.4)
                  (Reads-last read_string _ (string_bytes a.nickname) a.nickname a
                    (read_string-Reads a.nickname v.5) refl))))));
  sizes = λ a v. grind lengths;
  fixed = λ a. inl refl;
}
