-- ===== src/Server/Dispatch.antt =====
-- Server/Protocol/UdpPacketDispatcher.h and .cpp, PacketPayloadValidator.h and .cpp. A handler works on a
-- state `S`; the packet is a list of bytes, so it is never null.
pub mod Refusals
use windows_iocp_udp.Prelude.{
  ℕ, ◌-◌, Bool, true, false, not, ◌&&◌, ◌==◌, ltb, bit_and, if◌then◌else◌, List, length, Option,
  none, some,
}
use windows_iocp_udp.Prelude.Table.{find, put, nat_key}
use windows_iocp_udp.Identity.{EndpointKey}
use windows_iocp_udp.Game.Matches.{is_positive_room}
use windows_iocp_udp.Packet.Header.{
  PacketHeader, protocol_version, serialized_packet_header_size, deserialize_packet_header,
}
use windows_iocp_udp.Packet.Codec.{PacketCodec, deserialize_packet}
use windows_iocp_udp.Packet.Codecs.Command.{InputCommand}
use windows_iocp_udp.Packet.Codecs.Room.{JoinRoomRequest}

pub data DispatchStatus : Type 0 where
  succeeded packet_too_small invalid_packet_header invalid_header_size : DispatchStatus
  unsupported_protocol_version unknown_packet_type invalid_packet_size : DispatchStatus
  invalid_packet_payload empty_handler : DispatchStatus

pub record DispatchResult : Type 0 where
  pub status : DispatchStatus
  pub packet_type : Option ℕ
  pub actual_packet_size : ℕ
  pub declared_packet_size : ℕ
  pub expected_packet_size : ℕ
  pub protocol_version : ℕ
  pub detail_code : ℕ

pub record PacketProcessResult : Type 0 where
  pub status : DispatchStatus
  pub detail_code : ℕ

abbrev pub processed : DispatchStatus → ℕ → PacketProcessResult
processed status detail = record { status = status; detail_code = detail }

-- A result with the type and the size, and the other members as they are initialised.
abbrev pub dispatched : DispatchStatus → Option ℕ → ℕ → DispatchResult
dispatched status packet_type size = record {
  status = status;
  packet_type = packet_type;
  actual_packet_size = size;
  declared_packet_size = 0;
  expected_packet_size = 0;
  protocol_version = 0;
  detail_code = 0;
}

abbrev pub Processor : Type 0 → Type 0
Processor S = EndpointKey → List ℕ → S → PacketProcessResult × S

-- `HandlerEntry`: a function object may be empty.
pub record HandlerEntry (S : Type 0) : Type 0 where
  pub expected_packet_size : ℕ
  pub packet_processor : Option (Processor S)

abbrev pub HandlerTable : Type 0 → Type 0
HandlerTable S = List (ℕ × HandlerEntry S)

-- `PayloadValidationStatus`, as the integer of the detail code.
abbrev pub payload_succeeded : ℕ
payload_succeeded = 0

abbrev pub invalid_input_sequence : ℕ
invalid_input_sequence = 1

abbrev pub invalid_input_flags : ℕ
invalid_input_flags = 2

abbrev pub invalid_room_id : ℕ
invalid_room_id = 3

-- The four flags are the low bits, so the bits beside the mask are those of the number without them.
abbrev pub is_valid_input_flags : ℕ → Bool
is_valid_input_flags flags = flags - bit_and flags 15 == 0

unfoldable pub validate_input_command : InputCommand → ℕ
validate_input_command packet =
    if packet.input_sequence == 0
    then invalid_input_sequence
    else if not (is_valid_input_flags packet.input_flags)
    then invalid_input_flags
    else payload_succeeded

unfoldable pub validate_join_room_request : JoinRoomRequest → ℕ
validate_join_room_request packet =
    if not (is_positive_room packet.room_id) then invalid_room_id else payload_succeeded

module _ {S : Type 0} where
  unfoldable pub register_handler : HandlerTable S → ℕ → ℕ → Processor S → HandlerTable S
  register_handler table packet_type size processor =
      put table packet_type
        (record { expected_packet_size = size; packet_processor = some processor })

  -- `Dispatch` with the handler found.
  unfoldable pub run_handler :
      HandlerEntry S → DispatchResult → EndpointKey → List ℕ → S → DispatchResult × S
  run_handler entry result key packet s =
      let sized = record result { expected_packet_size = entry.expected_packet_size } in
      if ltb 0 entry.expected_packet_size && not (length packet == entry.expected_packet_size)
      then (record sized { status = invalid_packet_size }, s)
      else elim entry.packet_processor [
        | none ↦ (record sized { status = empty_handler }, s)
        | some processor ↦
            let (done, s1) = processor key packet s in
            (record sized { status = done.status; detail_code = done.detail_code }, s1)
      ]

  -- `Dispatch` with the header read.
  unfoldable pub dispatch_parsed :
      HandlerTable S → EndpointKey → List ℕ → PacketHeader → S → DispatchResult × S
  dispatch_parsed table key packet h s =
      let result = record (dispatched succeeded (some h.type) (length packet)) {
        declared_packet_size = h.size;
        protocol_version = h.version;
      } in
      if not (h.size == length packet)
      then (record result { status = invalid_header_size }, s)
      else if not (h.version == protocol_version)
      then (record result { status = unsupported_protocol_version }, s)
      else elim (find table h.type) [
        | none ↦ (record result { status = unknown_packet_type }, s)
        | some entry ↦ run_handler entry result key packet s
      ]

  unfoldable pub dispatch : HandlerTable S → EndpointKey → List ℕ → S → DispatchResult × S
  dispatch table key packet s =
      if ltb (length packet) serialized_packet_header_size
      then (dispatched packet_too_small none (length packet), s)
      else elim (deserialize_packet_header packet) [
        | none ↦ (dispatched packet_too_small none (length packet), s)
        | some h ↦ dispatch_parsed table key packet h s
      ]

  -- The three templates that make a handler.
  unfoldable pub endpoint_only_handler : (EndpointKey → S → S) → Processor S
  endpoint_only_handler handler key packet s = (processed succeeded 0, handler key s)

  module _ {A : Type 0} (c : PacketCodec A) where
    unfoldable pub typed_handler : (EndpointKey → A → S → S) → Processor S
    typed_handler handler key packet s = elim (deserialize_packet c packet) [
      | none ↦ (processed invalid_packet_payload 0, s)
      | some (h, a) ↦ (processed succeeded 0, handler key a s)
    ]

    unfoldable pub validated_handler : (A → ℕ) → (EndpointKey → A → S → S) → Processor S
    validated_handler validate handler key packet s = elim (deserialize_packet c packet) [
      | none ↦ (processed invalid_packet_payload 0, s)
      | some (h, a) ↦
          if not (validate a == payload_succeeded)
          then (processed invalid_packet_payload (validate a), s)
          else (processed succeeded 0, handler key a s)
    ]
