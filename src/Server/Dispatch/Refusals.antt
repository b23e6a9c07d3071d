-- ===== src/Server/Dispatch/Refusals.antt =====
-- When UdpPacketDispatcher.cpp runs a handler.
use windows_iocp_udp.Prelude.{
  ℕ, ◌≡◌, ◌≢◌, ◌⊎◌, true, false, not, ◌&&◌, ◌==◌, ltb, List, length, none, some, arith,
  Option-cases, Bool-cases, inl, inr,
}
use windows_iocp_udp.Prelude.Table.{find, nat_key}
use windows_iocp_udp.Identity.{EndpointKey}
use windows_iocp_udp.Packet.Header.{
  PacketHeader, protocol_version, serialized_packet_header_size, deserialize_packet_header,
}
use windows_iocp_udp.Server.Dispatch.{
  succeeded, DispatchResult, HandlerEntry, HandlerTable, Processor, run_handler, dispatch_parsed,
  dispatch,
}

module _ {S : Type 0} (table : HandlerTable S) (key : EndpointKey) (packet : List ℕ) (s : S) where
  -- The packet's header reads with this version and the packet's size, its type has a handler, and the
  -- handler expects no size or the packet's.
  abbrev pub Takes : PacketHeader → HandlerEntry S → Processor S → Type 0
  Takes h entry processor =
      (deserialize_packet_header packet ≡ some h)
      × (h.size ≡ length packet)
      × (h.version ≡ protocol_version)
      × (find table h.type ≡ some entry)
      × ((entry.expected_packet_size ≡ 0) ⊎ (length packet ≡ entry.expected_packet_size))
      × (entry.packet_processor ≡ some processor)

  abbrev pub Taken : Type 0
  Taken =
      (h : PacketHeader) × (entry : HandlerEntry S) × (processor : Processor S) × Takes h entry
        processor

  abbrev pub HandledBy : Processor S → DispatchResult × S → Type 0
  HandledBy processor r =
      (r.0.status ≡ (processor key packet s).0.status) × (r.1 ≡ (processor key packet s).1)

  abbrev pub Refused : DispatchResult × S → Type 0
  Refused r = (¬ Taken) × (r.0.status ≢ succeeded) × (r.1 ≡ s)

  abbrev pub Outcome : DispatchResult × S → Type 0
  Outcome r =
      ((h : PacketHeader) × (entry : HandlerEntry S) × (processor : Processor S) × Takes h entry
          processor
        × HandledBy processor r)
      ⊎ Refused r

  short_header :
      ltb (length packet) serialized_packet_header_size ≡ true
      → deserialize_packet_header packet ≡ none
  unfolding deserialize_packet_header
  short_header short = ground (arith, short)

  -- `Dispatch` with the handler found.
  found_cases :
      (h : PacketHeader) (entry : HandlerEntry S)
      → ltb (length packet) serialized_packet_header_size ≡ false
      → deserialize_packet_header packet ≡ some h
      → h.size ≡ length packet
      → h.version ≡ protocol_version
      → find table h.type ≡ some entry
      → Outcome (dispatch table key packet s)
  unfolding dispatch dispatch_parsed run_handler
  found_cases h entry long read size version known = elim (Option-cases entry.packet_processor) [
    | inl empty ↦ inr (
      (λ t. ground (arith, read, known, empty, t)),
      ground (arith, long, read, size, version, known, empty),
      ground (arith, long, read, size, version, known, empty),
    )
    | inr (processor, there) ↦
        elim (Bool-cases
          (ltb 0 entry.expected_packet_size && not (length packet == entry.expected_packet_size))) [
            | inl wrong ↦ inr (
              (λ t. ground (arith, read, known, wrong, t)),
              ground (arith, long, read, size, version, known, wrong),
              ground (arith, long, read, size, version, known, wrong),
            )
            | inr fits ↦ inl (
              h,
              entry,
              processor,
              (read, size, version, known, ground arith, there),
              (
                ground (arith, long, read, size, version, known, fits, there),
                ground (arith, long, read, size, version, known, fits, there),
              ),
            )
          ]
  ]

  pub dispatch_cases : Outcome (dispatch table key packet s)
  unfolding dispatch dispatch_parsed run_handler
  dispatch_cases = elim (Option-cases (deserialize_packet_header packet)) [
    | inl bad ↦ inr ((λ t. ground (arith, bad, t)), ground (arith, bad), ground (arith, bad))
    | inr (h, read) ↦ elim (Bool-cases (ltb (length packet) serialized_packet_header_size)) [
      | inl short ↦ absurd (ground (arith, read, short_header short))
      | inr long ↦ elim (Bool-cases (h.size == length packet)) [
        | inr size ↦ inr (
          (λ t. ground (arith, read, size, t)),
          ground (arith, long, read, size),
          ground (arith, long, read, size),
        )
        | inl size ↦ elim (Bool-cases (h.version == protocol_version)) [
          | inr version ↦ inr (
            (λ t. ground (arith, read, version, t)),
            ground (arith, long, read, size, version),
            ground (arith, long, read, size, version),
          )
          | inl version ↦ elim (Option-cases (find table h.type)) [
            | inl unknown ↦ inr (
              (λ t. ground (arith, read, unknown, t)),
              ground (arith, long, read, size, version, unknown),
              ground (arith, long, read, size, version, unknown),
            )
            | inr (entry, known) ↦ found_cases h entry long read (ground arith) (ground arith) known
          ]
        ]
      ]
    ]
  ]
