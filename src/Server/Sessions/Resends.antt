-- ===== src/Server/Sessions/Resends.antt =====
-- What a resend pass of Server/Net/ReliableUdpSessionRegistry.h leaves.
use windows_iocp_udp.Prelude.{
  ℕ, ◌≡◌, refl, ap, Bool, not, ◌&&◌, ◌==◌, if◌then◌else◌, [], ◌∷◌, Option, none, some, arith,
  Bool-cases, inl, inr,
}
use windows_iocp_udp.Identity.{EndpointKey, endpoint_eq, endpoint_eq_iff}
use windows_iocp_udp.Reliable.Session
use windows_iocp_udp.Reliable.Session.{Session, ReliableUdpConfig}
use windows_iocp_udp.Server.EndpointTable.{
  endpoint_key, EndpointTable, find_entry, find-same, Unique,
}
use windows_iocp_udp.Server.Sessions.{
  Registry, SessionEntry, ClosingEndpointSet, erase_closing, pending_count, is_drained,
}
use windows_iocp_udp.Server.Sessions.ResendPass.{resend_loop, extract_resend_batch}

-- The session that a resend pass leaves at an endpoint that is closing or not, and whether it still closes.
abbrev pub resent : ℕ → SessionEntry → Session
resent now entry = (Session.extract_resend_result entry.reliable_session now).1

abbrev pub entry_after : ℕ → Bool → Option SessionEntry → Option SessionEntry
entry_after now closing none = none
entry_after now closing (some entry) =
    if closing && pending_count (resent now entry) == 0
    then none
    else some (record entry { reliable_session = resent now entry })

abbrev pub closing_after : ℕ → Bool → Option SessionEntry → Bool
closing_after now closing none = closing
closing_after now closing (some entry) = closing && not (pending_count (resent now entry) == 0)

resend_loop-lookup :
    (now : ℕ) (closing : ClosingEndpointSet) (table : EndpointTable SessionEntry) (j : EndpointKey)
    → Unique table
    → let left = (resend_loop now closing table).1 in
      (find_entry left.session_table j ≡ entry_after now (closing j) (find_entry table j))
      × (left.closing_endpoint_set j ≡ closing_after now (closing j) (find_entry table j))
unfolding resend_loop
resend_loop-lookup now closing [] j u = (refl, refl)
resend_loop-lookup now closing ((key, entry) ∷ table) j u =
    let done = is_drained closing key (resent now entry) in
    let rest =
      resend_loop-lookup now (if done then erase_closing closing key else closing) table j u.1 in
    elim (Bool-cases (endpoint_eq key j)) [
      | inl e ↦
          let same = ap closing ((endpoint_eq_iff key j).0 e) in
          let gone = find-same table key j e in
          elim (Bool-cases done) [
            | inl d ↦ ground (arith, rest, same, gone)
            | inr d ↦ ground (arith, rest, same, gone)
          ]
      | inr e ↦ elim (Bool-cases done) [
        | inl d ↦ ground (arith, rest)
        | inr d ↦ ground (arith, rest)
      ]
    ]

pub resend_loop-Unique :
    (now : ℕ) (closing : ClosingEndpointSet) (table : EndpointTable SessionEntry)
    → Unique table
    → Unique (resend_loop now closing table).1.session_table
unfolding resend_loop
resend_loop-Unique now closing [] u = tt
resend_loop-Unique now closing ((key, entry) ∷ table) u =
    let next =
      if is_drained closing key (resent now entry) then erase_closing closing key else closing in
    let rest = resend_loop-Unique now next table u.1 in
    let absent = (resend_loop-lookup now next table key u.1).0 in
    elim (Bool-cases (is_drained closing key (resent now entry))) [
      | inl d ↦ ground (arith, rest)
      | inr d ↦ ground (arith, rest, absent)
    ]

-- After a resend pass, an endpoint has the session of before, with its packets sent again, unless it was
-- closing and nothing is pending any more: then the session is gone. It is closing still when it was
-- and packets are pending. The endpoints of the table are different.
pub extract_resend_batch-lookup :
    (r : Registry) (now : ℕ) (j : EndpointKey)
    → Unique r.session_table
    → let left = (extract_resend_batch r now).1 in
      (find_entry left.session_table j
        ≡ entry_after now (r.closing_endpoint_set j) (find_entry r.session_table j))
      × (left.closing_endpoint_set j
          ≡ closing_after now (r.closing_endpoint_set j) (find_entry r.session_table j))
unfolding extract_resend_batch
extract_resend_batch-lookup r now j u =
    resend_loop-lookup now r.closing_endpoint_set r.session_table j u
