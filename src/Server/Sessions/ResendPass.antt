-- ===== src/Server/Sessions/ResendPass.antt =====
-- Server/Net/ReliableUdpSessionRegistry.h: `ExtractResendBatch`.
use windows_iocp_udp.Prelude.{ℕ, ◌+◌, if◌then◌else◌, List, [], ◌∷◌, ◌++◌, length}
use windows_iocp_udp.Identity.{EndpointKey}
use windows_iocp_udp.Reliable.SendWindow.{PendingPacket}
use windows_iocp_udp.Reliable.Session
use windows_iocp_udp.Reliable.Session.{Session, ReliableUdpConfig, configure, built, failed}
use windows_iocp_udp.Server.EndpointTable.{EndpointTable}
use windows_iocp_udp.Server.Sessions.{
  ResendTask, ResendBatch, SessionEntry, ClosingEndpointSet, Registry, erase_closing, is_drained,
}

abbrev tasks_of : EndpointKey → List PendingPacket → List ResendTask
tasks_of key [] = []
tasks_of key (p ∷ ps) =
    record { endpoint_key = key; packet_buffer = p.packet_buffer } ∷ tasks_of key ps

-- The loop of `ExtractResendBatch` over the entries.
unfoldable pub resend_loop :
    ℕ → ClosingEndpointSet → EndpointTable SessionEntry → ResendBatch × Registry
resend_loop now closing [] = (
  record { task_list = []; give_up_packet_count = 0 },
  record { session_table = []; closing_endpoint_set = closing },
)
resend_loop now closing ((key, entry) ∷ table) =
    let (result, session) = Session.extract_resend_result entry.reliable_session now in
    let done = is_drained closing key session in
    let (batch, left) =
      resend_loop now (if done then erase_closing closing key else closing) table in
    (
      record {
        task_list = tasks_of key result.resend_packet_list ++ batch.task_list;
        give_up_packet_count = length result.give_up_packet_list + batch.give_up_packet_count;
      },
      if done then left else record left {
        session_table = (key, record entry { reliable_session = session }) ∷ left.session_table;
      },
    )

unfoldable pub extract_resend_batch : Registry → ℕ → ResendBatch × Registry
extract_resend_batch r now = resend_loop now r.closing_endpoint_set r.session_table
