-- ===== src/Server/EndpointTable.antt =====
-- The unordered maps from endpoints of the server's services.
use windows_iocp_udp.Prelude.{List, Option}
use windows_iocp_udp.Prelude.Table
use windows_iocp_udp.Prelude.Table.{Key}
pub use windows_iocp_udp.Prelude.Table.{
  find-put, find-erase, find-same, Unique, put-Unique, erase-Unique,
}
use windows_iocp_udp.Identity.{EndpointKey, endpoint_eq, endpoint_eq_iff}

instance abbrev pub endpoint_key : Key EndpointKey
endpoint_key = record { same = endpoint_eq; same_iff = endpoint_eq_iff }

abbrev pub EndpointTable : Type 0 → Type 0
EndpointTable B = List (EndpointKey × B)

module _ {B : Type 0} where
  -- `find`, the write of an entry and `erase`.
  abbrev pub find_entry : EndpointTable B → EndpointKey → Option B
  find_entry table key = Table.find table key

  abbrev pub put_entry : EndpointTable B → EndpointKey → B → EndpointTable B
  put_entry table key p = Table.put table key p

  abbrev pub erase_entry : EndpointTable B → EndpointKey → EndpointTable B
  erase_entry table key = Table.erase table key
