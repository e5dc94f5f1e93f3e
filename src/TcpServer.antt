-- ===== src/TcpServer.antt =====
-- src/tcp.rs: the task of a service's TCP server: its connections, by the address of the peer. A
-- connection's channel and its task are known by its connection id.
pub mod Latest
use recentip.Prelude.{
  ℕ, ◌+◌, ◌==◌, ◌&&◌, ◌%◌, ◌^◌, Bool, true, false, if◌then◌else◌, List, [], ◌∷◌, ◌++◌, Option, none,
  some,
}
use recentip.Prelude.Maps.{Map, get, insert, remove}
use recentip.Wire.SdOption.{Ipv4Addr, SocketAddrV4}
use recentip.Config.{contains}
use recentip.State.Keys.{ip_beq, SocketAddrV4-Eq}

-- `aborted` are the connections whose task has been aborted, `sent` the responses that went to a
-- connection.
pub record TcpServer : Type 0 where
  pub client_senders : Map SocketAddrV4 ℕ
  pub client_tasks : Map SocketAddrV4 ℕ
  pub next_conn_id : ℕ
  pub aborted : List ℕ
  pub sent : List (ℕ × List ℕ)

-- `spawn`
abbrev pub new : TcpServer
new = record { client_senders = []; client_tasks = []; next_conn_id = 0; aborted = []; sent = [] }

unfoldable pub accept_connection : TcpServer → (peer_addr : SocketAddrV4) → TcpServer
accept_connection self peer_addr =
    let connection_id = (self.next_conn_id + 1) % 2 ^ 64 in
    record self {
      client_senders = insert self.client_senders peer_addr connection_id;
      client_tasks = insert self.client_tasks peer_addr connection_id;
      next_conn_id = connection_id;
    }

abbrev pub is_closing : Ipv4Addr → (close_ports : List ℕ) → SocketAddrV4 → Bool
is_closing peer_ip close_ports addr = ip_beq addr.ip peer_ip && contains close_ports addr.port

-- `addrs_to_remove`
unfoldable pub closing_addrs :
    Map SocketAddrV4 ℕ → Ipv4Addr → (close_ports : List ℕ) → List SocketAddrV4
closing_addrs [] peer_ip close_ports = []
closing_addrs ((addr, id) ∷ senders) peer_ip close_ports =
    let rest = closing_addrs senders peer_ip close_ports in
    if is_closing peer_ip close_ports addr then addr ∷ rest else rest

abbrev pub abort : Option ℕ → List ℕ → List ℕ
abort none aborted = aborted
abort (some id) aborted = id ∷ aborted

unfoldable pub close_addrs : List SocketAddrV4 → TcpServer → TcpServer
close_addrs [] self = self
close_addrs (addr ∷ addrs) self = close_addrs addrs (record self {
  client_senders = remove self.client_senders addr;
  client_tasks = remove self.client_tasks addr;
  aborted = abort (get self.client_tasks addr) self.aborted;
})

unfoldable pub close_peer : TcpServer → Ipv4Addr → (close_ports : List ℕ) → TcpServer
unfolding closing_addrs close_addrs
close_peer self peer_ip close_ports =
    close_addrs (closing_addrs self.client_senders peer_ip close_ports) self

-- A response is dropped if its peer has no connection, or the connection's task has ended.
unfoldable pub route :
    TcpServer → (closed : ℕ → Bool) → (to : SocketAddrV4) → (bytes : List ℕ) → TcpServer
route self closed to bytes = elim (get self.client_senders to) [
  | none ↦ self
  | some id ↦ if closed id then self else record self { sent = self.sent ++ (id, bytes) ∷ [] }
]

-- The cleanup request of a connection.
unfoldable pub cleanup : TcpServer → SocketAddrV4 → (conn_id : ℕ) → TcpServer
cleanup self addr conn_id = elim (get self.client_senders addr) [
  | none ↦ self
  | some id ↦
      if id == conn_id
      then record self { client_senders = remove self.client_senders addr }
      else self
]

-- The last act of a connection's task, whichever connection of the address it was.
unfoldable pub task_ended : TcpServer → SocketAddrV4 → TcpServer
task_ended self addr = record self { client_tasks = remove self.client_tasks addr }
