-- ===== src/Pool.antt =====
-- src/tcp.rs: the client's pool of TCP connections. A connection's task and channel are known by its
-- connection id. A cell that is not initialised is `none`.
pub mod Ids
pub mod Cleanup
pub mod Closed
pub mod Distinct
pub mod Reused
pub mod Kept
pub mod Connected
use recentip.Prelude.{
  ℕ, ◌+◌, ◌==◌, ◌&&◌, ◌%◌, ◌^◌, ◌≡◌, Bool, true, false, if◌then◌else◌, List, [], ◌∷◌, Option, none,
  some, arith,
}
use recentip.Prelude.Maps.{Map, Eq, get, insert, remove, filter, any_of}
use recentip.Wire.SdOption.{Ipv4Addr, SocketAddrV4}
use recentip.Config.{PortSpec, any, fixed}
use recentip.State.Keys.{addr_beq}

-- The peer and the subscription id, 0 for calls.
abbrev pub ConnKey : Type 0
ConnKey = SocketAddrV4 × ℕ

abbrev pub conn_key_beq : ConnKey → ConnKey → Bool
conn_key_beq (p, i) (q, j) = addr_beq p q && i == j

pub conn_key_eq_of_beq : (a b : ConnKey) → conn_key_beq a b ≡ true → a ≡ b
conn_key_eq_of_beq a b h = ground arith

pub conn_key_beq_refl : (a : ConnKey) → conn_key_beq a a ≡ true
conn_key_beq_refl a = ground arith

instance abbrev pub ConnKey-Eq : Eq ConnKey
ConnKey-Eq = record {
  beq = conn_key_beq;
  eq_of_beq = conn_key_eq_of_beq;
  beq_refl = conn_key_beq_refl;
}

pub record TcpConnectionState : Type 0 where
  pub local_addr : SocketAddrV4
  pub connection_id : ℕ

abbrev pub Cell : Type 0
Cell = Option TcpConnectionState

pub record TcpCleanupRequest : Type 0 where
  pub key : ConnKey
  pub connection_id : ℕ

-- `aborted` are the connections whose task has been aborted.
pub record TcpConnectionPool : Type 0 where
  pub connections : Map ConnKey Cell
  pub next_connection_id : ℕ
  pub aborted : List ℕ

abbrev pub new : TcpConnectionPool
new = record { connections = []; next_connection_id = 1; aborted = [] }

-- What the operating system answers: the local address of a new stream, or an error.
pub record TcpStream : Type 0 where
  pub connect : (target : SocketAddrV4) → Option SocketAddrV4
  pub connect_from : (source target : SocketAddrV4) → Option SocketAddrV4

unfoldable pub tcp_connect : TcpStream → Ipv4Addr → PortSpec → SocketAddrV4 → Option SocketAddrV4
tcp_connect net local_ip any target = net.connect target
tcp_connect net local_ip (fixed port) target =
    net.connect_from (record { ip = local_ip; port = port }) target

-- The part after the connection attempt does not wait.
unfoldable pub do_connect :
    TcpConnectionPool
    → TcpStream
    → (target : SocketAddrV4) → Ipv4Addr
    → PortSpec
    → Cell × TcpConnectionPool
unfolding tcp_connect
do_connect self net target local_ip local_port = elim (tcp_connect net local_ip local_port target) [
  | none ↦ (none, self)
  | some local_addr ↦ (
    some (record { local_addr = local_addr; connection_id = self.next_connection_id }),
    record self { next_connection_id = (self.next_connection_id + 1) % 2 ^ 64 },
  )
]

-- `entry(key).or_insert_with(..)`
unfoldable pub enter_cell : TcpConnectionPool → ConnKey → TcpConnectionPool
enter_cell self key = elim (get self.connections key) [
  | none ↦ record self { connections = insert self.connections key none }
  | some cell ↦ self
]

-- `get_or_try_init` on the cell of a key: the first caller connects. A caller whose cell has been taken
-- out of the map meanwhile changes nothing; the state that it returns is left out.
unfoldable pub try_init :
    TcpConnectionPool → TcpStream → ConnKey → Ipv4Addr → PortSpec → Cell × TcpConnectionPool
unfolding do_connect
try_init self net key local_ip local_port =
    let (cell, pool) = do_connect self net key.0 local_ip local_port in
    elim (get self.connections key) [
      | none ↦ (none, self)
      | some (some state) ↦ (some state, self)
      | some none ↦ elim cell [
        | none ↦ (none, pool)
        | some state ↦
            (some state, record pool { connections = insert pool.connections key (some state) })
      ]
    ]

-- The first initialised cell of a peer, in the map's order.
unfoldable pub established : Map ConnKey Cell → SocketAddrV4 → Cell
established [] target = none
established ((key, none) ∷ m) target = established m target
established ((key, some state) ∷ m) target =
    let rest = established m target in if addr_beq key.0 target then some state else rest

pub data Sent : Type 0 where
  -- on the connection with this id
  sent : (connection_id : ℕ) → Sent
  broken_pipe connect_failed : Sent

-- `closed` tells of a connection id that its task has ended.
abbrev pub send_on : (closed : ℕ → Bool) → TcpConnectionState → Sent
send_on closed state = if closed state.connection_id then broken_pipe else sent state.connection_id

-- `Ipv4Addr::UNSPECIFIED`
abbrev pub unspecified : Ipv4Addr
unspecified = record { a = 0; b = 0; c = 0; d = 0 }

-- `send`, where nothing else happens while it connects; `net` is how the attempt comes out.
unfoldable pub send :
    TcpConnectionPool → TcpStream → (closed : ℕ → Bool) → SocketAddrV4 → Sent × TcpConnectionPool
unfolding established enter_cell try_init
send self net closed target = elim (established self.connections target) [
  | some state ↦ (send_on closed state, self)
  | none ↦
      let (cell, pool) = try_init (enter_cell self (target, 0)) net (target, 0) unspecified any in
      elim cell [ none ↦ (connect_failed, pool) | some state ↦ (send_on closed state, pool) ]
]

abbrev pub addr_of : Cell → Option SocketAddrV4
addr_of none = none
addr_of (some state) = some state.local_addr

unfoldable pub ensure_connected :
    TcpConnectionPool
    → TcpStream
    → SocketAddrV4
    → (subscription_id : ℕ) → Ipv4Addr
    → PortSpec
    → Option SocketAddrV4 × TcpConnectionPool
unfolding enter_cell try_init
ensure_connected self net target subscription_id local_ip local_port =
    let (cell, pool) =
      try_init (enter_cell self (target, subscription_id)) net (target, subscription_id) local_ip
        local_port in
    elim (get self.connections (target, 0)) [
      | some (some state) ↦ (some state.local_addr, self)
      | some none ↦ (addr_of cell, pool)
      | none ↦ (addr_of cell, pool)
    ]

abbrev pub cell_holds : ℕ → Cell → Bool
cell_holds connection_id none = false
cell_holds connection_id (some state) = state.connection_id == connection_id

unfoldable pub handle_cleanup : TcpConnectionPool → TcpCleanupRequest → TcpConnectionPool
handle_cleanup self request = elim (get self.connections request.key) [
  | none ↦ self
  | some cell ↦
      if cell_holds request.connection_id cell
      then record self { connections = remove self.connections request.key }
      else self
]

-- `keys_to_close`
unfoldable pub keys_to_close : Map ConnKey Cell → (endpoints : List SocketAddrV4) → List ConnKey
keys_to_close [] endpoints = []
keys_to_close ((key, none) ∷ m) endpoints = keys_to_close m endpoints
keys_to_close ((key, some state) ∷ m) endpoints =
    let rest = keys_to_close m endpoints in
    if any_of (addr_beq key.0) endpoints then key ∷ rest else rest

unfoldable pub close_keys : List ConnKey → TcpConnectionPool → TcpConnectionPool
close_keys [] self = self
close_keys (key ∷ keys) self = elim (get self.connections key) [
  | none ↦ close_keys keys self
  | some none ↦ close_keys keys (record self { connections = remove self.connections key })
  | some (some state) ↦ close_keys keys (record self {
    connections = remove self.connections key;
    aborted = state.connection_id ∷ self.aborted;
  })
]

unfoldable pub close_endpoints : TcpConnectionPool → List SocketAddrV4 → TcpConnectionPool
unfolding keys_to_close close_keys
close_endpoints self endpoints = close_keys (keys_to_close self.connections endpoints) self
