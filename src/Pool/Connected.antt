-- ===== src/Pool/Connected.antt =====
-- src/tcp.rs: the address that a subscriber is given of a connection of the pool.
use recentip.Prelude.{ℕ, ◌≡◌, refl, ap, inl, inr, Option-cases, ◌⊎◌, Option, none, some}
use recentip.Prelude.Maps.{get, get-insert, or_default}
use recentip.Wire.SdOption.{Ipv4Addr, SocketAddrV4}
use recentip.Config.{PortSpec}
use recentip.Pool.{
  ConnKey, ConnKey-Eq, conn_key_beq_refl, Cell, TcpConnectionState, TcpConnectionPool, TcpStream,
  ensure_connected, addr_of, enter_cell, try_init, tcp_connect,
}
use recentip.Pool.Reused.{try_init-failed, try_init-came}

-- The address is that of a connection that the pool has to the target, in the slot of calls or in the
-- one of the subscription.
abbrev pub IsHeldAt :
    SocketAddrV4 → (subscription_id : ℕ) → Option SocketAddrV4 → TcpConnectionPool → Type 0
IsHeldAt target i result q =
    (result ≡ none)
    ⊎ ((state : TcpConnectionState) × (result ≡ some state.local_addr)
        × ((get q.connections (target, 0) ≡ some (some state))
            ⊎ (get q.connections (target, i) ≡ some (some state))))

enter_cell-get :
    (p : TcpConnectionPool) (key : ConnKey)
    → get (enter_cell p key).connections key ≡ some (or_default none (get p.connections key))
unfolding enter_cell
enter_cell-get p key = elim (Option-cases (get p.connections key)) [
  | inl absent ↦
      rw (enter_cell, absent, get-insert p.connections key key none, conn_key_beq_refl key) refl
  | inr (cell, found) ↦ rw (enter_cell, found, found) refl
]

-- What the slot of a subscription gives to its caller is what it holds afterwards.
try_init-IsHeld :
    (p : TcpConnectionPool) (net : TcpStream) (key : ConnKey) (ip : Ipv4Addr) (port : PortSpec)
    (cell : Cell)
    → get p.connections key ≡ some cell
    → ((try_init p net key ip port).0 ≡ none)
      ⊎ ((state : TcpConnectionState) × ((try_init p net key ip port).0 ≡ some state)
          × (get (try_init p net key ip port).1.connections key ≡ some (some state)))
unfolding try_init
try_init-IsHeld p net key ip port (some s) found = rw (try_init, found) (inr (s, refl, found))
try_init-IsHeld p net key ip port none found = elim (Option-cases (tcp_connect net ip port key.0)) [
  | inl failed ↦ rw (try_init-failed p net key ip port found failed) (inl refl)
  | inr (addr, came) ↦ rw (try_init-came p net key ip port found addr came) (
      let s : TcpConnectionState = record {
        local_addr = addr;
        connection_id = p.next_connection_id;
      } in
      inr (s, refl, rw (get-insert p.connections key key (some s), conn_key_beq_refl key) refl))
]

fresh-IsHeldAt :
    (p : TcpConnectionPool) (net : TcpStream) (target : SocketAddrV4) (i : ℕ) (ip : Ipv4Addr)
    (port : PortSpec)
    → let r = try_init (enter_cell p (target, i)) net (target, i) ip port in
      IsHeldAt target i (addr_of r.0) r.1
fresh-IsHeldAt p net target i ip port =
    let q = enter_cell p (target, i) in
    let cell = or_default none (get p.connections (target, i)) in
    elim (try_init-IsHeld q net (target, i) ip port cell (enter_cell-get p (target, i))) [
      | inl nothing ↦ inl (ap addr_of nothing)
      | inr (s, given, held) ↦ inr (s, ap addr_of given, inr held)
    ]

-- `ensure_connected` either fails, or gives the local address of a connection that the pool then has to
-- the target, in the slot of calls or in the subscription's own.
ensure_connected-IsHeldAt :
    (p : TcpConnectionPool) (net : TcpStream) (target : SocketAddrV4) (i : ℕ) (ip : Ipv4Addr)
    (port : PortSpec)
    → IsHeldAt target i
        (ensure_connected p net target i ip port).0
        (ensure_connected p net target i ip port).1
unfolding ensure_connected
ensure_connected-IsHeldAt p net target i ip port =
    elim (Option-cases (get p.connections (target, 0))) [
      | inr (some s, rpc) ↦ rw (ensure_connected, rpc) (inr (s, refl, inl rpc))
      | inr (none, empty) ↦ rw (ensure_connected, empty) (fresh-IsHeldAt p net target i ip port)
      | inl absent ↦ rw (ensure_connected, absent) (fresh-IsHeldAt p net target i ip port)
    ]
