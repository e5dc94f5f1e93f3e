-- ===== src/Pool/Reused.antt =====
-- src/tcp.rs: which connection of the pool a caller is given.
use recentip.Prelude.{
  ℕ, ◌+◌, ◌%◌, ◌^◌, ◌≡◌, ◌≢◌, refl, ap, inl, inr, Bool-cases, Bool, [], ◌∷◌, none, some, arith,
}
use recentip.Prelude.Maps.{Map, get, insert}
use recentip.Wire.SdOption.{Ipv4Addr, SocketAddrV4}
use recentip.Config.{PortSpec}
use recentip.State.Keys.{addr_beq}
use recentip.Pool.Ids.{do_connect-failed, do_connect-came}
use recentip.Pool.{
  ConnKey, ConnKey-Eq, conn_key_beq, Cell, TcpConnectionState, TcpConnectionPool, TcpStream,
  established, send, send_on, try_init, tcp_connect,
}

pub established-get :
    (m : Map ConnKey Cell) (target : SocketAddrV4) (i : ℕ) (state : TcpConnectionState)
    → established m target ≡ none
    → get m (target, i) ≢ some (some state)
unfolding established
established-get [] target i state e g = cc
established-get ((k, none) ∷ m) target i state e g =
    elim (Bool-cases (conn_key_beq k (target, i))) [
      | inl hit ↦ absurd (ground (arith, rw hit at g))
      | inr miss ↦ established-get m target i state e (rw miss at g)
    ]
established-get ((k, some t) ∷ m) target i state e g = elim (Bool-cases (addr_beq k.0 target)) [
  | inl same ↦ absurd (ground (arith, rw same at e))
  | inr other ↦ established-get m target i state (rw other at e) (ground arith)
]

module _ (p : TcpConnectionPool) (net : TcpStream) (key : ConnKey) (ip : Ipv4Addr) (port : PortSpec)
    (vacant : get p.connections key ≡ some none) where
  pub try_init-failed :
      tcp_connect net ip port key.0 ≡ none → try_init p net key ip port ≡ (none, p)
  unfolding try_init
  try_init-failed failed =
      let e = do_connect-failed p net key.0 ip port failed in
      rw (try_init, vacant, ap (λ x. x.0) e, ap (λ x. x.1) e) refl

  pub try_init-came :
      (addr : SocketAddrV4)
      → tcp_connect net ip port key.0 ≡ some addr
      → try_init p net key ip port ≡ (
        some (record { local_addr = addr; connection_id = p.next_connection_id }),
        record p {
          next_connection_id = (p.next_connection_id + 1) % 2 ^ 64;
          connections =
              insert p.connections key
                (some (record { local_addr = addr; connection_id = p.next_connection_id }));
        },
      )
  unfolding try_init
  try_init-came addr came =
      let e = do_connect-came p net key.0 ip port addr came in
      rw (try_init, vacant, ap (λ x. x.0) e, ap (λ x. x.1) e) refl

pub send-reuses :
    (p : TcpConnectionPool) (net : TcpStream) (closed : ℕ → Bool) (target : SocketAddrV4)
    (state : TcpConnectionState)
    → established p.connections target ≡ some state
    → send p net closed target ≡ (send_on closed state, p)
unfolding send
send-reuses p net closed target state e = rw (send, e) refl
