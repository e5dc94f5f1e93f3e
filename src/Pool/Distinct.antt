-- ===== src/Pool/Distinct.antt =====
-- src/tcp.rs: the pool's map holds each key once.
use recentip.Prelude.{ap, inl, inr, Bool-cases, Option-cases, List, [], ◌∷◌, none, some}
use recentip.Prelude.Maps.{get, remove, Distinct, insert-Distinct, remove-Distinct}
use recentip.Wire.SdOption.{Ipv4Addr}
use recentip.Config.{PortSpec}
use recentip.Pool.{
  ConnKey, ConnKey-Eq, TcpConnectionPool, TcpStream, new, enter_cell, try_init, handle_cleanup,
  close_keys, close_endpoints, cell_holds, tcp_connect, keys_to_close,
}
use recentip.Pool.Ids.{
  Step, Steps, here, next, entered, connected, cleaned, closed, do_connect-failed, do_connect-came,
}

close_keys-Distinct :
    (keys : List ConnKey) (p : TcpConnectionPool)
    → Distinct p.connections
    → Distinct (close_keys keys p).connections
unfolding close_keys
close_keys-Distinct [] p d = d
close_keys-Distinct (key ∷ keys) p d =
    let less = remove-Distinct p.connections key d in
    elim (Option-cases (get p.connections key)) [
      | inl absent ↦ rw (close_keys, absent) (close_keys-Distinct keys p d)
      | inr (none, found) ↦
          rw (close_keys, found)
            (close_keys-Distinct keys (record p { connections = remove p.connections key }) less)
      | inr (some s, found) ↦
          let aborted = s.connection_id ∷ p.aborted in
          let p' = record p { connections = remove p.connections key; aborted = aborted } in
          rw (close_keys, found) (close_keys-Distinct keys p' less)
    ]

try_init-Distinct :
    (p : TcpConnectionPool) (net : TcpStream) (key : ConnKey) (ip : Ipv4Addr) (port : PortSpec)
    → Distinct p.connections
    → Distinct (try_init p net key ip port).1.connections
unfolding try_init
try_init-Distinct p net key ip port d = elim (Option-cases (get p.connections key)) [
  | inl absent ↦ rw (try_init, absent) d
  | inr (some s, found) ↦ rw (try_init, found) d
  | inr (none, found) ↦ elim (Option-cases (tcp_connect net ip port key.0)) [
    | inl failed ↦
        let e = do_connect-failed p net key.0 ip port failed in
        rw (try_init, found, ap (λ x. x.0) e, ap (λ x. x.1) e) d
    | inr (addr, came) ↦
        let e = do_connect-came p net key.0 ip port addr came in
        rw (try_init, found, ap (λ x. x.0) e, ap (λ x. x.1) e)
          (insert-Distinct p.connections key
            (some (record { local_addr = addr; connection_id = p.next_connection_id })) d)
  ]
]

Step-Distinct :
    (p q : TcpConnectionPool) → Step p q → Distinct p.connections → Distinct q.connections
unfolding close_endpoints enter_cell handle_cleanup
Step-Distinct p q (entered key e) d = elim (Option-cases (get p.connections key)) [
  | inl absent ↦ rw (e, enter_cell, absent) (insert-Distinct p.connections key none d)
  | inr (cell, found) ↦ rw (e, enter_cell, found) d
]
Step-Distinct p q (connected net key ip port h e) d = rw e (try_init-Distinct p net key ip port d)
Step-Distinct p q (cleaned request e) d = elim (Option-cases (get p.connections request.key)) [
  | inl absent ↦ rw (e, handle_cleanup, absent) d
  | inr (cell, found) ↦ elim (Bool-cases (cell_holds request.connection_id cell)) [
    | inl own ↦ rw (e, handle_cleanup, found, own) (remove-Distinct p.connections request.key d)
    | inr stale ↦ rw (e, handle_cleanup, found, stale) d
  ]
]
Step-Distinct p q (closed endpoints e) d =
    rw e (close_keys-Distinct (keys_to_close p.connections endpoints) p d)

pub Steps-Distinct : (p : TcpConnectionPool) → Steps new p → Distinct p.connections
Steps-Distinct p here = tt
Steps-Distinct p (next {q = q} s st) = Step-Distinct q p st (Steps-Distinct q s)
