-- ===== src/Offers/Counter.antt =====
-- src/runtime/server.rs: the port counter of the auto-port scan stays a port.
use recentip.Prelude.{
  ℕ, zero, suc, ◌≡◌, ◌≤◌, ◌==◌, refl, inl, inr, Bool-cases, Option-cases, Option, none, some, arith,
}
use recentip.Config.{OfferConfig, MethodConfig}
use recentip.Sd.{ServiceKey}
use recentip.State.{RuntimeState}
use recentip.Offers.Ports.{
  Bind, bound, addr_in_use, failed, nameless, next_port, scan, scan_fuel, bind_new, select_udp,
  select_tcp, find_shareable_udp_socket, find_shareable_tcp_socket,
}
use recentip.Offers.Command.{
  Network, Part, ready, refused, udp_part, tcp_part, store_offer, queue_initial_offer, conclude,
  handle_offer_command,
}

abbrev pub IsPort : ℕ → Type 0
IsPort n = (1 ≤ n) × (n ≤ 65535)

next_port-IsPort : (n : ℕ) → IsPort n → IsPort (next_port n)
next_port-IsPort n p = (ground arith, ground arith)

scan_step-IsPort :
    (fuel : ℕ) (bind : ℕ → Bind) (start candidate : ℕ) (b : Bind)
    → bind candidate ≡ b
    → IsPort candidate
    → IsPort (scan fuel bind start (next_port candidate)).1
    → IsPort (scan (suc fuel) bind start candidate).1
unfolding scan
scan_step-IsPort fuel bind start candidate (bound ep ch) e p later =
    rw (scan, e) (next_port-IsPort candidate p)
scan_step-IsPort fuel bind start candidate addr_in_use e p later =
    elim (Bool-cases (next_port candidate == start)) [
      | inl round ↦ rw (scan, e, round) (next_port-IsPort candidate p)
      | inr more ↦ rw (scan, e, more) later
    ]
scan_step-IsPort fuel bind start candidate failed e p later = rw (scan, e) p
scan_step-IsPort fuel bind start candidate nameless e p later = rw (scan, e) p

scan-IsPort :
    (fuel : ℕ) (bind : ℕ → Bind) (start candidate : ℕ)
    → IsPort candidate
    → IsPort (scan fuel bind start candidate).1
unfolding scan
scan-IsPort zero bind start candidate p = p
scan-IsPort (suc fuel) bind start candidate p =
    scan_step-IsPort fuel bind start candidate (bind candidate) refl p
      (scan-IsPort fuel bind start (next_port candidate) (next_port-IsPort candidate p))

bind_new-IsPort :
    (bind : ℕ → Bind) (port counter : ℕ) → IsPort counter → IsPort (bind_new bind port counter).1
unfolding bind_new
bind_new-IsPort bind port counter p = elim (Bool-cases (port == 0)) [
  | inl auto ↦ rw (bind_new, auto) (scan-IsPort scan_fuel bind counter counter p)
  | inr explicit ↦ rw (bind_new, explicit) p
]

udp_part-IsPort :
    (net : Network) (s : ℕ) (port : Option ℕ) (state : RuntimeState)
    → IsPort state.next_server_rpc_port
    → IsPort (udp_part net s port state).1.next_server_rpc_port
unfolding udp_part select_udp
udp_part-IsPort net s none state p = p
udp_part-IsPort net s (some port) state p =
    elim (Option-cases (find_shareable_udp_socket state.offered s port)) [
      | inl absent ↦
          rw (udp_part, select_udp, absent)
            (bind_new-IsPort net.udp_bind port state.next_server_rpc_port p)
      | inr (found, there) ↦ rw (udp_part, select_udp, there) p
    ]

tcp_part-IsPort :
    (net : Network) (s : ℕ) (port : Option ℕ) (state : RuntimeState)
    → IsPort state.next_server_rpc_port
    → IsPort (tcp_part net s port state).1.next_server_rpc_port
unfolding tcp_part select_tcp
tcp_part-IsPort net s none state p = p
tcp_part-IsPort net s (some port) state p =
    let new = bind_new-IsPort net.tcp_bind port state.next_server_rpc_port p in
    elim (Bool-cases (port == 0)) [
      | inl auto ↦
          let counter = state.next_server_rpc_port in
          rw (tcp_part, select_tcp, auto) (scan-IsPort scan_fuel net.tcp_bind counter counter p)
      | inr explicit ↦ elim (Option-cases (find_shareable_tcp_socket state.offered s port)) [
        | inl absent ↦ rw (tcp_part, select_tcp, explicit, absent) new
        | inr (found, there) ↦ rw (tcp_part, select_tcp, explicit, there) p
      ]
    ]

conclude-IsPort :
    (now minor : ℕ) (key : ServiceKey) (methods : MethodConfig) (u t : Part × RuntimeState)
    → IsPort u.1.next_server_rpc_port
    → IsPort t.1.next_server_rpc_port
    → IsPort (conclude now minor key methods u t).1.next_server_rpc_port
unfolding store_offer queue_initial_offer
conclude-IsPort now minor key methods (refused error, s) t p q = p
conclude-IsPort now minor key methods (ready u, s) (refused error, s') p q = q
conclude-IsPort now minor key methods (ready (some u), s) (ready t, s') p q = q
conclude-IsPort now minor key methods (ready none, s) (ready (some t), s') p q = q
conclude-IsPort now minor key methods (ready none, s) (ready none, s') p q = q

-- Whatever an offer comes to, and whatever binding its sockets gives, the port counter stays in the
-- range from 1 to 65535, if it was in it: the scan never tries port 0.
pub next_server_rpc_port-IsPort :
    (net : Network) (now minor : ℕ) (key : ServiceKey) (config : OfferConfig) (state : RuntimeState)
    → IsPort state.next_server_rpc_port
    → IsPort (handle_offer_command net now key minor config state).1.next_server_rpc_port
unfolding handle_offer_command
next_server_rpc_port-IsPort net now minor key config state p =
    let u = udp_part net key.service_id config.udp_port state in
    let first = udp_part-IsPort net key.service_id config.udp_port state p in
    conclude-IsPort now minor key config.method_config u
      (tcp_part net key.service_id config.tcp_port u.1) first
      (tcp_part-IsPort net key.service_id config.tcp_port u.1 first)
