-- ===== src/Pool/Cleanup.antt =====
-- src/tcp.rs: cleanup requests of the pool's connections, late or not.
use recentip.Prelude.{
  ℕ, ◌≤◌, ◌<◌, ◌≡◌, refl, inl, inr, Bool-cases, Option-cases, true, if◌then◌else◌, none, some,
  arith,
}
use recentip.Prelude.Maps.{Map, get, nat_beq_refl, get-remove}
use recentip.Pool.{
  ConnKey, ConnKey-Eq, conn_key_beq, Cell, TcpConnectionState, TcpConnectionPool, TcpCleanupRequest,
  new, handle_cleanup, cell_holds,
}
use recentip.Pool.Ids.{Steps, here, next, holders, holders-remove-held, Step-Moves, Steps-IsUnique}

-- The connection at a key is one that the key's cell holds.
holders-get :
    (c : ℕ) (m : Map ConnKey Cell) (key : ConnKey) (cell : Cell)
    → get m key ≡ some cell
    → cell_holds c cell ≡ true
    → 1 ≤ holders c m
holders-get c m key cell g h = omega (arith, holders-remove-held c m key cell g h)

unheld_stays :
    (c : ℕ) (p q : TcpConnectionPool)
    → Steps p q
    → c < p.next_connection_id
    → holders c p.connections ≡ 0
    → (c < q.next_connection_id) × (holders c q.connections ≡ 0)
unheld_stays c p q here below gone = (below, gone)
unheld_stays c p q (next {q = r} s st) below gone =
    let (up, grows) = Step-Moves r q st in
    let (below', gone') = unheld_stays c p r s below gone in
    elim (grows c) [
      | inl fewer ↦ (omega arith, omega arith)
      | inr (at, one, past) ↦ absurd (omega arith)
    ]

handle_cleanup-unheld :
    (q : TcpConnectionPool) (request : TcpCleanupRequest)
    → holders request.connection_id q.connections ≡ 0
    → handle_cleanup q request ≡ q
unfolding handle_cleanup
handle_cleanup-unheld q request gone = elim (Option-cases (get q.connections request.key)) [
  | inl absent ↦ rw (handle_cleanup, absent) refl
  | inr (cell, found) ↦ elim (Bool-cases (cell_holds request.connection_id cell)) [
    | inl own ↦
        absurd (
          omega (arith, holders-get request.connection_id q.connections request.key cell found own))
    | inr stale ↦ rw (handle_cleanup, found, stale) refl
  ]
]

-- A late cleanup request: from a pool where no slot holds a connection id that has been given out, the
-- cleanup of that id, for whatever key, changes nothing after any history of the pool.
pub handle_cleanup-stale :
    (p q : TcpConnectionPool) (request : TcpCleanupRequest)
    → Steps p q
    → request.connection_id < p.next_connection_id
    → holders request.connection_id p.connections ≡ 0
    → handle_cleanup q request ≡ q
handle_cleanup-stale p q request s below gone =
    handle_cleanup-unheld q request (unheld_stays request.connection_id p q s below gone).1

-- After any history of a new pool, the cleanup request of the connection at a key takes that connection
-- out of the pool, so that no slot holds it, and leaves the slots of the other keys as they are.
pub handle_cleanup-current :
    (p : TcpConnectionPool) (request : TcpCleanupRequest) (state : TcpConnectionState)
    → Steps new p
    → get p.connections request.key ≡ some (some state)
    → state.connection_id ≡ request.connection_id
    → let after = (handle_cleanup p request).connections in
      (holders request.connection_id after ≡ 0)
      × ((other : ConnKey)
          → get after other
            ≡ (if conn_key_beq request.key other then none else get p.connections other))
unfolding handle_cleanup
handle_cleanup-current p request state s found own =
    let held : cell_holds request.connection_id (some state) ≡ true =
      rw own (nat_beq_refl request.connection_id) in
    let fewer =
      holders-remove-held request.connection_id p.connections request.key (some state) found held in
    rw (handle_cleanup, found, held)
      (
        grind (arith, Steps-IsUnique p s request.connection_id, fewer),
        λ other. get-remove p.connections request.key other,
      )
