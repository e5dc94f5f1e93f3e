-- ===== src/Pool/Kept.antt =====
-- src/tcp.rs: how long `send` uses the connections that the pool has.
use recentip.Prelude.{
  ℕ, ◌≡◌, ◌≢◌, ◌⊎◌, refl, ap, sym, ◌∙◌, inl, inr, Bool-cases, Option-cases, Bool, false, [], ◌∷◌,
  none, some, arith,
}
use recentip.Prelude.Maps.{
  Map, get, insert, get-insert, get-remove, any_of, or_default, nat_beq_refl, Distinct,
}
use recentip.Wire.SdOption.{Ipv4Addr, SocketAddrV4}
use recentip.Config.{PortSpec}
use recentip.State.Keys.{addr_beq}
use recentip.Pool.{
  ConnKey, ConnKey-Eq, conn_key_beq, conn_key_eq_of_beq, Cell, TcpConnectionState,
  TcpConnectionPool, TcpCleanupRequest, TcpStream, new, established, send, send_on, enter_cell,
  try_init, handle_cleanup, cell_holds, tcp_connect,
}
use recentip.Pool.Ids.{Step, entered, connected, cleaned, closed, Steps, next}
use recentip.Pool.Closed.{get-close_endpoints}
use recentip.Pool.Distinct.{Steps-Distinct}
use recentip.Pool.Reused.{established-get, try_init-failed, try_init-came, send-reuses}

-- A step that is neither the cleanup request of the connection at the key nor closes the key's peer.
abbrev pub Spares : ConnKey → (connection_id : ℕ) → (p q : TcpConnectionPool) → Step p q → Type 0
Spares key id p q (entered k e) = Unit
Spares key id p q (connected net k ip port small e) = Unit
Spares key id p q (cleaned request e) =
    (conn_key_beq request.key key ≡ false) ⊎ (request.connection_id ≢ id)
Spares key id p q (closed endpoints e) = any_of (addr_beq key.0) endpoints ≡ false

pub data Sparing (key : ConnKey) (connection_id : ℕ) (p : TcpConnectionPool)
    : TcpConnectionPool → Type 0 where
  stay : Sparing key connection_id p p
  step :
      {q r : TcpConnectionPool}
      → Sparing key connection_id p q
      → (st : Step q r) → Spares key connection_id q r st
      → Sparing key connection_id p r

Sparing-Steps :
    (key : ConnKey) (id : ℕ) (p q : TcpConnectionPool)
    → Steps new p
    → Sparing key id p q
    → Steps new q
Sparing-Steps key id p q s stay = s
Sparing-Steps key id p q s (step {q = r} sparing st _) =
    next (Sparing-Steps key id p r s sparing) st

-- The cell at a key is written only where there is no connection yet.
get-written :
    (m : Map ConnKey Cell) (k key : ConnKey) (cell : Cell) (state : TcpConnectionState)
    → get m key ≡ some (some state)
    → get m k ≢ some (some state)
    → get (insert m k cell) key ≡ some (some state)
get-written m k key cell state g vacant = elim (Bool-cases (conn_key_beq k key)) [
  | inl hit ↦ absurd (vacant (rw (conn_key_eq_of_beq k key hit) g))
  | inr miss ↦ rw (get-insert m k key cell, miss) g
]

enter_cell-keeps :
    (p : TcpConnectionPool) (k key : ConnKey) (state : TcpConnectionState)
    → get p.connections key ≡ some (some state)
    → get (enter_cell p k).connections key ≡ some (some state)
unfolding enter_cell
enter_cell-keeps p k key state g = elim (Option-cases (get p.connections k)) [
  | inl absent ↦
      rw (enter_cell, absent)
        (get-written p.connections k key none state g (λ there. cc (absent, there)))
  | inr (cell, found) ↦ rw (enter_cell, found) g
]

try_init-keeps :
    (p : TcpConnectionPool) (net : TcpStream) (k key : ConnKey) (ip : Ipv4Addr) (port : PortSpec)
    (state : TcpConnectionState)
    → get p.connections key ≡ some (some state)
    → get (try_init p net k ip port).1.connections key ≡ some (some state)
unfolding try_init
try_init-keeps p net k key ip port state g = elim (Option-cases (get p.connections k)) [
  | inl absent ↦ rw (try_init, absent) g
  | inr (some s, found) ↦ rw (try_init, found) g
  | inr (none, found) ↦ elim (Option-cases (tcp_connect net ip port k.0)) [
    | inl failed ↦ rw (ap (λ x. x.1) (try_init-failed p net k ip port found failed)) g
    | inr (addr, came) ↦
        rw (ap (λ x. x.1) (try_init-came p net k ip port found addr came))
          (get-written p.connections k key _ state g (λ there. cc (found, there)))
  ]
]

handle_cleanup-keeps :
    (p : TcpConnectionPool) (request : TcpCleanupRequest) (key : ConnKey)
    (state : TcpConnectionState)
    → get p.connections key ≡ some (some state)
    → (conn_key_beq request.key key ≡ false) ⊎ (request.connection_id ≢ state.connection_id)
    → get (handle_cleanup p request).connections key ≡ some (some state)
unfolding handle_cleanup
handle_cleanup-keeps p request key state g apart =
    elim (Option-cases (get p.connections request.key)) [
      | inl absent ↦ rw (handle_cleanup, absent) g
      | inr (cell, found) ↦ elim (Bool-cases (cell_holds request.connection_id cell)) [
        | inr stale ↦ rw (handle_cleanup, found, stale) g
        | inl own ↦
            rw (handle_cleanup, found, own, get-remove p.connections request.key key)
              (elim (Bool-cases (conn_key_beq request.key key)) [
                | inr miss ↦ rw miss g
                | inl hit ↦
                    let there : get p.connections key ≡ some cell =
                      rw (conn_key_eq_of_beq request.key key hit) at found in
                    let same : cell ≡ some state = ap (or_default cell) (sym there ∙ g) in
                    let holds = rw same at own in
                    elim apart [
                      | inl miss ↦ absurd (cc (miss, hit))
                      | inr another ↦ absurd (another (ground (arith, holds)))
                    ]
              ])
      ]
    ]

Step-keeps :
    (p q : TcpConnectionPool) (key : ConnKey) (state : TcpConnectionState) (st : Step p q)
    → Steps new p
    → Spares key state.connection_id p q st
    → get p.connections key ≡ some (some state)
    → get q.connections key ≡ some (some state)
Step-keeps p q key state (entered k e) s spares g = rw e (enter_cell-keeps p k key state g)
Step-keeps p q key state (connected net k ip port small e) s spares g =
    rw e (try_init-keeps p net k key ip port state g)
Step-keeps p q key state (cleaned request e) s spares g =
    rw e (handle_cleanup-keeps p request key state g spares)
Step-keeps p q key state (closed endpoints e) s spares g =
    rw (e, get-close_endpoints p endpoints key s, g, spares) refl

Sparing-keeps :
    (p : TcpConnectionPool) (key : ConnKey) (state : TcpConnectionState) (q : TcpConnectionPool)
    → Steps new p
    → Sparing key state.connection_id p q
    → get p.connections key ≡ some (some state)
    → get q.connections key ≡ some (some state)
Sparing-keeps p key state q s stay g = g
Sparing-keeps p key state q s (step {q = r} sparing st spares) g =
    Step-keeps r q key state st (Sparing-Steps key state.connection_id p r s sparing) spares
      (Sparing-keeps p key state r s sparing g)

get-behind :
    (m : Map ConnKey Cell) (k key : ConnKey) (cell : Cell) (state : TcpConnectionState)
    → get m k ≡ none
    → get m key ≡ some (some state)
    → get ((k, cell) ∷ m) key ≡ some (some state)
get-behind m k key cell state fresh there = elim (Bool-cases (conn_key_beq k key)) [
  | inl hit ↦ absurd (cc (rw (conn_key_eq_of_beq k key hit) at fresh, there))
  | inr miss ↦ rw miss there
]

-- What `established` finds stands at a slot of the peer.
established-slot :
    (m : Map ConnKey Cell) (target : SocketAddrV4) (state : TcpConnectionState)
    → Distinct m
    → established m target ≡ some state
    → (i : ℕ) × (get m (target, i) ≡ some (some state))
unfolding established
established-slot [] target state d e = cc
established-slot ((k, none) ∷ m) target state (fresh, d) e =
    let (i, there) = established-slot m target state d e in
    (i, get-behind m k (target, i) none state fresh there)
established-slot ((k, some t) ∷ m) target state (fresh, d) e =
    elim (Bool-cases (addr_beq k.0 target)) [
      | inl same ↦
          let found : t ≡ state = ap (or_default t) (rw same at e) in
          (k.1, rw (same, found, nat_beq_refl k.1) refl)
      | inr other ↦
          let (i, there) = established-slot m target state d (rw other at e) in
          (i, get-behind m k (target, i) (some t) state fresh there)
    ]

-- While the pool has a connection to a peer, in whichever of the peer's slots, a `send` to the peer makes
-- no other and leaves the pool as it is: after any history of a new pool that ends with that connection
-- in its slot, and whatever happens to the pool then, but for the cleanup request of this connection and
-- the closing of its peer. The connection is still in its slot, and the data goes to a connection that
-- is in one of the peer's slots.
pub send-once :
    (p q : TcpConnectionPool) (net : TcpStream) (gone : ℕ → Bool) (target : SocketAddrV4) (i : ℕ)
    (state : TcpConnectionState)
    → Steps new p
    → get p.connections (target, i) ≡ some (some state)
    → Sparing (target, i) state.connection_id p q
    → (get q.connections (target, i) ≡ some (some state))
      × ((j : ℕ) × (used : TcpConnectionState) × (get q.connections (target, j) ≡ some (some used))
          × (send q net gone target ≡ (send_on gone used, q)))
send-once p q net gone target i state s there sparing =
    let kept = Sparing-keeps p (target, i) state q s sparing there in
    elim (Option-cases (established q.connections target)) [
      | inl absent ↦ absurd (established-get q.connections target i state absent kept)
      | inr (used, found) ↦
          let (j, at) =
            established-slot q.connections target used
              (Steps-Distinct q (Sparing-Steps (target, i) state.connection_id p q s sparing))
              found in
          (kept, (j, used, at, send-reuses q net gone target used found))
    ]
