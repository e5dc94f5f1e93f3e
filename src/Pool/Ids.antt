-- ===== src/Pool/Ids.antt =====
-- src/tcp.rs: the ids of the pool's connections over any history of the pool.
use recentip.Prelude.{
  ℕ, ◌+◌, ◌%◌, ◌≤◌, ◌<◌, ◌^◌, ◌≡◌, refl, ap, inl, inr, Bool-cases, Option-cases, ◌⊎◌, Bool, true,
  false, if◌then◌else◌, List, [], ◌∷◌, Option, none, some, arith,
}
use recentip.Prelude.Maps.{Map, get, insert, remove, or_default}
use recentip.Wire.SdOption.{Ipv4Addr, SocketAddrV4}
use recentip.Config.{PortSpec}
use recentip.Pool.{
  ConnKey, ConnKey-Eq, conn_key_beq, Cell, TcpConnectionPool, TcpCleanupRequest, TcpStream, new,
  do_connect, enter_cell, try_init, handle_cleanup, close_keys, close_endpoints, cell_holds,
  tcp_connect, keys_to_close,
}

-- The number of cells that hold a connection.
unfoldable pub holders : ℕ → Map ConnKey Cell → ℕ
holders c [] = 0
holders c ((key, cell) ∷ m) = (if cell_holds c cell then 1 else 0) + holders c m

-- One step of the pool: a caller asks for a cell, a connection attempt comes to its end while the counter
-- has not come round, a connection's task has ended, or endpoints are closed.
pub data Step (p q : TcpConnectionPool) : Type 0 where
  entered : (key : ConnKey) → q ≡ enter_cell p key → Step p q
  connected :
      (net : TcpStream) (key : ConnKey) (ip : Ipv4Addr) (port : PortSpec)
      → p.next_connection_id + 1 < 2 ^ 64
      → q ≡ (try_init p net key ip port).1
      → Step p q
  cleaned : (request : TcpCleanupRequest) → q ≡ handle_cleanup p request → Step p q
  closed : (endpoints : List SocketAddrV4) → q ≡ close_endpoints p endpoints → Step p q

pub data Steps (p : TcpConnectionPool) : TcpConnectionPool → Type 0 where
  here : Steps p p
  next : {q r : TcpConnectionPool} → Steps p q → Step q r → Steps p r

-- A cell that is not there or not initialised.
abbrev pub is_open : Option Cell → Bool
is_open none = true
is_open (some none) = true
is_open (some (some state)) = false

holders-insert :
    (c : ℕ) (m : Map ConnKey Cell) (key : ConnKey) (cell : Cell)
    → is_open (get m key) ≡ true
    → holders c (insert m key cell) ≡ holders c m + (if cell_holds c cell then 1 else 0)
unfolding holders
holders-insert c [] key cell h = omega arith
holders-insert c ((k, none) ∷ m) key cell h = elim (Bool-cases (conn_key_beq k key)) [
  | inl hit ↦ rw hit (omega arith)
  | inr miss ↦ rw (miss, holders-insert c m key cell (rw miss at h)) (omega arith)
]
holders-insert c ((k, some s) ∷ m) key cell h = elim (Bool-cases (conn_key_beq k key)) [
  | inl hit ↦ ground (arith, hit)
  | inr miss ↦ rw (miss, holders-insert c m key cell (rw miss at h)) (omega arith)
]

holders-remove :
    (c : ℕ) (m : Map ConnKey Cell) (key : ConnKey) → holders c (remove m key) ≤ holders c m
unfolding holders
holders-remove c [] key = omega arith
holders-remove c ((k, cell) ∷ m) key = elim (Bool-cases (conn_key_beq k key)) [
  | inl hit ↦ rw hit (omega (arith, holders-remove c m key))
  | inr miss ↦ rw miss (omega (arith, holders-remove c m key))
]

pub holders-remove-held :
    (c : ℕ) (m : Map ConnKey Cell) (key : ConnKey) (cell : Cell)
    → get m key ≡ some cell
    → cell_holds c cell ≡ true
    → holders c (remove m key) < holders c m
unfolding holders
holders-remove-held c [] key cell g h = ground arith
holders-remove-held c ((k, w) ∷ m) key cell g h = elim (Bool-cases (conn_key_beq k key)) [
  | inl hit ↦
      rw (hit, ap (or_default cell) (rw hit at g), h) (omega (arith, holders-remove c m key))
  | inr miss ↦ rw miss (omega (arith, holders-remove-held c m key cell (rw miss at g) h))
]

-- What a step may do to the number of holders of a connection: one more only for the id that the counter
-- gives out, which goes past it.
abbrev pub Grows : ℕ → TcpConnectionPool → TcpConnectionPool → Type 0
Grows c p q =
    (holders c q.connections ≤ holders c p.connections)
    ⊎ ((c ≡ p.next_connection_id)
        × (holders c q.connections ≤ holders c p.connections + 1)
        × (p.next_connection_id < q.next_connection_id))

abbrev pub Moves : TcpConnectionPool → TcpConnectionPool → Type 0
Moves p q = (p.next_connection_id ≤ q.next_connection_id) × ((c : ℕ) → Grows c p q)

Moves-removed :
    (p : TcpConnectionPool) (key : ConnKey) (aborted : List ℕ)
    → Moves p (record p { connections = remove p.connections key; aborted = aborted })
Moves-removed p key aborted = (omega arith, λ c. inl (holders-remove c p.connections key))

Moves-enter_cell : (p : TcpConnectionPool) (key : ConnKey) → Moves p (enter_cell p key)
unfolding enter_cell
Moves-enter_cell p key = elim (Option-cases (get p.connections key)) [
  | inl absent ↦
      rw (enter_cell, absent)
        (
          omega arith,
          λ c. inl (omega (arith, holders-insert c p.connections key none (ap is_open absent))),
        )
  | inr (cell, found) ↦ rw (enter_cell, found) (omega arith, λ c. inl (omega arith))
]

pub do_connect-failed :
    (p : TcpConnectionPool) (net : TcpStream) (target : SocketAddrV4) (ip : Ipv4Addr)
    (port : PortSpec)
    → tcp_connect net ip port target ≡ none
    → do_connect p net target ip port ≡ (none, p)
unfolding do_connect
do_connect-failed p net target ip port h = rw (do_connect, h) refl

pub do_connect-came :
    (p : TcpConnectionPool) (net : TcpStream) (target : SocketAddrV4) (ip : Ipv4Addr)
    (port : PortSpec) (addr : SocketAddrV4)
    → tcp_connect net ip port target ≡ some addr
    → do_connect p net target ip port ≡ (
      some (record { local_addr = addr; connection_id = p.next_connection_id }),
      record p { next_connection_id = (p.next_connection_id + 1) % 2 ^ 64 },
    )
unfolding do_connect
do_connect-came p net target ip port addr h = rw (do_connect, h) refl

Moves-try_init :
    (p : TcpConnectionPool) (net : TcpStream) (key : ConnKey) (ip : Ipv4Addr) (port : PortSpec)
    → p.next_connection_id + 1 < 2 ^ 64
    → Moves p (try_init p net key ip port).1
unfolding try_init
Moves-try_init p net key ip port h = elim (Option-cases (get p.connections key)) [
  | inl absent ↦ rw (try_init, do_connect, absent) (omega arith, λ c. inl (omega arith))
  | inr (some s, found) ↦ rw (try_init, do_connect, found) (omega arith, λ c. inl (omega arith))
  | inr (none, found) ↦ elim (Option-cases (tcp_connect net ip port key.0)) [
    | inl failed ↦
        let e = do_connect-failed p net key.0 ip port failed in
        rw (try_init, found, ap (λ x. x.0) e, ap (λ x. x.1) e) (omega arith, λ c. inl (omega arith))
    | inr (addr, came) ↦
        let e = do_connect-came p net key.0 ip port addr came in
        rw (try_init, found, ap (λ x. x.0) e, ap (λ x. x.1) e)
          (
            omega arith,
            λ c. ground (
              arith,
              holders-insert c p.connections key
                  (some (record { local_addr = addr; connection_id = p.next_connection_id }))
                  (ap is_open found),
            ),
          )
  ]
]

Moves-handle_cleanup :
    (p : TcpConnectionPool) (request : TcpCleanupRequest) → Moves p (handle_cleanup p request)
unfolding handle_cleanup
Moves-handle_cleanup p request = elim (Option-cases (get p.connections request.key)) [
  | inl absent ↦ rw (handle_cleanup, absent) (omega arith, λ c. inl (omega arith))
  | inr (cell, found) ↦ elim (Bool-cases (cell_holds request.connection_id cell)) [
    | inl own ↦ rw (handle_cleanup, found, own) (Moves-removed p request.key p.aborted)
    | inr stale ↦ rw (handle_cleanup, found, stale) (omega arith, λ c. inl (omega arith))
  ]
]

Moves-removed-then :
    (p q : TcpConnectionPool) (key : ConnKey) (aborted : List ℕ)
    → Moves (record p { connections = remove p.connections key; aborted = aborted }) q
    → Moves p q
Moves-removed-then p q key aborted (up, grows) = (
  up,
  λ c. elim (grows c) [
    | inl fewer ↦ inl (omega (arith, holders-remove c p.connections key))
    | inr (at, one, past) ↦ inr (at, omega (arith, holders-remove c p.connections key), past)
  ],
)

Moves-close_keys : (keys : List ConnKey) (p : TcpConnectionPool) → Moves p (close_keys keys p)
unfolding close_keys
Moves-close_keys [] p = (omega arith, λ c. inl (omega arith))
Moves-close_keys (key ∷ keys) p = elim (Option-cases (get p.connections key)) [
  | inl absent ↦ rw (close_keys, absent) (Moves-close_keys keys p)
  | inr (none, found) ↦
      let p' = record p { connections = remove p.connections key } in
      rw (close_keys, found)
        (Moves-removed-then p (close_keys keys p') key p.aborted (Moves-close_keys keys p'))
  | inr (some s, found) ↦
      let aborted = s.connection_id ∷ p.aborted in
      let p' = record p { connections = remove p.connections key; aborted = aborted } in
      rw (close_keys, found)
        (Moves-removed-then p (close_keys keys p') key aborted (Moves-close_keys keys p'))
]

pub Step-Moves : (p q : TcpConnectionPool) → Step p q → Moves p q
unfolding close_endpoints
Step-Moves p q (entered key e) = rw e (Moves-enter_cell p key)
Step-Moves p q (connected net key ip port h e) = rw e (Moves-try_init p net key ip port h)
Step-Moves p q (cleaned request e) = rw e (Moves-handle_cleanup p request)
Step-Moves p q (closed endpoints e) =
    rw e (Moves-close_keys (keys_to_close p.connections endpoints) p)

-- Each connection is in one place at most, and no id has been given out that the counter has not passed.
abbrev pub IsUnique : TcpConnectionPool → Type 0
IsUnique p =
    (c : ℕ)
    → (holders c p.connections ≤ 1) × (p.next_connection_id ≤ c → holders c p.connections ≡ 0)

Moves-IsUnique : (p q : TcpConnectionPool) → Moves p q → IsUnique p → IsUnique q
Moves-IsUnique p q m u c = elim (m.1 c) [
  | inl less ↦ grind (arith, m.0, u c, less)
  | inr more ↦ grind (arith, m.0, u c, more)
]

-- After any history of a new pool, every connection id is held by at most one slot, and by none if the
-- counter has not passed it.
pub Steps-IsUnique : (p : TcpConnectionPool) → Steps new p → IsUnique p
unfolding holders
Steps-IsUnique p here = λ c. (omega arith, λ h. refl)
Steps-IsUnique p (next {q = q} s st) = Moves-IsUnique q p (Step-Moves q p st) (Steps-IsUnique q s)
