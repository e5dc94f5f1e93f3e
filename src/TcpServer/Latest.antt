-- ===== src/TcpServer/Latest.antt =====
-- src/tcp.rs: the responses of a TCP server go to the latest connection of their peer.
use recentip.Prelude.{
  ℕ, ◌+◌, ◌==◌, ◌%◌, ◌^◌, ◌≡◌, ◌≢◌, ◌⊎◌, refl, ap, sym, ◌∙◌, inl, inr, Bool-cases, Option-cases,
  Bool, true, false, ◌≤◌, ◌<◌, List, [], ◌∷◌, ◌++◌, some, arith,
}
use recentip.Prelude.Maps.{Map, get, insert, remove, get-insert, get-remove, or_default, has_key}
use recentip.Wire.SdOption.{Ipv4Addr, SocketAddrV4}
use recentip.Config.{contains}
use recentip.State.Keys.{addr_beq, addr_beq_refl, addr_eq_of_beq, SocketAddrV4-Eq}
use recentip.TcpServer.{
  TcpServer, new, accept_connection, is_closing, closing_addrs, close_addrs, close_peer, route,
  cleanup, task_ended, abort,
}

-- Neither a new connection nor the loss of the counter: the other operations of the server.
pub data Other (s t : TcpServer) : Type 0 where
  closed : (ip : Ipv4Addr) (ports : List ℕ) → t ≡ close_peer s ip ports → Other s t
  routed :
      (gone : ℕ → Bool) (to : SocketAddrV4) (bytes : List ℕ) → t ≡ route s gone to bytes → Other s t
  cleaned : (addr : SocketAddrV4) (conn_id : ℕ) → t ≡ cleanup s addr conn_id → Other s t
  ended : (addr : SocketAddrV4) → t ≡ task_ended s addr → Other s t

-- The servers that come about from a new one, with the ids under which connections have been accepted,
-- fewer than 2^64 of them.
pub data Reached : List ℕ → TcpServer → Type 0 where
  begun : Reached [] new
  accepted :
      {issued : List ℕ} {s : TcpServer} (peer : SocketAddrV4) (id : ℕ)
      → Reached issued s
      → s.next_conn_id + 1 < 2 ^ 64
      → get (accept_connection s peer).client_senders peer ≡ some id
      → Reached (id ∷ issued) (accept_connection s peer)
  followed : {issued : List ℕ} {s t : TcpServer} → Reached issued s → Other s t → Reached issued t

-- One step of the server that is neither a new connection of the peer, nor a request to close its
-- connections, nor a cleanup request of the peer with an id that has not been issued before: the earlier
-- connections of the peer may end.
pub data Step (peer : SocketAddrV4) (issued : List ℕ) (s t : TcpServer) : Type 0 where
  accepted :
      (other : SocketAddrV4)
      → addr_beq other peer ≡ false
      → t ≡ accept_connection s other
      → Step peer issued s t
  closed :
      (ip : Ipv4Addr) (ports : List ℕ)
      → is_closing ip ports peer ≡ false
      → t ≡ close_peer s ip ports
      → Step peer issued s t
  routed :
      (gone : ℕ → Bool) (to : SocketAddrV4) (bytes : List ℕ)
      → t ≡ route s gone to bytes
      → Step peer issued s t
  cleaned :
      (addr : SocketAddrV4) (conn_id : ℕ)
      → (addr_beq addr peer ≡ false) ⊎ (contains issued conn_id ≡ true)
      → t ≡ cleanup s addr conn_id
      → Step peer issued s t
  ended : (addr : SocketAddrV4) → t ≡ task_ended s addr → Step peer issued s t

pub data Steps (peer : SocketAddrV4) (issued : List ℕ) (s : TcpServer) : TcpServer → Type 0 where
  here : Steps peer issued s s
  next : {t u : TcpServer} → Steps peer issued s t → Step peer issued t u → Steps peer issued s u

get-close_addrs :
    (addrs : List SocketAddrV4) (s : TcpServer) (peer : SocketAddrV4)
    → has_key peer addrs ≡ false
    → get (close_addrs addrs s).client_senders peer ≡ get s.client_senders peer
unfolding close_addrs
get-close_addrs [] s peer h = refl
get-close_addrs (a ∷ addrs) s peer h =
    let miss : addr_beq a peer ≡ false = ground arith in
    get-close_addrs addrs
      (record s {
        client_senders = remove s.client_senders a;
        client_tasks = remove s.client_tasks a;
        aborted = abort (get s.client_tasks a) s.aborted;
      })
      peer (ground arith)
    ∙ rw (get-remove s.client_senders a peer, miss) refl

closing-absent :
    (senders : Map SocketAddrV4 ℕ) (ip : Ipv4Addr) (ports : List ℕ) (peer : SocketAddrV4)
    → is_closing ip ports peer ≡ false
    → has_key peer (closing_addrs senders ip ports) ≡ false
unfolding closing_addrs
closing-absent [] ip ports peer h = refl
closing-absent ((a, id) ∷ senders) ip ports peer h =
    let rest = closing-absent senders ip ports peer h in
    elim (Bool-cases (is_closing ip ports a)) [
      | inr stays ↦ rw stays rest
      | inl closes ↦ elim (Bool-cases (addr_beq a peer)) [
        | inr other ↦ rw (closes, other) rest
        | inl same ↦ absurd (cc (h, rw (addr_eq_of_beq a peer same) at closes))
      ]
    ]

Step-keeps :
    (peer : SocketAddrV4) (issued : List ℕ) (id : ℕ) (s t : TcpServer)
    → ((c : ℕ) → contains issued c ≡ true → c ≢ id)
    → Step peer issued s t
    → get s.client_senders peer ≡ some id
    → get t.client_senders peer ≡ some id
unfolding accept_connection close_peer route cleanup task_ended
Step-keeps peer issued id s t fresh (accepted other apart e) g =
    rw (e, get-insert s.client_senders other peer ((s.next_conn_id + 1) % 2 ^ 64), apart) g
Step-keeps peer issued id s t fresh (closed ip ports apart e) g = rw e (
    get-close_addrs (closing_addrs s.client_senders ip ports) s peer
      (closing-absent s.client_senders ip ports peer apart)
    ∙ g)
Step-keeps peer issued id s t fresh (routed gone to bytes e) g =
    elim (Option-cases (get s.client_senders to)) [
      | inl absent ↦ rw (e, route, absent) g
      | inr (c, found) ↦ elim (Bool-cases (gone c)) [
        | inl broken ↦ rw (e, route, found, broken) g
        | inr fine ↦ rw (e, route, found, fine) g
      ]
    ]
Step-keeps peer issued id s t fresh (cleaned addr conn_id apart e) g =
    elim (Option-cases (get s.client_senders addr)) [
      | inl absent ↦ rw (e, cleanup, absent) g
      | inr (c, found) ↦ elim (Bool-cases (c == conn_id)) [
        | inr stale ↦ rw (e, cleanup, found, stale) g
        | inl own ↦
            rw (e, cleanup, found, own, get-remove s.client_senders addr peer)
              (elim (Bool-cases (addr_beq addr peer)) [
                | inr other ↦ rw other g
                | inl same ↦
                    let at : get s.client_senders peer ≡ some c =
                      rw (addr_eq_of_beq addr peer same) at found in
                    let is_id : c ≡ id = ap (or_default c) (sym at ∙ g) in
                    elim apart [
                      | inl other ↦ absurd (cc (other, same))
                      | inr another ↦ absurd (fresh conn_id another (ground arith))
                    ]
              ])
      ]
    ]
Step-keeps peer issued id s t fresh (ended addr e) g = rw e g

Steps-keeps :
    (peer : SocketAddrV4) (issued : List ℕ) (id : ℕ) (s t : TcpServer)
    → ((c : ℕ) → contains issued c ≡ true → c ≢ id)
    → Steps peer issued s t
    → get s.client_senders peer ≡ some id
    → get t.client_senders peer ≡ some id
Steps-keeps peer issued id s t fresh here g = g
Steps-keeps peer issued id s t fresh (next {t = r} steps step) g =
    Step-keeps peer issued id r t fresh step (Steps-keeps peer issued id s r fresh steps g)

close_addrs-counter :
    (addrs : List SocketAddrV4) (s : TcpServer)
    → (close_addrs addrs s).next_conn_id ≡ s.next_conn_id
unfolding close_addrs
close_addrs-counter [] s = refl
close_addrs-counter (a ∷ addrs) s = close_addrs-counter addrs (record s {
  client_senders = remove s.client_senders a;
  client_tasks = remove s.client_tasks a;
  aborted = abort (get s.client_tasks a) s.aborted;
})

Other-counter : (s t : TcpServer) → Other s t → t.next_conn_id ≡ s.next_conn_id
unfolding close_peer route cleanup task_ended
Other-counter s t (closed ip ports e) =
    rw e (close_addrs-counter (closing_addrs s.client_senders ip ports) s)
Other-counter s t (routed gone to bytes e) = elim (Option-cases (get s.client_senders to)) [
  | inl absent ↦ rw (e, route, absent) refl
  | inr (c, found) ↦ elim (Bool-cases (gone c)) [
    | inl broken ↦ rw (e, route, found, broken) refl
    | inr fine ↦ rw (e, route, found, fine) refl
  ]
]
Other-counter s t (cleaned addr conn_id e) = elim (Option-cases (get s.client_senders addr)) [
  | inl absent ↦ rw (e, cleanup, absent) refl
  | inr (c, found) ↦ elim (Bool-cases (c == conn_id)) [
    | inr stale ↦ rw (e, cleanup, found, stale) refl
    | inl own ↦ rw (e, cleanup, found, own) refl
  ]
]
Other-counter s t (ended addr e) = rw e refl

-- A new connection is known under the next number, and the counter is left at it.
accept_connection-id :
    (s : TcpServer) (peer : SocketAddrV4) (id : ℕ)
    → s.next_conn_id + 1 < 2 ^ 64
    → get (accept_connection s peer).client_senders peer ≡ some id
    → (id ≡ s.next_conn_id + 1) × ((accept_connection s peer).next_conn_id ≡ id)
unfolding accept_connection
accept_connection-id s peer id small there =
    let number = (s.next_conn_id + 1) % 2 ^ 64 in
    let at : get (insert s.client_senders peer number) peer ≡ some number =
      rw (get-insert s.client_senders peer peer number, addr_beq_refl peer) refl in
    let same : number ≡ id = ap (or_default number) (sym at ∙ there) in
    let plain : number ≡ s.next_conn_id + 1 = omega arith in (sym same ∙ plain, same)

-- The counter is never below an id that has been issued.
issued-bound :
    {issued : List ℕ} (s : TcpServer) (c : ℕ)
    → Reached issued s
    → contains issued c ≡ true
    → c ≤ s.next_conn_id
issued-bound s c begun h = cc
issued-bound s c (accepted {s = before} peer id reached small there) h =
    let (is_next, left) = accept_connection-id before peer id small there in
    elim (Bool-cases (id == c)) [
      | inl same ↦ rw left (ground arith)
      | inr earlier ↦
          let old : c ≤ before.next_conn_id = issued-bound before c reached (rw earlier at h) in
          rw (left, is_next) (omega (arith, old))
    ]
issued-bound s c (followed {s = before} reached step) h =
    rw (Other-counter before s step) (issued-bound before c reached h)

-- After a connection of a peer has been accepted, a response to the peer goes to that connection, as long
-- as its task runs: on a server that has accepted fewer than 2^64 connections since it was new, and
-- whatever it does meanwhile, the late ends and cleanup requests of earlier connections of the same peer
-- included, but for a newer connection of the peer, a request to close the peer's connections, and a
-- cleanup request of the peer with an id that was not issued before the connection.
pub route-latest :
    (issued : List ℕ) (s t : TcpServer) (peer : SocketAddrV4) (id : ℕ) (gone : ℕ → Bool)
    (bytes : List ℕ)
    → Reached issued s
    → s.next_conn_id + 1 < 2 ^ 64
    → get (accept_connection s peer).client_senders peer ≡ some id
    → Steps peer issued (accept_connection s peer) t
    → gone id ≡ false
    → (route t gone peer bytes).sent ≡ t.sent ++ (id, bytes) ∷ []
unfolding route
route-latest issued s t peer id gone bytes reached small there steps runs =
    let is_next = (accept_connection-id s peer id small there).0 in
    let fresh : (c : ℕ) → contains issued c ≡ true → c ≢ id =
      λ c h same. let old = issued-bound s c reached h in omega (arith, old, same, is_next) in
    rw (route, Steps-keeps peer issued id (accept_connection s peer) t fresh steps there, runs) refl
