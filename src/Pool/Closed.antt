-- ===== src/Pool/Closed.antt =====
-- src/tcp.rs: what `close_endpoints` takes out of the pool.
use recentip.Prelude.{
  ℕ, ◌==◌, ◌≡◌, refl, sym, ◌==◌, inl, inr, Bool-cases, Option-cases, Bool, true, false,
  if◌then◌else◌, List, [], ◌∷◌, Option, none, some, arith,
}
use recentip.Prelude.Maps.{Map, get, remove, nat_beq_refl, get-remove, has_key, any_of, Distinct}
use recentip.Wire.SdOption.{SocketAddrV4}
use recentip.Pool.Distinct.{Steps-Distinct}
use recentip.State.Keys.{addr_beq}
use recentip.Pool.{
  ConnKey, ConnKey-Eq, conn_key_beq, conn_key_eq_of_beq, conn_key_beq_refl, Cell,
  TcpConnectionState, TcpConnectionPool, new, close_keys, close_endpoints, keys_to_close,
}
use recentip.Pool.Ids.{Steps}

get-close_keys :
    (keys : List ConnKey) (p : TcpConnectionPool) (key : ConnKey)
    → get (close_keys keys p).connections key
      ≡ (if has_key key keys then none else get p.connections key)
unfolding close_keys
get-close_keys [] p key = refl
get-close_keys (k ∷ keys) p key = elim (Option-cases (get p.connections k)) [
  | inl absent ↦
      rw (close_keys, absent, get-close_keys keys p key)
        (elim (Bool-cases (conn_key_beq k key)) [
          | inl hit ↦
              let gone : get p.connections key ≡ none =
                rw (conn_key_eq_of_beq k key hit) at absent in
              rw (hit, gone) (ground arith)
          | inr miss ↦ rw miss refl
        ])
  | inr (none, found) ↦
      let p' = record p { connections = remove p.connections k } in
      rw (close_keys, found, get-close_keys keys p' key, get-remove p.connections k key)
        (ground arith)
  | inr (some s, found) ↦
      let aborted = s.connection_id ∷ p.aborted in
      let p' = record p { connections = remove p.connections k; aborted = aborted } in
      rw (close_keys, found, get-close_keys keys p' key, get-remove p.connections k key)
        (ground arith)
]

-- Whether `close_endpoints` takes out what a key has.
abbrev pub is_closed : Option Cell → SocketAddrV4 → List SocketAddrV4 → Bool
is_closed none target endpoints = false
is_closed (some none) target endpoints = false
is_closed (some (some state)) target endpoints = any_of (addr_beq target) endpoints

has_key-hit :
    (m : Map ConnKey Cell) (endpoints : List SocketAddrV4) (k key : ConnKey) (cell : Cell)
    → k ≡ key
    → has_key key (keys_to_close m endpoints) ≡ false
    → has_key key (keys_to_close ((k, cell) ∷ m) endpoints) ≡ is_closed (some cell) key.0 endpoints
unfolding keys_to_close
has_key-hit m endpoints k key none same none_left = none_left
has_key-hit m endpoints k key (some s) same none_left =
    elim (Bool-cases (any_of (addr_beq key.0) endpoints)) [
      | inl listed ↦ rw (same, listed, conn_key_beq_refl key) refl
      | inr other ↦ rw (same, other) none_left
    ]

has_key-miss :
    (m : Map ConnKey Cell) (endpoints : List SocketAddrV4) (k key : ConnKey) (cell : Cell)
    {b : Bool}
    → conn_key_beq k key ≡ false
    → has_key key (keys_to_close m endpoints) ≡ b
    → has_key key (keys_to_close ((k, cell) ∷ m) endpoints) ≡ b
unfolding keys_to_close
has_key-miss m endpoints k key none miss rest = rest
has_key-miss m endpoints k key (some s) miss rest =
    elim (Bool-cases (any_of (addr_beq k.0) endpoints)) [
      | inl listed ↦ rw (listed, miss) rest
      | inr other ↦ rw other rest
    ]

has_key-keys_to_close :
    (m : Map ConnKey Cell) (endpoints : List SocketAddrV4) (key : ConnKey)
    → Distinct m
    → has_key key (keys_to_close m endpoints) ≡ is_closed (get m key) key.0 endpoints
unfolding keys_to_close
has_key-keys_to_close [] endpoints key d = refl
has_key-keys_to_close ((k, cell) ∷ m) endpoints key (fresh, d) =
    let rest = has_key-keys_to_close m endpoints key d in
    elim (Bool-cases (conn_key_beq k key)) [
      | inl hit ↦
          let same = conn_key_eq_of_beq k key hit in
          let gone : get m key ≡ none = rw same at fresh in
          rw hit (has_key-hit m endpoints k key cell same (rw gone at rest))
      | inr miss ↦ rw miss (has_key-miss m endpoints k key cell miss rest)
    ]

-- After any history of a new pool, `close_endpoints` takes out exactly the established connections whose
-- peer is among the endpoints: the slot of such a key is gone, and every other slot, those where a
-- connection is still being made included, is as before.
pub get-close_endpoints :
    (p : TcpConnectionPool) (endpoints : List SocketAddrV4) (key : ConnKey)
    → Steps new p
    → get (close_endpoints p endpoints).connections key
      ≡ (if is_closed (get p.connections key) key.0 endpoints then none else get p.connections key)
unfolding close_endpoints
get-close_endpoints p endpoints key s =
    rw (sym (has_key-keys_to_close p.connections endpoints key (Steps-Distinct p s)))
      (get-close_keys (keys_to_close p.connections endpoints) p key)

aborted_stays :
    (keys : List ConnKey) (p : TcpConnectionPool) (c : ℕ)
    → any_of (λ x. x == c) p.aborted ≡ true
    → any_of (λ x. x == c) (close_keys keys p).aborted ≡ true
unfolding close_keys
aborted_stays [] p c h = h
aborted_stays (k ∷ keys) p c h = elim (Option-cases (get p.connections k)) [
  | inl absent ↦ rw (close_keys, absent) (aborted_stays keys p c h)
  | inr (none, found) ↦
      rw (close_keys, found)
        (aborted_stays keys (record p { connections = remove p.connections k }) c h)
  | inr (some s, found) ↦
      let aborted = s.connection_id ∷ p.aborted in
      let p' = record p { connections = remove p.connections k; aborted = aborted } in
      rw (close_keys, found) (aborted_stays keys p' c (ground (arith, h)))
]

close_keys-aborts :
    (keys : List ConnKey) (p : TcpConnectionPool) (key : ConnKey) (state : TcpConnectionState)
    → has_key key keys ≡ true
    → get p.connections key ≡ some (some state)
    → any_of (λ x. x == state.connection_id) (close_keys keys p).aborted ≡ true
unfolding close_keys
close_keys-aborts [] p key state h g = cc
close_keys-aborts (k ∷ keys) p key state h g = elim (Bool-cases (conn_key_beq k key)) [
  | inl hit ↦
      let found : get p.connections k ≡ some (some state) = rw (conn_key_eq_of_beq k key hit) g in
      let aborted = state.connection_id ∷ p.aborted in
      let p' = record p { connections = remove p.connections k; aborted = aborted } in
      rw (close_keys, found)
        (aborted_stays keys p' state.connection_id (rw (nat_beq_refl state.connection_id) refl))
  | inr miss ↦
      let rest : has_key key keys ≡ true = rw miss at h in
      elim (Option-cases (get p.connections k)) [
        | inl absent ↦ rw (close_keys, absent) (close_keys-aborts keys p key state rest g)
        | inr (none, found) ↦
            let p' = record p { connections = remove p.connections k } in
            rw (close_keys, found)
              (close_keys-aborts keys p' key state rest
                (rw (get-remove p.connections k key, miss) g))
        | inr (some s, found) ↦
            let aborted = s.connection_id ∷ p.aborted in
            let p' = record p { connections = remove p.connections k; aborted = aborted } in
            rw (close_keys, found)
              (close_keys-aborts keys p' key state rest
                (rw (get-remove p.connections k key, miss) g))
      ]
]

-- After any history of a new pool, `close_endpoints` aborts the task of every established connection
-- whose peer is among the endpoints.
close_endpoints-aborts :
    (p : TcpConnectionPool) (endpoints : List SocketAddrV4) (key : ConnKey)
    (state : TcpConnectionState)
    → Steps new p
    → get p.connections key ≡ some (some state)
    → any_of (addr_beq key.0) endpoints ≡ true
    → any_of (λ x. x == state.connection_id) (close_endpoints p endpoints).aborted ≡ true
unfolding close_endpoints
close_endpoints-aborts p endpoints key state s g listed =
    close_keys-aborts (keys_to_close p.connections endpoints) p key state
      (rw (has_key-keys_to_close p.connections endpoints key (Steps-Distinct p s), g) listed) g
