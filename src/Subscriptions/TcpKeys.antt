-- ===== src/Subscriptions/TcpKeys.antt =====
-- src/runtime/client_concurrent.rs and src/runtime/event_loop.rs: the connection key that is reserved for
-- a TCP subscription while it connects.
use recentip.Prelude.{
  ℕ, ◌==◌, ◌≡◌, ◌≢◌, ◌⊎◌, refl, sym, subst, ◌∙◌, inl, inr, Bool-cases, Bool, true, false, List, [],
  ◌∷◌, ◌++◌, map, arith,
}
use recentip.Prelude.Maps.{insert, get-insert, nat_beq_refl}
use recentip.Config.{contains}
use recentip.Wire.SdOption.{SocketAddrV4}
use recentip.Client.{
  key_eq, ConnKeyState, allocate_tcp_conn_key, release_pending_tcp_conn_key,
  register_subscription_endpoint,
}
use recentip.Client.ConnKeys.{
  key_eq→eq, allocate_tcp_conn_key_least, allocate_tcp_conn_key-ne-pending, pending-release,
}
use recentip.Sd.{ServiceKey}
use recentip.State.Keys.{
  ServiceKey-Eq, service_key_beq, service_key_eq_of_beq, service_key_beq_refl,
}
use recentip.State.{RuntimeState, ClientSubscription, queue_unicast_sd}
use recentip.Subscriptions.{
  NewSubscription, client_subscription, record_subscription_state, next_subscription_id,
}
use recentip.Subscriptions.Udp.{subscriptions_of, service_of}
use recentip.Subscriptions.UdpRecorded.{List-cases, record-subscriptions}
use recentip.Subscriptions.Tcp.{
  PendingKeys, conn_keys, TcpRequest, TcpTask, start_subscribe_tcp, SubscribeStateUpdate, success,
  failed, release, tcp_subscription, apply_state, apply_update,
}

-- The reserved keys and the state of the event loop.
abbrev pub Loop : Type 0
Loop = PendingKeys × RuntimeState

abbrev pub is_committed : Loop → ServiceKey → ℕ → Bool
is_committed (pending, state) key k = contains ((conn_keys pending state).committed key) k

-- A key that is reserved for a service, and that none of its subscriptions has.
abbrev pub IsReserved : ServiceKey → ℕ → Loop → Type 0
IsReserved key k w = (contains (w.0 key) k ≡ true) × (is_committed w key k ≡ false)

abbrev pub task_of : SubscribeStateUpdate → TcpTask
task_of (success task endpoint) = task
task_of (failed task) = task

-- A step of the event loop on TCP subscriptions, other than the update of the task that holds the key.
pub data Step (key : ServiceKey) (k : ℕ) (w v : Loop) : Type 0 where
  started :
      (r : TcpRequest)
      → v ≡ ((start_subscribe_tcp r w.0 w.1).1, (start_subscribe_tcp r w.0 w.1).2)
      → Step key k w v
  updated :
      (now : ℕ) (update : SubscribeStateUpdate)
      → (service_key_beq (task_of update).request.key key ≡ false)
        ⊎ (((task_of update).conn_key == k) ≡ false)
      → v ≡ apply_update now update w.0 w.1
      → Step key k w v

pub data Steps (key : ServiceKey) (k : ℕ) (w : Loop) : Loop → Type 0 where
  here : Steps key k w w
  next : {v u : Loop} → Steps key k w v → Step key k v u → Steps key k w u

contains-added :
    (subs : List ClientSubscription) (new : NewSubscription) (egs : List ℕ) (k : ℕ)
    → (new.tcp_conn_key == k) ≡ false
    → contains (map (λ s. s.tcp_conn_key) (subs ++ map (client_subscription new) egs)) k
      ≡ contains (map (λ s. s.tcp_conn_key) subs) k
contains-added [] new [] k other = refl
contains-added [] new (eg ∷ egs) k other = ground (arith, contains-added [] new egs k other)
contains-added (s ∷ subs) new egs k other = ground (arith, contains-added subs new egs k other)

key_eq_refl : (a : ServiceKey) → key_eq a a ≡ true
key_eq_refl a = ground arith

apply_state-subscriptions :
    (now : ℕ) (task : TcpTask) (endpoint : SocketAddrV4) (state : RuntimeState)
    → (apply_state now task endpoint state).subscriptions
      ≡ insert state.subscriptions task.request.key (
          subscriptions_of state task.request.key
          ++ map (client_subscription (tcp_subscription task endpoint)) task.request.eventgroup_ids)
unfolding apply_state queue_unicast_sd
apply_state-subscriptions now task endpoint state =
    let r = task.request in
    let usage =
      register_subscription_endpoint state.subscription_endpoint_usage endpoint.port
        (service_of r.key) in
    let registered : RuntimeState = record state { subscription_endpoint_usage = usage } in
    let new = tcp_subscription task endpoint in
    let recorded = record-subscriptions registered r.key r.eventgroup_ids new in
    elim (List-cases (record_subscription_state registered r.key r.eventgroup_ids new).0) [
      | inl nothing ↦ rw (apply_state, nothing) recorded
      | inr (eg, rest, e) ↦ rw (apply_state, e) recorded
    ]

apply_state-other :
    (now : ℕ) (task : TcpTask) (endpoint : SocketAddrV4) (state : RuntimeState) (key : ServiceKey)
    (k : ℕ)
    → (service_key_beq task.request.key key ≡ false) ⊎ ((task.conn_key == k) ≡ false)
    → contains
        (map (λ s. s.tcp_conn_key) (subscriptions_of (apply_state now task endpoint state) key))
        k
      ≡ contains (map (λ s. s.tcp_conn_key) (subscriptions_of state key)) k
apply_state-other now task endpoint state key k apart =
    let r = task.request in
    let new = tcp_subscription task endpoint in
    let with_new = subscriptions_of state r.key ++ map (client_subscription new) r.eventgroup_ids in
    rw
      (
        apply_state-subscriptions now task endpoint state,
        get-insert state.subscriptions r.key key with_new,
      )
      (elim (Bool-cases (service_key_beq r.key key)) [
        | inr miss ↦ rw miss refl
        | inl hit ↦
            let other : (task.conn_key == k) ≡ false = elim apart [
              | inl elsewhere ↦ absurd (cc (elsewhere, hit))
              | inr other ↦ other
            ] in
            rw hit (
              contains-added (subscriptions_of state r.key) new r.eventgroup_ids k other
              ∙ rw (service_key_eq_of_beq r.key key hit) refl)
      ])

release-kept :
    (task : TcpTask) (pending : PendingKeys) (state : RuntimeState) (key : ServiceKey) (k : ℕ)
    → (service_key_beq task.request.key key ≡ false) ⊎ ((task.conn_key == k) ≡ false)
    → contains (pending key) k ≡ true
    → contains (release task pending state key) k ≡ true
unfolding release_pending_tcp_conn_key
release-kept task pending state key k apart held =
    let own = task.request.key in
    elim (Bool-cases (key_eq own key)) [
      | inr miss ↦ rw miss held
      | inl hit ↦
          let same = key_eq→eq own key hit in
          let other : (task.conn_key == k) ≡ false = elim apart [
            | inl elsewhere ↦ absurd (cc (rw (same, service_key_beq_refl key) at elsewhere))
            | inr other ↦ other
          ] in
          subst (λ x. contains (release task pending state x) k ≡ true) same
            (pending-release (conn_keys pending state) own task.conn_key k
              ∙ rw (other, same, held) refl)
    ]

started-IsReserved :
    (r : TcpRequest) (pending : PendingKeys) (state : RuntimeState) (key : ServiceKey) (k : ℕ)
    → IsReserved key k (pending, state)
    → IsReserved key k
        ((start_subscribe_tcp r pending state).1, (start_subscribe_tcp r pending state).2)
unfolding start_subscribe_tcp next_subscription_id
started-IsReserved r pending state key k (held, free) =
    let state' = (next_subscription_id state).1 in
    ((allocate_tcp_conn_key-ne-pending (conn_keys pending state') key k held).1 r.key, free)

updated-IsReserved :
    (now : ℕ) (update : SubscribeStateUpdate) (pending : PendingKeys) (state : RuntimeState)
    (key : ServiceKey) (k : ℕ)
    → (service_key_beq (task_of update).request.key key ≡ false)
      ⊎ (((task_of update).conn_key == k) ≡ false)
    → IsReserved key k (pending, state)
    → IsReserved key k (apply_update now update pending state)
unfolding apply_update
updated-IsReserved now (failed task) pending state key k apart (held, free) =
    (release-kept task pending state key k apart held, free)
updated-IsReserved now (success task endpoint) pending state key k apart (held, free) = (
  release-kept task pending state key k apart held,
  apply_state-other now task endpoint state key k apart ∙ free,
)

Step-IsReserved :
    (key : ServiceKey) (k : ℕ) (w v : Loop)
    → Step key k w v
    → IsReserved key k w
    → IsReserved key k v
Step-IsReserved key k (pending, state) v (started r e) h =
    subst (IsReserved key k) (sym e) (started-IsReserved r pending state key k h)
Step-IsReserved key k (pending, state) v (updated now update apart e) h =
    subst (IsReserved key k) (sym e) (updated-IsReserved now update pending state key k apart h)

Steps-IsReserved :
    (key : ServiceKey) (k : ℕ) (w v : Loop)
    → Steps key k w v
    → IsReserved key k w
    → IsReserved key k v
Steps-IsReserved key k w v here h = h
Steps-IsReserved key k w v (next {v = u} steps step) h =
    Step-IsReserved key k u v step (Steps-IsReserved key k w u steps h)

allocate-IsReserved :
    (s : ConnKeyState) (key : ServiceKey)
    → (contains ((allocate_tcp_conn_key s key).1.pending key) (allocate_tcp_conn_key s key).0
        ≡ true)
      × (contains (s.committed key) (allocate_tcp_conn_key s key).0 ≡ false)
allocate-IsReserved s key =
    let ((n, e, used, free), pending, committed) = allocate_tcp_conn_key_least s key in
    (
      rw (pending key, key_eq_refl key, nat_beq_refl (allocate_tcp_conn_key s key).0) refl,
      ground (arith, free),
    )

-- Subscriptions over TCP that connect at the same time never get one connection key: the key that the
-- event loop gives to a task stays reserved for it, and no subscription of the service has it, whatever
-- other subscriptions are started and whatever updates of other tasks are applied meanwhile; and the
-- key of a task that is started then for the same service is another.
pub conn_key-IsReserved :
    (r later : TcpRequest) (pending : PendingKeys) (state : RuntimeState) (w : Loop)
    → let (task, pending', state') = start_subscribe_tcp r pending state in
      Steps r.key task.conn_key (pending', state') w
      → later.key ≡ r.key
      → IsReserved r.key task.conn_key w
        × ((start_subscribe_tcp later w.0 w.1).0.conn_key ≢ task.conn_key)
unfolding start_subscribe_tcp next_subscription_id
conn_key-IsReserved r later pending state w steps same =
    let (task, pending', state') = start_subscribe_tcp r pending state in
    let (_, state1) = next_subscription_id state in
    let s = conn_keys pending state1 in
    let reserved =
      Steps-IsReserved r.key task.conn_key (pending', state') w steps
        (allocate-IsReserved s r.key) in
    let (_, later1) = next_subscription_id w.1 in
    let t = conn_keys w.0 later1 in
    (
      reserved,
      subst (λ key. (allocate_tcp_conn_key t key).0 ≢ task.conn_key) (sym same)
          (allocate_tcp_conn_key-ne-pending t r.key task.conn_key reserved.0).0,
    )
