-- ===== src/EventLoop/Periodic.antt =====
-- What is left after the periodic tasks.
use recentip.Prelude.{
  ℕ, ◌≡◌, refl, ◌∙◌, ◌||◌, Bool, true, false, not, if◌then◌else◌, List, [], ◌∷◌, none, some, arith,
  Bool-cases, inl, inr,
}
use recentip.Prelude.Maps.{Map, get, remove, filter, or_default, has_key, get-remove, Distinct}
use recentip.Wire.SdOption.{SocketAddrV4}
use recentip.Sd.{ServiceKey}
use recentip.Subscribers.Held.{lookup, held, subscription}
use recentip.State.Keys.{
  SubscriberKey, SubscriberKey-Eq, ServiceKey-Eq, service_key_beq, service_key_eq_of_beq,
}
use recentip.State.{RuntimeState, DiscoveredService, sd_flags}
use recentip.Peer.{retain_subscribers}
use recentip.Peer.Servers.{held-retain}
use recentip.EventLoop.{
  is_alive, expired_services, expire_discovered, is_current, cyclic_offers, find_repetitions,
  handle_periodic,
}

-- A known service whose time is over.
abbrev pub is_over : (now : ℕ) → RuntimeState → ServiceKey → Bool
is_over now s key = elim (get s.discovered key) [
  | none ↦ false
  | some service ↦ not (is_alive now service)
]

pub record Current (now : ℕ) (s r : RuntimeState) : Type 0 where
  pub discovered_left :
      (key : ServiceKey)
      → get r.discovered key ≡ (if is_over now s key then none else get s.discovered key)
  pub subscriptions_left :
      (key : ServiceKey)
      → get r.subscriptions key ≡ (if is_over now s key then none else get s.subscriptions key)
  pub subscribers_left :
      (key : SubscriberKey) (q : SocketAddrV4)
      → subscription r key q
        ≡ lookup (filter (is_current now) (or_default [] (get s.server_subscribers key))) q

has_key-expired_services :
    (now : ℕ) (m : Map ServiceKey DiscoveredService) (key : ServiceKey)
    → Distinct m
    → has_key key (expired_services now m)
      ≡ (elim (get m key) [ none ↦ false | some service ↦ not (is_alive now service) ])
has_key-expired_services now [] key d = refl
has_key-expired_services now ((k, service) ∷ m) key d =
    let ih = has_key-expired_services now m key d.1 in
    elim (Bool-cases (service_key_beq k key)) [
      | inl hit ↦
          let fresh : get m key ≡ none = rw (service_key_eq_of_beq k key hit) at (d.0) in
          elim (Bool-cases (is_alive now service)) [
            | inl alive ↦ rw (hit, alive) (rw fresh at ih)
            | inr over ↦ rw (hit, over, hit) refl
          ]
      | inr miss ↦ elim (Bool-cases (is_alive now service)) [
        | inl alive ↦ rw (miss, alive) ih
        | inr over ↦ rw (miss, over, miss) ih
      ]
    ]

unless_removed {ℓ} :
    {V : Type ℓ} (m : Map ServiceKey V) (k key : ServiceKey) (gone : Bool)
    → (if gone then none else get (remove m k) key)
      ≡ (if service_key_beq k key || gone then none else get m key)
unless_removed m k key true = ground arith
unless_removed m k key false = get-remove m k key ∙ ground arith

record Gone (keys : List ServiceKey) (s r : RuntimeState) (key : ServiceKey) : Type 0 where
  discovered_gone : get r.discovered key ≡ (if has_key key keys then none else get s.discovered key)
  subscriptions_gone :
      get r.subscriptions key ≡ (if has_key key keys then none else get s.subscriptions key)
  subscribers_same : r.server_subscribers ≡ s.server_subscribers

expire_discovered-Gone :
    (keys : List ServiceKey) (s : RuntimeState) (key : ServiceKey)
    → Gone keys s (expire_discovered keys s).1 key
unfolding expire_discovered
expire_discovered-Gone [] s key = record {
  discovered_gone = refl;
  subscriptions_gone = refl;
  subscribers_same = refl;
}
expire_discovered-Gone (k ∷ keys) s key =
    let g =
      expire_discovered-Gone keys
        (record s { discovered = remove s.discovered k; subscriptions = remove s.subscriptions k })
        key in
    record {
      discovered_gone = g.discovered_gone ∙ unless_removed s.discovered k key (has_key key keys);
      subscriptions_gone =
          g.subscriptions_gone ∙ unless_removed s.subscriptions k key (has_key key keys);
      subscribers_same = g.subscribers_same;
    }

abbrev nowhere : ServiceKey
nowhere = record { service_id = 0; instance_id = 0; major_version = 0 }

-- Where the maps hold each key once: after the periodic tasks, exactly the services are known whose time
-- is not over, the subscriptions to the others are gone with them and no others, and of the
-- subscribers exactly those are left that have no time limit or are within it.
pub handle_periodic-Current :
    (now : ℕ) (s : RuntimeState)
    → Distinct s.discovered
    → Distinct s.server_subscribers
    → Current now s (handle_periodic now s).1
unfolding handle_periodic
handle_periodic-Current now s known subscribers =
    let keys = expired_services now s.discovered in
    let s1 : RuntimeState = record s {
      offered = (cyclic_offers now (sd_flags s false) s s.offered).1;
      find_requests = (find_repetitions now (sd_flags s false) s s.find_requests).1;
    } in
    let over = has_key-expired_services now s.discovered in
    record {
      discovered_left =
          λ key. rw (over key known) at ((expire_discovered-Gone keys s1 key).discovered_gone);
      subscriptions_left =
          λ key. rw (over key known) at ((expire_discovered-Gone keys s1 key).subscriptions_gone);
      subscribers_left = λ key q.
          (λ i.
            held
              (retain_subscribers (is_current now)
                ((expire_discovered-Gone keys s1 nowhere).subscribers_same i))
              key q)
          ∙ held-retain (is_current now) s.server_subscribers key q subscribers;
    }
