-- ===== src/Peer/Expired.antt =====
-- What is left of a peer after its reboot.
use recentip.Prelude.{
  ◌≡◌, inl, inr, refl, ◌∙◌, ◌&&◌, Bool, true, false, not, if◌then◌else◌, List, [], ◌∷◌, Option,
  none, some, arith, Bool-cases, Option-cases,
}
use recentip.Prelude.Maps.{Map, get, contains_key, any_of, has_key, Distinct}
use recentip.Wire.SdOption.{Ipv4Addr}
use recentip.Sd.{ServiceKey}
use recentip.Subscriptions.{pending_key}
use recentip.State.Keys.{
  PendingSubscriptionKey, PendingSubscriptionKey-Eq, ServiceKey-Eq, SubscriberKey-Eq,
  service_key_beq, service_key_eq_of_beq, service_key_beq_refl,
}
use recentip.State.{RuntimeState, DiscoveredService, ClientSubscription, PendingSubscription}
use recentip.Peer.{
  is_from_peer, services_from, should_keep, expire_services_from_rebooted_peer, subscriptions_to,
  is_expired_client,
}
use recentip.Peer.Dropped.{drops, has_key-services_from, expire_services-Dropped}

-- A known service of the peer whose subscriptions wait for no answer.
abbrev pub expired : Ipv4Addr → RuntimeState → ServiceKey → Bool
expired peer s key = elim (get s.discovered key) [
  | none ↦ false
  | some d ↦ is_from_peer peer d && not (should_keep s key)
]

and_true : (a b : Bool) → (a && (not b && true)) ≡ (a && not b)
and_true true true = refl
and_true true false = refl
and_true false b = refl

expired-drops :
    (peer : Ipv4Addr) (s : RuntimeState) (key : ServiceKey)
    → Distinct s.discovered
    → (has_key key (services_from peer s.discovered) && drops s key) ≡ expired peer s key
expired-drops peer s key d =
    rw (has_key-services_from peer s.discovered key d) (elim (Option-cases (get s.discovered key)) [
      | inl unknown ↦ rw (unknown, expired) refl
      | inr (x, known) ↦ rw (known, expired) (and_true (is_from_peer peer x) (should_keep s key))
    ])

is_expired_client-expired :
    (peer : Ipv4Addr) (s : RuntimeState) (key : ServiceKey) (subs : List ClientSubscription)
    → get s.subscriptions key ≡ some subs
    → is_expired_client peer s key subs ≡ expired peer s key
is_expired_client-expired peer s key subs h = ground arith

get-cons :
    (k key : ServiceKey) (v w : List ClientSubscription)
    (m : Map ServiceKey (List ClientSubscription))
    → get m k ≡ none
    → get m key ≡ some w
    → get ((k, v) ∷ m) key ≡ some w
get-cons k key v w m fresh there = elim (Bool-cases (service_key_beq k key)) [
  | inl hit ↦ absurd (cc (rw (service_key_eq_of_beq k key hit) at fresh))
  | inr miss ↦ rw miss there
]

-- The subscriptions that the third pass takes out: none.
pub subscriptions_to-nil :
    (peer : Ipv4Addr) (s : RuntimeState) (m : Map ServiceKey (List ClientSubscription))
    → ((key : ServiceKey) → expired peer s key ≡ false)
    → ((key : ServiceKey) (subs : List ClientSubscription)
        → get m key ≡ some subs
        → get s.subscriptions key ≡ some subs)
    → Distinct m
    → subscriptions_to peer s m ≡ []
unfolding subscriptions_to
subscriptions_to-nil peer s [] none_left same d = refl
subscriptions_to-nil peer s ((k, subs) ∷ m) none_left same d =
    rw
      (
        is_expired_client-expired peer s k subs (same k subs (rw (service_key_beq_refl k) refl)),
        none_left k,
      )
      (subscriptions_to-nil peer s m none_left
        (λ key w h. same key w (get-cons k key subs w m d.0 h)) d.1)

-- `expired` as a function of what it reads.
abbrev expired_at :
    Ipv4Addr
    → ServiceKey
    → Map PendingSubscriptionKey (List PendingSubscription)
    → Option (List ClientSubscription)
    → Option DiscoveredService
    → Bool
expired_at peer key pending subs service = elim service [
  | none ↦ false
  | some d ↦
      is_from_peer peer d
      && not (elim subs [
        | none ↦ false
        | some subs ↦
            any_of
              (λ (sub : ClientSubscription).
                contains_key pending (pending_key key sub.eventgroup_id))
              subs
      ])
]

expired-same :
    (peer : Ipv4Addr) (s r : RuntimeState) (key : ServiceKey)
    → get r.discovered key ≡ get s.discovered key
    → get r.subscriptions key ≡ get s.subscriptions key
    → r.pending_subscriptions ≡ s.pending_subscriptions
    → expired peer r key ≡ expired peer s key
expired-same peer s r key hd hs hp = λ i. expired_at peer key (hp i) (hs i) (hd i)

expired-unknown :
    (peer : Ipv4Addr) (r : RuntimeState) (key : ServiceKey)
    → get r.discovered key ≡ none
    → expired peer r key ≡ false
expired-unknown peer r key h = rw (h, expired) refl

-- What the first pass leaves, for all keys at once.
pub record FirstPass (peer : Ipv4Addr) (s r : RuntimeState) : Type 0 where
  pub discovered_left :
      (key : ServiceKey)
      → get r.discovered key ≡ (if expired peer s key then none else get s.discovered key)
  pub subscriptions_left :
      (key : ServiceKey)
      → get r.subscriptions key ≡ (if expired peer s key then none else get s.subscriptions key)
  pub searches_left :
      (key : ServiceKey)
      → get r.find_requests key ≡ (if expired peer s key then none else get s.find_requests key)
  pub frame : r ≡ record s {
    discovered = r.discovered;
    find_requests = r.find_requests;
    subscriptions = r.subscriptions;
  }
  pub pending_same : r.pending_subscriptions ≡ s.pending_subscriptions
  pub server_same : r.server_subscribers ≡ s.server_subscribers

pub expire-FirstPass :
    (peer : Ipv4Addr) (s : RuntimeState)
    → Distinct s.discovered
    → FirstPass peer s (expire_services_from_rebooted_peer peer s).2
unfolding expire_services_from_rebooted_peer
expire-FirstPass peer s d =
    let left = expire_services-Dropped (services_from peer s.discovered) s in
    record {
      discovered_left = λ key. rw (expired-drops peer s key d) at ((left key).discovered_left);
      subscriptions_left =
          λ key. rw (expired-drops peer s key d) at ((left key).subscriptions_left);
      searches_left = λ key. rw (expired-drops peer s key d) at ((left key).searches_left);
      frame = (left (record { service_id = 0; instance_id = 0; major_version = 0 })).frame;
      pending_same =
          (left (record { service_id = 0; instance_id = 0; major_version = 0 })).pending_same;
      server_same =
          (left (record { service_id = 0; instance_id = 0; major_version = 0 })).server_same;
    }

pub FirstPass-expired :
    (peer : Ipv4Addr) (s r : RuntimeState) (key : ServiceKey)
    → FirstPass peer s r
    → expired peer r key ≡ false
FirstPass-expired peer s r key f = elim (Bool-cases (expired peer s key)) [
  | inl gone ↦ expired-unknown peer r key (rw gone at (f.discovered_left key))
  | inr stays ↦
      expired-same peer s r key (rw stays at (f.discovered_left key))
        (rw stays at (f.subscriptions_left key)) f.pending_same
      ∙ stays
]
