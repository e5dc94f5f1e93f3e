-- ===== src/Peer/Dropped.antt =====
-- What the loop over the services of a peer takes out.
use recentip.Prelude.{
  subst, ◌≡◌, inl, inr, refl, ◌∙◌, ◌&&◌, Bool, true, false, not, if◌then◌else◌, List, [], ◌∷◌, none,
  some, arith, Bool-cases, Option-cases,
}
use recentip.Prelude.Maps.{
  Map, get, remove, contains_key, has_key, get-remove, Distinct, remove-Distinct,
}
use recentip.Wire.SdOption.{Ipv4Addr}
use recentip.Sd.{ServiceKey}
use recentip.State.Keys.{
  PendingSubscriptionKey-Eq, ServiceKey-Eq, SubscriberKey-Eq, service_key_beq,
  service_key_eq_of_beq,
}
use recentip.State.{RuntimeState, DiscoveredService}
use recentip.Peer.{is_from_peer, services_from, should_keep, expire_service, expire_services}

pub has_key-services_from :
    (peer : Ipv4Addr) (m : Map ServiceKey DiscoveredService) (key : ServiceKey)
    → Distinct m
    → has_key key (services_from peer m)
      ≡ (elim (get m key) [ none ↦ false | some d ↦ is_from_peer peer d ])
unfolding services_from
has_key-services_from peer [] key d = refl
has_key-services_from peer ((k, service) ∷ m) key d =
    let ih = has_key-services_from peer m key d.1 in
    elim (Bool-cases (service_key_beq k key)) [
      | inl hit ↦
          let fresh : get m key ≡ none = rw (service_key_eq_of_beq k key hit) at (d.0) in
          elim (Bool-cases (is_from_peer peer service)) [
            | inl from ↦ rw (hit, from, hit) refl
            | inr away ↦ rw (hit, away) (rw (fresh) at ih)
          ]
      | inr miss ↦ elim (Bool-cases (is_from_peer peer service)) [
        | inl from ↦ rw (miss, from, miss) ih
        | inr away ↦ rw (miss, away) ih
      ]
    ]

-- A service that is known and whose subscriptions wait for no answer.
abbrev pub drops : RuntimeState → ServiceKey → Bool
drops s key = not (should_keep s key) && contains_key s.discovered key

abbrev drop_key : ServiceKey → RuntimeState → RuntimeState
drop_key key s = record s {
  discovered = remove s.discovered key;
  find_requests = remove s.find_requests key;
  subscriptions = remove s.subscriptions key;
}

pub expire_service-drops :
    (k : ServiceKey) (s : RuntimeState)
    → (expire_service k s).2 ≡ (if drops s k then drop_key k s else s)
unfolding expire_service
expire_service-drops k s = elim (Bool-cases (should_keep s k)) [
  | inl keep ↦ rw keep refl
  | inr free ↦ elim (Option-cases (get s.discovered k)) [
    | inl unknown ↦ rw (free, unknown) refl
    | inr (d, known) ↦ rw (free, known) refl
  ]
]

if-same {ℓ} : {A : Type ℓ} {x : A} (b : Bool) → (if b then x else x) ≡ x
if-same true = refl
if-same false = refl

if-and_false {ℓ} : {A : Type ℓ} (b : Bool) (x y : A) → (if b && false then x else y) ≡ y
if-and_false true x y = refl
if-and_false false x y = refl

-- What the loop over the services leaves at a key.
pub record Dropped (keys : List ServiceKey) (s r : RuntimeState) (key : ServiceKey) : Type 0 where
  pub discovered_left :
      get r.discovered key
      ≡ (if has_key key keys && drops s key then none else get s.discovered key)
  pub subscriptions_left :
      get r.subscriptions key
      ≡ (if has_key key keys && drops s key then none else get s.subscriptions key)
  pub searches_left :
      get r.find_requests key
      ≡ (if has_key key keys && drops s key then none else get s.find_requests key)
  pub frame : r ≡ record s {
    discovered = r.discovered;
    find_requests = r.find_requests;
    subscriptions = r.subscriptions;
  }
  pub pending_same : r.pending_subscriptions ≡ s.pending_subscriptions
  pub server_same : r.server_subscribers ≡ s.server_subscribers

drops-drop_key :
    (k key : ServiceKey) (s : RuntimeState)
    → service_key_beq k key ≡ false
    → drops (drop_key k s) key ≡ drops s key
drops-drop_key k key s miss =
    ground (arith, get-remove s.subscriptions k key, get-remove s.discovered k key)

Dropped-step :
    (k : ServiceKey) (ks : List ServiceKey) (s r : RuntimeState) (key : ServiceKey)
    (gone hit : Bool)
    → drops s k ≡ gone
    → service_key_beq k key ≡ hit
    → Dropped ks (if gone then drop_key k s else s) r key
    → Dropped (k ∷ ks) s r key
Dropped-step k ks s r key true true g h d =
    let q : drops s key ≡ true = rw (service_key_eq_of_beq k key h) at g in
    record {
      discovered_left =
          rw (h, q) (d.discovered_left ∙ rw (get-remove s.discovered k key, h) (if-same _));
      subscriptions_left =
          rw (h, q) (d.subscriptions_left ∙ rw (get-remove s.subscriptions k key, h) (if-same _));
      searches_left =
          rw (h, q) (d.searches_left ∙ rw (get-remove s.find_requests k key, h) (if-same _));
      frame = d.frame;
      pending_same = d.pending_same;
      server_same = d.server_same;
    }
Dropped-step k ks s r key true false g h d = record {
  discovered_left =
      rw h
        (d.discovered_left ∙ rw (drops-drop_key k key s h, get-remove s.discovered k key, h) refl);
  subscriptions_left = rw h (
      d.subscriptions_left
      ∙ rw (drops-drop_key k key s h, get-remove s.subscriptions k key, h) refl);
  searches_left =
      rw h
        (d.searches_left ∙ rw (drops-drop_key k key s h, get-remove s.find_requests k key, h) refl);
  frame = d.frame;
  pending_same = d.pending_same;
  server_same = d.server_same;
}
Dropped-step k ks s r key false true g h d =
    let q : drops s key ≡ false = rw (service_key_eq_of_beq k key h) at g in
    record {
      discovered_left = rw (h, q) (d.discovered_left ∙ rw q (if-and_false _ _ _));
      subscriptions_left = rw (h, q) (d.subscriptions_left ∙ rw q (if-and_false _ _ _));
      searches_left = rw (h, q) (d.searches_left ∙ rw q (if-and_false _ _ _));
      frame = d.frame;
      pending_same = d.pending_same;
      server_same = d.server_same;
    }
Dropped-step k ks s r key false false g h d = record {
  discovered_left = rw h (d.discovered_left);
  subscriptions_left = rw h (d.subscriptions_left);
  searches_left = rw h (d.searches_left);
  frame = d.frame;
  pending_same = d.pending_same;
  server_same = d.server_same;
}

pub expire_services-Dropped :
    (ks : List ServiceKey) (s : RuntimeState) (key : ServiceKey)
    → Dropped ks s (expire_services ks s).2 key
unfolding expire_services
expire_services-Dropped [] s key = record {
  discovered_left = refl;
  subscriptions_left = refl;
  searches_left = refl;
  frame = refl;
  pending_same = refl;
  server_same = refl;
}
expire_services-Dropped (k ∷ ks) s key =
    Dropped-step k ks s _ key (drops s k) (service_key_beq k key) refl refl (
      subst (λ x. Dropped ks x (expire_services ks (expire_service k s).2).2 key)
        (expire_service-drops k s) (expire_services-Dropped ks (expire_service k s).2 key))

expire_service-Distinct :
    (k : ServiceKey) (s : RuntimeState)
    → Distinct s.subscriptions
    → Distinct (expire_service k s).2.subscriptions
expire_service-Distinct k s d = rw (expire_service-drops k s) (elim (Bool-cases (drops s k)) [
  | inl gone ↦ rw gone (remove-Distinct s.subscriptions k d)
  | inr stays ↦ rw stays d
])

pub expire_services-Distinct :
    (ks : List ServiceKey) (s : RuntimeState)
    → Distinct s.subscriptions
    → Distinct (expire_services ks s).2.subscriptions
unfolding expire_services
expire_services-Distinct [] s d = d
expire_services-Distinct (k ∷ ks) s d =
    expire_services-Distinct ks (expire_service k s).2 (expire_service-Distinct k s d)
