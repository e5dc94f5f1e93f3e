-- ===== src/Offers/Notified.antt =====
-- Who is sent an event.
use recentip.Prelude.{
  ℕ, ◌<◌, ◌^◌, ◌-◌, ◌≡◌, refl, ◌∙◌, ◌||◌, Bool, true, false, if◌then◌else◌, List, [], ◌∷◌, length,
  arith, Bool-cases, Option-cases, inl, inr,
}
use recentip.Prelude.Maps.{get, any_of, or_default}
use recentip.Buffer.{ByteBuffer}
use recentip.Types.ReturnCode.{ReturnCode}
use recentip.Wire.MessageType.{MessageType}
use recentip.Sd.{ServiceKey}
use recentip.State.Keys.{SubscriberKey-Eq}
use recentip.State.{RuntimeState, ServerSubscription, Action, send_server_message}
use recentip.Calls.Received.{InRange, Reads, read-built}
use recentip.Offers.{
  Target, target_beq, is_seen, add_seen, see_all, subscriber_key_at, seen_subscribers, send_to_all,
  build_notification, handle_notify,
}

-- The address has subscribed one of the eventgroups over the transport.
abbrev pub is_in : Target → List ServerSubscription → Bool
is_in q subs = any_of (λ s. target_beq (s.endpoint, s.transport) q) subs

abbrev pub is_subscribed : RuntimeState → ServiceKey → List ℕ → Target → Bool
is_subscribed state key eventgroup_ids q =
    any_of (λ eg. is_in q (or_default [] (get state.server_subscribers (subscriber_key_at key eg))))
      eventgroup_ids

-- The messages of a service that go to an address over a transport.
abbrev pub delivered : Target → List Action → List (List ℕ)
delivered q [] = []
delivered q (send_server_message key message p t ∷ actions) =
    let rest = delivered q actions in if target_beq (p, t) q then message ∷ rest else rest
delivered q (_ ∷ actions) = delivered q actions

target_eq_of_beq : (x y : Target) → target_beq x y ≡ true → x ≡ y
target_eq_of_beq (p, t) (q, u) h = ground arith

-- No target stands twice.
abbrev Once : List Target → Type 0
Once [] = Unit
Once (x ∷ seen) = (is_seen x seen ≡ false) × Once seen

is_seen-add_seen :
    (q x : Target) (seen : List Target)
    → is_seen q (add_seen x seen) ≡ (target_beq x q || is_seen q seen)
is_seen-add_seen q x seen = elim (Bool-cases (is_seen x seen)) [
  | inr new ↦ rw new refl
  | inl there ↦ elim (Bool-cases (target_beq x q)) [
    | inl hit ↦ rw (there, hit) (rw (target_eq_of_beq x q hit) at there)
    | inr miss ↦ rw (there, miss) refl
  ]
]

add_seen-Once : (x : Target) (seen : List Target) → Once seen → Once (add_seen x seen)
add_seen-Once x seen o = elim (Bool-cases (is_seen x seen)) [
  | inl there ↦ rw there o
  | inr new ↦ rw new (new, o)
]

see_all-Once :
    (subs : List ServerSubscription) (seen : List Target) → Once seen → Once (see_all subs seen)
unfolding see_all
see_all-Once [] seen o = o
see_all-Once (s ∷ subs) seen o =
    see_all-Once subs _ (add_seen-Once (s.endpoint, s.transport) seen o)

or_false : (a : Bool) → (a || false) ≡ a
or_false a = ground arith

or_assoc : (a b c : Bool) → (a || (b || c)) ≡ ((b || a) || c)
or_assoc a b c = ground arith

is_seen-see_all :
    (q : Target) (subs : List ServerSubscription) (seen : List Target)
    → is_seen q (see_all subs seen) ≡ (is_in q subs || is_seen q seen)
unfolding see_all
is_seen-see_all q [] seen = refl
is_seen-see_all q (s ∷ subs) seen =
    is_seen-see_all q subs (add_seen (s.endpoint, s.transport) seen)
    ∙ rw (is_seen-add_seen q (s.endpoint, s.transport) seen)
        (or_assoc (is_in q subs) (target_beq (s.endpoint, s.transport) q) (is_seen q seen))

seen_subscribers-Once :
    (state : RuntimeState) (key : ServiceKey) (egs : List ℕ) (seen : List Target)
    → Once seen
    → Once (seen_subscribers state key egs seen)
unfolding seen_subscribers
seen_subscribers-Once state key [] seen o = o
seen_subscribers-Once state key (eg ∷ egs) seen o =
    elim (Option-cases (get state.server_subscribers (subscriber_key_at key eg))) [
      | inl nobody ↦ rw nobody (seen_subscribers-Once state key egs seen o)
      | inr (subs, there) ↦
          rw there
            (seen_subscribers-Once state key egs (see_all subs seen) (see_all-Once subs seen o))
    ]

is_seen-seen_subscribers :
    (q : Target) (state : RuntimeState) (key : ServiceKey) (egs : List ℕ) (seen : List Target)
    → is_seen q (seen_subscribers state key egs seen)
      ≡ (is_subscribed state key egs q || is_seen q seen)
unfolding seen_subscribers
is_seen-seen_subscribers q state key [] seen = refl
is_seen-seen_subscribers q state key (eg ∷ egs) seen =
    elim (Option-cases (get state.server_subscribers (subscriber_key_at key eg))) [
      | inl nobody ↦ rw nobody (is_seen-seen_subscribers q state key egs seen)
      | inr (subs, there) ↦ rw there (
          is_seen-seen_subscribers q state key egs (see_all subs seen)
          ∙ rw (is_seen-see_all q subs seen)
              (or_assoc (is_subscribed state key egs q) (is_in q subs) (is_seen q seen)))
    ]

delivered-send_to_all :
    (q : Target) (key : ServiceKey) (message : List ℕ) (seen : List Target)
    → Once seen
    → delivered q (send_to_all key message seen) ≡ (if is_seen q seen then message ∷ [] else [])
delivered-send_to_all q key message [] o = refl
delivered-send_to_all q key message (x ∷ seen) o =
    let ih = delivered-send_to_all q key message seen o.1 in
    elim (Bool-cases (target_beq x q)) [
      | inl hit ↦ rw (hit, ih, rw (target_eq_of_beq x q hit) at (o.0)) refl
      | inr miss ↦ rw (miss, ih) refl
    ]

module _ ⦃bytes : ByteBuffer⦄ where
  -- Where the ids are in range and the payload fits, an event is sent as one NOTIFICATION, which is read as
  -- the event's id and payload under session 0, and every address and transport that has subscribed
  -- one of the eventgroups is sent it exactly once, however many of them it has subscribed; no other
  -- address is sent anything.
  pub handle_notify-Notified :
      (key : ServiceKey) (eventgroup_ids : List ℕ) (event_id : ℕ) (payload : List ℕ)
      (state : RuntimeState)
      → InRange key.service_id event_id state.client_id 0 key.major_version
      → length payload < 2 ^ 32 - 8
      → (message : List ℕ) × Reads message key.service_id event_id state.client_id 0
          key.major_version MessageType.notification ReturnCode.ok payload
        × ((q : Target)
            → delivered q (handle_notify key eventgroup_ids event_id payload state)
              ≡ (if is_subscribed state key eventgroup_ids q then message ∷ [] else []))
  unfolding handle_notify build_notification
  handle_notify-Notified key egs event_id payload state r fits = (
    build_notification key.service_id event_id state.client_id 0 key.major_version payload,
    read-built key.service_id event_id state.client_id 0 key.major_version _ ReturnCode.ok payload r
        tt fits,
    λ q.
        delivered-send_to_all q key _ (seen_subscribers state key egs [])
          (seen_subscribers-Once state key egs [] tt)
        ∙ rw (is_seen-seen_subscribers q state key egs [], or_false (is_subscribed state key egs q))
            refl,
  )
