-- ===== src/Offers.antt =====
-- src/runtime/server.rs and src/runtime/event_loop.rs: the commands of a server's application, and the
-- first offers of its services.
pub mod Notified
pub mod Registered
pub mod Ports
pub mod Scan
pub mod Command
pub mod Routable
pub mod Shared
pub mod Chosen
pub mod Routed
pub mod Collision
pub mod Counter
use recentip.Prelude.{
  ℕ, ◌+◌, ◌==◌, ◌&&◌, ◌||◌, ◌%◌, ◌^◌, Bool, true, false, not, if◌then◌else◌, List, [], ◌∷◌, ◌++◌,
  Option, none, some, length,
}
use recentip.Prelude.Maps.{Map, get, insert, remove, modify, or_default, contains_key}
use recentip.Buffer.{ByteBuffer}
use recentip.Config.{Transport, contains}
use recentip.Types.ReturnCode.{ReturnCode}
use recentip.Wire.MessageType.{MessageType}
use recentip.Wire.SdEntry
use recentip.Wire.SdEntry.Create
use recentip.Wire.SdOption.{SocketAddrV4, L4Protocol}
use recentip.Wire.SdMessage.{SdMessage, new, add_entry}
use recentip.Wire.Header.{build_someip_message}
use recentip.Sd.{ServiceKey, OfferedService, add_endpoint, first_or_zero, build_stop_offer_message}
use recentip.State.Keys.{SubscriberKey, ServiceKey-Eq, SubscriberKey-Eq, addr_beq, transport_beq}
use recentip.State.{
  RuntimeState, ServerSubscription, Action, send_sd, send_server_message, sd_flags,
}

-- The configuration errors of `handle_register_event`.
pub data RegisterResult : Type 0 where
  registered not_offered already_registered : RegisterResult

unfoldable pub handle_register_event :
    ServiceKey → (event_id : ℕ) → RuntimeState → RegisterResult × RuntimeState
handle_register_event key event_id state =
    let events = or_default [] (get state.registered_events key) in
    if not (contains_key state.offered key)
    then (not_offered, state)
    else if contains events event_id
    then (
      already_registered,
      record state { registered_events = insert state.registered_events key events },
    )
    else (
      registered,
      record state { registered_events = insert state.registered_events key (event_id ∷ events) },
    )

-- `server::handle_stop_offer`
unfoldable pub stop_offer : ServiceKey → RuntimeState → List Action × RuntimeState
unfolding sd_flags
stop_offer key state = elim (get state.offered key) [
  | none ↦ ([], record state { registered_events = remove state.registered_events key })
  | some offered ↦ (
    send_sd (build_stop_offer_message key offered (sd_flags state false))
          state.config.sd_multicast_addr
        ∷ [],
    record state {
      offered = remove state.offered key;
      registered_events = remove state.registered_events key;
    },
  )
]

abbrev pub Target : Type 0
Target = SocketAddrV4 × Transport

abbrev pub target_beq : Target → Target → Bool
target_beq (p, t) (q, u) = addr_beq p q && transport_beq t u

abbrev pub is_seen : Target → List Target → Bool
is_seen x [] = false
is_seen x (y ∷ ys) = target_beq y x || is_seen x ys

-- `HashSet::insert`
abbrev pub add_seen : Target → List Target → List Target
add_seen x seen = if is_seen x seen then seen else x ∷ seen

unfoldable pub see_all : List ServerSubscription → List Target → List Target
see_all [] seen = seen
see_all (s ∷ subs) seen = see_all subs (add_seen (s.endpoint, s.transport) seen)

abbrev pub subscriber_key_at : ServiceKey → (eventgroup_id : ℕ) → SubscriberKey
subscriber_key_at key eventgroup_id = record {
  service_id = key.service_id;
  instance_id = key.instance_id;
  major_version = key.major_version;
  eventgroup_id = eventgroup_id;
}

unfoldable pub seen_subscribers : RuntimeState → ServiceKey → List ℕ → List Target → List Target
unfolding see_all
seen_subscribers state key [] seen = seen
seen_subscribers state key (eg ∷ egs) seen =
    seen_subscribers state key egs (elim (get state.server_subscribers (subscriber_key_at key eg)) [
      | none ↦ seen
      | some subs ↦ see_all subs seen
    ])

abbrev pub send_to_all : ServiceKey → List ℕ → List Target → List Action
send_to_all key message [] = []
send_to_all key message ((subscriber, transport) ∷ seen) =
    send_server_message key message subscriber transport ∷ send_to_all key message seen

module _ ⦃bytes : ByteBuffer⦄ where
  unfoldable pub build_notification :
      (service_id event_id client_id session_id interface_version : ℕ) → List ℕ → List ℕ
  unfolding build_someip_message
  build_notification s event_id c n i payload =
      build_someip_message s event_id c n i MessageType.notification ReturnCode.ok payload

  unfoldable pub handle_notify :
      ServiceKey
      → (eventgroup_ids : List ℕ) → (event_id : ℕ) → (payload : List ℕ) → RuntimeState
      → List Action
  unfolding seen_subscribers build_notification
  handle_notify key eventgroup_ids event_id payload state =
      send_to_all key
        (build_notification key.service_id event_id state.client_id 0 key.major_version payload)
        (seen_subscribers state key eventgroup_ids [])

-- One pending offer: the options, and an entry that refers to them.
unfoldable pub add_offer :
    (now : ℕ) → ServiceKey → SdMessage × RuntimeState → SdMessage × RuntimeState
unfolding add_endpoint add_entry Create.offer_service
add_offer now key (msg, state) = elim (get state.offered key) [
  | none ↦ (msg, state)
  | some offered ↦
      let ip = state.config.unicast_ip in
      let with_udp = add_endpoint (msg, []) offered.udp_endpoint ip L4Protocol.udp in
      let (with_tcp, option_indices) =
        add_endpoint with_udp offered.tcp_endpoint ip L4Protocol.tcp in
      (
        (add_entry with_tcp (
            Create.offer_service key.service_id key.instance_id offered.major_version
              offered.minor_version state.config.offer_ttl (first_or_zero option_indices)
              (length option_indices % 2 ^ 8))).0,
        record state { offered = modify state.offered key (λ o. record o { last_offer = now }) },
      )
]

unfoldable pub add_offers :
    (now : ℕ) → List ServiceKey → SdMessage × RuntimeState → SdMessage × RuntimeState
unfolding add_offer
add_offers now [] built = built
add_offers now (key ∷ keys) built = add_offers now keys (add_offer now key built)

unfoldable pub flush_pending_initial_offers : (now : ℕ) → RuntimeState → List Action × RuntimeState
unfolding add_offers sd_flags
flush_pending_initial_offers now state = elim state.pending_initial_offers [
  | [] ↦ ([], record state { pending_offers_deadline = none })
  | key ∷ keys ↦
      let (msg, state') = add_offers now (key ∷ keys) (new (sd_flags state false), state) in
      (
        send_sd msg state.config.sd_multicast_addr ∷ [],
        record state' { pending_initial_offers = []; pending_offers_deadline = none },
      )
]
