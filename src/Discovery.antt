-- ===== src/Discovery.antt =====
-- src/runtime/sd.rs and src/runtime/client.rs: what a node knows of its peers' services, and the
-- answers to those who look for its own.
pub mod Found
use recentip.Prelude.{
  ℕ, ◌+◌, ◌==◌, ◌&&◌, ◌||◌, Bool, true, false, if◌then◌else◌, List, [], ◌∷◌, Option, none, some,
}
use recentip.Prelude.Maps.{Map, get, insert, remove, contains_key}
use recentip.Config.{OfferedEndpoints, udp_only, tcp_only, both, sd_ttl_infinite}
use recentip.Wire.SdEntry.{SdEntry}
use recentip.Wire.SdOption.{SocketAddrV4}
use recentip.Wire.SdMessage.{SdMessage}
use recentip.Wire.SdMessage.Endpoint.{get_udp_endpoint, get_tcp_endpoint}
use recentip.Sd.{
  ServiceKey, OfferedService, matches, build_offer_message, build_find_message,
  build_subscribe_message,
}
use recentip.Subscribers.{service_key, is_unspecified}
use recentip.Subscriptions.{pending_key}
use recentip.State.Keys.{ServiceKey-Eq, PendingSubscriptionKey-Eq}
use recentip.State.{
  RuntimeState, DiscoveredService, FindRequest, ClientSubscription, Action, send_sd, notify_found,
  emit_sd_event, reset_peer_tcp_connections, service_available, service_unavailable, sd_flags,
  queue_unicast_sd, from_secs,
}

-- The match on the two endpoints; none of them is no offer.
unfoldable pub endpoints_from : (udp tcp : Option SocketAddrV4) → Option OfferedEndpoints
endpoints_from none none = none
endpoints_from none (some t) = some (tcp_only t)
endpoints_from (some u) none = some (udp_only u)
endpoints_from (some u) (some t) = some (both u t)

-- The tests at the head of the handler.
unfoldable pub offered_endpoints : SdMessage → SdEntry → Option OfferedEndpoints
unfolding endpoints_from
offered_endpoints m e =
    let u = get_udp_endpoint m e in
    let t = get_tcp_endpoint m e in
    if is_unspecified u then none else if is_unspecified t then none else endpoints_from u t

-- The subscriptions of a service are renewed by its offers: one message for each that waits for no
-- answer, unless the TTL is infinite.
unfoldable pub renewals : RuntimeState → ServiceKey → List ClientSubscription → List SdMessage
unfolding sd_flags
renewals state key [] = []
renewals state key (sub ∷ subs) =
    let rest = renewals state key subs in
    if state.config.subscribe_ttl == sd_ttl_infinite
    then rest
    else if contains_key state.pending_subscriptions (pending_key key sub.eventgroup_id)
    then rest
    else build_subscribe_message key.service_id key.instance_id key.major_version sub.eventgroup_id
        (record { ip = state.config.unicast_ip; port = sub.local_endpoint.port })
        sub.local_endpoint.port (sd_flags state true) state.config.subscribe_ttl sub.transport
      ∷ rest

unfoldable pub queue_all : (now : ℕ) → List SdMessage → SocketAddrV4 → RuntimeState → RuntimeState
unfolding queue_unicast_sd
queue_all now [] target state = state
queue_all now (m ∷ ms) target state = queue_all now ms target (queue_unicast_sd now state m target)

unfoldable pub discover :
    (now : ℕ) → SdEntry → SocketAddrV4 → OfferedEndpoints → RuntimeState → RuntimeState
discover now e from endpoints state = record state {
  discovered = insert state.discovered (service_key e) (record {
    offered_endpoints = endpoints;
    sd_endpoint = from;
    minor_version = e.minor_version;
    ttl_expires = now + from_secs e.ttl;
  });
}

-- For a service that is new, the actions that tell of it.
unfoldable pub announce :
    SdEntry → SdMessage → SocketAddrV4 → OfferedEndpoints → RuntimeState → List Action
announce e m from endpoints state =
    if contains_key state.discovered (service_key e)
    then []
    else notify_found (service_key e) endpoints from
      ∷ emit_sd_event (
          service_available e.service_id e.instance_id e.major_version e.minor_version
            (get_udp_endpoint m e) (get_tcp_endpoint m e) e.ttl)
      ∷ []

-- The actions are those that the handler pushes, and the state afterwards.
unfoldable pub handle_offer :
    (now : ℕ) → SdEntry → SdMessage → SocketAddrV4 → RuntimeState → List Action × RuntimeState
unfolding offered_endpoints renewals queue_all discover announce
handle_offer now e m from state = elim (offered_endpoints m e) [
  | none ↦ ([], state)
  | some endpoints ↦
      let state' = discover now e from endpoints state in
      let actions = announce e m from endpoints state in
      elim (get state'.subscriptions (service_key e)) [
        | none ↦ (actions, state')
        | some subs ↦ (actions, queue_all now (renewals state' (service_key e) subs) from state')
      ]
]

unfoldable pub tcp_endpoint_of : OfferedEndpoints → Option SocketAddrV4
tcp_endpoint_of (tcp_only t) = some t
tcp_endpoint_of (udp_only u) = none
tcp_endpoint_of (both u t) = some t

unfoldable pub handle_stop_offer : SdEntry → RuntimeState → List Action × RuntimeState
unfolding tcp_endpoint_of
handle_stop_offer e state = elim (get state.discovered (service_key e)) [
  | none ↦ ([], state)
  | some service ↦
      let gone = emit_sd_event (service_unavailable e.service_id e.instance_id) in
      let reset : List Action = elim (tcp_endpoint_of service.offered_endpoints) [
        | some ep ↦ reset_peer_tcp_connections ep.ip [] (ep ∷ []) ∷ gone ∷ []
        | none ↦ gone ∷ []
      ] in
      (
        reset,
        record state {
          discovered = remove state.discovered (service_key e);
          subscriptions = remove state.subscriptions (service_key e);
        },
      )
]

-- Which of its services a node offers to one who looks for them.
abbrev pub is_sought : SdEntry → ServiceKey → Bool
is_sought e key =
    e.service_id == key.service_id && (e.instance_id == 0xffff || e.instance_id == key.instance_id)

unfoldable pub find_responses :
    SdEntry → RuntimeState → Map ServiceKey OfferedService → List SdMessage
unfolding sd_flags
find_responses e state [] = []
find_responses e state ((key, offered) ∷ rest) =
    let later = find_responses e state rest in
    if offered.is_announcing && is_sought e key
    then build_offer_message key offered (sd_flags state true) state.config.offer_ttl
        state.config.unicast_ip
      ∷ later
    else later

unfoldable pub handle_find_request :
    (now : ℕ) → SdEntry → SocketAddrV4 → RuntimeState → RuntimeState
unfolding find_responses queue_all
handle_find_request now e from state =
    queue_all now (find_responses e state state.offered) from state

-- `client::handle_find`: the first service that matches, or a search. What the channel `notify` is sent
-- at once is the first component.
abbrev pub find_discovered :
    ServiceKey → Map ServiceKey DiscoveredService → Option (ServiceKey × DiscoveredService)
find_discovered search_key [] = none
find_discovered search_key ((key, service) ∷ rest) =
    if matches key search_key then some (key, service) else find_discovered search_key rest

unfoldable pub handle_find :
    (now : ℕ)
    → ServiceKey
    → (notify : ℕ) → RuntimeState
    → Option (ServiceKey × DiscoveredService) × List Action × RuntimeState
unfolding sd_flags
handle_find now search_key notify state = elim (find_discovered search_key state.discovered) [
  | some found ↦ (some found, [], state)
  | none ↦ (
    none,
    send_sd
          (build_find_message search_key.service_id search_key.instance_id search_key.major_version
            (sd_flags state false) state.config.find_ttl)
          state.config.sd_multicast_addr
        ∷ [],
    record state {
      find_requests =
          insert state.find_requests search_key
            (record { notify = notify; repetitions_left = 3; last_find = now });
    },
  )
]

unfoldable pub handle_stop_find : ServiceKey → RuntimeState → RuntimeState
handle_stop_find key state = record state { find_requests = remove state.find_requests key }

-- `execute_action`, `NotifyFound`: the searches that are told of the service.
unfoldable pub found_requests : Map ServiceKey FindRequest → ServiceKey → List ℕ
found_requests [] found_key = []
found_requests ((req_key, request) ∷ rest) found_key =
    let later = found_requests rest found_key in
    if matches req_key found_key then request.notify ∷ later else later
