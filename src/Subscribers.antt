-- ===== src/Subscribers.antt =====
-- src/runtime/sd.rs: the server's side of subscriptions, `handle_subscribe_request` and
-- `handle_unsubscribe_request`.
pub mod Held
pub mod Accept
pub mod Withdraw
use recentip.Prelude.{
  ℕ, ◌+◌, ◌==◌, ◌&&◌, Bool, true, false, not, if◌then◌else◌, List, [], ◌∷◌, ◌++◌, Option, none,
  some,
}
use recentip.Prelude.Maps.{get, insert, modify, any_of, filter, or_default}
use recentip.Config.{Transport, tcp, udp, sd_ttl_infinite}
use recentip.Wire.SdEntry.{SdEntry}
use recentip.Wire.SdEntry.Create
use recentip.Wire.SdOption.{SocketAddrV4}
use recentip.Wire.SdMessage.{SdMessage, new, add_entry}
use recentip.Wire.SdMessage.Endpoint.{get_udp_endpoint, get_tcp_endpoint}
use recentip.Sd.{ServiceKey, OfferedService}
use recentip.State.Keys.{SubscriberKey, ServiceKey-Eq, SubscriberKey-Eq, addr_beq}
use recentip.State.{
  RuntimeState, ServerSubscription, ServiceRequest, sd_flags, queue_unicast_sd, notify_service,
  from_secs,
}

abbrev pub service_key : SdEntry → ServiceKey
service_key entry = record {
  service_id = entry.service_id;
  instance_id = entry.instance_id;
  major_version = entry.major_version;
}

abbrev pub subscriber_key : SdEntry → SubscriberKey
subscriber_key entry = record {
  service_id = entry.service_id;
  instance_id = entry.instance_id;
  major_version = entry.major_version;
  eventgroup_id = entry.eventgroup_id;
}

-- `Ipv4Addr::is_unspecified` of an endpoint that is there.
abbrev pub is_unspecified : Option SocketAddrV4 → Bool
is_unspecified none = false
is_unspecified (some ep) = ep.ip.a == 0 && ep.ip.b == 0 && ep.ip.c == 0 && ep.ip.d == 0

-- A refusal, built in four places of the handler.
unfoldable pub send_nack : (now : ℕ) → SdEntry → SocketAddrV4 → RuntimeState → RuntimeState
unfolding add_entry Create.subscribe_eventgroup_nack queue_unicast_sd sd_flags
send_nack now entry from state =
    let nack =
      (add_entry (new (sd_flags state true)) (
        Create.subscribe_eventgroup_nack entry.service_id entry.instance_id entry.major_version
          entry.eventgroup_id entry.counter)).0 in
    queue_unicast_sd now state nack from

unfoldable pub send_ack : (now : ℕ) → SdEntry → SocketAddrV4 → RuntimeState → RuntimeState
unfolding add_entry Create.subscribe_eventgroup_ack queue_unicast_sd sd_flags
send_ack now entry from state =
    let ack =
      (add_entry (new (sd_flags state true)) (
        Create.subscribe_eventgroup_ack entry.service_id entry.instance_id entry.major_version
          entry.eventgroup_id entry.ttl entry.counter)).0 in
    queue_unicast_sd now state ack from

-- UDP where both sides have it, else TCP where both have it.
unfoldable pub compatible :
    OfferedService
    → (client_udp client_tcp : Option SocketAddrV4) → Option (SocketAddrV4 × Transport)
compatible offered client_udp client_tcp =
    let by_tcp : Option (SocketAddrV4 × Transport) = elim offered.tcp_endpoint [
      | some _ ↦ elim client_tcp [ some ep ↦ some (ep, tcp) | none ↦ none ]
      | none ↦ none
    ] in
    elim offered.udp_endpoint [
      | some _ ↦ elim client_udp [ some ep ↦ some (ep, udp) | none ↦ by_tcp ]
      | none ↦ by_tcp
    ]

unfoldable pub expires_at : (now ttl : ℕ) → Option ℕ
expires_at now ttl = if ttl == sd_ttl_infinite then none else some (now + from_secs ttl)

-- The first subscription of the endpoint is renewed; there is none in a new subscription's list.
unfoldable pub renew :
    SocketAddrV4 → Transport → Option ℕ → List ServerSubscription → List ServerSubscription
renew endpoint transport expiry [] =
    record { endpoint = endpoint; transport = transport; expires_at = expiry } ∷ []
renew endpoint transport expiry (s ∷ subscribers) =
    if addr_beq s.endpoint endpoint
    then record s { expires_at = expiry; transport = transport } ∷ subscribers
    else s ∷ renew endpoint transport expiry subscribers

-- The part behind the choice of the transport. `delivered` says whether the channel of the service's
-- application takes the notice.
unfoldable pub accept :
    (now : ℕ)
    → SdEntry
    → SocketAddrV4
    → SocketAddrV4
    → Transport
    → (delivered : Bool) → RuntimeState
    → RuntimeState
unfolding expires_at renew notify_service send_ack
accept now entry from client_endpoint transport delivered state =
    let sub_key = subscriber_key entry in
    let subscribers = or_default [] (get state.server_subscribers sub_key) in
    let is_new = not (any_of (λ s. addr_beq s.endpoint client_endpoint) subscribers) in
    let stored : RuntimeState = record state {
      server_subscribers =
          insert state.server_subscribers sub_key
            (renew client_endpoint transport (expires_at now entry.ttl) subscribers);
    } in
    let told =
      if is_new && delivered
      then notify_service (service_key entry)
          (ServiceRequest.subscribe entry.eventgroup_id client_endpoint transport) stored
      else stored in
    send_ack now entry from told

unfoldable pub handle_subscribe_request :
    (now : ℕ)
    → SdEntry
    → SdMessage
    → SocketAddrV4
    → (delivered : Bool) → RuntimeState
    → RuntimeState
unfolding send_nack accept compatible
handle_subscribe_request now entry sd_message from delivered state =
    let client_udp = get_udp_endpoint sd_message entry in
    let client_tcp = get_tcp_endpoint sd_message entry in
    if is_unspecified client_udp
    then send_nack now entry from state
    else if is_unspecified client_tcp
    then send_nack now entry from state
    else elim (get state.offered (service_key entry)) [
      | none ↦ send_nack now entry from state
      | some offered ↦ elim (compatible offered client_udp client_tcp) [
        | none ↦ send_nack now entry from state
        | some (client_endpoint, transport) ↦
            accept now entry from client_endpoint transport delivered state
      ]
    ]

unfoldable pub withdraw :
    SdEntry → SocketAddrV4 → Transport → (delivered : Bool) → RuntimeState → RuntimeState
unfolding notify_service
withdraw entry client_endpoint transport delivered state =
    let told =
      if delivered
      then notify_service (service_key entry)
          (ServiceRequest.unsubscribe entry.eventgroup_id client_endpoint transport) state
      else state in
    record told {
      server_subscribers =
          modify told.server_subscribers (subscriber_key entry)
            (filter (λ s. not (addr_beq s.endpoint client_endpoint)));
    }

unfoldable pub handle_unsubscribe_request :
    SdEntry → SdMessage → (delivered : Bool) → RuntimeState → RuntimeState
unfolding withdraw compatible
handle_unsubscribe_request entry sd_message delivered state =
    elim (get state.offered (service_key entry)) [
      | none ↦ state
      | some offered ↦
          let client_udp = get_udp_endpoint sd_message entry in
          let client_tcp = get_tcp_endpoint sd_message entry in
          if is_unspecified client_udp
          then state
          else if is_unspecified client_tcp
          then state
          else elim (compatible offered client_udp client_tcp) [
            | none ↦ state
            | some (client_endpoint, transport) ↦
                withdraw entry client_endpoint transport delivered state
          ]
    ]
