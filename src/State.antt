-- ===== src/State.antt =====
-- src/runtime/state.rs and src/runtime/sd.rs: the state of the event loop, and what its handlers ask
-- it to do. Instants are numbers of milliseconds. What goes over the channels to the application is
-- kept in two lists, in the order in which it is sent.
pub mod Keys
use recentip.Prelude.{
  ℕ, ◌%◌, ◌^◌, ◌+◌, ◌*◌, ◌==◌, ltb, Bool, true, false, List, [], ◌∷◌, ◌++◌, Option, none, some,
}
use recentip.Prelude.Maps.{Map, or_default}
use recentip.Types.ReturnCode.{ReturnCode}
use recentip.Wire.SdOption.{Ipv4Addr, SocketAddrV4}
use recentip.Wire.SdMessage.{SdMessage}
use recentip.Config.{Transport, OfferedEndpoints}
use recentip.Sd.{ServiceKey, OfferedService}
use recentip.Session.{Sessions, PeerSessionState}
use recentip.Session
use recentip.Client.{Usage}
use recentip.State.Keys.{
  SubscriberKey, PendingSubscriptionKey, MultiEventgroupSubscriptionKey, CallKey,
}

pub record ServerSubscription : Type 0 where
  pub endpoint : SocketAddrV4
  pub transport : Transport
  -- `none` never expires
  pub expires_at : Option ℕ

pub record DiscoveredService : Type 0 where
  pub offered_endpoints : OfferedEndpoints
  pub sd_endpoint : SocketAddrV4
  pub minor_version : ℕ
  pub ttl_expires : ℕ

pub record FindRequest : Type 0 where
  -- the channel
  pub notify : ℕ
  pub repetitions_left : ℕ
  pub last_find : ℕ

pub record ClientSubscription : Type 0 where
  pub subscription_id : ℕ
  pub eventgroup_id : ℕ
  -- the channel
  pub events_tx : ℕ
  pub local_endpoint : SocketAddrV4
  pub transport : Transport
  pub has_dedicated_socket : Bool
  pub tcp_conn_key : ℕ

-- A oneshot channel is a number; sending takes it out of its field.
pub record PendingSubscription : Type 0 where
  pub subscription_id : ℕ
  pub response : Option ℕ

pub record MultiEventgroupSubscription : Type 0 where
  pub eventgroup_ids : List ℕ
  pub acked_eventgroups : List ℕ
  pub response : Option ℕ

-- A transport is the number of its channel.
pub record PendingServerResponse : Type 0 where
  pub service_id : ℕ
  pub method_id : ℕ
  pub client_id : ℕ
  pub session_id : ℕ
  pub interface_version : ℕ
  pub client_addr : SocketAddrV4
  pub uses_exception : Bool
  pub rpc_transport : ℕ

pub data SdEvent : Type 0 where
  service_available :
      (service_id instance_id major_version minor_version : ℕ)
      → (udp_endpoint tcp_endpoint : Option SocketAddrV4) → (ttl : ℕ) → SdEvent
  service_unavailable : (service_id instance_id : ℕ) → SdEvent
  service_expired : (service_id instance_id : ℕ) → SdEvent

pub data Action : Type 0 where
  send_sd : (message : SdMessage) (target : SocketAddrV4) → Action
  notify_found : (key : ServiceKey) → OfferedEndpoints → (sd_endpoint : SocketAddrV4) → Action
  send_client_message : (bytes : List ℕ) (target : SocketAddrV4) → Transport → Action
  send_server_message :
      (service_key : ServiceKey) (bytes : List ℕ) (target : SocketAddrV4) → Transport → Action
  track_server_response : (context : PendingServerResponse) (receiver : ℕ) → Action
  emit_sd_event : SdEvent → Action
  reset_peer_tcp_connections :
      (peer : Ipv4Addr) (server_ports : List ℕ) (client_endpoints : List SocketAddrV4) → Action

-- What a server's application is told.
pub data ServiceRequest : Type 0 where
  method_call :
      (method_id : ℕ)
      → (payload : List ℕ) → (client : SocketAddrV4) → Transport
      → (response : ℕ) → ServiceRequest
  fire_forget :
      (method_id : ℕ) → (payload : List ℕ) → (client : SocketAddrV4) → Transport → ServiceRequest
  subscribe unsubscribe :
      (eventgroup_id : ℕ) (client : SocketAddrV4) (transport : Transport) → ServiceRequest

-- What a oneshot channel of a subscription answers: the subscription id, or the rejection.
pub data Answer : Type 0 where
  accepted : (subscription_id : ℕ) → Answer
  rejected : Answer

-- The fields of `RuntimeConfig` that the handlers read.
pub record RuntimeConfig : Type 0 where
  pub unicast_ip : Ipv4Addr
  pub sd_multicast_addr : SocketAddrV4
  pub offer_ttl : ℕ
  pub find_ttl : ℕ
  pub subscribe_ttl : ℕ
  pub cyclic_offer_delay : ℕ

-- `RuntimeState` without its local endpoint, the sender of client messages and the connection keys, which
-- stand in Client. A channel is a number.
pub record RuntimeState : Type 0 where
  pub config : RuntimeConfig
  pub client_id : ℕ
  pub offered : Map ServiceKey OfferedService
  pub registered_events : Map ServiceKey (List ℕ)
  pub find_requests : Map ServiceKey FindRequest
  pub discovered : Map ServiceKey DiscoveredService
  pub subscriptions : Map ServiceKey (List ClientSubscription)
  pub server_subscribers : Map SubscriberKey (List ServerSubscription)
  pub static_listeners : Map SubscriberKey ℕ
  pub pending_calls : Map CallKey ℕ
  pub pending_subscriptions : Map PendingSubscriptionKey (List PendingSubscription)
  pub multi_eventgroup_subscriptions :
      Map MultiEventgroupSubscriptionKey MultiEventgroupSubscription
  pub sessions : Sessions
  pub pending_initial_offers : List ServiceKey
  pub pending_offers_deadline : Option ℕ
  pub pending_unicast_sd : List Action
  pub pending_unicast_sd_deadline : Option ℕ
  pub peer_sessions : Map Ipv4Addr PeerSessionState
  pub sd_monitors : List ℕ
  pub next_subscription_id : ℕ
  pub subscription_endpoint_usage : Usage
  pub client_rpc_endpoint : SocketAddrV4
  pub last_periodic_cycle : Option ℕ
  pub next_server_rpc_port : ℕ
  pub service_requests : List (ServiceKey × ServiceRequest)
  pub answers : List (ℕ × Answer)

-- `RuntimeState::new`, for the port of the local endpoint.
abbrev pub new_state :
    (port : ℕ) → (client_rpc_endpoint : SocketAddrV4) → RuntimeConfig → RuntimeState
new_state port client_rpc_endpoint config = record {
  config = config;
  client_id = port % 0xfffe + 1;
  offered = [];
  registered_events = [];
  find_requests = [];
  discovered = [];
  subscriptions = [];
  server_subscribers = [];
  static_listeners = [];
  pending_calls = [];
  pending_subscriptions = [];
  multi_eventgroup_subscriptions = [];
  sessions = Session.new;
  pending_initial_offers = [];
  pending_offers_deadline = none;
  pending_unicast_sd = [];
  pending_unicast_sd_deadline = none;
  peer_sessions = [];
  sd_monitors = [];
  next_subscription_id = 1;
  subscription_endpoint_usage = [];
  client_rpc_endpoint = client_rpc_endpoint;
  last_periodic_cycle = none;
  next_server_rpc_port = (port + 1) % 2 ^ 16;
  service_requests = [];
  answers = [];
}

unfoldable pub sd_flags : RuntimeState → (unicast : Bool) → ℕ
sd_flags self unicast = Session.sd_flags self.sessions unicast

-- The deadline is set for the first message of a batch.
unfoldable pub queue_unicast_sd : (now : ℕ) → RuntimeState → SdMessage → SocketAddrV4 → RuntimeState
queue_unicast_sd now self message target = record self {
  pending_unicast_sd = self.pending_unicast_sd ++ send_sd message target ∷ [];
  pending_unicast_sd_deadline = some (or_default (now + 100) self.pending_unicast_sd_deadline);
}

unfoldable pub notify_service : ServiceKey → ServiceRequest → RuntimeState → RuntimeState
notify_service key request self = record self {
  service_requests = self.service_requests ++ (key, request) ∷ [];
}

-- `if let Some(response) = response { response.send(answer) }`
unfoldable pub answer : Option ℕ → Answer → RuntimeState → RuntimeState
answer none result self = self
answer (some response) result self = record self {
  answers = self.answers ++ (response, result) ∷ [];
}

-- A TTL of seconds as milliseconds: `Duration::from_secs`.
abbrev pub from_secs : ℕ → ℕ
from_secs ttl = ttl * 1000
