-- ===== src/Subscriptions/Udp.antt =====
-- src/runtime/client.rs: the command that subscribes over UDP, with the choice of its port.
use recentip.Prelude.{ℕ, Bool, true, false, ◌&&◌, if◌then◌else◌, List, [], ◌∷◌, Option, none, some}
use recentip.Prelude.Maps.{get, or_default}
use recentip.Config.{PortSpec, any, fixed, udp}
use recentip.Wire.SdOption.{SocketAddrV4}
use recentip.Client.{
  Usage, Service, port_used_by, register_subscription_endpoint, find_reusable_subscription_endpoint,
  find_existing_port_for_spec,
}
use recentip.Sd.{ServiceKey}
use recentip.State.Keys.{ServiceKey-Eq}
use recentip.State.{RuntimeState, ClientSubscription}
use recentip.Subscriptions.{NewSubscription, next_subscription_id, complete_udp_subscription}

-- What the response channel gets at once; the server answers a pending one.
pub data SubscribeReply : Type 0 where
  pending addr_in_use io_failed : SubscribeReply

pub record UdpRequest : Type 0 where
  pub key : ServiceKey
  pub eventgroup_ids : List ℕ
  -- the channels
  pub events_tx : ℕ
  pub response : ℕ
  pub sd_endpoint : SocketAddrV4
  pub local_port : PortSpec

abbrev pub service_of : ServiceKey → Service
service_of key = (key.service_id, key.instance_id)

abbrev pub subscriptions_of : RuntimeState → ServiceKey → List ClientSubscription
subscriptions_of state key = or_default [] (get state.subscriptions key)

abbrev pub is_nonempty : List ClientSubscription → Bool
is_nonempty [] = false
is_nonempty (s ∷ subs) = true

-- The test that returns `AddrInUse`.
abbrev pub is_owned : (already : Bool) → PortSpec → Usage → Service → Bool
is_owned already any usage service = false
is_owned already (fixed p) usage service = already && port_used_by usage p service

-- The port of a socket that is there: for a service with subscriptions one that it does not use or the
-- wanted one, for a first subscription the wanted one or that of the RPC socket.
unfoldable pub existing_port :
    (already : Bool) → PortSpec → Usage → (rpc_port : ℕ) → Service → Option ℕ
unfolding find_reusable_subscription_endpoint find_existing_port_for_spec
existing_port true any usage rpc_port service =
    find_reusable_subscription_endpoint usage rpc_port service
existing_port true (fixed p) usage rpc_port service = find_existing_port_for_spec usage (fixed p)
existing_port false (fixed p) usage rpc_port service = find_existing_port_for_spec usage (fixed p)
existing_port false any usage rpc_port service = some rpc_port

-- `spawn_udp_subscription_socket`: `bind` gives the port of a new socket on the unicast address, 0 being
-- any port, or an error.
abbrev pub spawn_port : (bind : ℕ → Option ℕ) → PortSpec → Option ℕ
spawn_port bind any = bind 0
spawn_port bind (fixed port) = bind port

-- What is recorded of each eventgroup.
abbrev pub udp_subscription :
    UdpRequest
    → (subscription_id port : ℕ) → (has_dedicated_socket : Bool) → RuntimeState
    → NewSubscription
udp_subscription r id port dedicated state = record {
  subscription_id = id;
  events_tx = r.events_tx;
  response = r.response;
  endpoint = record { ip = state.config.unicast_ip; port = port };
  has_dedicated_socket = dedicated;
  tcp_conn_key = 0;
  transport = udp;
}

-- The service is registered for the port, and the subscription completed.
unfoldable pub subscribe_at :
    (now : ℕ)
    → UdpRequest
    → (subscription_id port : ℕ) → (has_dedicated_socket : Bool) → RuntimeState
    → RuntimeState
unfolding register_subscription_endpoint complete_udp_subscription
subscribe_at now r id port dedicated state =
    let registered : RuntimeState = record state {
      subscription_endpoint_usage =
          register_subscription_endpoint state.subscription_endpoint_usage port (service_of r.key);
    } in
    complete_udp_subscription now registered r.key r.eventgroup_ids
      (udp_subscription r id port dedicated state) r.sd_endpoint

-- The end of every branch: an existing port is shared, else a socket is made for the subscription.
unfoldable pub subscribe_on :
    (now : ℕ)
    → UdpRequest
    → (subscription_id : ℕ) → (existing spawned : Option ℕ) → RuntimeState
    → SubscribeReply × RuntimeState
unfolding subscribe_at
subscribe_on now r id (some port) spawned state = (pending, subscribe_at now r id port false state)
subscribe_on now r id none (some port) state = (pending, subscribe_at now r id port true state)
subscribe_on now r id none none state = (io_failed, state)

unfoldable pub handle_subscribe_udp :
    (bind : ℕ → Option ℕ) → (now : ℕ) → UdpRequest → RuntimeState → SubscribeReply × RuntimeState
unfolding next_subscription_id existing_port subscribe_on
handle_subscribe_udp bind now r before =
    let (id, state) = next_subscription_id before in
    let already = is_nonempty (subscriptions_of before r.key) in
    let usage = state.subscription_endpoint_usage in
    let existing =
      existing_port already r.local_port usage state.client_rpc_endpoint.port (service_of r.key) in
    if is_owned already r.local_port usage (service_of r.key)
    then (addr_in_use, state)
    else subscribe_on now r id existing (spawn_port bind r.local_port) state
