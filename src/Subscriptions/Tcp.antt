-- ===== src/Subscriptions/Tcp.antt =====
-- src/runtime/client_concurrent.rs and src/runtime/event_loop.rs: subscriptions over TCP. The event loop
-- starts a task, which connects; its result comes back to the event loop as an update.
use recentip.Prelude.{ℕ, true, false, List, [], ◌∷◌, Option, none, some, map}
use recentip.Config.{PortSpec, tcp}
use recentip.Wire.SdOption.{Ipv4Addr, SocketAddrV4}
use recentip.Client.{
  ConnKeyState, allocate_tcp_conn_key, release_pending_tcp_conn_key, register_subscription_endpoint,
}
use recentip.Sd.{ServiceKey, build_subscribe_message_multi}
use recentip.State.{RuntimeState, sd_flags, queue_unicast_sd}
use recentip.Subscriptions.{NewSubscription, next_subscription_id, record_subscription_state}
use recentip.Subscriptions.Udp.{service_of, subscriptions_of}
use recentip.Pool.{TcpConnectionPool, TcpStream, ensure_connected}

-- The keys that are reserved for the tasks of a service, `pending_tcp_conn_keys`.
abbrev pub PendingKeys : Type 0
PendingKeys = ServiceKey → List ℕ

-- The keys in use: those of the subscriptions, and the reserved ones.
abbrev pub conn_keys : PendingKeys → RuntimeState → ConnKeyState
conn_keys pending state = record {
  committed = λ key. map (λ s. s.tcp_conn_key) (subscriptions_of state key);
  pending = pending;
}

pub record TcpRequest : Type 0 where
  pub key : ServiceKey
  pub eventgroup_ids : List ℕ
  -- the channels
  pub events_tx : ℕ
  pub response : ℕ
  pub sd_endpoint : SocketAddrV4
  pub remote_endpoint : SocketAddrV4
  pub local_port : PortSpec

-- What the task is given besides the request.
pub record TcpTask : Type 0 where
  pub request : TcpRequest
  pub subscription_id : ℕ
  pub flags : ℕ
  pub subscribe_ttl : ℕ
  pub conn_key : ℕ
  pub local_ip : Ipv4Addr

-- `Command::Subscribe` over TCP, up to the start of the task.
unfoldable pub start_subscribe_tcp :
    TcpRequest → PendingKeys → RuntimeState → TcpTask × PendingKeys × RuntimeState
unfolding next_subscription_id sd_flags allocate_tcp_conn_key
start_subscribe_tcp r pending state =
    let (id, state') = next_subscription_id state in
    let (conn_key, keys) = allocate_tcp_conn_key (conn_keys pending state') r.key in
    (
      record {
        request = r;
        subscription_id = id;
        flags = sd_flags state' true;
        subscribe_ttl = state'.config.subscribe_ttl;
        conn_key = conn_key;
        local_ip = state'.config.unicast_ip;
      },
      keys.pending,
      state',
    )

-- `SubscribeStateUpdate`: the local address of the connection, or the error.
pub data SubscribeStateUpdate : Type 0 where
  success : (task : TcpTask) (endpoint : SocketAddrV4) → SubscribeStateUpdate
  failed : (task : TcpTask) → SubscribeStateUpdate

abbrev pub update_of : TcpTask → Option SocketAddrV4 → SubscribeStateUpdate
update_of task none = failed task
update_of task (some endpoint) = success task endpoint

-- `handle_subscribe_tcp`, where nothing else happens to the pool while it connects.
unfoldable pub handle_subscribe_tcp :
    TcpTask → TcpStream → TcpConnectionPool → SubscribeStateUpdate × TcpConnectionPool
unfolding ensure_connected
handle_subscribe_tcp task net pool =
    let (endpoint, pool') =
      ensure_connected pool net task.request.remote_endpoint task.conn_key task.local_ip
        task.request.local_port in
    (update_of task endpoint, pool')

abbrev pub release : TcpTask → PendingKeys → RuntimeState → PendingKeys
release task pending state =
    (release_pending_tcp_conn_key (conn_keys pending state) task.request.key task.conn_key).pending

abbrev pub tcp_subscription : TcpTask → SocketAddrV4 → NewSubscription
tcp_subscription task endpoint = record {
  subscription_id = task.subscription_id;
  events_tx = task.request.events_tx;
  response = task.request.response;
  endpoint = endpoint;
  has_dedicated_socket = false;
  tcp_conn_key = task.conn_key;
  transport = tcp;
}

-- The closure `apply_state`, after the key's release.
unfoldable pub apply_state : (now : ℕ) → TcpTask → SocketAddrV4 → RuntimeState → RuntimeState
unfolding register_subscription_endpoint record_subscription_state queue_unicast_sd
apply_state now task endpoint state =
    let r = task.request in
    let usage =
      register_subscription_endpoint state.subscription_endpoint_usage endpoint.port
        (service_of r.key) in
    let registered : RuntimeState = record state { subscription_endpoint_usage = usage } in
    let (to_subscribe, recorded) =
      record_subscription_state registered r.key r.eventgroup_ids
        (tcp_subscription task endpoint) in
    elim to_subscribe [
      | [] ↦ recorded
      | eg ∷ egs ↦
          queue_unicast_sd now recorded
            (build_subscribe_message_multi r.key.service_id r.key.instance_id r.key.major_version
              r.eventgroup_ids endpoint endpoint.port task.flags task.subscribe_ttl tcp)
            r.sd_endpoint
    ]

-- What the event loop does with an update. The response channel of a failed task gets the error.
unfoldable pub apply_update :
    (now : ℕ) → SubscribeStateUpdate → PendingKeys → RuntimeState → PendingKeys × RuntimeState
unfolding release_pending_tcp_conn_key apply_state
apply_update now (success task endpoint) pending state =
    (release task pending state, apply_state now task endpoint state)
apply_update now (failed task) pending state = (release task pending state, state)
