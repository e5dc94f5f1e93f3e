-- ===== src/Tests/Pool.antt =====
-- The theorems on UDP subscriptions and on the pool of connections, at concrete inputs.
use recentip.Prelude.{
  ℕ, ◌==◌, ◌+◌, ◌^◌, ◌++◌, ◌≡◌, ◌≢◌, ◌<◌, refl, ap, subst, sym, inl, inr, Bool-cases, Bool, true,
  false, if◌then◌else◌, [], ◌∷◌, Option, some, none, arith,
}
use recentip.Prelude.Maps.{get, all_of, or_default}
use recentip.Config.{PortSpec, Transport}
use recentip.Wire.SdOption.{SocketAddrV4}
use recentip.State.{RuntimeState, ClientSubscription, new_state}
use recentip.State.Keys.{SocketAddrV4-Eq, ServiceKey-Eq, service_key_beq, service_key_eq_of_beq}
use recentip.Tests.Discovery.{config, server, server_at, client_at, service}
use recentip.Subscriptions.Udp.{UdpRequest, handle_subscribe_udp, subscriptions_of, service_of}
use recentip.Subscriptions.UdpPorts.{
  is_tracked, IsTracked, BindsUnused, Outcome, handle_subscribe_udp-Outcome,
}
use recentip.Subscriptions.UdpTracked.{IsKept, handle_subscribe_udp-IsKept}
use recentip.Pool.{
  ConnKey, ConnKey-Eq, conn_key_beq, TcpConnectionPool, TcpCleanupRequest, TcpStream, new,
  enter_cell, try_init, handle_cleanup, close_endpoints, send, send_on, TcpConnectionState,
}
use recentip.Client.{allocate_tcp_conn_key, next_free}
use recentip.Subscriptions.Tcp.{
  PendingKeys, TcpRequest, TcpTask, start_subscribe_tcp, apply_update, failed,
}
use recentip.Subscriptions.TcpKeys
use recentip.TcpServer
use recentip.TcpServer.{TcpServer, accept_connection, cleanup, task_ended, route}
use recentip.TcpServer.Latest
use recentip.Pool.Ids.{Steps, here, next, entered, connected, cleaned, holders}
use recentip.Pool.Cleanup.{handle_cleanup-stale, handle_cleanup-current}
use recentip.Pool.Closed.{is_closed, get-close_endpoints}
use recentip.Pool.Kept.{Sparing, stay, step, send-once}

-- A subscription on the RPC port.
abbrev subscribed : ClientSubscription
subscribed = record {
  subscription_id = 1;
  eventgroup_id = 7;
  events_tx = 3;
  local_endpoint = server_at 40000;
  transport = Transport.udp;
  has_dedicated_socket = false;
  tcp_conn_key = 0;
}

abbrev subscriber : RuntimeState
subscriber = record (new_state 30490 (server_at 40000) config) {
  subscriptions = (service, subscribed ∷ []) ∷ [];
  subscription_endpoint_usage = (40000, service_of service ∷ []) ∷ [];
  next_subscription_id = 2;
}

abbrev request : UdpRequest
request = record {
  key = service;
  eventgroup_ids = 8 ∷ 9 ∷ [];
  events_tx = 4;
  response = 5;
  sd_endpoint = client_at 30490;
  local_port = PortSpec.any;
}

-- New sockets get port 50001.
abbrev bind : ℕ → Option ℕ
bind wanted = some 50001

bind-BindsUnused : BindsUnused bind subscriber.subscription_endpoint_usage
bind-BindsUnused wanted port e = let same : 50001 ≡ port = ap (or_default 0) e in rw (sym same) refl

subscriber-IsTracked : IsTracked subscriber
subscriber-IsTracked key = elim (Bool-cases (service_key_beq service key)) [
  | inl hit ↦
      subst
        (λ k.
          all_of (is_tracked subscriber.subscription_endpoint_usage (service_of k))
            (subscriptions_of subscriber k)
          ≡ true)
        (service_key_eq_of_beq service key hit) refl
  | inr miss ↦ rw miss refl
]

handle_subscribe_udp-Outcome_example :
    Outcome request
      (handle_subscribe_udp bind 0 request subscriber).0
      subscriber
      (handle_subscribe_udp bind 0 request subscriber).1
handle_subscribe_udp-Outcome_example =
    handle_subscribe_udp-Outcome bind 0 request subscriber ((λ e. cc), refl, tt)
      subscriber-IsTracked bind-BindsUnused

handle_subscribe_udp-IsKept_example : IsKept (handle_subscribe_udp bind 0 request subscriber).1
handle_subscribe_udp-IsKept_example =
    handle_subscribe_udp-IsKept bind 0 request subscriber
      (((λ e. cc), refl, tt), subscriber-IsTracked)

-- A peer that can be reached.
abbrev net : TcpStream
net = record {
  connect = λ target. some (server_at 50000);
  connect_from = λ source target. some source;
}

abbrev peer : SocketAddrV4
peer = client_at 30501

abbrev key : ConnKey
key = (peer, 1)

-- The pool after a subscription has connected, and after that connection has ended.
abbrev connected_pool : TcpConnectionPool
connected_pool = (try_init (enter_cell new key) net key server PortSpec.any).1

abbrev first_end : TcpCleanupRequest
first_end = record { key = key; connection_id = 1 }

abbrev ended_pool : TcpConnectionPool
ended_pool = handle_cleanup connected_pool first_end

abbrev reconnected_pool : TcpConnectionPool
reconnected_pool = (try_init (enter_cell ended_pool key) net key server PortSpec.any).1

connected-Steps : Steps new connected_pool
unfolding enter_cell
connected-Steps =
    next (next here (entered key refl)) (connected net key server PortSpec.any (omega arith) refl)

ended-Steps : Steps ended_pool reconnected_pool
unfolding enter_cell try_init handle_cleanup
ended-Steps =
    next (next here (entered key refl)) (connected net key server PortSpec.any (omega arith) refl)

ended-unheld : holders 1 ended_pool.connections ≡ 0
unfolding holders enter_cell try_init handle_cleanup
ended-unheld = refl

ended-passed : 1 < ended_pool.next_connection_id
unfolding enter_cell try_init handle_cleanup
ended-passed = omega arith

connected-there :
    get connected_pool.connections key
    ≡ some (some (record { local_addr = server_at 50000; connection_id = 1 }))
unfolding enter_cell try_init
connected-there = refl

handle_cleanup-stale_example : handle_cleanup reconnected_pool first_end ≡ reconnected_pool
handle_cleanup-stale_example =
    handle_cleanup-stale ended_pool reconnected_pool first_end ended-Steps ended-passed ended-unheld

handle_cleanup-current_example :
    let after = (handle_cleanup connected_pool first_end).connections in
    (holders 1 after ≡ 0)
    × ((other : ConnKey)
        → get after other
          ≡ (if conn_key_beq key other then none else get connected_pool.connections other))
handle_cleanup-current_example =
    handle_cleanup-current connected_pool first_end
      (record { local_addr = server_at 50000; connection_id = 1 }) connected-Steps connected-there
      refl

get-close_endpoints_example : get (close_endpoints connected_pool (peer ∷ [])).connections key ≡ (
    if is_closed (get connected_pool.connections key) peer (peer ∷ [])
    then none
    else get connected_pool.connections key)
get-close_endpoints_example = get-close_endpoints connected_pool (peer ∷ []) key connected-Steps

abbrev open_channel : ℕ → Bool
open_channel id = false

-- A second subscription's slot is opened, and the cleanup request of an earlier connection comes in.
abbrev used_pool : TcpConnectionPool
used_pool =
    handle_cleanup (enter_cell connected_pool (peer, 2)) (record { key = key; connection_id = 7 })

used-Sparing : Sparing key 1 connected_pool used_pool
used-Sparing =
    step (step stay (entered (peer, 2) refl) tt)
      (cleaned (record { key = key; connection_id = 7 }) refl) (inr (λ e. omega arith))

send-once_example :
    (get used_pool.connections key
      ≡ some (some (record { local_addr = server_at 50000; connection_id = 1 })))
    × ((j : ℕ) × (used : TcpConnectionState) × (get used_pool.connections (peer, j)
          ≡ some (some used))
        × (send used_pool net open_channel peer ≡ (send_on open_channel used, used_pool)))
send-once_example =
    send-once connected_pool used_pool net open_channel peer 1
      (record { local_addr = server_at 50000; connection_id = 1 }) connected-Steps connected-there
      used-Sparing

-- A peer that has connected twice from one address: the first connection ends late.
abbrev once : TcpServer
once = accept_connection TcpServer.new peer

abbrev again : TcpServer
again = task_ended (cleanup (accept_connection once peer) peer 1) peer

once-Reached : Latest.Reached (1 ∷ []) once
unfolding accept_connection
once-Reached = Latest.accepted peer 1 Latest.begun (omega arith) refl

again-Steps : Latest.Steps peer (1 ∷ []) (accept_connection once peer) again
again-Steps =
    Latest.next (Latest.next Latest.here (Latest.cleaned peer 1 (inr refl) refl))
      (Latest.ended peer refl)

second_connection : get (accept_connection once peer).client_senders peer ≡ some 2
unfolding accept_connection
second_connection = refl

once-counter : once.next_conn_id + 1 < 2 ^ 64
unfolding accept_connection
once-counter = omega arith

route-latest_example :
    (route again open_channel peer (7 ∷ [])).sent ≡ again.sent ++ (2, 7 ∷ []) ∷ []
route-latest_example =
    Latest.route-latest (1 ∷ []) once again peer 2 open_channel (7 ∷ []) once-Reached once-counter
      second_connection again-Steps refl

-- Two subscriptions of a service connect at the same time, and the second fails.
abbrev tcp_request : TcpRequest
tcp_request = record {
  key = service;
  eventgroup_ids = 8 ∷ [];
  events_tx = 4;
  response = 5;
  sd_endpoint = client_at 30490;
  remote_endpoint = peer;
  local_port = PortSpec.any;
}

abbrev no_keys : PendingKeys
no_keys _ = []

abbrev first_started : TcpTask × PendingKeys × RuntimeState
first_started = start_subscribe_tcp tcp_request no_keys subscriber

abbrev second_started : TcpTask × PendingKeys × RuntimeState
second_started = start_subscribe_tcp tcp_request first_started.1 first_started.2

abbrev second_failed : TcpKeys.Loop
second_failed = apply_update 0 (failed second_started.0) second_started.1 second_started.2

keys-apart : (second_started.0.conn_key == first_started.0.conn_key) ≡ false
unfolding start_subscribe_tcp allocate_tcp_conn_key next_free
keys-apart = refl

failed-Steps :
    TcpKeys.Steps service first_started.0.conn_key (first_started.1, first_started.2) second_failed
failed-Steps =
    TcpKeys.next (TcpKeys.next TcpKeys.here (TcpKeys.started tcp_request refl))
      (TcpKeys.updated 0 (failed second_started.0) (inr keys-apart) refl)

conn_key-IsReserved_example :
    TcpKeys.IsReserved service first_started.0.conn_key second_failed
    × ((start_subscribe_tcp tcp_request second_failed.0 second_failed.1).0.conn_key
        ≢ first_started.0.conn_key)
conn_key-IsReserved_example =
    TcpKeys.conn_key-IsReserved tcp_request tcp_request no_keys subscriber second_failed
      failed-Steps refl
