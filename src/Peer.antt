-- ===== src/Peer.antt =====
-- src/runtime/event_loop.rs: what the reboot of a peer expires.
pub mod Dropped
pub mod Expired
pub mod Servers
pub mod Reboot
use recentip.Prelude.{
  ℕ, ◌&&◌, ◌||◌, Bool, true, false, not, if◌then◌else◌, List, [], ◌∷◌, ◌++◌, Option, none, some,
}
use recentip.Prelude.Maps.{Map, get, remove, contains_key, any_of, filter, or_default}
use recentip.Config.{Transport, tcp, udp}
use recentip.Wire.SdOption.{Ipv4Addr, SocketAddrV4}
use recentip.Sd.{ServiceKey}
use recentip.Subscriptions.{pending_key}
use recentip.Discovery.{tcp_endpoint_of}
use recentip.State.Keys.{
  SubscriberKey, ServiceKey-Eq, PendingSubscriptionKey-Eq, ip_beq, transport_beq,
}
use recentip.State.{
  RuntimeState, DiscoveredService, ServerSubscription, ClientSubscription, Action,
  reset_peer_tcp_connections,
}

abbrev pub is_from_peer : Ipv4Addr → DiscoveredService → Bool
is_from_peer peer_ip service = ip_beq service.sd_endpoint.ip peer_ip

unfoldable pub services_from : Ipv4Addr → Map ServiceKey DiscoveredService → List ServiceKey
services_from peer_ip [] = []
services_from peer_ip ((key, service) ∷ rest) =
    let later = services_from peer_ip rest in
    if is_from_peer peer_ip service then key ∷ later else later

-- A subscription of the list waits for its answer.
abbrev pub has_pending : RuntimeState → ServiceKey → List ClientSubscription → Bool
has_pending state key subs =
    any_of (λ sub. contains_key state.pending_subscriptions (pending_key key sub.eventgroup_id))
      subs

abbrev pub should_keep : RuntimeState → ServiceKey → Bool
should_keep state key = elim (get state.subscriptions key) [
  | none ↦ false
  | some subs ↦ has_pending state key subs
]

abbrev pub endpoint_list : Option SocketAddrV4 → List SocketAddrV4
endpoint_list none = []
endpoint_list (some ep) = ep ∷ []

-- The body of the loop: whether the service is kept, its TCP endpoint otherwise, and the state.
unfoldable pub expire_service : ServiceKey → RuntimeState → Bool × List SocketAddrV4 × RuntimeState
unfolding tcp_endpoint_of
expire_service key state =
    if should_keep state key then (true, [], state) else elim (get state.discovered key) [
      | none ↦ (false, [], state)
      | some service ↦ (
        false,
        endpoint_list (tcp_endpoint_of service.offered_endpoints),
        record state {
          discovered = remove state.discovered key;
          find_requests = remove state.find_requests key;
          subscriptions = remove state.subscriptions key;
        },
      )
    ]

unfoldable pub expire_services :
    List ServiceKey → RuntimeState → Bool × List SocketAddrV4 × RuntimeState
unfolding expire_service
expire_services [] state = (false, [], state)
expire_services (key ∷ keys) state =
    let (kept, endpoints, state') = expire_service key state in
    let (later_kept, later, state'') = expire_services keys state' in
    (kept || later_kept, endpoints ++ later, state'')

unfoldable pub expire_services_from_rebooted_peer :
    Ipv4Addr → RuntimeState → Bool × List SocketAddrV4 × RuntimeState
unfolding expire_services services_from
expire_services_from_rebooted_peer peer_ip state =
    expire_services (services_from peer_ip state.discovered) state

abbrev pub tcp_ports : Ipv4Addr → List ServerSubscription → List ℕ
tcp_ports peer_ip [] = []
tcp_ports peer_ip (s ∷ subs) =
    let later = tcp_ports peer_ip subs in
    if ip_beq s.endpoint.ip peer_ip && transport_beq s.transport tcp
    then s.endpoint.port ∷ later
    else later

unfoldable pub expired_tcp_ports : Ipv4Addr → Map SubscriberKey (List ServerSubscription) → List ℕ
expired_tcp_ports peer_ip [] = []
expired_tcp_ports peer_ip ((key, subs) ∷ rest) =
    tcp_ports peer_ip subs ++ expired_tcp_ports peer_ip rest

abbrev pub keep_nonempty :
    SubscriberKey
    → List ServerSubscription
    → Map SubscriberKey (List ServerSubscription)
    → Map SubscriberKey (List ServerSubscription)
keep_nonempty key [] rest = rest
keep_nonempty key (s ∷ subs) rest = (key, s ∷ subs) ∷ rest

-- `retain` on each list, and then on the map, of the lists that are not empty.
unfoldable pub retain_subscribers :
    (ServerSubscription → Bool)
    → Map SubscriberKey (List ServerSubscription)
    → Map SubscriberKey (List ServerSubscription)
retain_subscribers keep [] = []
retain_subscribers keep ((key, subs) ∷ rest) =
    keep_nonempty key (filter keep subs) (retain_subscribers keep rest)

unfoldable pub expire_server_subscriptions_from_rebooted_peer :
    Ipv4Addr → RuntimeState → List ℕ × RuntimeState
unfolding retain_subscribers expired_tcp_ports
expire_server_subscriptions_from_rebooted_peer peer_ip state = (
  expired_tcp_ports peer_ip state.server_subscribers,
  record state {
    server_subscribers =
        retain_subscribers (λ s. not (ip_beq s.endpoint.ip peer_ip)) state.server_subscribers;
  },
)

abbrev pub is_expired_client : Ipv4Addr → RuntimeState → ServiceKey → List ClientSubscription → Bool
is_expired_client peer_ip state key subs = elim (get state.discovered key) [
  | none ↦ false
  | some service ↦ is_from_peer peer_ip service && not (has_pending state key subs)
]

unfoldable pub subscriptions_to :
    Ipv4Addr → RuntimeState → Map ServiceKey (List ClientSubscription) → List ServiceKey
subscriptions_to peer_ip state [] = []
subscriptions_to peer_ip state ((key, subs) ∷ rest) =
    let later = subscriptions_to peer_ip state rest in
    if is_expired_client peer_ip state key subs then key ∷ later else later

abbrev pub remove_all :
    List ServiceKey
    → Map ServiceKey (List ClientSubscription)
    → Map ServiceKey (List ClientSubscription)
remove_all [] m = m
remove_all (key ∷ keys) m = remove_all keys (remove m key)

unfoldable pub expire_client_subscriptions_to_rebooted_peer : Ipv4Addr → RuntimeState → RuntimeState
unfolding subscriptions_to
expire_client_subscriptions_to_rebooted_peer peer_ip state = record state {
  subscriptions =
      remove_all (subscriptions_to peer_ip state state.subscriptions) state.subscriptions;
}

-- If a subscription was kept, there is only an action if there is something to close.
unfoldable pub queue_tcp_reset_for_rebooted_peer :
    Ipv4Addr → (has_kept_subscriptions : Bool) → List ℕ → List SocketAddrV4 → List Action
queue_tcp_reset_for_rebooted_peer peer_ip true [] [] = []
queue_tcp_reset_for_rebooted_peer peer_ip kept ports endpoints =
    reset_peer_tcp_connections peer_ip ports endpoints ∷ []

unfoldable pub handle_peer_reboot : Ipv4Addr → RuntimeState → List Action × RuntimeState
unfolding expire_services_from_rebooted_peer expire_server_subscriptions_from_rebooted_peer
    expire_client_subscriptions_to_rebooted_peer queue_tcp_reset_for_rebooted_peer
handle_peer_reboot peer_ip state =
    let (kept, endpoints, state1) = expire_services_from_rebooted_peer peer_ip state in
    let (ports, state2) = expire_server_subscriptions_from_rebooted_peer peer_ip state1 in
    (
      queue_tcp_reset_for_rebooted_peer peer_ip kept ports endpoints,
      expire_client_subscriptions_to_rebooted_peer peer_ip state2,
    )
