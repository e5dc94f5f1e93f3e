-- ===== src/Tests/Discovery.antt =====
-- The theorems on the event loop, on subscriptions and on calls at concrete inputs.
use recentip.Prelude.{ℕ, ◌≡◌, ◌≤◌, inl, inr, refl, true, List, [], ◌∷◌, ◌++◌, some, none, arith}
use recentip.Wire.SdEntry.{SdEntry, SdEntryType}
use recentip.Wire.SdOption.{Ipv4Addr, SocketAddrV4}
use recentip.Wire.SdMessage.{SdMessage}
use recentip.Config.{Transport, OfferedEndpoints, contains, new_method_config}
use recentip.Sd.{
  ServiceKey, OfferedService, matches, build_offer_message, build_subscribe_message_multi,
}
use recentip.State.{
  RuntimeConfig, RuntimeState, new_state, DiscoveredService, ServerSubscription, Action, send_sd,
  emit_sd_event, notify_found, service_expired,
}
use recentip.State.Keys.{SubscriberKey}
use recentip.Cluster.{cluster_sd_actions}
use recentip.Cluster.Merge.{IsValid}
use recentip.Cluster.Targets
use recentip.Subscribers.{handle_unsubscribe_request}
use recentip.Subscribers.Accept
use recentip.Subscribers.Withdraw
use recentip.Wire.SdMessage.Endpoint.{
  get_udp_endpoint, get_tcp_endpoint, get_endpoint_with_protocol, scan_run,
}
use recentip.Discovery.{offered_endpoints, handle_find, handle_offer, found_requests}
use recentip.Discovery.Found
use recentip.EventLoop.{handle_periodic}
use recentip.EventLoop.Periodic
use recentip.Subscriptions.{NewSubscription, record_subscription_state}
use recentip.Subscriptions.Verdict
use recentip.Subscriptions.Subscribed
use recentip.Peer.{handle_peer_reboot}
use recentip.Peer.Reboot

abbrev pub server : Ipv4Addr
server = record { a = 10; b = 0; c = 0; d = 1 }

abbrev pub client : Ipv4Addr
client = record { a = 10; b = 0; c = 0; d = 2 }

abbrev pub server_at : ℕ → SocketAddrV4
server_at p = record { ip = server; port = p }

abbrev pub client_at : ℕ → SocketAddrV4
client_at p = record { ip = client; port = p }

abbrev pub service : ServiceKey
service = record { service_id = 0x1234; instance_id = 1; major_version = 1 }

abbrev pub offered_service : OfferedService
offered_service = record {
  major_version = 1;
  minor_version = 0;
  last_offer = 0;
  udp_endpoint = some (server_at 30501);
  udp_transport = some 1;
  tcp_endpoint = some (server_at 30502);
  tcp_transport = some 2;
  method_config = new_method_config;
  is_announcing = true;
}

abbrev known_service : DiscoveredService
known_service = record {
  offered_endpoints = OfferedEndpoints.udp_only (client_at 30501);
  sd_endpoint = client_at 30490;
  minor_version = 0;
  ttl_expires = 5000;
}

abbrev pub config : RuntimeConfig
config = record {
  unicast_ip = server;
  sd_multicast_addr = record { ip = record { a = 239; b = 255; c = 255; d = 250 }; port = 30490 };
  offer_ttl = 3600;
  find_ttl = 3600;
  subscribe_ttl = 3600;
  cyclic_offer_delay = 1000;
}

abbrev subscribed_key : SubscriberKey
subscribed_key = record {
  service_id = 0x1234;
  instance_id = 1;
  major_version = 1;
  eventgroup_id = 7;
}

abbrev subscriber : ServerSubscription
subscriber = record { endpoint = client_at 4000; transport = Transport.udp; expires_at = some 5000 }

-- A node that offers a service to one subscriber, and knows a service of that subscriber's node.
abbrev pub node : RuntimeState
node =
    record (new_state 30490 (record { ip = record { a = 10; b = 0; c = 0; d = 1 }; port = 40000 })
      config) {
        client_id = 1;
        offered = (service, offered_service) ∷ [];
        discovered = (service, known_service) ∷ [];
        server_subscribers = (subscribed_key, subscriber ∷ []) ∷ [];
      }

abbrev pub offer : SdMessage
offer = build_offer_message service offered_service 0xc0 3600 server

abbrev actions : List Action
actions =
    send_sd offer (client_at 30490)
    ∷ emit_sd_event (service_expired 1 2)
    ∷ send_sd offer (client_at 30490)
    ∷ []

offer-IsValid : IsValid offer
unfolding build_offer_message
offer-IsValid = ((inr (omega arith), inl refl), tt)

few_options : Targets.total_options (offer ∷ offer ∷ []) ≤ 256
unfolding build_offer_message
few_options = omega arith

cluster_sd_actions-Clustered_example :
    Targets.Clustered
      (Targets.sent_to (client_at 30490) actions)
      (Targets.sent_to (client_at 30490) (cluster_sd_actions actions))
    × (Targets.others (cluster_sd_actions actions) ≡ Targets.others actions)
cluster_sd_actions-Clustered_example =
    Targets.cluster_sd_actions-Clustered actions (client_at 30490)
      (offer-IsValid, (offer-IsValid, tt)) few_options

abbrev pub request : SdMessage
request =
    build_subscribe_message_multi 0x1234 1 1 (7 ∷ 8 ∷ []) (client_at 0) 4000 0xc0 5 Transport.udp

abbrev pub request_entry : SdEntry
request_entry = record {
  entry_type = SdEntryType.subscribe_eventgroup;
  index_1st_option = 0;
  index_2nd_option = 0;
  num_options_1 = 1;
  num_options_2 = 0;
  service_id = 0x1234;
  instance_id = 1;
  major_version = 1;
  ttl = 5;
  minor_version = 0;
  counter = 0;
  eventgroup_id = 8;
}

handle_unsubscribe_request-Outcome_example :
    Withdraw.Outcome request_entry request true node
      (handle_unsubscribe_request request_entry request true node)
handle_unsubscribe_request-Outcome_example =
    Withdraw.handle_unsubscribe_request-Outcome request_entry request true node

handle_peer_reboot-Rebooted_example : Reboot.Rebooted client node (handle_peer_reboot client node).1
handle_peer_reboot-Rebooted_example =
    Reboot.handle_peer_reboot-Rebooted client node (refl, tt) tt (refl, tt)

abbrev offer_entry : SdEntry
offer_entry = record {
  entry_type = SdEntryType.offer_service;
  index_1st_option = 0;
  index_2nd_option = 0;
  num_options_1 = 2;
  num_options_2 = 0;
  service_id = 0x1234;
  instance_id = 1;
  major_version = 1;
  ttl = 3600;
  minor_version = 0;
  counter = 0;
  eventgroup_id = 0;
}

-- A node that knows no service.
abbrev stranger : RuntimeState
stranger = record node { discovered = [] }

abbrev anywhere : ServiceKey
anywhere = record { service_id = 0x1234; instance_id = 0xffff; major_version = 0xff }

abbrev offered_both : OfferedEndpoints
offered_both = OfferedEndpoints.both (server_at 30501) (server_at 30502)

offer_found : offered_endpoints offer offer_entry ≡ some offered_both
unfolding offered_endpoints build_offer_message get_udp_endpoint get_tcp_endpoint
    get_endpoint_with_protocol scan_run
offer_found = refl

offer_sought : matches anywhere service ≡ true
unfolding matches
offer_sought = refl

handle_offer-find_example :
    let (found, asked, waiting) = handle_find 0 anywhere 5 stranger in
    let (acts, s') = handle_offer 10 offer_entry offer (server_at 30490) waiting in
    (found ≡ none)
    × (rest : List Action) × (acts ≡ notify_found service offered_both (server_at 30490) ∷ rest)
    × (contains (found_requests s'.find_requests service) 5 ≡ true)
handle_offer-find_example =
    Found.handle_offer-find 0 10 anywhere 5 stranger offer_entry offer (server_at 30490)
      offered_both refl offer_found offer_sought

handle_periodic-Current_example : Periodic.Current 6000 node (handle_periodic 6000 node).1
handle_periodic-Current_example = Periodic.handle_periodic-Current 6000 node (refl, tt) (refl, tt)

abbrev new_subscription : NewSubscription
new_subscription = record {
  subscription_id = 1;
  events_tx = 3;
  response = 4;
  endpoint = client_at 4000;
  has_dedicated_socket = true;
  tcp_conn_key = 0;
  transport = Transport.udp;
}

abbrev replies : List Verdict.Reply
replies = Verdict.ack 8 ∷ Verdict.ack 8 ∷ Verdict.nack 7 ∷ Verdict.ack 7 ∷ []

subscription_verdict_example :
    (Verdict.after_replies service replies
      (record_subscription_state node service (7 ∷ 8 ∷ []) new_subscription).1).answers
    ≡ [] ++ Verdict.tell 4 (Verdict.verdict (7 ∷ 8 ∷ []) [] 1 replies)
subscription_verdict_example =
    Subscribed.subscription_verdict node service (7 ∷ 8 ∷ []) new_subscription replies refl
      (refl, (refl, tt)) (λ eg. refl)
