-- ===== src/Subscriptions.antt =====
-- src/runtime/state.rs, src/runtime/sd.rs and src/runtime/client.rs: the client's side of
-- subscriptions, from the command to the answer of the server and to the end.
pub mod Acks
pub mod Answers
pub mod Refused
pub mod Verdict
pub mod Subscribed
pub mod Udp
pub mod UdpPorts
pub mod UdpRecorded
pub mod UdpTracked
pub mod Tcp
pub mod TcpKeys
use recentip.Prelude.{
  ℕ, ◌+◌, ◌==◌, ◌&&◌, ltb, Bool, true, not, if◌then◌else◌, List, [], ◌∷◌, ◌++◌, Option, none, some,
  length, map, ◌%◌, ◌^◌,
}
use recentip.Prelude.Maps.{
  Map, get, insert, remove, modify, any_of, all_of, filter, find, or_default,
}
use recentip.Config.{Transport, udp, contains}
use recentip.Wire.SdOption.{SocketAddrV4}
use recentip.Client.{unregister_subscription_endpoint}
use recentip.Sd.{ServiceKey, build_subscribe_message_multi, build_unsubscribe_message}
use recentip.State.Keys.{
  PendingSubscriptionKey, MultiEventgroupSubscriptionKey, ServiceKey-Eq, PendingSubscriptionKey-Eq,
  MultiEventgroupSubscriptionKey-Eq,
}
use recentip.State.{
  RuntimeState, ClientSubscription, PendingSubscription, MultiEventgroupSubscription, accepted,
  rejected, answer, sd_flags, queue_unicast_sd,
}

abbrev pub pending_key : ServiceKey → (eventgroup_id : ℕ) → PendingSubscriptionKey
pending_key key eventgroup_id = record {
  service_id = key.service_id;
  instance_id = key.instance_id;
  major_version = key.major_version;
  eventgroup_id = eventgroup_id;
}

abbrev pub multi_key : ServiceKey → (subscription_id : ℕ) → MultiEventgroupSubscriptionKey
multi_key key subscription_id = record {
  service_id = key.service_id;
  instance_id = key.instance_id;
  major_version = key.major_version;
  subscription_id = subscription_id;
}

-- `wrapping_add(1)` on a u64.
unfoldable pub next_subscription_id : RuntimeState → ℕ × RuntimeState
next_subscription_id self = (
  self.next_subscription_id,
  record self { next_subscription_id = (self.next_subscription_id + 1) % 2 ^ 64 },
)

-- What the subscribe paths pass on.
pub record NewSubscription : Type 0 where
  pub subscription_id : ℕ
  pub events_tx : ℕ
  pub response : ℕ
  pub endpoint : SocketAddrV4
  pub has_dedicated_socket : Bool
  pub tcp_conn_key : ℕ
  pub transport : Transport

abbrev pub client_subscription : NewSubscription → (eventgroup_id : ℕ) → ClientSubscription
client_subscription new eventgroup_id = record {
  subscription_id = new.subscription_id;
  eventgroup_id = eventgroup_id;
  events_tx = new.events_tx;
  local_endpoint = new.endpoint;
  transport = new.transport;
  has_dedicated_socket = new.has_dedicated_socket;
  tcp_conn_key = new.tcp_conn_key;
}

-- Step 3: the pending subscriptions, and the eventgroups that nobody waits for yet. `response_opt` is
-- taken by the first of them.
unfoldable pub track_pending :
    ServiceKey
    → (subscription_id : ℕ) → (response_opt : Option ℕ) → List ℕ
    → Map PendingSubscriptionKey (List PendingSubscription)
    → List ℕ × Map PendingSubscriptionKey (List PendingSubscription)
track_pending key id response_opt [] pending = ([], pending)
track_pending key id response_opt (eg ∷ egs) pending =
    let pending_list = or_default [] (get pending (pending_key key eg)) in
    let (later, pending') = track_pending key id none egs (
      insert pending (pending_key key eg)
        (pending_list ++ record { subscription_id = id; response = response_opt } ∷ [])) in
    (elim pending_list [ [] ↦ eg ∷ later | x ∷ xs ↦ later ], pending')

unfoldable pub record_subscription_state :
    RuntimeState → ServiceKey → List ℕ → NewSubscription → List ℕ × RuntimeState
unfolding track_pending
record_subscription_state self key eventgroup_ids new =
    let subs = or_default [] (get self.subscriptions key) in
    let is_multi = ltb 1 (length eventgroup_ids) in
    let multi_sub : MultiEventgroupSubscription = record {
      eventgroup_ids = eventgroup_ids;
      acked_eventgroups = [];
      response = some new.response;
    } in
    let multi =
      if is_multi
      then insert self.multi_eventgroup_subscriptions (multi_key key new.subscription_id) multi_sub
      else self.multi_eventgroup_subscriptions in
    let (to_subscribe, pending) =
      track_pending key new.subscription_id (if is_multi then none else some new.response)
        eventgroup_ids self.pending_subscriptions in
    (
      to_subscribe,
      record self {
        subscriptions =
            insert self.subscriptions key (subs ++ map (client_subscription new) eventgroup_ids);
        multi_eventgroup_subscriptions = multi;
        pending_subscriptions = pending;
      },
    )

unfoldable pub complete_udp_subscription :
    (now : ℕ)
    → RuntimeState
    → ServiceKey
    → List ℕ
    → NewSubscription
    → (sd_endpoint : SocketAddrV4) → RuntimeState
unfolding record_subscription_state sd_flags queue_unicast_sd
complete_udp_subscription now state key eventgroup_ids new sd_endpoint =
    let (to_subscribe, state') =
      record_subscription_state state key eventgroup_ids
        (record new { tcp_conn_key = 0; transport = udp }) in
    elim to_subscribe [
      | [] ↦ state'
      | eg ∷ egs ↦
          queue_unicast_sd now state'
            (build_subscribe_message_multi key.service_id key.instance_id key.major_version
              (eg ∷ egs) new.endpoint new.endpoint.port (sd_flags state' true)
              state'.config.subscribe_ttl udp)
            sd_endpoint
    ]

abbrev pub is_entry_of : (subscription_id eventgroup_id : ℕ) → ClientSubscription → Bool
is_entry_of id eg s = s.subscription_id == id && s.eventgroup_id == eg

-- The message that ends a subscription at the server, if the service is known.
unfoldable pub send_unsubscribe :
    (now : ℕ) → ServiceKey → (eventgroup_id : ℕ) → ClientSubscription → RuntimeState → RuntimeState
unfolding queue_unicast_sd sd_flags
send_unsubscribe now key eg removed state = elim (get state.discovered key) [
  | none ↦ state
  | some service ↦
      queue_unicast_sd now state
        (build_unsubscribe_message key.service_id key.instance_id key.major_version eg
          (record { ip = state.config.unicast_ip; port = removed.local_endpoint.port })
          removed.local_endpoint.port (sd_flags state true) removed.transport)
        service.sd_endpoint
]

-- `client::handle_unsubscribe`
unfoldable pub handle_unsubscribe :
    (now : ℕ) → ServiceKey → (eventgroup_id subscription_id : ℕ) → RuntimeState → RuntimeState
unfolding send_unsubscribe
handle_unsubscribe now key eg id state = elim (get state.subscriptions key) [
  | none ↦ state
  | some subs ↦
      let remaining = filter (λ s. not (is_entry_of id eg s)) subs in
      let stored : RuntimeState = record state {
        subscriptions = insert state.subscriptions key remaining;
      } in
      elim (find (is_entry_of id eg) subs) [
        | none ↦ stored
        | some removed ↦
            let port = removed.local_endpoint.port in
            let freed : RuntimeState =
              if any_of (λ s. s.local_endpoint.port == port) remaining
              then stored
              else record stored {
                subscription_endpoint_usage =
                    unregister_subscription_endpoint stored.subscription_endpoint_usage port
                      (key.service_id, key.instance_id);
              } in
            if any_of (λ s. s.eventgroup_id == eg) remaining
            then freed
            else send_unsubscribe now key eg removed freed
      ]
]
