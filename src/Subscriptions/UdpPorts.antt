-- ===== src/Subscriptions/UdpPorts.antt =====
-- src/runtime/client.rs and src/runtime/state.rs: which ports the UDP subscriptions of a service get.
use recentip.Prelude.{
  ℕ, ◌≡◌, refl, ap, subst, ◌∙◌, ◌==◌, ◌||◌, ◌&&◌, Bool, true, false, not, List, [], ◌∷◌, ◌++◌,
  Option, none, some, arith, inl, inr, Bool-cases, Option-cases, map,
}
use recentip.Prelude.Maps.{get, get-insert, any_of, all_of, or_default, nat_beq_refl}
use recentip.Config.{PortSpec, any, fixed, udp}
use recentip.Client.{
  Usage, Service, lookup, port_used_by, find_existing_port_for_spec, register_subscription_endpoint,
}
use recentip.Client.Endpoints.{
  IsMap, Reusable, find_reusable_subscription_endpoint-Reusable, port_used_by-register,
}
use recentip.Sd.{ServiceKey}
use recentip.State.Keys.{ServiceKey-Eq, service_key_beq_refl, transport_beq}
use recentip.State.{RuntimeState, ClientSubscription}
use recentip.Subscriptions.{NewSubscription, client_subscription, next_subscription_id}
use recentip.Subscriptions.Udp.{
  SubscribeReply, pending, addr_in_use, io_failed, UdpRequest, service_of, subscriptions_of,
  is_nonempty, is_owned, udp_subscription, existing_port, spawn_port, subscribe_at, subscribe_on,
  handle_subscribe_udp,
}
use recentip.Subscriptions.UdpRecorded.{record-subscriptions, record-usage, complete_recorded}

-- A UDP subscription that gets its events on a port.
abbrev pub is_at : (port : ℕ) → ClientSubscription → Bool
is_at port s = transport_beq s.transport udp && s.local_endpoint.port == port

abbrev pub is_tracked : Usage → Service → ClientSubscription → Bool
is_tracked usage service s =
    not (transport_beq s.transport udp) || port_used_by usage s.local_endpoint.port service

-- Every UDP subscription of a service is registered for its port.
abbrev pub IsTracked : RuntimeState → Type 0
IsTracked state =
    (key : ServiceKey)
    → all_of (is_tracked state.subscription_endpoint_usage (service_of key))
        (subscriptions_of state key)
      ≡ true

-- A port that the service is not registered for has none of its subscriptions.
unused_port :
    (usage : Usage) (service : Service) (port : ℕ) (subs : List ClientSubscription)
    → all_of (is_tracked usage service) subs ≡ true
    → port_used_by usage port service ≡ false
    → any_of (is_at port) subs ≡ false
unused_port usage service port [] all free = refl
unused_port usage service port (s ∷ subs) all free = elim (Bool-cases (is_at port s)) [
  | inl at ↦
      let same : s.local_endpoint.port ≡ port = ground arith in
      absurd (ground (arith, rw same at all))
  | inr other ↦ rw other (unused_port usage service port subs (ground arith) free)
]

existing_port-unused :
    (spec : PortSpec) (usage : Usage) (rpc_port : ℕ) (service : Service) (port : ℕ)
    → IsMap usage
    → is_owned true spec usage service ≡ false
    → existing_port true spec usage rpc_port service ≡ some port
    → port_used_by usage port service ≡ false
unfolding existing_port find_existing_port_for_spec
existing_port-unused any usage rpc_port service port m owned found =
    let r = find_reusable_subscription_endpoint-Reusable usage rpc_port service m in
    (subst (λ o. Reusable usage rpc_port service o) found r).0
existing_port-unused (fixed p) usage rpc_port service port m owned found =
    elim (Option-cases (lookup p usage)) [
      | inl absent ↦ absurd (cc (rw (existing_port, find_existing_port_for_spec, absent) at found))
      | inr (services, there) ↦
          let same : p ≡ port =
            ap (or_default p) (rw (existing_port, find_existing_port_for_spec, there) at found) in
          subst (λ q. port_used_by usage q service ≡ false) same owned
    ]

-- A socket that is there and that a request gets is at none of the ports of its service.
existing_port-free :
    (subs : List ClientSubscription) (spec : PortSpec) (usage : Usage) (rpc_port : ℕ)
    (service : Service) (port : ℕ)
    → IsMap usage
    → all_of (is_tracked usage service) subs ≡ true
    → is_owned (is_nonempty subs) spec usage service ≡ false
    → existing_port (is_nonempty subs) spec usage rpc_port service ≡ some port
    → any_of (is_at port) subs ≡ false
existing_port-free [] spec usage rpc_port service port m all owned found = refl
existing_port-free (s ∷ subs) spec usage rpc_port service port m all owned found =
    unused_port usage service port (s ∷ subs) all
      (existing_port-unused spec usage rpc_port service port m owned found)

-- The documented behaviour of `bind`: no subscription has the port of a new socket.
abbrev pub BindsUnused : (bind : ℕ → Option ℕ) → Usage → Type 0
BindsUnused bind usage = (wanted port : ℕ) → bind wanted ≡ some port → lookup port usage ≡ none

spawn_port-unused :
    (bind : ℕ → Option ℕ) (spec : PortSpec) (usage : Usage) (service : Service) (port : ℕ)
    → BindsUnused bind usage
    → spawn_port bind spec ≡ some port
    → port_used_by usage port service ≡ false
spawn_port-unused bind any usage service port b e = rw (port_used_by, b 0 port e) refl
spawn_port-unused bind (fixed p) usage service port b e = rw (port_used_by, b p port e) refl

-- What a request comes to: its eventgroups are added to the service's subscriptions, on a port that
-- none of them had and that the service is registered for, under the next id; or nothing is added.
abbrev pub Outcome : UdpRequest → SubscribeReply → (before after : RuntimeState) → Type 0
Outcome r pending before after =
    (new : NewSubscription) × (new.subscription_id ≡ before.next_subscription_id)
    × (subscriptions_of after r.key
        ≡ subscriptions_of before r.key ++ map (client_subscription new) r.eventgroup_ids)
    × (any_of (is_at new.endpoint.port) (subscriptions_of before r.key) ≡ false)
    × (port_used_by after.subscription_endpoint_usage new.endpoint.port (service_of r.key) ≡ true)
Outcome r addr_in_use before after = after.subscriptions ≡ before.subscriptions
Outcome r io_failed before after = after.subscriptions ≡ before.subscriptions

subscribe_at-Outcome :
    (now : ℕ) (r : UdpRequest) (port : ℕ) (dedicated : Bool) (before : RuntimeState)
    → any_of (is_at port) (subscriptions_of before r.key) ≡ false
    → let (id, state) = next_subscription_id before in
      Outcome r pending before (subscribe_at now r id port dedicated state)
unfolding subscribe_at next_subscription_id
subscribe_at-Outcome now r port dedicated before free =
    let (id, state) = next_subscription_id before in
    let new = udp_subscription r id port dedicated state in
    let usage =
      register_subscription_endpoint before.subscription_endpoint_usage port (service_of r.key) in
    let registered : RuntimeState = record state { subscription_endpoint_usage = usage } in
    let (subs, ports) = complete_recorded now registered r.key r.eventgroup_ids new r.sd_endpoint in
    (
      new,
      refl,
      ap (λ m. or_default [] (get m r.key))
            (subs ∙ record-subscriptions registered r.key r.eventgroup_ids new)
          ∙ rw
              (
                get-insert before.subscriptions r.key r.key (
                    subscriptions_of before r.key
                    ++ map (client_subscription new) r.eventgroup_ids),
                service_key_beq_refl r.key,
              )
              refl,
      free,
      ap (λ u. port_used_by u port (service_of r.key))
            (ports ∙ record-usage registered r.key r.eventgroup_ids new)
          ∙ rw
              (
                port_used_by-register before.subscription_endpoint_usage port port
                    (service_of r.key) (service_of r.key),
                nat_beq_refl port,
                nat_beq_refl r.key.service_id,
                nat_beq_refl r.key.instance_id,
              )
              refl,
    )

-- Over UDP, the subscriptions of one service never share a port with a later one: let each port have one
-- entry in the map of ports, every UDP subscription be registered for its port, and a new socket have a
-- port that the map does not have. A request that is not answered with an error at once adds its
-- eventgroups to the subscriptions of its service, under the next id and on one port, which no
-- subscription of the service had and for which the service is registered afterwards; one that is leaves
-- the subscriptions as they are.
pub handle_subscribe_udp-Outcome :
    (bind : ℕ → Option ℕ) (now : ℕ) (r : UdpRequest) (before : RuntimeState)
    → IsMap before.subscription_endpoint_usage
    → IsTracked before
    → BindsUnused bind before.subscription_endpoint_usage
    → Outcome r
        (handle_subscribe_udp bind now r before).0
        before
        (handle_subscribe_udp bind now r before).1
unfolding handle_subscribe_udp subscribe_on next_subscription_id
handle_subscribe_udp-Outcome bind now r before m t b =
    let subs = subscriptions_of before r.key in
    let usage = before.subscription_endpoint_usage in
    let service = service_of r.key in
    let rpc_port = before.client_rpc_endpoint.port in
    elim (Bool-cases (is_owned (is_nonempty subs) r.local_port usage service)) [
      | inl owned ↦ rw (handle_subscribe_udp, owned) refl
      | inr other ↦
          elim (Option-cases
            (existing_port (is_nonempty subs) r.local_port usage rpc_port service)) [
              | inr (port, found) ↦
                  rw (handle_subscribe_udp, other, found)
                    (subscribe_at-Outcome now r port false before (
                      existing_port-free subs r.local_port usage rpc_port service port m (t r.key)
                        other found))
              | inl none_there ↦ elim (Option-cases (spawn_port bind r.local_port)) [
                | inl failed ↦ rw (handle_subscribe_udp, other, none_there, failed) refl
                | inr (port, made) ↦
                    rw (handle_subscribe_udp, other, none_there, made)
                      (subscribe_at-Outcome now r port true before (
                        unused_port usage service port subs (t r.key)
                          (spawn_port-unused bind r.local_port usage service port b made)))
              ]
            ]
    ]
