-- ===== src/Subscriptions/UdpTracked.antt =====
-- src/runtime/client.rs and src/runtime/state.rs: the map of ports knows every UDP subscription.
use recentip.Prelude.{
  ℕ, ◌≡◌, refl, subst, ◌∙◌, ◌&&◌, Bool, true, false, List, [], ◌∷◌, ◌++◌, Option, arith, inl, inr,
  Bool-cases, Option-cases, map,
}
use recentip.Prelude.Maps.{get-insert, all_of, nat_beq_refl}
use recentip.Client.{Usage, Service, port_used_by, register_subscription_endpoint}
use recentip.Client.Endpoints.{IsMap, port_used_by-register}
use recentip.Sd.{ServiceKey}
use recentip.State.Keys.{ServiceKey-Eq, service_key_beq, service_key_eq_of_beq}
use recentip.State.{RuntimeState, ClientSubscription}
use recentip.Subscriptions.{NewSubscription, client_subscription, next_subscription_id}
use recentip.Subscriptions.Udp.{
  UdpRequest, service_of, subscriptions_of, is_nonempty, is_owned, udp_subscription, existing_port,
  spawn_port, subscribe_at, subscribe_on, handle_subscribe_udp,
}
use recentip.Subscriptions.UdpRecorded.{record-subscriptions, record-usage, complete_recorded}
use recentip.Subscriptions.UdpPorts.{is_tracked, IsTracked}
use recentip.Client.Endpoints.{usage-IsMap}

all_of-append :
    (p : ClientSubscription → Bool) (xs ys : List ClientSubscription)
    → all_of p (xs ++ ys) ≡ (all_of p xs && all_of p ys)
all_of-append p [] ys = refl
all_of-append p (x ∷ xs) ys = ground (arith, all_of-append p xs ys)

register-tracked :
    (usage : Usage) (port : ℕ) (x service : Service) (subs : List ClientSubscription)
    → all_of (is_tracked usage service) subs ≡ true
    → all_of (is_tracked (register_subscription_endpoint usage port x) service) subs ≡ true
register-tracked usage port x service [] h = refl
register-tracked usage port x service (s ∷ subs) h =
    let more = port_used_by-register usage port s.local_endpoint.port x service in
    let rest = register-tracked usage port x service subs (ground arith) in
    rw (more, rest) (ground arith)

added-tracked :
    (usage : Usage) (service : Service) (new : NewSubscription) (egs : List ℕ)
    → port_used_by usage new.endpoint.port service ≡ true
    → all_of (is_tracked usage service) (map (client_subscription new) egs) ≡ true
added-tracked usage service new [] h = refl
added-tracked usage service new (eg ∷ egs) h =
    rw (h, added-tracked usage service new egs h) (ground arith)

-- The two invariants of the map of ports.
abbrev pub IsKept : RuntimeState → Type 0
IsKept state = IsMap state.subscription_endpoint_usage × IsTracked state

subscribe_at-IsKept :
    (now : ℕ) (r : UdpRequest) (id port : ℕ) (dedicated : Bool) (state : RuntimeState)
    → IsKept state
    → IsKept (subscribe_at now r id port dedicated state)
unfolding subscribe_at
subscribe_at-IsKept now r id port dedicated state (m, t) =
    let service = service_of r.key in
    let before = state.subscription_endpoint_usage in
    let usage = register_subscription_endpoint before port service in
    let new = udp_subscription r id port dedicated state in
    let registered : RuntimeState = record state { subscription_endpoint_usage = usage } in
    let (subs, ports) = complete_recorded now registered r.key r.eventgroup_ids new r.sd_endpoint in
    let used : port_used_by usage port service ≡ true =
      rw
        (
          port_used_by-register before port port service service,
          nat_beq_refl port,
          nat_beq_refl r.key.service_id,
          nat_beq_refl r.key.instance_id,
        )
        refl in
    let added = map (client_subscription new) r.eventgroup_ids in
    let with_new = subscriptions_of state r.key ++ added in
    let tracked_before = λ (key : ServiceKey).
      register-tracked before port service (service_of key) (subscriptions_of state key) (t key) in
    let all = subs ∙ record-subscriptions registered r.key r.eventgroup_ids new in
    let kept = ports ∙ record-usage registered r.key r.eventgroup_ids new in
    (
      rw kept ((usage-IsMap before port service m).0),
      λ key.
          rw (kept, all, get-insert state.subscriptions r.key key with_new)
            (elim (Bool-cases (service_key_beq r.key key)) [
              | inl hit ↦ rw hit (
                  subst (λ k. all_of (is_tracked usage (service_of k)) with_new ≡ true)
                    (service_key_eq_of_beq r.key key hit)
                    (rw
                      (
                        all_of-append (is_tracked usage service) (subscriptions_of state r.key)
                            added,
                        tracked_before r.key,
                      )
                      (added-tracked usage service new r.eventgroup_ids used)))
              | inr miss ↦ rw miss (tracked_before key)
            ]),
    )

-- A request keeps the map of ports in order and complete: if each port has one entry, none of them empty,
-- and every UDP subscription is registered for its port, then the same holds after the request, whatever
-- it comes to.
pub handle_subscribe_udp-IsKept :
    (bind : ℕ → Option ℕ) (now : ℕ) (r : UdpRequest) (state : RuntimeState)
    → IsKept state
    → IsKept (handle_subscribe_udp bind now r state).1
unfolding handle_subscribe_udp subscribe_on next_subscription_id
handle_subscribe_udp-IsKept bind now r state kept =
    let subs = subscriptions_of state r.key in
    let usage = state.subscription_endpoint_usage in
    let service = service_of r.key in
    let rpc_port = state.client_rpc_endpoint.port in
    let (id, drawn) = next_subscription_id state in
    elim (Bool-cases (is_owned (is_nonempty subs) r.local_port usage service)) [
      | inl owned ↦ rw (handle_subscribe_udp, owned) kept
      | inr other ↦
          elim (Option-cases
            (existing_port (is_nonempty subs) r.local_port usage rpc_port service)) [
              | inr (port, found) ↦
                  rw (handle_subscribe_udp, other, found)
                    (subscribe_at-IsKept now r id port false drawn kept)
              | inl none_there ↦ elim (Option-cases (spawn_port bind r.local_port)) [
                | inl failed ↦ rw (handle_subscribe_udp, other, none_there, failed) kept
                | inr (port, made) ↦
                    rw (handle_subscribe_udp, other, none_there, made)
                      (subscribe_at-IsKept now r id port true drawn kept)
              ]
            ]
    ]
