-- ===== src/Subscribers/Withdraw.antt =====
-- What the end of a subscription changes.
use recentip.Prelude.{
  ◌≡◌, ◌⊎◌, inl, inr, refl, sym, subst, ◌&&◌, Bool, false, not, if◌then◌else◌, [], ◌∷◌, ◌++◌,
  Option, none, some, arith, Bool-cases, Option-cases,
}
use recentip.Prelude.Maps.{get, filter, modify, get-modify}
use recentip.Config.{Transport}
use recentip.Wire.SdEntry.{SdEntry}
use recentip.Wire.SdOption.{SocketAddrV4}
use recentip.Wire.SdMessage.{SdMessage}
use recentip.Wire.SdMessage.Endpoint.{get_udp_endpoint, get_tcp_endpoint}
use recentip.Sd.{OfferedService}
use recentip.State.Keys.{
  SubscriberKey, ServiceKey-Eq, SubscriberKey-Eq, addr_beq, subscriber_key_beq,
}
use recentip.State.{RuntimeState, ServerSubscription, ServiceRequest, notify_service}
use recentip.Subscribers.{
  service_key, subscriber_key, is_unspecified, compatible, withdraw, handle_unsubscribe_request,
}
use recentip.Subscribers.Held.{held, lookup-filter, subscription}
use recentip.Subscribers.Accept.{
  Refusable, Grantable, Compatible, compatible-Compatible, Grantable-Compatible,
}

-- A withdrawn address is not subscribed, and every other subscription stays.
abbrev pub Withdrawn :
    SdEntry → SocketAddrV4 → Transport → (delivered : Bool) → RuntimeState → RuntimeState → Type 0
Withdrawn e ep t delivered s r =
    ((key : SubscriberKey) (q : SocketAddrV4)
      → subscription r key q ≡ (
          if subscriber_key_beq (subscriber_key e) key && addr_beq ep q
          then none
          else subscription s key q))
    × (r.service_requests ≡ (
        if delivered
        then s.service_requests
          ++ (service_key e, ServiceRequest.unsubscribe e.eventgroup_id ep t) ∷ []
        else s.service_requests))
    × (r.pending_unicast_sd ≡ s.pending_unicast_sd)

subscription-filter :
    (s : RuntimeState) (e : SdEntry) (ep : SocketAddrV4) (key : SubscriberKey) (q : SocketAddrV4)
    → held
        (modify s.server_subscribers
          (subscriber_key e)
          (filter (λ (x : ServerSubscription). not (addr_beq x.endpoint ep))))
        key
        q
      ≡ (if subscriber_key_beq (subscriber_key e) key && addr_beq ep q
          then none
          else subscription s key q)
subscription-filter s e ep key q =
    rw
      (get-modify s.server_subscribers (subscriber_key e) key
        (filter (λ (x : ServerSubscription). not (addr_beq x.endpoint ep))))
      (elim (Bool-cases (subscriber_key_beq (subscriber_key e) key)) [
        | inl hit ↦ rw hit (elim (Option-cases (get s.server_subscribers key)) [
          | inl empty ↦ rw empty (ground arith)
          | inr (subs, there) ↦ rw there (lookup-filter ep q subs)
        ])
        | inr miss ↦ rw miss refl
      ])

withdraw-Withdrawn :
    (e : SdEntry) (ep : SocketAddrV4) (t : Transport) (delivered : Bool) (s : RuntimeState)
    → Withdrawn e ep t delivered s (withdraw e ep t delivered s)
unfolding withdraw notify_service
withdraw-Withdrawn e ep t delivered s =
    let dropped = λ (key : SubscriberKey) (q : SocketAddrV4). subscription-filter s e ep key q in
    elim (Bool-cases delivered) [
      | inl taken ↦ rw taken (dropped, refl, refl)
      | inr full ↦ rw full (dropped, refl, refl)
    ]

abbrev pub Outcome : SdEntry → SdMessage → (delivered : Bool) → RuntimeState → RuntimeState → Type 0
Outcome e m delivered s r =
    (Refusable s e m × (r ≡ s))
    ⊎ ((ep : SocketAddrV4) × (t : Transport) × Grantable s e m ep t
        × Withdrawn e ep t delivered s r)

compatible-Outcome :
    (e : SdEntry) (m : SdMessage) (delivered : Bool) (s : RuntimeState) (o : OfferedService)
    (c : Option (SocketAddrV4 × Transport))
    → get s.offered (service_key e) ≡ some o
    → is_unspecified (get_udp_endpoint m e) ≡ false
    → is_unspecified (get_tcp_endpoint m e) ≡ false
    → compatible o (get_udp_endpoint m e) (get_tcp_endpoint m e) ≡ c
    → Compatible o (get_udp_endpoint m e) (get_tcp_endpoint m e) c
    → Outcome e m delivered s (handle_unsubscribe_request e m delivered s)
unfolding handle_unsubscribe_request
compatible-Outcome e m delivered s o none known u_ok t_ok q c = inl (
  inr (inr (inr (o, known, c.0, c.1))),
  rw (known, u_ok, t_ok, q, handle_unsubscribe_request) refl,
)
compatible-Outcome e m delivered s o (some (ep, t)) known u_ok t_ok q c =
    Outcome_of_withdraw (rw (known, u_ok, t_ok, q, handle_unsubscribe_request) refl)
  where
    Outcome_of_withdraw :
        handle_unsubscribe_request e m delivered s ≡ withdraw e ep t delivered s
        → Outcome e m delivered s (handle_unsubscribe_request e m delivered s)
    Outcome_of_withdraw w = subst (Outcome e m delivered s) (sym w) (
        inr (
          ep,
          t,
          Grantable-Compatible s e m o ep t known u_ok t_ok c,
          withdraw-Withdrawn e ep t delivered s,
        ))

-- The end of a subscription is ignored for the reasons for which a request may be refused, and then
-- nothing changes; otherwise the address that is named for a transport of the service is no longer
-- subscribed, every other subscription stays, the application is told if its channel takes the notice, and
-- no message is sent.
pub handle_unsubscribe_request-Outcome :
    (e : SdEntry) (m : SdMessage) (delivered : Bool) (s : RuntimeState)
    → Outcome e m delivered s (handle_unsubscribe_request e m delivered s)
unfolding handle_unsubscribe_request
handle_unsubscribe_request-Outcome e m delivered s =
    elim (Option-cases (get s.offered (service_key e))) [
      | inl unknown ↦ inl (inr (inr (inl unknown)), rw (unknown, handle_unsubscribe_request) refl)
      | inr (o, known) ↦ elim (Bool-cases (is_unspecified (get_udp_endpoint m e))) [
        | inl bad ↦ inl (inl bad, rw (known, bad, handle_unsubscribe_request) refl)
        | inr u_ok ↦ elim (Bool-cases (is_unspecified (get_tcp_endpoint m e))) [
          | inl bad ↦ inl (inr (inl bad), rw (known, u_ok, bad, handle_unsubscribe_request) refl)
          | inr t_ok ↦
              compatible-Outcome e m delivered s o _ known u_ok t_ok refl
                (compatible-Compatible o (get_udp_endpoint m e) (get_tcp_endpoint m e))
        ]
      ]
    ]
