-- ===== src/Subscribers/Accept.antt =====
-- Which subscriptions a server accepts, what it answers, and what it remembers.
use recentip.Prelude.{
  ℕ, ◌≡◌, ◌≢◌, ◌⊎◌, ◌&&◌, Bool, true, false, not, if◌then◌else◌, [], ◌∷◌, ◌++◌, Option, none, some,
  arith,
}
use recentip.Prelude.Maps.{get, is_some}
use recentip.Config.{Transport, tcp, udp}
use recentip.Wire.SdEntry.{SdEntry}
use recentip.Wire.SdEntry.Create
use recentip.Wire.SdOption.{SocketAddrV4}
use recentip.Wire.SdMessage.{SdMessage}
use recentip.Wire.SdMessage.Endpoint.{get_udp_endpoint, get_tcp_endpoint}
use recentip.Sd.{OfferedService}
use recentip.State.Keys.{
  SubscriberKey, ServiceKey-Eq, SubscriberKey-Eq, addr_beq, subscriber_key_beq,
}
use recentip.State.{send_sd, RuntimeState, ServiceRequest, sd_flags}
use recentip.Subscribers.{service_key, subscriber_key, is_unspecified, compatible, expires_at}
use recentip.Subscribers.Held.{subscription}

-- The queue afterwards: one more message to `from`, with one entry and no option.
abbrev pub Replied : RuntimeState → SdEntry → SocketAddrV4 → RuntimeState → Type 0
Replied s e from r =
    r.pending_unicast_sd
    ≡ s.pending_unicast_sd
      ++ send_sd (record { flags = sd_flags s true; entries = e ∷ []; options = [] }) from ∷ []

abbrev pub nack_of : SdEntry → SdEntry
nack_of e =
    Create.subscribe_eventgroup_nack e.service_id e.instance_id e.major_version e.eventgroup_id
      e.counter

abbrev pub ack_of : SdEntry → SdEntry
ack_of e =
    Create.subscribe_eventgroup_ack e.service_id e.instance_id e.major_version e.eventgroup_id e.ttl
      e.counter

-- The endpoint that a request names for a transport, and the server's own.
abbrev pub requested : SdMessage → SdEntry → Transport → Option SocketAddrV4
requested m e udp = get_udp_endpoint m e
requested m e tcp = get_tcp_endpoint m e

abbrev pub served : OfferedService → Transport → Option SocketAddrV4
served o udp = o.udp_endpoint
served o tcp = o.tcp_endpoint

-- Why a request may be refused: an unspecified address, an unknown service, or no common transport.
abbrev pub Refusable : RuntimeState → SdEntry → SdMessage → Type 0
Refusable s e m =
    (is_unspecified (get_udp_endpoint m e) ≡ true)
    ⊎ (is_unspecified (get_tcp_endpoint m e) ≡ true)
    ⊎ (get s.offered (service_key e) ≡ none)
    ⊎ ((o : OfferedService) × (get s.offered (service_key e) ≡ some o)
        × ((served o udp ≡ none) ⊎ (requested m e udp ≡ none))
        × ((served o tcp ≡ none) ⊎ (requested m e tcp ≡ none)))

-- What is granted: a transport of the service, with the address that the request names for it.
abbrev pub Grantable : RuntimeState → SdEntry → SdMessage → SocketAddrV4 → Transport → Type 0
Grantable s e m ep t =
    (o : OfferedService) × (get s.offered (service_key e) ≡ some o)
    × (served o t ≢ none)
    × (requested m e t ≡ some ep)
    × (is_unspecified (some ep) ≡ false)

-- The two outcomes of a request.
abbrev pub Refused : SdEntry → SocketAddrV4 → RuntimeState → RuntimeState → Type 0
Refused e from s r =
    Replied s (nack_of e) from r
    × (r.server_subscribers ≡ s.server_subscribers)
    × (r.service_requests ≡ s.service_requests)

abbrev pub Accepted :
    (now : ℕ)
    → SdEntry
    → SocketAddrV4
    → SocketAddrV4
    → Transport
    → (delivered : Bool) → RuntimeState
    → RuntimeState
    → Type 0
Accepted now e from ep t delivered s r =
    Replied s (ack_of e) from r
    × ((key : SubscriberKey) (q : SocketAddrV4)
        → subscription r key q ≡ (
            if subscriber_key_beq (subscriber_key e) key && addr_beq ep q
            then some (t, expires_at now e.ttl)
            else subscription s key q))
    × (r.service_requests ≡ (
        if not (is_some (subscription s (subscriber_key e) ep)) && delivered
        then s.service_requests
          ++ (service_key e, ServiceRequest.subscribe e.eventgroup_id ep t) ∷ []
        else s.service_requests))

-- What `compatible` answers.
abbrev pub Compatible :
    OfferedService → (u t : Option SocketAddrV4) → Option (SocketAddrV4 × Transport) → Type 0
Compatible o u t none =
    ((o.udp_endpoint ≡ none) ⊎ (u ≡ none)) × ((o.tcp_endpoint ≡ none) ⊎ (t ≡ none))
Compatible o u t (some (ep, udp)) = (o.udp_endpoint ≢ none) × (u ≡ some ep)
Compatible o u t (some (ep, tcp)) = (o.tcp_endpoint ≢ none) × (t ≡ some ep)

pub compatible-Compatible :
    (o : OfferedService) (u t : Option SocketAddrV4) → Compatible o u t (compatible o u t)
unfolding compatible
compatible-Compatible o u t = ground arith

pub Grantable-Compatible :
    (s : RuntimeState) (e : SdEntry) (m : SdMessage) (o : OfferedService) (ep : SocketAddrV4)
    (t : Transport)
    → get s.offered (service_key e) ≡ some o
    → is_unspecified (get_udp_endpoint m e) ≡ false
    → is_unspecified (get_tcp_endpoint m e) ≡ false
    → Compatible o (get_udp_endpoint m e) (get_tcp_endpoint m e) (some (ep, t))
    → Grantable s e m ep t
Grantable-Compatible s e m o ep udp known u_ok t_ok c = (o, known, c.0, c.1, rw c.1 at u_ok)
Grantable-Compatible s e m o ep tcp known u_ok t_ok c = (o, known, c.0, c.1, rw c.1 at t_ok)

-- A request is refused with a reason, or accepted for an endpoint and a transport that can be granted.
abbrev pub Outcome :
    (now : ℕ)
    → SdEntry
    → SdMessage
    → SocketAddrV4
    → (delivered : Bool) → RuntimeState
    → RuntimeState
    → Type 0
Outcome now e m from delivered s r =
    (Refusable s e m × Refused e from s r)
    ⊎ ((ep : SocketAddrV4) × (t : Transport) × Grantable s e m ep t
        × Accepted now e from ep t delivered s r)
