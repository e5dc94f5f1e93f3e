-- ===== src/Discovery/Found.antt =====
-- Who looks for a service is told of it.
use recentip.Prelude.{
  ℕ, ◌≡◌, refl, ◌∙◌, true, false, List, [], ◌∷◌, none, some, arith, Bool-cases, Option-cases, inl,
  inr,
}
use recentip.Prelude.Maps.{Map, get, insert}
use recentip.Config.{OfferedEndpoints, contains}
use recentip.Wire.SdEntry.{SdEntry}
use recentip.Wire.SdOption.{SocketAddrV4}
use recentip.Wire.SdMessage.{SdMessage}
use recentip.Wire.SdMessage.Endpoint.{get_udp_endpoint, get_tcp_endpoint}
use recentip.Sd.{ServiceKey, matches}
use recentip.State.Keys.{ServiceKey-Eq, service_key_beq, service_key_eq_of_beq}
use recentip.State.{
  RuntimeState, DiscoveredService, FindRequest, Action, notify_found, queue_unicast_sd,
  emit_sd_event, service_available,
}
use recentip.Subscribers.{service_key}
use recentip.Discovery.{
  queue_all, discover, renewals, offered_endpoints, find_discovered, handle_find, handle_offer,
  announce, found_requests,
}

matches_sym : (a b : ServiceKey) → matches a b ≡ matches b a
unfolding matches
matches_sym a b = ground arith

differs :
    (j k key : ServiceKey)
    → matches k key ≡ true
    → matches j k ≡ false
    → service_key_beq j key ≡ false
differs j k key fits other = elim (Bool-cases (service_key_beq j key)) [
  | inl hit ↦ absurd (cc (matches_sym k key, rw (service_key_eq_of_beq j key hit) at other))
  | inr miss ↦ miss
]

get-find_discovered :
    (k key : ServiceKey) (m : Map ServiceKey DiscoveredService)
    → matches k key ≡ true
    → find_discovered k m ≡ none
    → get m key ≡ none
get-find_discovered k key [] fits nothing = refl
get-find_discovered k key ((j, d) ∷ m) fits nothing = elim (Bool-cases (matches j k)) [
  | inl found ↦ absurd (cc (rw found at nothing))
  | inr other ↦
      let miss : service_key_beq j key ≡ false = differs j k key fits other in
      rw miss (get-find_discovered k key m fits (rw other at nothing))
]

found_requests-insert :
    (m : Map ServiceKey FindRequest) (k key : ServiceKey) (request : FindRequest)
    → matches k key ≡ true
    → contains (found_requests (insert m k request) key) request.notify ≡ true
unfolding found_requests
found_requests-insert [] k key request fits = rw fits (ground arith)
found_requests-insert ((j, old) ∷ m) k key request fits = elim (Bool-cases (service_key_beq j k)) [
  | inl hit ↦ rw (hit, fits) (ground arith)
  | inr miss ↦ elim (Bool-cases (matches j key)) [
    | inl also ↦ rw (miss, also) (ground (arith, found_requests-insert m k key request fits))
    | inr other ↦ rw (miss, other) (found_requests-insert m k key request fits)
  ]
]

queue_all-find_requests :
    (now : ℕ) (ms : List SdMessage) (target : SocketAddrV4) (s : RuntimeState)
    → (queue_all now ms target s).find_requests ≡ s.find_requests
unfolding queue_all queue_unicast_sd
queue_all-find_requests now [] target s = refl
queue_all-find_requests now (m ∷ ms) target s =
    queue_all-find_requests now ms target (queue_unicast_sd now s m target)

-- What an offer with endpoints does, as far as searches are concerned.
pub handle_offer-announce :
    (now : ℕ) (e : SdEntry) (m : SdMessage) (from : SocketAddrV4) (endpoints : OfferedEndpoints)
    (s : RuntimeState)
    → offered_endpoints m e ≡ some endpoints
    → let (actions, r) = handle_offer now e m from s in
      (actions ≡ announce e m from endpoints s) × (r.find_requests ≡ s.find_requests)
unfolding handle_offer discover
handle_offer-announce now e m from endpoints s h =
    elim (Option-cases (get (discover now e from endpoints s).subscriptions (service_key e))) [
      | inl nobody ↦ rw (handle_offer, h, nobody) (refl, refl)
      | inr (subs, there) ↦
          rw (handle_offer, h, there)
            (
              refl,
              queue_all-find_requests now
                  (renewals (discover now e from endpoints s) (service_key e) subs) from
                  (discover now e from endpoints s),
            )
    ]

abbrev request : (now channel : ℕ) → FindRequest
request now channel = record { notify = channel; repetitions_left = 3; last_find = now }

handle_find-waits :
    (now : ℕ) (k : ServiceKey) (channel : ℕ) (s : RuntimeState)
    → find_discovered k s.discovered ≡ none
    → ((handle_find now k channel s).0 ≡ none)
      × ((handle_find now k channel s).2
          ≡ record s { find_requests = insert s.find_requests k (request now channel) })
unfolding handle_find
handle_find-waits now k channel s h = rw (handle_find, h) (refl, refl)

-- A search for which no service is known is recorded, and then an offer with endpoints of a service
-- that it matches is announced, and the search is among those that are told.
pub handle_offer-find :
    (now later : ℕ) (k : ServiceKey) (channel : ℕ) (s : RuntimeState) (e : SdEntry) (m : SdMessage)
    (from : SocketAddrV4) (endpoints : OfferedEndpoints)
    → find_discovered k s.discovered ≡ none
    → offered_endpoints m e ≡ some endpoints
    → matches k (service_key e) ≡ true
    → let (found, asked, waiting) = handle_find now k channel s in
      let (actions, s') = handle_offer later e m from waiting in
      (found ≡ none)
      × (rest : List Action) × (actions ≡ notify_found (service_key e) endpoints from ∷ rest)
      × (contains (found_requests s'.find_requests (service_key e)) channel ≡ true)
unfolding announce
handle_offer-find now later k channel s e m from endpoints nothing offered fits =
    let fresh : get s.discovered (service_key e) ≡ none =
      get-find_discovered k (service_key e) s.discovered fits nothing in
    let (none_found, waits) = handle_find-waits now k channel s nothing in
    let (acts, kept) =
      handle_offer-announce later e m from endpoints (handle_find now k channel s).2 offered in
    (
      none_found,
      emit_sd_event (
            service_available e.service_id e.instance_id e.major_version e.minor_version
              (get_udp_endpoint m e) (get_tcp_endpoint m e) e.ttl)
          ∷ [],
      acts ∙ rw (waits, announce, fresh) refl,
      rw (kept, waits)
          (found_requests-insert s.find_requests k (service_key e) (request now channel) fits),
    )
