-- ===== src/Offers/Shared.antt =====
-- src/runtime/server.rs: which UDP socket `find_shareable_udp_socket` finds.
use recentip.Prelude.{
  ℕ, ◌==◌, ◌||◌, ◌≡◌, refl, ap, inl, inr, Bool-cases, Option-cases, true, false, [], ◌∷◌, Option,
  none, some,
}
use recentip.Prelude.Maps.{get, or_default, Distinct}
use recentip.Wire.SdOption.{SocketAddrV4}
use recentip.Sd.{ServiceKey, OfferedService}
use recentip.State.Keys.{
  ServiceKey-Eq, service_key_beq, service_key_eq_of_beq, service_key_beq_refl,
}
use recentip.Offers.Ports.{shareable, find_shareable_udp_socket}
use recentip.Offers.Routable.{Offered}

-- An offered service of another id has the UDP socket, on a port that is wanted.
abbrev pub IsShareable :
    Offered
    → (my_service_id port_hint : ℕ) → ServiceKey
    → OfferedService
    → SocketAddrV4
    → (channel : ℕ) → Type 0
IsShareable offered s port other svc endpoint channel =
    (get offered other ≡ some svc)
    × ((other.service_id == s) ≡ false)
    × (svc.udp_endpoint ≡ some endpoint)
    × (svc.udp_transport ≡ some channel)
    × ((port == 0 || endpoint.port == port) ≡ true)

shareable-found :
    (e : Option SocketAddrV4) (c : Option ℕ) (port : ℕ) (endpoint : SocketAddrV4) (channel : ℕ)
    → shareable e c port ≡ some (endpoint, channel)
    → (e ≡ some endpoint) × (c ≡ some channel) × ((port == 0 || endpoint.port == port) ≡ true)
shareable-found none c port endpoint channel h = cc
shareable-found (some ep) none port endpoint channel h = cc
shareable-found (some ep) (some ch) port endpoint channel h =
    elim (Bool-cases (port == 0 || ep.port == port)) [
      | inr other ↦ absurd (cc (rw other at h))
      | inl wanted ↦
          let same = ap (or_default (ep, ch)) (rw wanted at h) in
          let same_ep : ep ≡ endpoint = ap (λ x. x.0) same in
          let same_ch : ch ≡ channel = ap (λ x. x.1) same in
          (ap some same_ep, ap some same_ch, rw same_ep at wanted)
    ]

get-behind :
    (offered : Offered) (k other : ServiceKey) (v svc : OfferedService)
    → get offered k ≡ none
    → get offered other ≡ some svc
    → get ((k, v) ∷ offered) other ≡ some svc
get-behind offered k other v svc fresh there = elim (Bool-cases (service_key_beq k other)) [
  | inl hit ↦ absurd (cc (rw (service_key_eq_of_beq k other hit) at fresh, there))
  | inr miss ↦ rw miss there
]

abbrev pub Found : Offered → (my_service_id port_hint : ℕ) → SocketAddrV4 → (channel : ℕ) → Type 0
Found offered s port endpoint channel =
    (other : ServiceKey) × (svc : OfferedService) × IsShareable offered s port other svc endpoint
      channel

Found-behind :
    (offered : Offered) (k : ServiceKey) (v : OfferedService) (s port : ℕ) (endpoint : SocketAddrV4)
    (channel : ℕ)
    → get offered k ≡ none
    → Found offered s port endpoint channel
    → Found ((k, v) ∷ offered) s port endpoint channel
Found-behind offered k v s port endpoint channel fresh (other, svc, fits) =
    (other, svc, (get-behind offered k other v svc fresh fits.0, fits.1, fits.2, fits.3, fits.4))

-- What is found can be shared.
pub find_shareable-IsShareable :
    (offered : Offered) (s port : ℕ) (endpoint : SocketAddrV4) (channel : ℕ)
    → Distinct offered
    → find_shareable_udp_socket offered s port ≡ some (endpoint, channel)
    → Found offered s port endpoint channel
unfolding find_shareable_udp_socket
find_shareable-IsShareable [] s port endpoint channel d h = cc
find_shareable-IsShareable ((k, v) ∷ offered) s port endpoint channel (fresh, d) h =
    let behind : find_shareable_udp_socket offered s port ≡ some (endpoint, channel)
        → Found ((k, v) ∷ offered) s port endpoint channel =
      λ rest.
        Found-behind offered k v s port endpoint channel fresh
          (find_shareable-IsShareable offered s port endpoint channel d rest) in
    elim (Bool-cases (k.service_id == s)) [
      | inl own ↦ behind (rw own at h)
      | inr foreign ↦ elim (Option-cases (shareable v.udp_endpoint v.udp_transport port)) [
        | inl unfit ↦ behind (rw (foreign, unfit) at h)
        | inr (found, fit) ↦
            let same : found ≡ (endpoint, channel) =
              ap (or_default found) (rw (foreign, fit) at h) in
            let (e, c, wanted) =
              shareable-found v.udp_endpoint v.udp_transport port endpoint channel
                (rw same at fit) in
            (k, v, (rw (service_key_beq_refl k) refl, foreign, e, c, wanted))
      ]
    ]

-- Nothing is found only if nothing can be shared.
pub find_shareable-none :
    (offered : Offered) (s port : ℕ) (other : ServiceKey) (svc : OfferedService)
    (endpoint : SocketAddrV4) (channel : ℕ)
    → find_shareable_udp_socket offered s port ≡ none
    → IsShareable offered s port other svc endpoint channel
    → ⊥
unfolding find_shareable_udp_socket
find_shareable-none [] s port other svc endpoint channel h (there, foreign, e, c, wanted) = cc
find_shareable-none ((k, v) ∷ offered) s port other svc endpoint channel h
      (there, foreign, e, c, wanted) =
    elim (Bool-cases (service_key_beq k other)) [
      | inl hit ↦
          let same = service_key_eq_of_beq k other hit in
          let same_svc : v ≡ svc = ap (or_default v) (rw hit at there) in
          cc (rw (same, foreign, same_svc, e, c, wanted) at h)
      | inr miss ↦
          find_shareable-none offered s port other svc endpoint channel
            (elim (Bool-cases (k.service_id == s)) [
              | inl own ↦ rw own at h
              | inr apart ↦ elim (Option-cases (shareable v.udp_endpoint v.udp_transport port)) [
                | inl unfit ↦ rw (apart, unfit) at h
                | inr (found, fit) ↦ absurd (cc (rw (apart, fit) at h))
              ]
            ])
            (rw miss at there, foreign, e, c, wanted)
    ]
