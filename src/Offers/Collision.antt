-- ===== src/Offers/Collision.antt =====
-- src/runtime/server.rs: what sharing sockets may do to requests.
use recentip.Prelude.{
  ℕ, ◌==◌, ◌||◌, false, ◌≤◌, ◌≡◌, refl, inl, inr, Option-cases, true, none, some, arith,
}
use recentip.Prelude.Maps.{get, nat_beq_refl, Distinct}
use recentip.Config.{OfferConfig, MethodConfig, udp}
use recentip.Wire.SdOption.{SocketAddrV4}
use recentip.Sd.{ServiceKey, OfferedService}
use recentip.State.Keys.{ServiceKey-Eq}
use recentip.State.{RuntimeState}
use recentip.Requests.{is_addressed}
use recentip.Offers.Ports.{find_shareable_udp_socket, select_udp}
use recentip.Offers.Command.{
  Network, accepted, udp_part, tcp_part, store_offer, queue_initial_offer, new_offered,
  handle_offer_command,
}
use recentip.Offers.Routable.{meant, meant-insert_new, meant-get}
use recentip.Offers.Shared.{IsShareable, find_shareable-IsShareable, find_shareable-none}

-- An explicit UDP port and no TCP port, where a service of another id has the port: the offer is accepted
-- and shares it.
explicit_shared :
    (net : Network) (now minor p : ℕ) (key foreign : ServiceKey) (svc : OfferedService)
    (endpoint : SocketAddrV4) (channel : ℕ) (methods : MethodConfig) (state : RuntimeState)
    → Distinct state.offered
    → (p == 0) ≡ false
    → IsShareable state.offered key.service_id p foreign svc endpoint channel
    → let config : OfferConfig = record {
      tcp_port = none;
      udp_port = some p;
      method_config = methods;
    } in
      (shared : SocketAddrV4) × (ch : ℕ) × (shared.port ≡ p)
      × (handle_offer_command net now key minor config state
          ≡ store_offer now minor key methods (some (shared, ch)) none state)
unfolding handle_offer_command udp_part tcp_part select_udp
explicit_shared net now minor p key foreign svc endpoint channel methods state d fixed there =
    elim (Option-cases (find_shareable_udp_socket state.offered key.service_id p)) [
      | inl absent ↦ absurd (
          find_shareable-none state.offered key.service_id p foreign svc endpoint channel absent
            there)
      | inr ((shared, ch), found) ↦
          let fits =
            (find_shareable-IsShareable state.offered key.service_id p shared ch d found).2 in
          (
            shared,
            ch,
            ground (arith, fits.4, fixed),
            rw (handle_offer_command, udp_part, tcp_part, select_udp, found) refl,
          )
    ]

-- The socket that is shared may already serve the same service id. Suppose that each key is offered once,
-- that a service with the new one's id and a service of another id both have a port as their UDP port,
-- that the latter has a channel for it, and that the new key is not offered yet. An offer with that UDP
-- port, which is not 0, and no TCP port is accepted, and then a request for the id on that port means two
-- services at least.
pub offer-collides :
    (net : Network) (now minor p : ℕ) (key own foreign : ServiceKey)
    (own_svc foreign_svc : OfferedService) (own_endpoint endpoint : SocketAddrV4) (channel : ℕ)
    (methods : MethodConfig) (state : RuntimeState)
    → Distinct state.offered
    → (p == 0) ≡ false
    → get state.offered key ≡ none
    → get state.offered own ≡ some own_svc
    → own.service_id ≡ key.service_id
    → own_svc.udp_endpoint ≡ some own_endpoint
    → own_endpoint.port ≡ p
    → get state.offered foreign ≡ some foreign_svc
    → (foreign.service_id == key.service_id) ≡ false
    → foreign_svc.udp_endpoint ≡ some endpoint
    → foreign_svc.udp_transport ≡ some channel
    → endpoint.port ≡ p
    → let config : OfferConfig = record {
      tcp_port = none;
      udp_port = some p;
      method_config = methods;
    } in
      let result = handle_offer_command net now key minor config state in
      (result.0 ≡ accepted) × (2 ≤ meant key.service_id p result.1.offered)
unfolding store_offer queue_initial_offer
offer-collides net now minor p key own foreign own_svc foreign_svc own_endpoint endpoint channel
      methods state d fixed fresh own_there own_id own_udp own_port foreign_there other_id
      foreign_udp foreign_channel foreign_port =
    let wanted : (p == 0 || endpoint.port == p) ≡ true = ground (arith, foreign_port) in
    let (shared, ch, at, stores) =
      explicit_shared net now minor p key foreign foreign_svc endpoint channel methods state d fixed
        (foreign_there, other_id, foreign_udp, foreign_channel, wanted) in
    let svc = new_offered now minor key methods (some (shared, ch)) none in
    let here : is_addressed key.service_id udp p (key, svc) ≡ true =
      rw (at, nat_beq_refl key.service_id, nat_beq_refl p) refl in
    let there : is_addressed key.service_id udp p (own, own_svc) ≡ true =
      rw (own_udp, own_port, own_id, nat_beq_refl key.service_id, nat_beq_refl p) refl in
    rw stores (
      refl,
      rw (meant-insert_new key.service_id p state.offered key svc fresh, here)
          (omega (arith, meant-get key.service_id p state.offered own own_svc own_there there)),
    )
