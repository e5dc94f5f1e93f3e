-- ===== src/Offers/Routed.antt =====
-- src/runtime/server.rs and src/runtime/event_loop.rs: requests reach the service whose offer has been
-- accepted.
use recentip.Prelude.{
  ℕ, subst, ◌∙◌, ◌≡◌, refl, ap, sym, inl, inr, Bool-cases, Option, none, some, arith,
}
use recentip.Prelude.Maps.{get, insert, find, nat_beq_refl, get-insert, or_default, Distinct}
use recentip.Config.{OfferConfig, MethodConfig, udp}
use recentip.Wire.SdOption.{SocketAddrV4}
use recentip.Sd.{ServiceKey, OfferedService}
use recentip.State.Keys.{ServiceKey-Eq, service_key_beq_refl}
use recentip.State.{RuntimeState}
use recentip.Requests.{is_addressed}
use recentip.Offers.Ports.{Selection, selected, io_error, exhausted, select_udp}
use recentip.Offers.Command.{
  Network, accepted, Part, ready, refused, Socket, part_of, udp_part, tcp_part, store_offer,
  queue_initial_offer, socket_endpoint, socket_channel, new_offered, conclude, handle_offer_command,
}
use recentip.Offers.Routable.{meant, Offered, IsRoutable, meant-insert, find-meant}
use recentip.Offers.Chosen.{BindsFree, SharesFree, Origin, select_udp-Origin, Origin-free}

udp_part-offered :
    (net : Network) (s : ℕ) (port : Option ℕ) (state : RuntimeState)
    → (udp_part net s port state).1.offered ≡ state.offered
unfolding udp_part
udp_part-offered net s none state = refl
udp_part-offered net s (some port) state = refl

tcp_part-offered :
    (net : Network) (s : ℕ) (port : Option ℕ) (state : RuntimeState)
    → (tcp_part net s port state).1.offered ≡ state.offered
unfolding tcp_part
tcp_part-offered net s none state = refl
tcp_part-offered net s (some port) state = refl

-- What an accepted offer stores: the service with the two parts' sockets.
abbrev pub Stores : (now minor : ℕ) → ServiceKey → MethodConfig → Part → Offered → Offered → Type 0
Stores now minor key methods u before after =
    (us : Option Socket) × (ts : Option Socket) × (u ≡ ready us)
    × (after ≡ insert before key (new_offered now minor key methods us ts))

conclude-Stores :
    (now minor : ℕ) (key : ServiceKey) (methods : MethodConfig) (u t : Part × RuntimeState)
    → (conclude now minor key methods u t).0 ≡ accepted
    → Stores now minor key methods u.0 t.1.offered (conclude now minor key methods u t).1.offered
unfolding store_offer queue_initial_offer
conclude-Stores now minor key methods (refused a, s) t ok = cc
conclude-Stores now minor key methods (ready u, s) (refused a, s') ok = cc
conclude-Stores now minor key methods (ready (some u), s) (ready t, s') ok = (some u, t, refl, refl)
conclude-Stores now minor key methods (ready none, s) (ready (some t), s') ok =
    (none, some t, refl, refl)
conclude-Stores now minor key methods (ready none, s) (ready none, s') ok = cc

-- A command whose answer is `accepted` has stored the service in what was offered before.
offer-Stores :
    (net : Network) (now minor : ℕ) (key : ServiceKey) (config : OfferConfig) (state : RuntimeState)
    → (handle_offer_command net now key minor config state).0 ≡ accepted
    → Stores now minor key config.method_config
        (udp_part net key.service_id config.udp_port state).0
        state.offered
        (handle_offer_command net now key minor config state).1.offered
unfolding handle_offer_command
offer-Stores net now minor key config state ok =
    let u = udp_part net key.service_id config.udp_port state in
    let t = tcp_part net key.service_id config.tcp_port u.1 in
    let same : t.1.offered ≡ state.offered =
      tcp_part-offered net key.service_id config.tcp_port u.1
      ∙ udp_part-offered net key.service_id config.udp_port state in
    subst
      (λ before.
        Stores now minor key config.method_config u.0 before
          (conclude now minor key config.method_config u t).1.offered)
      same (conclude-Stores now minor key config.method_config u t ok)

abbrev socket_of : Part → Option Socket
socket_of (ready socket) = socket
socket_of (refused error) = none

part_of-selected :
    (result : Selection) (us : Option Socket)
    → part_of result ≡ ready us
    → (endpoint : SocketAddrV4) × (channel : ℕ) × (us ≡ some (endpoint, channel))
      × (result ≡ selected endpoint channel)
part_of-selected (selected ep ch) us e = (ep, ch, ap socket_of (sym e), refl)
part_of-selected io_error us e = cc
part_of-selected exhausted us e = cc

-- The new service is meant by a request only if nothing was meant by it before.
new-IsRoutable :
    (now minor : ℕ) (key : ServiceKey) (methods : MethodConfig) (us ts : Option Socket)
    (before : Offered)
    → IsRoutable before
    → ((endpoint : SocketAddrV4) (channel : ℕ)
        → us ≡ some (endpoint, channel)
        → meant key.service_id endpoint.port before ≡ 0)
    → IsRoutable (insert before key (new_offered now minor key methods us ts))
new-IsRoutable now minor key methods none ts before r free = λ s p.
    let svc = new_offered now minor key methods none ts in
    grind (arith, meant-insert s p before key svc, r s p)
new-IsRoutable now minor key methods (some (ep, ch)) ts before r free = λ s p.
    let svc = new_offered now minor key methods (some (ep, ch)) ts in
    elim (Bool-cases (is_addressed s udp p (key, svc))) [
      | inr other ↦ omega (arith, rw other at (meant-insert s p before key svc), r s p)
      | inl at ↦
          let sid : key.service_id ≡ s = ground arith in
          let port : ep.port ≡ p = ground arith in
          let none_before : meant s p before ≡ 0 = rw (sym sid, sym port) (free ep ch refl) in
          omega (arith, rw at at (meant-insert s p before key svc), none_before)
    ]

-- The UDP socket of a part, if one is configured, and where it comes from.
abbrev Sourced : Network → (s : ℕ) → (port : Option ℕ) → Offered → Option Socket → Type 0
Sourced net s none offered us = us ≡ none
Sourced net s (some p) offered us =
    (endpoint : SocketAddrV4) × (channel : ℕ) × (us ≡ some (endpoint, channel))
    × Origin net.udp_bind offered s p endpoint channel

udp_part-Sourced :
    (net : Network) (s : ℕ) (port : Option ℕ) (state : RuntimeState) (us : Option Socket)
    → Distinct state.offered
    → (udp_part net s port state).0 ≡ ready us
    → Sourced net s port state.offered us
unfolding udp_part
udp_part-Sourced net s none state us d got = ap socket_of (sym got)
udp_part-Sourced net s (some p) state us d got =
    let result = (select_udp state.offered net.udp_bind s p state.next_server_rpc_port).0 in
    let (ep, ch, same, chosen) = part_of-selected result us got in
    (
      ep,
      ch,
      same,
      select_udp-Origin net.udp_bind s p state.next_server_rpc_port state.offered ep ch d chosen,
    )

Sourced-free :
    (net : Network) (s : ℕ) (port : Option ℕ) (offered : Offered) (us : Option Socket)
    → BindsFree net.udp_bind offered
    → SharesFree s offered
    → Sourced net s port offered us
    → (endpoint : SocketAddrV4) (channel : ℕ) → us ≡ some (endpoint, channel)
    → meant s endpoint.port offered ≡ 0
Sourced-free net s none offered us binds shares nothing endpoint channel e = cc (nothing, e)
Sourced-free net s (some p) offered us binds shares (ep, ch, same, origin) endpoint channel e =
    let one : (ep, ch) ≡ (endpoint, channel) = ap (or_default (ep, ch)) (sym same ∙ e) in
    subst (λ (at : Socket). meant s at.0.port offered ≡ 0) one
      (Origin-free net.udp_bind s p offered ep ch binds shares origin)

-- The service that is stored, with the UDP socket that it has.
abbrev pub Shares : Network → ServiceKey → OfferConfig → (before after : Offered) → Type 0
Shares net key config before after =
    (port : ℕ)
    → config.udp_port ≡ some port
    → (svc : OfferedService) × (endpoint : SocketAddrV4) × (channel : ℕ) × (get after key
        ≡ some svc)
      × (svc.udp_endpoint ≡ some endpoint)
      × (svc.udp_transport ≡ some channel)
      × Origin net.udp_bind before key.service_id port endpoint channel

Sourced-Shares :
    (net : Network) (now minor : ℕ) (key : ServiceKey) (config : OfferConfig) (before : Offered)
    (us ts : Option Socket)
    → Sourced net key.service_id config.udp_port before us
    → Shares net key config before
        (insert before key (new_offered now minor key config.method_config us ts))
Sourced-Shares net now minor key config before us ts sourced = λ port at.
    let (ep, ch, same, origin) = subst (λ p. Sourced net key.service_id p before us) at sourced in
    let svc = new_offered now minor key config.method_config us ts in
    (
      svc,
      ep,
      ch,
      rw (get-insert before key key svc, service_key_beq_refl key) refl,
      ap socket_endpoint same,
      ap socket_channel same,
      origin,
    )

-- An accepted offer shares a UDP socket where it can, and keeps requests unambiguous. Suppose that each
-- key is offered once, that a request on a UDP port means one offered service at most, that binding a
-- new socket gives a port that no offered service has, and that no service with the new one's id has the
-- UDP port of a service of another id. Then the new service, if UDP is configured, has the UDP socket of
-- an offered service of another id on a wanted port, if there is one, and else a socket that binding has
-- given; a request on a UDP port means one service at most afterwards; and a request for the id of an
-- offered service on the port of its UDP endpoint is routed to that service.
pub offer-IsRoutable :
    (net : Network) (now minor : ℕ) (key : ServiceKey) (config : OfferConfig) (state : RuntimeState)
    → Distinct state.offered
    → IsRoutable state.offered
    → BindsFree net.udp_bind state.offered
    → SharesFree key.service_id state.offered
    → (handle_offer_command net now key minor config state).0 ≡ accepted
    → let after = (handle_offer_command net now key minor config state).1.offered in
      Shares net key config state.offered after
      × IsRoutable after
      × ((other : ServiceKey) (svc : OfferedService) (endpoint : SocketAddrV4)
          → get after other ≡ some svc
          → svc.udp_endpoint ≡ some endpoint
          → find (is_addressed other.service_id udp endpoint.port) after ≡ some (other, svc))
offer-IsRoutable net now minor key config state d r binds shares ok =
    let (us, ts, part, stored) = offer-Stores net now minor key config state ok in
    let sourced = udp_part-Sourced net key.service_id config.udp_port state us d part in
    let free =
      Sourced-free net key.service_id config.udp_port state.offered us binds shares sourced in
    let after = (handle_offer_command net now key minor config state).1.offered in
    let routable : IsRoutable after =
      rw stored (new-IsRoutable now minor key config.method_config us ts state.offered r free) in
    (
      rw stored (Sourced-Shares net now minor key config state.offered us ts sourced),
      routable,
      λ other svc endpoint there at.
          find-meant other.service_id endpoint.port after other svc
            (routable other.service_id endpoint.port) there
            (rw (at, nat_beq_refl other.service_id, nat_beq_refl endpoint.port) refl),
    )
