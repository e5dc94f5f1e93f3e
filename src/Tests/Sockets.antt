-- ===== src/Tests/Sockets.antt =====
-- The theorems on the sockets of offers and subscriptions, and on the pool of connections, at concrete
-- inputs.
use recentip.Prelude.{
  ℕ, ◌==◌, ◌≡◌, ◌≤◌, ◌<◌, refl, ap, inl, inr, Bool-cases, if◌then◌else◌, [], ◌∷◌, some, none, arith,
}
use recentip.Prelude.Maps.{get, find}
use recentip.Config.{OfferConfig, Transport, new_method_config}
use recentip.Wire.SdOption.{SocketAddrV4}
use recentip.Sd.{ServiceKey, OfferedService}
use recentip.State.{RuntimeState, new_state}
use recentip.State.Keys.{ServiceKey-Eq}
use recentip.Requests.{is_addressed}
use recentip.Tests.Discovery.{config, server_at, service, offered_service}
use recentip.Offers.Ports.{Bind, bound, addr_in_use, failed, nameless, scan, scan_fuel, selected_of}
use recentip.Offers.Command.{Network, accepted, handle_offer_command}
use recentip.Offers.Scan.{scan-first, port_after, counter_after}
use recentip.Offers.Routable.{meant, IsRoutable}
use recentip.Offers.Chosen.{BindsFree, SharesFree}
use recentip.Offers.Routed.{Shares, offer-IsRoutable}
use recentip.Offers.Collision.{offer-collides}
use recentip.Offers.Counter.{IsPort, next_server_rpc_port-IsPort}

abbrev port_of : Bind → ℕ
port_of (bound endpoint channel) = endpoint.port
port_of addr_in_use = 0
port_of failed = 0
port_of nameless = 0

-- A node that offers a service on UDP port 30501, which is also the next one of the scan.
abbrev offering : RuntimeState
offering = record (new_state 30500 (server_at 40000) config) {
  offered = (service, offered_service) ∷ [];
}

abbrev free_but_one : ℕ → Bind
free_but_one port = if port == 30501 then addr_in_use else bound (server_at port) 7

abbrev net : Network
net = record { udp_bind = free_but_one; tcp_bind = free_but_one }

abbrev second : ServiceKey
second = record { service_id = 0x1234; instance_id = 2; major_version = 1 }

abbrev auto_udp : OfferConfig
auto_udp = record { tcp_port = none; udp_port = some 0; method_config = new_method_config }

second-accepted : (handle_offer_command net 0 second 0 auto_udp offering).0 ≡ accepted
unfolding handle_offer_command
second-accepted = refl

offering-IsRoutable : IsRoutable offering.offered
unfolding meant
offering-IsRoutable = λ s p. ground arith

net-BindsFree : BindsFree net.udp_bind offering.offered
unfolding meant
net-BindsFree = λ port endpoint channel e s. elim (Bool-cases (port == 30501)) [
  | inl busy ↦ absurd (cc (rw busy at e))
  | inr free ↦
      let same : port ≡ endpoint.port = ap port_of (rw free at e) in ground (arith, rw same at free)
]

-- A service of another id shares the socket.
abbrev third : ServiceKey
third = record { service_id = 0x5678; instance_id = 1; major_version = 1 }

third-accepted : (handle_offer_command net 0 third 0 auto_udp offering).0 ≡ accepted
unfolding handle_offer_command
third-accepted = refl

third-SharesFree : SharesFree third.service_id offering.offered
unfolding meant
third-SharesFree other svc endpoint there foreign at = refl

offer-IsRoutable_example :
    let after = (handle_offer_command net 0 third 0 auto_udp offering).1.offered in
    Shares net third auto_udp offering.offered after
    × IsRoutable after
    × ((other : ServiceKey) (svc : OfferedService) (endpoint : SocketAddrV4)
        → get after other ≡ some svc
        → svc.udp_endpoint ≡ some endpoint
        → find (is_addressed other.service_id Transport.udp endpoint.port) after
          ≡ some (other, svc))
offer-IsRoutable_example =
    offer-IsRoutable net 0 0 third auto_udp offering (refl, tt) offering-IsRoutable net-BindsFree
      third-SharesFree third-accepted

-- The same node with a service of another id that shares the socket.
abbrev sharing : RuntimeState
sharing = record offering { offered = (service, offered_service) ∷ (third, offered_service) ∷ [] }

offer-collides_example :
    let config : OfferConfig = record {
      tcp_port = none;
      udp_port = some 30501;
      method_config = new_method_config;
    } in
    let result = handle_offer_command net 0 second 0 config sharing in
    (result.0 ≡ accepted) × (2 ≤ meant 0x1234 30501 result.1.offered)
offer-collides_example =
    offer-collides net 0 0 30501 second service third offered_service offered_service
      (server_at 30501) (server_at 30501) 1 new_method_config sharing (refl, (refl, tt)) refl refl
      refl refl refl refl refl refl refl refl refl

one_busy : (k : ℕ) → k < 1 → free_but_one (port_after 30501 k) ≡ addr_in_use
unfolding port_after
one_busy k h = let first : k ≡ 0 = omega arith in rw first refl

scan-first_example : scan scan_fuel free_but_one 30501 30501 ≡ (
  selected_of (bound (server_at 30502) 7),
  counter_after (bound (server_at 30502) 7) (port_after 30501 1),
)
unfolding port_after
scan-first_example =
    scan-first 1 30501 free_but_one (bound (server_at 30502) 7) (omega arith) (omega arith)
      (omega arith) one_busy refl (λ e. cc)

next_server_rpc_port-IsPort_example :
    IsPort (handle_offer_command net 0 second 0 auto_udp offering).1.next_server_rpc_port
next_server_rpc_port-IsPort_example =
    next_server_rpc_port-IsPort net 0 0 second auto_udp offering (omega arith, omega arith)
