-- ===== src/Offers/Ports.antt =====
-- src/runtime/server.rs: which socket an offered service gets: one that it may share, a new one on a
-- given port, or one on the first free port of the scan.
use recentip.Prelude.{ℕ, zero, suc, ◌+◌, ◌==◌, ◌||◌, if◌then◌else◌, [], ◌∷◌, Option, none, some}
use recentip.Prelude.Maps.{Map}
use recentip.Wire.SdOption.{SocketAddrV4}
use recentip.Sd.{ServiceKey, OfferedService}

-- What binding a socket on a port of the local address comes to, and starting its task: a socket with
-- its endpoint and channel, `AddrInUse`, another error, or a socket whose address cannot be read.
pub data Bind : Type 0 where
  bound : (endpoint : SocketAddrV4) (channel : ℕ) → Bind
  addr_in_use failed nameless : Bind

-- What the selection comes to: a socket, an error that is passed on, or no free port.
pub data Selection : Type 0 where
  selected : (endpoint : SocketAddrV4) (channel : ℕ) → Selection
  io_error exhausted : Selection

abbrev pub selected_of : Bind → Selection
selected_of (bound endpoint channel) = selected endpoint channel
selected_of addr_in_use = io_error
selected_of failed = io_error
selected_of nameless = io_error

-- `u16::MAX` is followed by 1.
abbrev pub next_port : ℕ → ℕ
next_port candidate = if candidate == 65535 then 1 else candidate + 1

-- The loop of the auto-port scan, with the port counter that it leaves. The fuel bounds the rounds.
unfoldable pub scan : (fuel : ℕ) → (bind : ℕ → Bind) → (scan_start candidate : ℕ) → Selection × ℕ
scan zero bind scan_start candidate = (exhausted, candidate)
scan (suc fuel) bind scan_start candidate =
    let next = next_port candidate in
    let later = scan fuel bind scan_start next in
    elim (bind candidate) [
      | bound endpoint channel ↦ (selected endpoint channel, next)
      | addr_in_use ↦ if next == scan_start then (exhausted, next) else later
      | failed ↦ (io_error, candidate)
      | nameless ↦ (io_error, candidate)
    ]

-- There are 65535 ports.
abbrev pub scan_fuel : ℕ
scan_fuel = 65535

-- An endpoint with its channel, if the service has both and the port is the wanted one.
abbrev pub shareable :
    (endpoint : Option SocketAddrV4)
    → (channel : Option ℕ) → (port_hint : ℕ) → Option (SocketAddrV4 × ℕ)
shareable (some endpoint) (some channel) port_hint =
    if port_hint == 0 || endpoint.port == port_hint then some (endpoint, channel) else none
shareable (some endpoint) none port_hint = none
shareable none channel port_hint = none

-- The first in the map's order.
unfoldable pub find_shareable_udp_socket :
    Map ServiceKey OfferedService → (my_service_id port_hint : ℕ) → Option (SocketAddrV4 × ℕ)
find_shareable_udp_socket [] my_service_id port_hint = none
find_shareable_udp_socket ((key, svc) ∷ offered) my_service_id port_hint =
    let later = find_shareable_udp_socket offered my_service_id port_hint in
    if key.service_id == my_service_id
    then later
    else elim (shareable svc.udp_endpoint svc.udp_transport port_hint) [
      | some found ↦ some found
      | none ↦ later
    ]

unfoldable pub find_shareable_tcp_socket :
    Map ServiceKey OfferedService → (my_service_id port_hint : ℕ) → Option (SocketAddrV4 × ℕ)
find_shareable_tcp_socket [] my_service_id port_hint = none
find_shareable_tcp_socket ((key, svc) ∷ offered) my_service_id port_hint =
    let later = find_shareable_tcp_socket offered my_service_id port_hint in
    if key.service_id == my_service_id
    then later
    else elim (shareable svc.tcp_endpoint svc.tcp_transport port_hint) [
      | some found ↦ some found
      | none ↦ later
    ]

-- A new socket: by the scan from the counter for port 0, else by one attempt.
unfoldable pub bind_new : (bind : ℕ → Bind) → (port counter : ℕ) → Selection × ℕ
unfolding scan
bind_new bind port counter =
    if port == 0 then scan scan_fuel bind counter counter else (selected_of (bind port), counter)

-- The UDP part: a shared socket before a new one.
unfoldable pub select_udp :
    Map ServiceKey OfferedService
    → (bind : ℕ → Bind) → (service_id port counter : ℕ) → Selection × ℕ
unfolding find_shareable_udp_socket bind_new
select_udp offered bind service_id port counter =
    elim (find_shareable_udp_socket offered service_id port) [
      | some (endpoint, channel) ↦ (selected endpoint channel, counter)
      | none ↦ bind_new bind port counter
    ]

-- The TCP part: only an explicit port is shared.
unfoldable pub select_tcp :
    Map ServiceKey OfferedService
    → (bind : ℕ → Bind) → (service_id port counter : ℕ) → Selection × ℕ
unfolding find_shareable_tcp_socket bind_new
select_tcp offered bind service_id port counter =
    if port == 0
    then bind_new bind port counter
    else elim (find_shareable_tcp_socket offered service_id port) [
      | some (endpoint, channel) ↦ (selected endpoint channel, counter)
      | none ↦ bind_new bind port counter
    ]
