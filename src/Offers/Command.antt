-- ===== src/Offers/Command.antt =====
-- src/runtime/server.rs: the command that offers a service.
use recentip.Prelude.{
  ℕ, ◌+◌, Bool, true, false, ltb, if◌then◌else◌, [], ◌∷◌, ◌++◌, Option, none, some,
}
use recentip.Prelude.Maps.{insert}
use recentip.Wire.SdOption.{SocketAddrV4}
use recentip.Config.{OfferConfig, MethodConfig}
use recentip.Sd.{ServiceKey, OfferedService}
use recentip.State.Keys.{ServiceKey-Eq}
use recentip.State.{RuntimeState}
use recentip.Offers.Ports.{Bind, Selection, selected, io_error, exhausted, select_udp, select_tcp}

pub data OfferError : Type 0 where
  io_failed no_free_port no_transport : OfferError

-- What the application is answered.
pub data OfferAnswer : Type 0 where
  accepted : OfferAnswer
  failed : OfferError → OfferAnswer

-- Binding on the state's local address, at the time of the command.
pub record Network : Type 0 where
  pub udp_bind : (port : ℕ) → Bind
  pub tcp_bind : (port : ℕ) → Bind

abbrev pub Socket : Type 0
Socket = SocketAddrV4 × ℕ

-- One transport's part of the command: its socket, if one is configured, or the early return.
pub data Part : Type 0 where
  ready : Option Socket → Part
  refused : OfferError → Part

abbrev pub part_of : Selection → Part
part_of (selected endpoint channel) = ready (some (endpoint, channel))
part_of io_error = refused io_failed
part_of exhausted = refused no_free_port

unfoldable pub udp_part :
    Network → (service_id : ℕ) → (udp_port : Option ℕ) → RuntimeState → Part × RuntimeState
unfolding select_udp
udp_part net service_id none state = (ready none, state)
udp_part net service_id (some port) state =
    let (result, counter) =
      select_udp state.offered net.udp_bind service_id port state.next_server_rpc_port in
    (part_of result, record state { next_server_rpc_port = counter })

unfoldable pub tcp_part :
    Network → (service_id : ℕ) → (tcp_port : Option ℕ) → RuntimeState → Part × RuntimeState
unfolding select_tcp
tcp_part net service_id none state = (ready none, state)
tcp_part net service_id (some port) state =
    let (result, counter) =
      select_tcp state.offered net.tcp_bind service_id port state.next_server_rpc_port in
    (part_of result, record state { next_server_rpc_port = counter })

-- `MIN_SD_MSG_DISTANCE`, in milliseconds
abbrev pub min_sd_msg_distance : ℕ
min_sd_msg_distance = 150

-- Whether the proposed deadline is far enough from the next periodic cycle.
abbrev pub is_clear_of_cycle : (now : ℕ) → RuntimeState → Bool
is_clear_of_cycle now state = elim state.last_periodic_cycle [
  | none ↦ false
  | some last_cycle ↦
      ltb (now + min_sd_msg_distance + min_sd_msg_distance)
        (last_cycle + state.config.cyclic_offer_delay)
]

-- Without a deadline the offer goes out with the next periodic cycle.
unfoldable pub queue_initial_offer : (now : ℕ) → ServiceKey → RuntimeState → RuntimeState
queue_initial_offer now key state =
    let deadline : Option ℕ = elim state.pending_offers_deadline [
      | some at ↦ some at
      | none ↦ if is_clear_of_cycle now state then some (now + min_sd_msg_distance) else none
    ] in
    record state {
      pending_initial_offers = state.pending_initial_offers ++ key ∷ [];
      pending_offers_deadline = deadline;
    }

abbrev pub socket_endpoint : Option Socket → Option SocketAddrV4
socket_endpoint none = none
socket_endpoint (some (endpoint, channel)) = some endpoint

abbrev pub socket_channel : Option Socket → Option ℕ
socket_channel none = none
socket_channel (some (endpoint, channel)) = some channel

abbrev pub new_offered :
    (now minor_version : ℕ) → ServiceKey → MethodConfig → (udp tcp : Option Socket) → OfferedService
new_offered now minor_version key method_config udp tcp = record {
  major_version = key.major_version;
  minor_version = minor_version;
  last_offer = now;
  udp_endpoint = socket_endpoint udp;
  udp_transport = socket_channel udp;
  tcp_endpoint = socket_endpoint tcp;
  tcp_transport = socket_channel tcp;
  method_config = method_config;
  is_announcing = true;
}

-- After the sockets: the offered service, and its first offer.
unfoldable pub store_offer :
    (now minor_version : ℕ)
    → ServiceKey
    → MethodConfig
    → (udp tcp : Option Socket) → RuntimeState
    → OfferAnswer × RuntimeState
unfolding queue_initial_offer
store_offer now minor_version key method_config none none state = (failed no_transport, state)
store_offer now minor_version key method_config (some u) tcp state = (
  accepted,
  queue_initial_offer now key (record state {
    offered =
        insert state.offered key (new_offered now minor_version key method_config (some u) tcp);
  }),
)
store_offer now minor_version key method_config none (some t) state = (
  accepted,
  queue_initial_offer now key (record state {
    offered =
        insert state.offered key (new_offered now minor_version key method_config none (some t));
  }),
)

-- What follows from the two parts, with the state after each.
abbrev pub conclude :
    (now minor_version : ℕ)
    → ServiceKey
    → MethodConfig
    → (udp tcp : Part × RuntimeState) → OfferAnswer × RuntimeState
conclude now minor_version key method_config (refused error, state') tcp = (failed error, state')
conclude now minor_version key method_config (ready u, state') (refused error, state'') =
    (failed error, state'')
conclude now minor_version key method_config (ready u, state') (ready t, state'') =
    store_offer now minor_version key method_config u t state''

-- The two readings of the clock are one. The TCP part starts from the state that the UDP part leaves.
unfoldable pub handle_offer_command :
    Network
    → (now : ℕ) → ServiceKey
    → (minor_version : ℕ) → OfferConfig
    → RuntimeState
    → OfferAnswer × RuntimeState
unfolding udp_part tcp_part store_offer
handle_offer_command net now key minor_version offer_config state =
    let udp = udp_part net key.service_id offer_config.udp_port state in
    let tcp = tcp_part net key.service_id offer_config.tcp_port udp.1 in
    conclude now minor_version key offer_config.method_config udp tcp
