-- ===== src/Sd.antt =====
-- src/runtime/state.rs and src/runtime/sd.rs: service keys, and the service discovery messages that
-- a node builds.
pub mod Build
use recentip.Prelude.{
  ℕ, suc, ◌%◌, ◌^◌, ◌==◌, ◌&&◌, ◌||◌, Bool, if◌then◌else◌, List, [], ◌∷◌, ◌++◌, Option, none, some,
  length,
}
use recentip.Config.{MethodConfig, Transport, tcp, udp}
use recentip.Wire.SdEntry.{SdEntry}
use recentip.Wire.SdEntry.Create
use recentip.Wire.SdOption.{SdOption, SocketAddrV4, Ipv4Addr, L4Protocol, ipv4_endpoint}
use recentip.Wire.SdMessage.{SdMessage, new, add_entry, add_option}

pub record ServiceKey : Type 0 where
  pub service_id : ℕ
  pub instance_id : ℕ
  pub major_version : ℕ

-- `ServiceKey::matches`: wildcards on both sides.
unfoldable pub matches : ServiceKey → ServiceKey → Bool
matches self other =
    self.service_id == other.service_id
    && (self.instance_id == 0xffff
        || (self.instance_id == other.instance_id || other.instance_id == 0xffff))
    && (self.major_version == 0xff
        || (self.major_version == other.major_version || other.major_version == 0xff))

-- `OfferedService` without `requests_tx` and `tcp_close_peer_tx`.
pub record OfferedService : Type 0 where
  pub major_version : ℕ
  pub minor_version : ℕ
  pub last_offer : ℕ
  pub udp_endpoint : Option SocketAddrV4
  -- a transport is the number of its channel
  pub udp_transport : Option ℕ
  pub tcp_endpoint : Option SocketAddrV4
  pub tcp_transport : Option ℕ
  pub method_config : MethodConfig
  pub is_announcing : Bool

-- `if let Some(ep)`: add the endpoint option and remember its index.
unfoldable pub add_endpoint :
    SdMessage × List ℕ → Option SocketAddrV4 → Ipv4Addr → L4Protocol → SdMessage × List ℕ
unfolding add_option
add_endpoint (msg, option_indices) none unicast_ip protocol = (msg, option_indices)
add_endpoint (msg, option_indices) (some ep) unicast_ip protocol =
    let (msg', opt_idx) = add_option msg (ipv4_endpoint unicast_ip ep.port protocol) in
    (msg', option_indices ++ opt_idx ∷ [])

abbrev pub first_or_zero : List ℕ → ℕ
first_or_zero [] = 0
first_or_zero (i ∷ is) = i

unfoldable pub build_offer_message :
    ServiceKey → OfferedService → (sd_flags ttl : ℕ) → Ipv4Addr → SdMessage
unfolding add_endpoint add_entry Create.offer_service
build_offer_message key offered sd_flags ttl unicast_ip =
    let with_udp = add_endpoint (new sd_flags, []) offered.udp_endpoint unicast_ip L4Protocol.udp in
    let (msg, option_indices) =
      add_endpoint with_udp offered.tcp_endpoint unicast_ip L4Protocol.tcp in
    let first_opt_idx = first_or_zero option_indices in
    let num_options = length option_indices % 2 ^ 8 in
    (add_entry msg (
      Create.offer_service key.service_id key.instance_id offered.major_version
        offered.minor_version ttl first_opt_idx num_options)).0

unfoldable pub build_stop_offer_message : ServiceKey → OfferedService → (sd_flags : ℕ) → SdMessage
unfolding add_entry Create.stop_offer_service
build_stop_offer_message key offered sd_flags =
    (add_entry (new sd_flags) (
      Create.stop_offer_service key.service_id key.instance_id offered.major_version
        offered.minor_version)).0

unfoldable pub build_find_message :
    (service_id instance_id major_version sd_flags ttl : ℕ) → SdMessage
unfolding add_entry Create.find_service
build_find_message service_id instance_id major_version sd_flags ttl =
    (add_entry (new sd_flags)
      (Create.find_service service_id instance_id major_version 0xffff_ffff ttl)).0

abbrev pub protocol_of : Transport → L4Protocol
protocol_of tcp = L4Protocol.tcp
protocol_of udp = L4Protocol.udp

-- The loop over the eventgroups: one entry each, all with the same option.
unfoldable pub add_subscribe_entries :
    (service_id instance_id major_version ttl opt_idx : ℕ) → List ℕ → SdMessage → SdMessage
unfolding add_entry Create.subscribe_eventgroup
add_subscribe_entries service_id instance_id major_version ttl opt_idx [] msg = msg
add_subscribe_entries service_id instance_id major_version ttl opt_idx (eg ∷ egs) msg =
    let entry = Create.subscribe_eventgroup service_id instance_id major_version eg ttl 0 in
    add_subscribe_entries service_id instance_id major_version ttl opt_idx egs
      (add_entry msg (record entry { index_1st_option = opt_idx; num_options_1 = 1 })).0

unfoldable pub build_subscribe_message_multi :
    (service_id instance_id major_version : ℕ)
    → (eventgroup_ids : List ℕ) → (local_endpoint : SocketAddrV4)
    → (client_rpc_port sd_flags ttl : ℕ) → Transport
    → SdMessage
unfolding add_option
build_subscribe_message_multi service_id instance_id major_version eventgroup_ids local_endpoint
      client_rpc_port sd_flags ttl transport =
    let (msg, opt_idx) =
      add_option (new sd_flags)
        (ipv4_endpoint local_endpoint.ip client_rpc_port (protocol_of transport)) in
    add_subscribe_entries service_id instance_id major_version ttl opt_idx eventgroup_ids msg

unfoldable pub build_subscribe_message :
    (service_id instance_id major_version eventgroup_id : ℕ)
    → (local_endpoint : SocketAddrV4) → (client_rpc_port sd_flags ttl : ℕ) → Transport
    → SdMessage
unfolding build_subscribe_message_multi
build_subscribe_message service_id instance_id major_version eventgroup_id local_endpoint
      client_rpc_port sd_flags ttl transport =
    build_subscribe_message_multi service_id instance_id major_version (eventgroup_id ∷ [])
      local_endpoint client_rpc_port sd_flags ttl transport

-- The source repeats the body with TTL 0, which stands for the end of the subscription.
unfoldable pub build_unsubscribe_message_multi :
    (service_id instance_id major_version : ℕ)
    → (eventgroup_ids : List ℕ) → (local_endpoint : SocketAddrV4) → (client_rpc_port sd_flags : ℕ)
    → Transport
    → SdMessage
unfolding add_option
build_unsubscribe_message_multi service_id instance_id major_version eventgroup_ids local_endpoint
      client_rpc_port sd_flags transport =
    let (msg, opt_idx) =
      add_option (new sd_flags)
        (ipv4_endpoint local_endpoint.ip client_rpc_port (protocol_of transport)) in
    add_subscribe_entries service_id instance_id major_version 0 opt_idx eventgroup_ids msg

unfoldable pub build_unsubscribe_message :
    (service_id instance_id major_version eventgroup_id : ℕ)
    → (local_endpoint : SocketAddrV4) → (client_rpc_port sd_flags : ℕ) → Transport
    → SdMessage
unfolding build_unsubscribe_message_multi
build_unsubscribe_message service_id instance_id major_version eventgroup_id local_endpoint
      client_rpc_port sd_flags transport =
    build_unsubscribe_message_multi service_id instance_id major_version (eventgroup_id ∷ [])
      local_endpoint client_rpc_port sd_flags transport
