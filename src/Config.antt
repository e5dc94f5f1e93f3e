-- ===== src/Config.antt =====
-- src/config.rs and src/lib.rs: transports, the policy that selects one, TTLs, method settings.
pub mod Policy
pub mod Address
use recentip.Prelude.{
  ℕ, ltb, if◌then◌else◌, Bool, true, false, ◌||◌, ◌==◌, List, [], ◌∷◌, Option, none, some,
}
use recentip.Wire.SdOption.{SocketAddrV4}

pub data Transport : Type 0 where
  udp tcp : Transport

pub data PortSpec : Type 0 where
  any : PortSpec
  fixed : ℕ → PortSpec

pub record TransportPreference : Type 0 where
  pub transport : Transport
  pub local_port : PortSpec

abbrev pub tcp_preference : TransportPreference
tcp_preference = record { transport = tcp; local_port = any }

abbrev pub udp_preference : TransportPreference
udp_preference = record { transport = udp; local_port = any }

abbrev pub with_port : TransportPreference → ℕ → TransportPreference
with_port self port = record self { local_port = fixed port }

pub record TransportSelection : Type 0 where
  pub remote_endpoint : SocketAddrV4
  pub transport : Transport
  pub local_port : PortSpec

pub data OfferedEndpoints : Type 0 where
  udp_only : SocketAddrV4 → OfferedEndpoints
  tcp_only : SocketAddrV4 → OfferedEndpoints
  both : (udp tcp : SocketAddrV4) → OfferedEndpoints

-- `TransportPolicy` is a newtype over the list of preferences.
abbrev pub TransportPolicy : Type 0
TransportPolicy = List TransportPreference

abbrev pub prefer_tcp : TransportPolicy
prefer_tcp = tcp_preference ∷ udp_preference ∷ []

abbrev pub prefer_udp : TransportPolicy
prefer_udp = udp_preference ∷ tcp_preference ∷ []

abbrev pub default_policy : TransportPolicy
default_policy = prefer_udp

abbrev pub policy_from : Transport → TransportPolicy
policy_from tcp = prefer_tcp
policy_from udp = prefer_udp

-- The match in the body of `select`'s loop.
unfoldable pub remote_for : Transport → OfferedEndpoints → Option SocketAddrV4
remote_for tcp (tcp_only addr) = some addr
remote_for tcp (both udp_addr tcp_addr) = some tcp_addr
remote_for udp (udp_only addr) = some addr
remote_for udp (both udp_addr tcp_addr) = some udp_addr
remote_for tcp (udp_only addr) = none
remote_for udp (tcp_only addr) = none

unfoldable pub select : TransportPolicy → OfferedEndpoints → Option TransportSelection
unfolding remote_for
select [] endpoints = none
select (pref ∷ prefs) endpoints = elim (remote_for pref.transport endpoints) [
  | some remote_endpoint ↦ some (record {
    remote_endpoint = remote_endpoint;
    transport = pref.transport;
    local_port = pref.local_port;
  })
  | none ↦ select prefs endpoints
]

unfoldable pub primary : TransportPolicy → Transport
primary [] = udp
primary (pref ∷ prefs) = pref.transport

-- `SD_TTL_INFINITE`
abbrev pub sd_ttl_infinite : ℕ
sd_ttl_infinite = 0xffffff

unfoldable pub clamp_ttl_to_24bit : ℕ → ℕ
clamp_ttl_to_24bit ttl = if ltb sd_ttl_infinite ttl then sd_ttl_infinite else ttl

-- `MethodConfig`: the set of method ids, as a list.
pub record MethodConfig : Type 0 where
  pub exception_methods : List ℕ

abbrev pub new_method_config : MethodConfig
new_method_config = record { exception_methods = [] }

abbrev pub contains : List ℕ → ℕ → Bool
contains [] x = false
contains (y ∷ ys) x = y == x || contains ys x

unfoldable pub use_exception_for : MethodConfig → ℕ → MethodConfig
use_exception_for self method_id =
    if contains self.exception_methods method_id
    then self
    else record { exception_methods = method_id ∷ self.exception_methods }

unfoldable pub uses_exception : MethodConfig → ℕ → Bool
uses_exception self method_id = contains self.exception_methods method_id

pub record OfferConfig : Type 0 where
  pub tcp_port : Option ℕ
  pub udp_port : Option ℕ
  pub method_config : MethodConfig

abbrev pub new_offer_config : OfferConfig
new_offer_config = record { tcp_port = none; udp_port = none; method_config = new_method_config }

-- `OfferConfig::tcp` and `OfferConfig::udp` set port 0, which means the default.
abbrev pub offer_tcp : OfferConfig → OfferConfig
offer_tcp self = record self { tcp_port = some 0 }

abbrev pub offer_tcp_port : OfferConfig → ℕ → OfferConfig
offer_tcp_port self port = record self { tcp_port = some port }

abbrev pub offer_udp : OfferConfig → OfferConfig
offer_udp self = record self { udp_port = some 0 }

abbrev pub offer_udp_port : OfferConfig → ℕ → OfferConfig
offer_udp_port self port = record self { udp_port = some port }

abbrev pub offer_method_config : OfferConfig → MethodConfig → OfferConfig
offer_method_config self config = record self { method_config = config }

abbrev pub is_some {ℓ} : {A : Type ℓ} → Option A → Bool
is_some none = false
is_some (some x) = true

abbrev pub has_tcp : OfferConfig → Bool
has_tcp self = is_some self.tcp_port

abbrev pub has_udp : OfferConfig → Bool
has_udp self = is_some self.udp_port

abbrev pub has_transport : OfferConfig → Bool
has_transport self = is_some self.tcp_port || is_some self.udp_port
