-- ===== src/Config/Address.antt =====
-- src/config.rs: the addresses of the service discovery, `MulticastAddress` and `UnicastAddress`.
use recentip.Prelude.{
  ◌==◌, ◌&&◌, ◌≡◌, ◌⊎◌, refl, leb, inl, inr, Bool-cases, Bool, true, if◌then◌else◌, Option, none,
  some,
}
use recentip.Wire.SdOption.{Ipv4Addr}

-- `std::net::IpAddr`
pub data IpAddr : Type 0 where
  v4 : Ipv4Addr → IpAddr
  v6 : IpAddr

pub data InvalidAddressError : Type 0 where
  not_multicast is_multicast_error : Ipv4Addr → InvalidAddressError
  unspecified is_broadcast_error parse_error : InvalidAddressError

pub data Checked : Type 0 where
  valid : Ipv4Addr → Checked
  invalid : InvalidAddressError → Checked

-- The tests of the standard library: 224.0.0.0/4, 0.0.0.0 and 255.255.255.255.
abbrev is_multicast : Ipv4Addr → Bool
is_multicast ip = leb 224 ip.a && leb ip.a 239

abbrev is_unspecified_v4 : Ipv4Addr → Bool
is_unspecified_v4 ip = ip.a == 0 && (ip.b == 0 && (ip.c == 0 && ip.d == 0))

abbrev is_broadcast : Ipv4Addr → Bool
is_broadcast ip = ip.a == 255 && (ip.b == 255 && (ip.c == 255 && ip.d == 255))

unfoldable static_try_from : Ipv4Addr → Option Ipv4Addr
static_try_from ip = if is_multicast ip then some ip else none

unfoldable multicast_try_from : Ipv4Addr → Checked
multicast_try_from ip = if is_multicast ip then valid ip else invalid (not_multicast ip)

unfoldable unicast_try_from : Ipv4Addr → Checked
unicast_try_from ip =
    if is_unspecified_v4 ip
    then invalid unspecified
    else if is_multicast ip
    then invalid (is_multicast_error ip)
    else if is_broadcast ip
    then invalid is_broadcast_error
    else valid ip

-- From an address of either family.
abbrev multicast_from_ip : IpAddr → Checked
multicast_from_ip (v4 ip) = multicast_try_from ip
multicast_from_ip v6 = invalid parse_error

abbrev unicast_from_ip : IpAddr → Checked
unicast_from_ip (v4 ip) = unicast_try_from ip
unicast_from_ip v6 = invalid parse_error

-- `from_str`, for what the standard library's parser gives.
abbrev multicast_from_str : Option Ipv4Addr → Checked
multicast_from_str none = invalid parse_error
multicast_from_str (some ip) = multicast_try_from ip

abbrev unicast_from_str : Option Ipv4Addr → Checked
unicast_from_str none = invalid parse_error
unicast_from_str (some ip) = unicast_try_from ip

-- An address has one role at most: one that is accepted as a multicast address is refused as a unicast
-- address for that reason, and one that is accepted as neither is 0.0.0.0 or 255.255.255.255.
address_roles :
    (ip : Ipv4Addr)
    → ((multicast_try_from ip ≡ valid ip) × (unicast_try_from ip ≡ invalid (is_multicast_error ip)))
      ⊎ ((multicast_try_from ip ≡ invalid (not_multicast ip)) × (unicast_try_from ip ≡ valid ip))
      ⊎ (is_unspecified_v4 ip ≡ true)
      ⊎ (is_broadcast ip ≡ true)
unfolding multicast_try_from unicast_try_from
address_roles ip = elim (Bool-cases (is_unspecified_v4 ip)) [
  | inl zero_ip ↦ inr (inr (inl zero_ip))
  | inr some_ip ↦ elim (Bool-cases (is_multicast ip)) [
    | inl multi ↦ inl (rw multi refl, rw (some_ip, multi) refl)
    | inr uni ↦ elim (Bool-cases (is_broadcast ip)) [
      | inl broad ↦ inr (inr (inr broad))
      | inr one ↦ inr (inl (rw uni refl, rw (some_ip, uni, one) refl))
    ]
  ]
]
