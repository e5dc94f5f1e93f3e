-- ===== src/Wire/SdOption.antt =====
-- src/wire.rs: `L4Protocol` and `SdOption`, the options of service discovery messages.
pub mod RoundTrip
use recentip.Prelude.{
  ℕ, ◌+◌, ◌%◌, ◌^◌, ltb, ◌==◌, if◌then◌else◌, List, [], ◌∷◌, Option, none, some, ◌>>=◌, length,
}
use recentip.Buffer.{ByteBuffer}

pub data L4Protocol : Type 0 where
  tcp udp : L4Protocol

unfoldable pub protocol_as_u8 : L4Protocol → ℕ
protocol_as_u8 tcp = 0x06
protocol_as_u8 udp = 0x11

unfoldable pub protocol_from_u8 : ℕ → Option L4Protocol
protocol_from_u8 v = if v == 0x06 then some tcp else if v == 0x11 then some udp else none

-- `std::net::Ipv4Addr` by its four octets, and `std::net::SocketAddrV4`.
pub record Ipv4Addr : Type 0 where
  pub a : ℕ
  pub b : ℕ
  pub c : ℕ
  pub d : ℕ

pub record SocketAddrV4 : Type 0 where
  pub ip : Ipv4Addr
  pub port : ℕ

abbrev pub octets : Ipv4Addr → List ℕ
octets addr = addr.a ∷ addr.b ∷ addr.c ∷ addr.d ∷ []

pub data SdOption : Type 0 where
  ipv4_endpoint : (addr : Ipv4Addr) (port : ℕ) (protocol : L4Protocol) → SdOption
  ipv4_multicast : (addr : Ipv4Addr) (port : ℕ) → SdOption
  unknown : (option_type : ℕ) (content : List ℕ) → SdOption

unfoldable pub size : SdOption → ℕ
size (ipv4_endpoint addr port protocol) = 12
size (ipv4_multicast addr port) = 12
size (unknown option_type content) = 3 + length content

module _ ⦃bytes : ByteBuffer⦄ where
  open bytes use {remaining, get_u8, get_u16, copy_to_bytes, put_u8, put_u16, put_slice}

  -- The two arms for IPv4 options and the arm for the rest.
  unfoldable pub parse_ipv4_endpoint : ℕ → List ℕ → Option (SdOption × List ℕ)
  parse_ipv4_endpoint length b0 =
      if ltb length 9
      then none
      else (let (reserved, b1) = get_u8 b0 in
          let (a, b2) = get_u8 b1 in
          let (b, b3) = get_u8 b2 in
          let (c, b4) = get_u8 b3 in
          let (d, b5) = get_u8 b4 in
          let (reserved2, b6) = get_u8 b5 in
          let (protocol_raw, b7) = get_u8 b6 in
          protocol_from_u8 protocol_raw >>= λ protocol.
          let (port, b8) = get_u16 b7 in
          some (ipv4_endpoint (record { a = a; b = b; c = c; d = d }) port protocol, b8))

  unfoldable pub parse_ipv4_multicast : ℕ → List ℕ → Option (SdOption × List ℕ)
  parse_ipv4_multicast length b0 =
      if ltb length 9
      then none
      else (let (reserved, b1) = get_u8 b0 in
          let (a, b2) = get_u8 b1 in
          let (b, b3) = get_u8 b2 in
          let (c, b4) = get_u8 b3 in
          let (d, b5) = get_u8 b4 in
          let (reserved2, b6) = get_u8 b5 in
          let (protocol, b7) = get_u8 b6 in
          let (port, b8) = get_u16 b7 in
          some (ipv4_multicast (record { a = a; b = b; c = c; d = d }) port, b8))

  unfoldable pub parse_unknown : ℕ → ℕ → List ℕ → Option (SdOption × List ℕ)
  parse_unknown option_type length b0 =
      let (content, b1) = copy_to_bytes length b0 in some (unknown option_type content, b1)

  unfoldable pub parse : List ℕ → Option (SdOption × List ℕ)
  unfolding parse_ipv4_endpoint parse_ipv4_multicast parse_unknown
  parse b0 =
      if ltb (remaining b0) 3
      then none
      else (let (length, b1) = get_u16 b0 in
          let (option_type, b2) = get_u8 b1 in
          if ltb (remaining b2) length
          then none
          else if option_type == 0x04
          then parse_ipv4_endpoint length b2
          else if option_type == 0x14
          then parse_ipv4_multicast length b2
          else parse_unknown option_type length b2)

  -- `data.len() as u16` wraps.
  unfoldable pub serialize : SdOption → List ℕ → List ℕ
  serialize (ipv4_endpoint addr port protocol) b0 =
      let b1 = put_u16 b0 9 in
      let b2 = put_u8 b1 0x04 in
      let b3 = put_u8 b2 0 in
      let b4 = put_slice b3 (octets addr) in
      let b5 = put_u8 b4 0 in let b6 = put_u8 b5 (protocol_as_u8 protocol) in put_u16 b6 port
  serialize (ipv4_multicast addr port) b0 =
      let b1 = put_u16 b0 9 in
      let b2 = put_u8 b1 0x14 in
      let b3 = put_u8 b2 0 in
      let b4 = put_slice b3 (octets addr) in
      let b5 = put_u8 b4 0 in let b6 = put_u8 b5 (protocol_as_u8 udp) in put_u16 b6 port
  serialize (unknown option_type content) b0 =
      let b1 = put_u16 b0 (length content % 2 ^ 16) in
      let b2 = put_u8 b1 option_type in put_slice b2 content
