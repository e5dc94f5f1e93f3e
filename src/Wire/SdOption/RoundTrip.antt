-- ===== src/Wire/SdOption/RoundTrip.antt =====
-- Options on the wire: their layout, their size, and reading back what was written.
use recentip.Prelude.{
  ℕ, ◌+◌, ◌%◌, ◌<◌, ◌≡◌, ◌≢◌, refl, List, [], ◌∷◌, ◌++◌, append_assoc, append-nil, some, length,
  length-append, arith, le→ltb, ltb-length_append,
}
use recentip.Buffer.{ByteBuffer}
use recentip.Wire.Header.RoundTrip.{be16, u16_digits}
use recentip.Wire.SdOption.{
  SdOption, L4Protocol, tcp, udp, protocol_as_u8, protocol_from_u8, ipv4_endpoint, ipv4_multicast,
  unknown, parse, serialize, size,
}

-- An unknown option is of another type than the two known ones, and its length fits 16 bits.
abbrev pub IsValid : SdOption → Type 0
IsValid (ipv4_endpoint addr port protocol) = port < 65536
IsValid (ipv4_multicast addr port) = port < 65536
IsValid (unknown option_type content) =
    (option_type < 256) × (option_type ≢ 0x04) × (option_type ≢ 0x14) × (length content < 65536)

-- The octets of an address, which the option's type holds below 256, do not matter here.
abbrev pub option_bytes : SdOption → List ℕ → List ℕ
option_bytes (ipv4_endpoint addr port protocol) rest =
    0
    ∷ 9
    ∷ 0x04
    ∷ 0
    ∷ addr.a
    ∷ addr.b
    ∷ addr.c
    ∷ addr.d
    ∷ 0
    ∷ protocol_as_u8 protocol
    ∷ be16 port rest
option_bytes (ipv4_multicast addr port) rest =
    0 ∷ 9 ∷ 0x14 ∷ 0 ∷ addr.a ∷ addr.b ∷ addr.c ∷ addr.d ∷ 0 ∷ 0x11 ∷ be16 port rest
option_bytes (unknown option_type content) rest =
    be16 (length content) (option_type ∷ (content ++ rest))

pub length-option_bytes :
    (o : SdOption) (rest : List ℕ) → length (option_bytes o rest) ≡ size o + length rest
unfolding size
length-option_bytes (unknown t content) rest = omega (arith, length-append content rest)
length-option_bytes _ rest = omega arith

pub option_bytes-append :
    (o : SdOption) (rest : List ℕ) → option_bytes o [] ++ rest ≡ option_bytes o rest
option_bytes-append (unknown t content) rest = simp append_assoc
option_bytes-append _ rest = refl

protocol_from_u8-protocol_as_u8 : (p : L4Protocol) → protocol_from_u8 (protocol_as_u8 p) ≡ some p
unfolding protocol_from_u8 protocol_as_u8
protocol_from_u8-protocol_as_u8 tcp = refl
protocol_from_u8-protocol_as_u8 udp = refl

protocol_as_u8-lt : (p : L4Protocol) → protocol_as_u8 p < 256
unfolding protocol_as_u8
protocol_as_u8-lt tcp = omega arith
protocol_as_u8-lt udp = omega arith

module _ ⦃bytes : ByteBuffer⦄ where
  open bytes use {
    remaining_lem, get_u8_lem, get_u16_lem, copy_to_bytes_lem, put_u8_lem, put_u16_lem,
    put_slice_lem,
  }

  pub serialize-option_bytes :
      (o : SdOption) (b : List ℕ) → IsValid o → serialize o b ≡ b ++ option_bytes o []
  unfolding serialize protocol_as_u8
  serialize-option_bytes (ipv4_endpoint addr port p) b v = simp (
    put_u16_lem _ 9 (omega arith),
    put_u8_lem _ 0x04 (omega arith),
    put_u8_lem _ 0 (omega arith),
    put_slice_lem,
    put_u8_lem _ (protocol_as_u8 p) (protocol_as_u8-lt p),
    put_u16_lem _ port v,
    append_assoc,
  )
  serialize-option_bytes (ipv4_multicast addr port) b v = simp (
    put_u16_lem _ 9 (omega arith),
    put_u8_lem _ 0x14 (omega arith),
    put_u8_lem _ 0 (omega arith),
    put_slice_lem,
    put_u8_lem _ (protocol_as_u8 udp) (protocol_as_u8-lt udp),
    put_u16_lem _ port v,
    append_assoc,
  )
  serialize-option_bytes (unknown t content) b v = simp (
    fits,
    put_u16_lem _ (length content) v.3,
    put_u8_lem _ t v.0,
    put_slice_lem,
    append_assoc,
    append-nil,
  )
    where
      fits : length content % 65536 ≡ length content
      fits = omega (arith, v.3)

  -- A valid option is read back from its bytes, with whatever follows left over.
  pub parse-option_bytes :
      (o : SdOption) (rest : List ℕ) → IsValid o → parse (option_bytes o rest) ≡ some (o, rest)
  unfolding parse
  parse-option_bytes (ipv4_endpoint addr port p) rest v =
      simp
        (
          remaining_lem,
          get_u16_lem,
          get_u8_lem,
          u16_digits,
          protocol_from_u8-protocol_as_u8,
          le→ltb (length (option_bytes (ipv4_endpoint addr port p) rest)) 3 (omega arith),
        )
        (ground arith)
  parse-option_bytes (ipv4_multicast addr port) rest v =
      simp
        (
          remaining_lem,
          get_u16_lem,
          get_u8_lem,
          u16_digits,
          le→ltb (length (option_bytes (ipv4_multicast addr port) rest)) 3 (omega arith),
        )
        (ground arith)
  parse-option_bytes (unknown t content) rest v =
      simp
        (remaining_lem, get_u16_lem, get_u8_lem, u16_digits, copy_to_bytes_lem, ltb-length_append)
        (ground arith)
