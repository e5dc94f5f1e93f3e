-- ===== src/Wire/SdEntry/RoundTrip.antt =====
-- Entries on the wire: the layout of the 16 bytes, and reading back what was written.
use recentip.Prelude.{
  ℕ, ◌+◌, ◌*◌, ◌/◌, ◌%◌, ◌<◌, ◌≡◌, refl, ◌∙◌, List, [], ◌∷◌, ◌++◌, append_assoc, some, length,
  arith, le→ltb, bit_and, bit_or, low_nibble, nibbles, low_byte,
}
use recentip.Buffer.{ByteBuffer}
use recentip.Wire.Header.RoundTrip.{be16, be32, u16_digits, u32_digits}
use recentip.Wire.SdEntry.{
  SdEntry, SdEntryType, find_service, offer_service, subscribe_eventgroup, subscribe_eventgroup_ack,
  type_as_u8, type_from_u8, parse, parse_tail, serialize, serialize_tail, entry_size,
}

-- The fields that the entry's type does not carry are zero.
abbrev pub UnusedZero : SdEntryType → SdEntry → Type 0
UnusedZero find_service e = (e.eventgroup_id ≡ 0) × (e.counter ≡ 0)
UnusedZero offer_service e = (e.eventgroup_id ≡ 0) × (e.counter ≡ 0)
UnusedZero subscribe_eventgroup e = e.minor_version ≡ 0
UnusedZero subscribe_eventgroup_ack e = e.minor_version ≡ 0

pub record IsValid (e : SdEntry) : Type 0 where
  pub service_id_u16 : e.service_id < 65536
  pub instance_id_u16 : e.instance_id < 65536
  pub major_version_u8 : e.major_version < 256
  pub ttl_u24 : e.ttl < 16777216
  pub minor_version_u32 : e.minor_version < 4294967296
  pub eventgroup_id_u16 : e.eventgroup_id < 65536
  pub counter_u8 : e.counter < 256
  pub index_1st_option_u8 : e.index_1st_option < 256
  pub index_2nd_option_u8 : e.index_2nd_option < 256
  pub num_options_1_u4 : e.num_options_1 < 16
  pub num_options_2_u4 : e.num_options_2 < 16
  pub unused_zero : UnusedZero e.entry_type e

abbrev pub tail_bytes : SdEntryType → SdEntry → List ℕ → List ℕ
tail_bytes find_service e rest = be32 e.minor_version rest
tail_bytes offer_service e rest = be32 e.minor_version rest
tail_bytes subscribe_eventgroup e rest = 0 ∷ e.counter ∷ be16 e.eventgroup_id rest
tail_bytes subscribe_eventgroup_ack e rest = 0 ∷ e.counter ∷ be16 e.eventgroup_id rest

abbrev pub entry_bytes : SdEntry → List ℕ → List ℕ
entry_bytes e rest =
    type_as_u8 e.entry_type
    ∷ e.index_1st_option
    ∷ e.index_2nd_option
    ∷ (e.num_options_1 * 16 + e.num_options_2)
    ∷ be16 e.service_id (
        be16 e.instance_id (
          e.major_version
          ∷ (e.ttl / 65536)
          ∷ (e.ttl / 256 % 256)
          ∷ (e.ttl % 256)
          ∷ tail_bytes e.entry_type e rest))

length-tail_bytes :
    (t : SdEntryType) (e : SdEntry) (rest : List ℕ) → length (tail_bytes t e rest) ≡ 4 + length rest
length-tail_bytes find_service e rest = omega arith
length-tail_bytes _ e rest = omega arith

pub length-entry_bytes :
    (e : SdEntry) (rest : List ℕ) → length (entry_bytes e rest) ≡ 16 + length rest
length-entry_bytes e rest = omega (arith, length-tail_bytes e.entry_type e rest)

tail_bytes-append :
    (t : SdEntryType) (e : SdEntry) (rest : List ℕ)
    → tail_bytes t e [] ++ rest ≡ tail_bytes t e rest
tail_bytes-append find_service e rest = refl
tail_bytes-append _ e rest = refl

pub entry_bytes-append :
    (e : SdEntry) (rest : List ℕ) → entry_bytes e [] ++ rest ≡ entry_bytes e rest
entry_bytes-append e rest = simp (tail_bytes-append e.entry_type e rest)

type_from_u8-type_as_u8 : (t : SdEntryType) → type_from_u8 (type_as_u8 t) ≡ some t
unfolding type_from_u8 type_as_u8
type_from_u8-type_as_u8 find_service = refl
type_from_u8-type_as_u8 _ = refl

type_as_u8-lt : (t : SdEntryType) → type_as_u8 t < 256
unfolding type_as_u8
type_as_u8-lt find_service = omega arith
type_as_u8-lt _ = omega arith

module _ (hi lo : ℕ) (hh : hi < 16) (hl : lo < 16) where
  pack_nibbles : bit_or (hi * 16 % 256) (bit_and lo 0x0f) ≡ hi * 16 + lo
  pack_nibbles =
      let b = hi * 16 + lo in
      let upper : b / 16 ≡ hi = omega arith in
      let lower : b % 16 ≡ lo = omega arith in rw (upper, lower) at (nibbles b (omega arith))

  upper_nibble : bit_and ((hi * 16 + lo) / 16) 0x0f ≡ hi
  upper_nibble = low_nibble ((hi * 16 + lo) / 16) (omega arith) ∙ omega arith

  lower_nibble : bit_and (hi * 16 + lo) 0x0f ≡ lo
  lower_nibble = low_nibble (hi * 16 + lo) (omega arith) ∙ omega arith

module _ ⦃bytes : ByteBuffer⦄ where
  open bytes use {
    remaining_lem, get_u8_lem, get_u16_lem, get_u32_lem, put_u8_lem, put_u16_lem, put_u32_lem,
  }

  serialize_tail-tail_bytes :
      (t : SdEntryType) (e : SdEntry) (b : List ℕ)
      → IsValid e
      → serialize_tail t e b ≡ b ++ tail_bytes t e []
  unfolding serialize_tail
  serialize_tail-tail_bytes find_service e b v = put_u32_lem b _ v.minor_version_u32
  serialize_tail-tail_bytes offer_service e b v = put_u32_lem b _ v.minor_version_u32
  serialize_tail-tail_bytes _ e b v = simp (
    put_u8_lem _ 0 (omega arith),
    put_u8_lem _ e.counter v.counter_u8,
    put_u16_lem _ e.eventgroup_id v.eventgroup_id_u16,
    append_assoc,
  )

  pub serialize-entry_bytes :
      (e : SdEntry) (b : List ℕ) → IsValid e → serialize e b ≡ b ++ entry_bytes e []
  unfolding serialize
  serialize-entry_bytes e b v = simp (
    serialize_tail-tail_bytes e.entry_type e _ v,
    pack_nibbles e.num_options_1 e.num_options_2 v.num_options_1_u4 v.num_options_2_u4,
    low_byte,
    ttl_top,
    put_u8_lem _ (type_as_u8 e.entry_type) (type_as_u8-lt e.entry_type),
    put_u8_lem _ e.index_1st_option v.index_1st_option_u8,
    put_u8_lem _ e.index_2nd_option v.index_2nd_option_u8,
    put_u8_lem _ (e.num_options_1 * 16 + e.num_options_2) packed_u8,
    put_u16_lem _ e.service_id v.service_id_u16,
    put_u16_lem _ e.instance_id v.instance_id_u16,
    put_u8_lem _ e.major_version v.major_version_u8,
    put_u8_lem _ (e.ttl / 65536) (omega (arith, v.ttl_u24)),
    put_u8_lem _ (e.ttl / 256 % 256) (omega arith),
    put_u8_lem _ (e.ttl % 256) (omega arith),
    append_assoc,
  )
    where
      packed_u8 : e.num_options_1 * 16 + e.num_options_2 < 256
      packed_u8 = omega (arith, v.num_options_1_u4, v.num_options_2_u4)

      ttl_top : e.ttl / 65536 % 256 ≡ e.ttl / 65536
      ttl_top = omega (arith, v.ttl_u24)

  -- What `parse_tail` reads from the layout: the fields that the type carries, and zeros.
  parse_tail-tail_bytes :
      (t : SdEntryType) (e : SdEntry) (rest : List ℕ)
      → UnusedZero t e
      → parse_tail t (tail_bytes t e rest) ≡ ((e.minor_version, e.eventgroup_id, e.counter), rest)
  unfolding parse_tail
  parse_tail-tail_bytes find_service e rest u = simp (get_u32_lem, u32_digits, u.0, u.1)
  parse_tail-tail_bytes offer_service e rest u = simp (get_u32_lem, u32_digits, u.0, u.1)
  parse_tail-tail_bytes _ e rest u = simp (get_u8_lem, get_u16_lem, u16_digits, u)

  -- A valid entry is read back from its bytes, with whatever follows left over.
  pub parse-entry_bytes :
      (e : SdEntry) (rest : List ℕ) → IsValid e → parse (entry_bytes e rest) ≡ some (e, rest)
  unfolding parse
  parse-entry_bytes e rest v = simp (
    remaining_lem,
    get_u8_lem,
    get_u16_lem,
    u16_digits,
    type_from_u8-type_as_u8,
    upper_nibble e.num_options_1 e.num_options_2 v.num_options_1_u4 v.num_options_2_u4,
    lower_nibble e.num_options_1 e.num_options_2 v.num_options_1_u4 v.num_options_2_u4,
    ttl_digits,
    parse_tail-tail_bytes e.entry_type e rest v.unused_zero,
    le→ltb (length (entry_bytes e rest)) entry_size (omega (arith, length-entry_bytes e rest)),
  )
    where
      ttl_digits : e.ttl / 65536 * 65536 + e.ttl / 256 % 256 * 256 + e.ttl % 256 ≡ e.ttl
      ttl_digits = omega arith
