-- ===== src/Wire/SdEntry.antt =====
-- src/wire.rs: `SdEntryType` and `SdEntry`, the entries of service discovery messages.
pub mod RoundTrip
pub mod Create
use recentip.Prelude.{
  ℕ, ◌+◌, ◌*◌, ◌/◌, ◌%◌, Bool, ltb, ◌==◌, if◌then◌else◌, List, Option, none, some, ◌>>=◌, bit_and,
  bit_or,
}
use recentip.Buffer.{ByteBuffer}

pub data SdEntryType : Type 0 where
  find_service offer_service subscribe_eventgroup subscribe_eventgroup_ack : SdEntryType

unfoldable pub type_as_u8 : SdEntryType → ℕ
type_as_u8 find_service = 0x00
type_as_u8 offer_service = 0x01
type_as_u8 subscribe_eventgroup = 0x06
type_as_u8 subscribe_eventgroup_ack = 0x07

unfoldable pub type_from_u8 : ℕ → Option SdEntryType
type_from_u8 v =
    if v == 0x00
    then some find_service
    else if v == 0x01
    then some offer_service
    else if v == 0x06
    then some subscribe_eventgroup
    else if v == 0x07
    then some subscribe_eventgroup_ack
    else none

pub record SdEntry : Type 0 where
  pub entry_type : SdEntryType
  pub service_id : ℕ
  pub instance_id : ℕ
  pub major_version : ℕ
  pub ttl : ℕ
  pub minor_version : ℕ
  pub eventgroup_id : ℕ
  pub counter : ℕ
  pub index_1st_option : ℕ
  pub index_2nd_option : ℕ
  pub num_options_1 : ℕ
  pub num_options_2 : ℕ

-- `SdEntry::SIZE`
abbrev pub entry_size : ℕ
entry_size = 16

unfoldable pub is_stop : SdEntry → Bool
is_stop self = self.ttl == 0

module _ ⦃bytes : ByteBuffer⦄ where
  open bytes use {remaining, get_u8, get_u16, get_u32, put_u8, put_u16, put_u32}

  -- Bytes 12 to 15: the minor version, the eventgroup and the counter, as the type reads them.
  unfoldable pub parse_tail : SdEntryType → List ℕ → (ℕ × ℕ × ℕ) × List ℕ
  parse_tail find_service b = let (minor, b') = get_u32 b in ((minor, 0, 0), b')
  parse_tail offer_service b = let (minor, b') = get_u32 b in ((minor, 0, 0), b')
  parse_tail subscribe_eventgroup b =
      let (reserved, b1) = get_u8 b in
      let (counter, b2) = get_u8 b1 in
      let (eventgroup, b3) = get_u16 b2 in ((0, eventgroup, counter), b3)
  parse_tail subscribe_eventgroup_ack b =
      let (reserved, b1) = get_u8 b in
      let (counter, b2) = get_u8 b1 in
      let (eventgroup, b3) = get_u16 b2 in ((0, eventgroup, counter), b3)

  unfoldable pub parse : List ℕ → Option (SdEntry × List ℕ)
  unfolding parse_tail
  parse b0 =
      if ltb (remaining b0) entry_size
      then none
      else (let (entry_type_raw, b1) = get_u8 b0 in
          let (index_1st_option, b2) = get_u8 b1 in
          let (index_2nd_option, b3) = get_u8 b2 in
          let (num_options, b4) = get_u8 b3 in
          let num_options_1 = bit_and (num_options / 16) 0x0f in
          let num_options_2 = bit_and num_options 0x0f in
          let (service_id, b5) = get_u16 b4 in
          let (instance_id, b6) = get_u16 b5 in
          let (major_version, b7) = get_u8 b6 in
          let (ttl2, b8) = get_u8 b7 in
          let (ttl1, b9) = get_u8 b8 in
          let (ttl0, b10) = get_u8 b9 in
          type_from_u8 entry_type_raw >>= λ entry_type.
          let ((minor_version, eventgroup_id, counter), b11) = parse_tail entry_type b10 in
          some (
            record {
              entry_type = entry_type;
              service_id = service_id;
              instance_id = instance_id;
              major_version = major_version;
              ttl = ttl2 * 65536 + ttl1 * 256 + ttl0;
              minor_version = minor_version;
              eventgroup_id = eventgroup_id;
              counter = counter;
              index_1st_option = index_1st_option;
              index_2nd_option = index_2nd_option;
              num_options_1 = num_options_1;
              num_options_2 = num_options_2;
            },
            b11,
          ))

  unfoldable pub serialize_tail : SdEntryType → SdEntry → List ℕ → List ℕ
  serialize_tail find_service self b = put_u32 b self.minor_version
  serialize_tail offer_service self b = put_u32 b self.minor_version
  serialize_tail subscribe_eventgroup self b =
      put_u16 (put_u8 (put_u8 b 0) self.counter) self.eventgroup_id
  serialize_tail subscribe_eventgroup_ack self b =
      put_u16 (put_u8 (put_u8 b 0) self.counter) self.eventgroup_id

  -- On a u8, `<< 4` drops the upper half.
  unfoldable pub serialize : SdEntry → List ℕ → List ℕ
  unfolding serialize_tail
  serialize self b0 =
      let b1 = put_u8 b0 (type_as_u8 self.entry_type) in
      let b2 = put_u8 b1 self.index_1st_option in
      let b3 = put_u8 b2 self.index_2nd_option in
      let b4 =
        put_u8 b3 (bit_or (self.num_options_1 * 16 % 256) (bit_and self.num_options_2 0x0f)) in
      let b5 = put_u16 b4 self.service_id in
      let b6 = put_u16 b5 self.instance_id in
      let b7 = put_u8 b6 self.major_version in
      let b8 = put_u8 b7 (bit_and (self.ttl / 65536) 0xff) in
      let b9 = put_u8 b8 (bit_and (self.ttl / 256) 0xff) in
      let b10 = put_u8 b9 (bit_and self.ttl 0xff) in serialize_tail self.entry_type self b10
