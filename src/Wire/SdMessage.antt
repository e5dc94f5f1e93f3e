-- ===== src/Wire/SdMessage.antt =====
-- src/wire.rs: `SdMessage`, the payload of a service discovery message.
pub mod Fuel
pub mod Layout
pub mod RoundTrip
pub mod Endpoint
use recentip.Prelude.{
  ℕ, zero, suc, ◌+◌, ◌-◌, ◌*◌, ◌%◌, ◌^◌, Bool, ltb, leb, ◌==◌, ◌&&◌, if◌then◌else◌, List, [], ◌∷◌,
  ◌++◌, Option, none, some, ◌>>=◌, length, get_elem?, bit_or,
}
use recentip.Buffer.{ByteBuffer}
use recentip.Types.ReturnCode
use recentip.Wire.Version.{protocol_version, sd_interface_version}
use recentip.Wire.MessageType
use recentip.Wire.Header
use recentip.Wire.Header.{Header, header_size, message_length}
use recentip.Wire.SdEntry
use recentip.Wire.SdEntry.{SdEntry, entry_size}
use recentip.Wire.SdOption
use recentip.Wire.SdOption.{SdOption, SocketAddrV4, L4Protocol, tcp, udp, ipv4_endpoint}

abbrev pub sd_service_id : ℕ
sd_service_id = 0xffff

abbrev pub sd_method_id : ℕ
sd_method_id = 0x8100

abbrev pub sd_client_id : ℕ
sd_client_id = 0x0000

pub record SdMessage : Type 0 where
  pub flags : ℕ
  pub entries : List SdEntry
  pub options : List SdOption

-- `SdMessage::FLAG_REBOOT` and `SdMessage::FLAG_UNICAST`
abbrev pub flag_reboot : ℕ
flag_reboot = 0x80

abbrev pub flag_unicast : ℕ
flag_unicast = 0x40

abbrev pub new : ℕ → SdMessage
new flags = record { flags = flags; entries = []; options = [] }

abbrev pub initial : SdMessage
initial = new (bit_or flag_reboot flag_unicast)

-- The message afterwards, and the index.
unfoldable pub add_entry : SdMessage → SdEntry → SdMessage × ℕ
add_entry self entry = (record self { entries = self.entries ++ entry ∷ [] }, length self.entries)

-- The index is `len() as u8`, which wraps.
unfoldable pub add_option : SdMessage → SdOption → SdMessage × ℕ
add_option self option =
    (record self { options = self.options ++ option ∷ [] }, length self.options % 2 ^ 8)

-- `self.options.iter().map(SdOption::size).sum()`
unfoldable pub options_size : List SdOption → ℕ
options_size [] = 0
options_size (o ∷ os) = SdOption.size o + options_size os

module _ ⦃bytes : ByteBuffer⦄ where
  open bytes use {
    remaining, get_u8, get_u32, advance, put_u8, put_u32, with_capacity, extend_from_slice, freeze,
  }

  -- `while entries_consumed + SIZE <= entries_len`: the entries, what was consumed, and the rest.
  -- `none` stands for an early return too. The fuel bounds the rounds.
  unfoldable pub parse_entries :
      (fuel entries_len entries_consumed : ℕ)
      → List ℕ
      → List SdEntry
      → Option (List SdEntry × ℕ × List ℕ)
  parse_entries zero entries_len entries_consumed b entries =
      if leb (entries_consumed + entry_size) entries_len
      then none
      else some (entries, entries_consumed, b)
  parse_entries (suc fuel) entries_len entries_consumed b entries =
      let round = SdEntry.parse b >>= λ (entry, b').
      parse_entries fuel entries_len (entries_consumed + entry_size) b' (entries ++ entry ∷ []) in
      if leb (entries_consumed + entry_size) entries_len
      then round
      else some (entries, entries_consumed, b)

  -- `while options_start - remaining < options_len && remaining >= 3`. An option that does not parse
  -- ends the loop. No caller reads the cursor afterwards.
  unfoldable pub parse_options :
      (fuel options_start options_len : ℕ) → List ℕ → List SdOption → List SdOption
  parse_options zero options_start options_len b options = options
  parse_options (suc fuel) options_start options_len b options =
      let round : List SdOption = elim (SdOption.parse b) [
        | some (option, b') ↦
            parse_options fuel options_start options_len b' (options ++ option ∷ [])
        | none ↦ options
      ] in
      if ltb (options_start - remaining b) options_len && leb 3 (remaining b)
      then round
      else options

  -- The part behind the entries.
  unfoldable pub parse_rest : ℕ → List SdEntry → List ℕ → Option SdMessage
  parse_rest flags entries b0 =
      if ltb (remaining b0) 4
      then none
      else (let (options_len, b1) = get_u32 b0 in
          if ltb (remaining b1) options_len
          then none
          else some (record {
            flags = flags;
            entries = entries;
            options = parse_options (remaining b1) (remaining b1) options_len b1 [];
          }))

  unfoldable pub parse : List ℕ → Option SdMessage
  parse b0 =
      if ltb (remaining b0) 12
      then none
      else (let (flags, b1) = get_u8 b0 in
          let (reserved1, b2) = get_u8 b1 in
          let (reserved2, b3) = get_u8 b2 in
          let (reserved3, b4) = get_u8 b3 in
          let (entries_len, b5) = get_u32 b4 in
          if ltb (remaining b5) entries_len
          then none
          else (parse_entries entries_len entries_len 0 b5 [] >>= λ (entries, entries_consumed, b6).
              let b7 =
                if ltb entries_consumed entries_len
                then advance (entries_len - entries_consumed) b6
                else b6 in
              parse_rest flags entries b7))

  unfoldable pub serialize_entries : List SdEntry → List ℕ → List ℕ
  serialize_entries [] b = b
  serialize_entries (e ∷ es) b = serialize_entries es (SdEntry.serialize e b)

  unfoldable pub serialize_options : List SdOption → List ℕ → List ℕ
  serialize_options [] b = b
  serialize_options (o ∷ os) b = serialize_options os (SdOption.serialize o b)

  -- The casts `as u32` wrap.
  unfoldable pub serialize_payload : SdMessage → List ℕ
  unfolding options_size
  serialize_payload self =
      let entries_len = length self.entries * entry_size in
      let options_len = options_size self.options in
      let b0 = with_capacity (4 + 4 + entries_len + 4 + options_len) in
      let b1 = put_u8 (put_u8 (put_u8 (put_u8 b0 self.flags) 0) 0) 0 in
      let b2 = put_u32 b1 (entries_len % 2 ^ 32) in
      let b3 = serialize_entries self.entries b2 in
      let b4 = put_u32 b3 (options_len % 2 ^ 32) in
      let b5 = serialize_options self.options b4 in freeze b5

  unfoldable pub serialize : SdMessage → ℕ → List ℕ
  unfolding serialize_payload
  serialize self session_id =
      let payload = serialize_payload self in
      let header : Header = record {
        service_id = sd_service_id;
        method_id = sd_method_id;
        length = message_length payload;
        client_id = sd_client_id;
        session_id = session_id;
        protocol_version = protocol_version;
        interface_version = sd_interface_version;
        message_type = MessageType.notification;
        return_code = ReturnCode.ok;
      } in
      let buf = with_capacity (header_size + length payload) in
      freeze (extend_from_slice (Header.serialize header buf) payload)
