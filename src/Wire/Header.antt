-- ===== src/Wire/Header.antt =====
-- src/wire.rs: `Header`, and the core of the message builders.
pub mod RoundTrip
pub mod Canonical
pub mod Peek
use recentip.Prelude.{
  ℕ, ◌+◌, ◌-◌, ◌%◌, ◌≤◌, ◌<◌, ◌^◌, Bool, ltb, if◌then◌else◌, List, Option, none, some, length,
  ◌>>=◌,
}
use recentip.Buffer.{ByteBuffer}
use recentip.Types.ReturnCode
use recentip.Types.ReturnCode.{ReturnCode}
use recentip.Types.ReturnCode.Codes
use recentip.Wire.Version.{protocol_version}
use recentip.Wire.MessageType
use recentip.Wire.MessageType.{MessageType}

pub record Header : Type 0 where
  pub service_id : ℕ
  pub method_id : ℕ
  pub length : ℕ
  pub client_id : ℕ
  pub session_id : ℕ
  pub protocol_version : ℕ
  pub interface_version : ℕ
  pub message_type : MessageType
  pub return_code : ReturnCode

-- `Header::SIZE`
abbrev pub header_size : ℕ
header_size = 16

-- The ranges of the fields' types, and the least length that a header may carry.
pub record IsValid (h : Header) : Type 0 where
  pub service_id_u16 : h.service_id < 65536
  pub method_id_u16 : h.method_id < 65536
  pub length_u32 : h.length < 4294967296
  pub length_tail : 8 ≤ h.length
  pub client_id_u16 : h.client_id < 65536
  pub session_id_u16 : h.session_id < 65536
  pub protocol_version_u8 : h.protocol_version < 256
  pub interface_version_u8 : h.interface_version < 256
  pub return_code_valid : Codes.IsValid h.return_code

-- `payload_length`: the subtraction of the native numbers stops at 0, as `saturating_sub` does.
unfoldable pub payload_length : Header → ℕ
payload_length self = self.length - 8

-- `8 + payload.len() as u32`: the cast wraps. The sum panics past 2^32 in a debug build and wraps
-- in a release build; the model has the release build.
abbrev pub message_length : List ℕ → ℕ
message_length payload = (8 + length payload % 2 ^ 32) % 2 ^ 32

module _ ⦃bytes : ByteBuffer⦄ where
  open bytes use {
    remaining, get_u8, get_u16, get_u32, put_u8, put_u16, put_u32, with_capacity, extend_from_slice,
    freeze,
  }

  -- The header and the bytes behind it. Where the source returns `None` its caller drops the buffer.
  unfoldable pub parse : List ℕ → Option (Header × List ℕ)
  parse b0 =
      if ltb (remaining b0) header_size
      then none
      else (let (service_id, b1) = get_u16 b0 in
          let (method_id, b2) = get_u16 b1 in
          let (length, b3) = get_u32 b2 in
          let (client_id, b4) = get_u16 b3 in
          let (session_id, b5) = get_u16 b4 in
          let (protocol_version, b6) = get_u8 b5 in
          let (interface_version, b7) = get_u8 b6 in
          let (message_type_raw, b8) = get_u8 b7 in
          let (return_code_raw, b9) = get_u8 b8 in
          MessageType.from_u8 message_type_raw >>= λ message_type.
          if ltb length 8
          then none
          else some (
            record {
              service_id = service_id;
              method_id = method_id;
              length = length;
              client_id = client_id;
              session_id = session_id;
              protocol_version = protocol_version;
              interface_version = interface_version;
              message_type = message_type;
              return_code = ReturnCode.from_u8 return_code_raw;
            },
            b9,
          ))

  unfoldable pub serialize : Header → List ℕ → List ℕ
  serialize self b0 =
      let b1 = put_u16 b0 self.service_id in
      let b2 = put_u16 b1 self.method_id in
      let b3 = put_u32 b2 self.length in
      let b4 = put_u16 b3 self.client_id in
      let b5 = put_u16 b4 self.session_id in
      let b6 = put_u8 b5 self.protocol_version in
      let b7 = put_u8 b6 self.interface_version in
      let b8 = put_u8 b7 (MessageType.as_u8 self.message_type) in
      put_u8 b8 (ReturnCode.as_u8 self.return_code)

  unfoldable pub build_someip_message :
      (service_id method_id client_id session_id interface_version : ℕ)
      → MessageType
      → ReturnCode
      → List ℕ
      → List ℕ
  unfolding serialize
  build_someip_message service_id method_id client_id session_id interface_version type code
        payload =
      let buf = with_capacity (header_size + length payload) in
      let header : Header = record {
        service_id = service_id;
        method_id = method_id;
        length = message_length payload;
        client_id = client_id;
        session_id = session_id;
        protocol_version = protocol_version;
        interface_version = interface_version;
        message_type = type;
        return_code = code;
      } in
      freeze (extend_from_slice (serialize header buf) payload)
