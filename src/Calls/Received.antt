-- ===== src/Calls/Received.antt =====
-- Reading a built message as the event loop reads a received one.
use recentip.Prelude.{
  ℕ, ◌+◌, ◌-◌, ◌^◌, ◌<◌, ◌≡◌, ◌==◌, refl, sym, ap, ◌∙◌, false, ltb, List, [], ◌∷◌, ◌++◌, append-nil,
  some, length, arith, take,
}
use recentip.Buffer.{ByteBuffer}
use recentip.Types.ReturnCode.{ReturnCode}
use recentip.Types.ReturnCode.Codes
use recentip.Wire.MessageType.{MessageType}
use recentip.Wire.Version.{protocol_version, validate_protocol_version}
use recentip.Wire.SdMessage.{sd_service_id}
use recentip.Wire.Header
use recentip.Wire.Header.{Header, header_size, payload_length, build_someip_message}
use recentip.Wire.Header.RoundTrip.{header_bytes, parse-header_bytes}
use recentip.Wire.Message.RoundTrip.{
  IsValid, message_bytes, built, built-IsValid, build-message_bytes,
}
use recentip.Calls.{parse_method_message}

pub take-length : (xs : List ℕ) → take (length xs) xs ≡ xs
take-length [] = refl
take-length (x ∷ xs) = rw (take-length xs)

-- The ids and the version of a message have a place in its header.
pub record InRange (service_id method_id client_id session_id interface_version : ℕ) : Type 0 where
  pub not_sd : (service_id == sd_service_id) ≡ false
  pub service_id_u16 : service_id < 65536
  pub method_id_u16 : method_id < 65536
  pub client_id_u16 : client_id < 65536
  pub session_id_u16 : session_id < 65536
  pub interface_version_u8 : interface_version < 256

-- A received message: its type is the one that is named, which the event loop dispatches by; its ids are those that are named, and so are its
-- code and its payload.
abbrev pub Reads :
    ⦃bytes : ByteBuffer⦄
    → (message : List ℕ) → (service_id method_id client_id session_id interface_version : ℕ)
    → MessageType
    → ReturnCode
    → List ℕ
    → Type 0
Reads message s m c n i type code payload =
    (header : Header) × (parse_method_message message ≡ some (header, payload))
    × (header.message_type ≡ type)
    × (header.service_id ≡ s)
    × (header.method_id ≡ m)
    × (header.client_id ≡ c)
    × (header.session_id ≡ n)
    × (header.interface_version ≡ i)
    × (header.return_code ≡ code)

module _ ⦃bytes : ByteBuffer⦄ where
  parse_method_message-header_bytes :
      (h : Header) (payload : List ℕ)
      → Header.IsValid h
      → (h.service_id == sd_service_id) ≡ false
      → h.protocol_version ≡ protocol_version
      → h.length ≡ 8 + length payload
      → parse_method_message (header_bytes h payload) ≡ some (h, payload)
  unfolding parse_method_message payload_length validate_protocol_version
  parse_method_message-header_bytes h payload v other version len =
      let enough : ltb (length (header_bytes h payload)) (header_size + (8 + length payload - 8))
          ≡ false =
        ground arith in
      let all : 8 + length payload - 8 ≡ length payload = omega arith in
      rw
        (
          parse_method_message,
          parse-header_bytes h payload v,
          other,
          version,
          len,
          enough,
          all,
          take-length payload,
        )
        refl

  pub parse_method_message-built :
      (s m c n i : ℕ) (type : MessageType) (code : ReturnCode) (payload : List ℕ)
      → (s == sd_service_id) ≡ false
      → length payload < 2 ^ 32 - 8
      → IsValid (built s m c n i type code payload)
      → parse_method_message (build_someip_message s m c n i type code payload)
        ≡ some ((built s m c n i type code payload).header, payload)
  parse_method_message-built s m c n i type code payload other hp v =
      let message = built s m c n i type code payload in
      let whole : build_someip_message s m c n i type code payload ++ []
          ≡ message_bytes message [] =
        build-message_bytes s m c n i type code payload [] hp v in
      ap parse_method_message
        (sym (append-nil _) ∙ whole ∙ ap (header_bytes message.header) (append-nil payload))
      ∙ parse_method_message-header_bytes message.header payload v.header_valid other refl refl

  pub read-built :
      (s m c n i : ℕ) (type : MessageType) (code : ReturnCode) (payload : List ℕ)
      → InRange s m c n i
      → Codes.IsValid code
      → length payload < 2 ^ 32 - 8
      → Reads (build_someip_message s m c n i type code payload) s m c n i type code payload
  read-built s m c n i type code payload r hcode hp = (
    (built s m c n i type code payload).header,
    parse_method_message-built s m c n i type code payload r.not_sd hp (
        built-IsValid s m c n i type code payload r.service_id_u16 r.method_id_u16 r.client_id_u16
          r.session_id_u16 r.interface_version_u8 hcode hp),
    refl,
    refl,
    refl,
    refl,
    refl,
    refl,
    refl,
  )
