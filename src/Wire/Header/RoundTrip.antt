-- ===== src/Wire/Header/RoundTrip.antt =====
-- Reading and writing a header. `header_bytes` is the layout of the 16 bytes, field by field.
use recentip.Prelude.{
  ℕ, ◌+◌, ◌*◌, ◌/◌, ◌%◌, ◌<◌, ◌≡◌, List, [], ◌∷◌, ◌++◌, append_assoc, none, some, length, arith,
  le→ltb, lt→ltb,
}
use recentip.Buffer.{ByteBuffer}
use recentip.Types.ReturnCode
use recentip.Types.ReturnCode.Codes
use recentip.Wire.MessageType
use recentip.Wire.MessageType.{MessageType}
use recentip.Wire.MessageType.Flags
use recentip.Wire.Header.{Header, IsValid, parse, serialize, header_size}

abbrev pub be16 : ℕ → List ℕ → List ℕ
be16 x rest = (x / 256) ∷ (x % 256) ∷ rest

abbrev pub be32 : ℕ → List ℕ → List ℕ
be32 x rest = (x / 16777216) ∷ (x / 65536 % 256) ∷ (x / 256 % 256) ∷ (x % 256) ∷ rest

abbrev pub header_bytes : Header → List ℕ → List ℕ
header_bytes h rest = be16 h.service_id (
    be16 h.method_id (
      be32 h.length (
        be16 h.client_id (
          be16 h.session_id (
            h.protocol_version
            ∷ h.interface_version
            ∷ MessageType.as_u8 h.message_type
            ∷ ReturnCode.as_u8 h.return_code
            ∷ rest)))))

pub u16_digits : (x : ℕ) → x / 256 * 256 + x % 256 ≡ x
u16_digits x = omega arith

pub u32_digits :
    (x : ℕ) → x / 16777216 * 16777216 + x / 65536 % 256 * 65536 + x / 256 % 256 * 256 + x % 256 ≡ x
u32_digits x = omega arith

module _ ⦃bytes : ByteBuffer⦄ where
  open bytes use {
    remaining_lem, get_u8_lem, get_u16_lem, get_u32_lem, put_u8_lem, put_u16_lem, put_u32_lem,
  }

  pub serialize-header_bytes :
      (h : Header) (b : List ℕ) → IsValid h → serialize h b ≡ b ++ header_bytes h []
  unfolding serialize
  serialize-header_bytes h b v = simp (
    put_u16_lem _ h.service_id v.service_id_u16,
    put_u16_lem _ h.method_id v.method_id_u16,
    put_u32_lem _ h.length v.length_u32,
    put_u16_lem _ h.client_id v.client_id_u16,
    put_u16_lem _ h.session_id v.session_id_u16,
    put_u8_lem _ h.protocol_version v.protocol_version_u8,
    put_u8_lem _ h.interface_version v.interface_version_u8,
    put_u8_lem _ (MessageType.as_u8 h.message_type) (Flags.as_u8-lt h.message_type),
    put_u8_lem _ (ReturnCode.as_u8 h.return_code)
        (Codes.as_u8-lt h.return_code v.return_code_valid),
    append_assoc,
  )

  pub parse-header_bytes :
      (h : Header) (rest : List ℕ) → IsValid h → parse (header_bytes h rest) ≡ some (h, rest)
  unfolding parse
  parse-header_bytes h rest v = simp (
    remaining_lem,
    get_u16_lem,
    get_u32_lem,
    get_u8_lem,
    u16_digits,
    u32_digits,
    Flags.from_u8-as_u8,
    Codes.from_u8-as_u8 h.return_code v.return_code_valid,
    le→ltb h.length 8 v.length_tail,
    le→ltb (length (header_bytes h rest)) header_size (omega arith),
  )

  pub parse_short : (b : List ℕ) → length b < header_size → parse b ≡ none
  unfolding parse
  parse_short b h = simp (remaining_lem, lt→ltb (length b) header_size h)
