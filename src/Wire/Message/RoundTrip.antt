-- ===== src/Wire/Message/RoundTrip.antt =====
-- Messages on the wire: reading back what was written, and the builders' messages.
use recentip.Prelude.{
  ℕ, ◌+◌, ◌-◌, ◌%◌, ◌^◌, ◌<◌, ◌≡◌, refl, sym, ap, ◌∙◌, List, [], ◌++◌, append_assoc, some, length,
  arith, ltb, ltb-length_append, IsByte, All, inl, inr, Option-cases, Bool-cases, take, drop,
  take-append-drop, length-take_le, ◌≤◌,
}
use mathlib.Core.Path.{subst}
use recentip.Buffer.{ByteBuffer}
use recentip.Types.ReturnCode.{ReturnCode}
use recentip.Types.ReturnCode.Codes
use recentip.Wire.MessageType.{MessageType}
use recentip.Wire.Header
use recentip.Wire.Header.{Header, payload_length, build_someip_message}
use recentip.Wire.Header.RoundTrip.{header_bytes, serialize-header_bytes, parse-header_bytes}
use recentip.Wire.Header.Canonical.{parse_canonical}
use recentip.Wire.Version.{protocol_version}
use recentip.Wire.Message.{Message, parse, serialize}

-- A header whose fields are in range and whose length counts the payload and the header's tail.
pub record IsValid (m : Message) : Type 0 where
  pub header_valid : Header.IsValid m.header
  pub length_payload : m.header.length ≡ 8 + length m.payload

-- The layout: the header, the payload, and whatever follows.
abbrev pub message_bytes : Message → List ℕ → List ℕ
message_bytes m rest = header_bytes m.header (m.payload ++ rest)

module _ ⦃bytes : ByteBuffer⦄ where
  open bytes use {
    remaining_lem, copy_to_bytes_lem, with_capacity_lem, extend_from_slice_lem, freeze_lem,
  }

  pub serialize-message_bytes :
      (m : Message) (rest : List ℕ) → IsValid m → serialize m ++ rest ≡ message_bytes m rest
  unfolding serialize
  serialize-message_bytes m rest v = simp (
    with_capacity_lem,
    extend_from_slice_lem,
    freeze_lem,
    serialize-header_bytes m.header [] v.header_valid,
    append_assoc,
  )

  payload_length_valid : (m : Message) → IsValid m → payload_length m.header ≡ length m.payload
  unfolding payload_length
  payload_length_valid m v = omega (arith, v.length_payload)

  parse-message_bytes :
      (m : Message) (rest : List ℕ) → IsValid m → parse (message_bytes m rest) ≡ some (m, rest)
  unfolding parse
  parse-message_bytes m rest v = simp (
    parse-header_bytes m.header (m.payload ++ rest) v.header_valid,
    remaining_lem,
    ltb-length_append m.payload rest,
    payload_length_valid m v,
    copy_to_bytes_lem,
  )

  -- A valid message is read back from its bytes, with whatever follows left over.
  parse-serialize :
      (m : Message) (rest : List ℕ) → IsValid m → parse (serialize m ++ rest) ≡ some (m, rest)
  parse-serialize m rest v = rw (serialize-message_bytes m rest v) (parse-message_bytes m rest v)

  -- What the builders send: the fields they are given, the version and the length filled in.
  abbrev pub built :
      (service_id method_id client_id session_id interface_version : ℕ)
      → MessageType
      → ReturnCode
      → List ℕ
      → Message
  built service_id method_id client_id session_id interface_version type code payload = record {
    header = record {
      service_id = service_id;
      method_id = method_id;
      length = 8 + length payload;
      client_id = client_id;
      session_id = session_id;
      protocol_version = protocol_version;
      interface_version = interface_version;
      message_type = type;
      return_code = code;
    };
    payload = payload;
  }

  pub built-IsValid :
      (service_id method_id client_id session_id interface_version : ℕ) (type : MessageType)
      (code : ReturnCode) (payload : List ℕ)
      → service_id < 65536
      → method_id < 65536
      → client_id < 65536
      → session_id < 65536
      → interface_version < 256
      → Codes.IsValid code
      → length payload < 2 ^ 32 - 8
      → IsValid
          (built service_id method_id client_id session_id interface_version type code payload)
  built-IsValid s m c n i type code payload hs hm hc hn hi hcode hp = record {
    header_valid = record {
      service_id_u16 = hs;
      method_id_u16 = hm;
      length_u32 = omega arith;
      length_tail = omega arith;
      client_id_u16 = hc;
      session_id_u16 = hn;
      protocol_version_u8 = omega arith;
      interface_version_u8 = hi;
      return_code_valid = hcode;
    };
    length_payload = refl;
  }

  pub build-message_bytes :
      (s m c n i : ℕ) (type : MessageType) (code : ReturnCode) (payload rest : List ℕ)
      → length payload < 2 ^ 32 - 8
      → IsValid (built s m c n i type code payload)
      → build_someip_message s m c n i type code payload ++ rest
        ≡ message_bytes (built s m c n i type code payload) rest
  unfolding build_someip_message
  build-message_bytes s m c n i type code payload rest hp v =
      let exact : (8 + length payload % 2 ^ 32) % 2 ^ 32 ≡ 8 + length payload = omega arith in
      simp (
        exact,
        with_capacity_lem,
        extend_from_slice_lem,
        freeze_lem,
        serialize-header_bytes (built s m c n i type code payload).header [] v.header_valid,
        append_assoc,
      )

  -- A built message is read back as the message with the given fields, the crate's protocol version
  -- and the payload, if the fields are in range and the payload is shorter than 2^32 - 8 bytes.
  parse-build_someip_message :
      (service_id method_id client_id session_id interface_version : ℕ) (type : MessageType)
      (code : ReturnCode) (payload rest : List ℕ)
      → service_id < 65536
      → method_id < 65536
      → client_id < 65536
      → session_id < 65536
      → interface_version < 256
      → Codes.IsValid code
      → length payload < 2 ^ 32 - 8
      → parse (
          build_someip_message service_id method_id client_id session_id interface_version type code
            payload
          ++ rest)
        ≡ some (
          built service_id method_id client_id session_id interface_version type code payload,
          rest,
        )
  parse-build_someip_message s m c n i type code payload rest hs hm hc hn hi hcode hp =
      let v = built-IsValid s m c n i type code payload hs hm hc hn hi hcode hp in
      rw (build-message_bytes s m c n i type code payload rest hp v)
        (parse-message_bytes (built s m c n i type code payload) rest v)

  copy_to_bytes-take-drop :
      (n : ℕ) (b : List ℕ) → n ≤ length b → bytes.copy_to_bytes n b ≡ (take n b, drop n b)
  copy_to_bytes-take-drop n b h =
      rw (length-take_le n b h, take-append-drop n b) at (copy_to_bytes_lem (take n b) (drop n b))

  -- What a successful `parse` did: the header, and a cut of the bytes behind it.
  parse_parts :
      (b : List ℕ) (m : Message) (rest : List ℕ)
      → parse b ≡ some (m, rest)
      → (b1 : List ℕ) × (Header.parse b ≡ some (m.header, b1))
        × (payload_length m.header ≤ length b1)
        × (m.payload ≡ take (payload_length m.header) b1)
        × (rest ≡ drop (payload_length m.header) b1)
  unfolding parse
  parse_parts b m rest e = elim (Option-cases (Header.parse b)) [
    | inl bad ↦ absurd (cc bad)
    | inr ((h, b1), good) ↦
        let n = payload_length h in
        elim (Bool-cases (ltb (length b1) n)) [
          | inl short ↦ absurd (cc (good, remaining_lem b1, short))
          | inr enough ↦
              let fits : n ≤ length b1 = ground arith in
              let q : ◌≡◌ {A = Message × List ℕ}
                  (record { header = h; payload = take n b1 }, drop n b1) (m, rest) =
                cc (good, remaining_lem b1, enough, copy_to_bytes-take-drop n b1 fits) in
              subst
                (λ x.
                  (b1 : List ℕ) × (Header.parse b ≡ some (x.0.header, b1))
                  × (payload_length x.0.header ≤ length b1)
                  × (x.0.payload ≡ take (payload_length x.0.header) b1)
                  × (x.1 ≡ drop (payload_length x.0.header) b1))
                q (b1, good, fits, refl, refl)
        ]
  ]

  -- From bytes, a message is accepted only if it is what `serialize` writes: it is valid, and its bytes and the
  -- bytes left over are the input.
  pub parse_exact :
      (b : List ℕ) (m : Message) (rest : List ℕ)
      → All IsByte b
      → parse b ≡ some (m, rest)
      → IsValid m × (serialize m ++ rest ≡ b)
  parse_exact b m rest v e =
      let (b1, read, fits, cut, left) = parse_parts b m rest e in
      let (hv, whole) = parse_canonical b m.header b1 v read in
      let valid : IsValid m = record {
        header_valid = hv;
        length_payload =
            unfold payload_length in
            omega (arith, ap length cut, length-take_le _ b1 fits, hv.length_tail);
      } in
      (
        valid,
        serialize-message_bytes m rest valid
            ∙ rw (cut, left, take-append-drop (payload_length m.header) b1) (sym whole),
      )
