-- ===== src/Wire/Header/Canonical.antt =====
-- Reading a header is exact: what is accepted is what `serialize` writes.
use recentip.Prelude.{
  ℕ, ◌+◌, ◌*◌, ◌/◌, ◌%◌, ◌≤◌, ◌<◌, ◌≡◌, List, ◌∷◌, none, some, length, arith, All, ltb, le→ltb,
  IsByte, inl, inr, Option-cases, Bool-cases, ◌>>=◌, if◌then◌else◌,
}
use mathlib.Core.Path.{subst}
use recentip.Buffer.{ByteBuffer}
use recentip.Types.ReturnCode
use recentip.Types.ReturnCode.Codes
use recentip.Wire.MessageType
use recentip.Wire.MessageType.{MessageType}
use recentip.Wire.MessageType.Flags
use recentip.Wire.Header.{Header, IsValid, parse, header_size}
use recentip.Wire.Header.RoundTrip.{header_bytes, parse_short}

-- The header that sixteen bytes spell, given the type that the fifteenth stands for.
abbrev spelled : (s1 s0 m1 m0 l3 l2 l1 l0 c1 c0 n1 n0 p i : ℕ) → MessageType → ℕ → Header
spelled s1 s0 m1 m0 l3 l2 l1 l0 c1 c0 n1 n0 p i t r = record {
  service_id = s1 * 256 + s0;
  method_id = m1 * 256 + m0;
  length = l3 * 16777216 + l2 * 65536 + l1 * 256 + l0;
  client_id = c1 * 256 + c0;
  session_id = n1 * 256 + n0;
  protocol_version = p;
  interface_version = i;
  message_type = t;
  return_code = ReturnCode.from_u8 r;
}

spelled_canonical :
    (s1 s0 m1 m0 l3 l2 l1 l0 c1 c0 n1 n0 p i t r : ℕ) (rest : List ℕ) (type : MessageType)
    → All IsByte (s1 ∷ s0 ∷ m1 ∷ m0 ∷ l3 ∷ l2 ∷ l1 ∷ l0 ∷ c1 ∷ c0 ∷ n1 ∷ n0 ∷ p ∷ i ∷ t ∷ r ∷ rest)
    → MessageType.from_u8 t ≡ some type
    → 8 ≤ l3 * 16777216 + l2 * 65536 + l1 * 256 + l0
    → IsValid (spelled s1 s0 m1 m0 l3 l2 l1 l0 c1 c0 n1 n0 p i type r)
      × ((s1 ∷ s0 ∷ m1 ∷ m0 ∷ l3 ∷ l2 ∷ l1 ∷ l0 ∷ c1 ∷ c0 ∷ n1 ∷ n0 ∷ p ∷ i ∷ t ∷ r ∷ rest)
          ≡ header_bytes (spelled s1 s0 m1 m0 l3 l2 l1 l0 c1 c0 n1 n0 p i type r) rest)
spelled_canonical s1 s0 m1 m0 l3 l2 l1 l0 c1 c0 n1 n0 p i t r rest type v e h = (
  record {
    service_id_u16 = omega arith;
    method_id_u16 = omega arith;
    length_u32 = omega arith;
    length_tail = h;
    client_id_u16 = omega arith;
    session_id_u16 = omega arith;
    protocol_version_u8 = omega arith;
    interface_version_u8 = omega arith;
    return_code_valid = Codes.from_u8-IsValid r (omega arith);
  },
  cells,
)
  where
    high : (x y : ℕ) → y < 256 → (x * 256 + y) / 256 ≡ x
    high x y k = omega arith

    low : (x y : ℕ) → y < 256 → (x * 256 + y) % 256 ≡ y
    low x y k = omega arith

    digit3 : (l3 * 16777216 + l2 * 65536 + l1 * 256 + l0) / 16777216 ≡ l3
    digit3 = omega arith

    digit2 : (l3 * 16777216 + l2 * 65536 + l1 * 256 + l0) / 65536 % 256 ≡ l2
    digit2 = omega arith

    digit1 : (l3 * 16777216 + l2 * 65536 + l1 * 256 + l0) / 256 % 256 ≡ l1
    digit1 = omega arith

    digit0 : (l3 * 16777216 + l2 * 65536 + l1 * 256 + l0) % 256 ≡ l0
    digit0 = omega arith

    cells :
        (s1 ∷ s0 ∷ m1 ∷ m0 ∷ l3 ∷ l2 ∷ l1 ∷ l0 ∷ c1 ∷ c0 ∷ n1 ∷ n0 ∷ p ∷ i ∷ t ∷ r ∷ rest)
        ≡ header_bytes (spelled s1 s0 m1 m0 l3 l2 l1 l0 c1 c0 n1 n0 p i type r) rest
    cells = simp (
      high s1 s0 (omega arith),
      low s1 s0 (omega arith),
      high m1 m0 (omega arith),
      low m1 m0 (omega arith),
      high c1 c0 (omega arith),
      low c1 c0 (omega arith),
      high n1 n0 (omega arith),
      low n1 n0 (omega arith),
      digit3,
      digit2,
      digit1,
      digit0,
      Flags.as_u8_of_from_u8 t type e,
      Codes.as_u8-from_u8 r,
    )

module _ ⦃bytes : ByteBuffer⦄ where
  open bytes use {remaining_lem, get_u8_lem, get_u16_lem, get_u32_lem}

  parse_sixteen :
      (s1 s0 m1 m0 l3 l2 l1 l0 c1 c0 n1 n0 p i t r : ℕ) (rest : List ℕ)
      → parse (s1 ∷ s0 ∷ m1 ∷ m0 ∷ l3 ∷ l2 ∷ l1 ∷ l0 ∷ c1 ∷ c0 ∷ n1 ∷ n0 ∷ p ∷ i ∷ t ∷ r ∷ rest) ≡ (
          MessageType.from_u8 t >>= λ type.
          if ltb (l3 * 16777216 + l2 * 65536 + l1 * 256 + l0) 8
          then none
          else some (spelled s1 s0 m1 m0 l3 l2 l1 l0 c1 c0 n1 n0 p i type r, rest))
  unfolding parse
  parse_sixteen s1 s0 m1 m0 l3 l2 l1 l0 c1 c0 n1 n0 p i t r rest = simp (
    remaining_lem,
    get_u16_lem,
    get_u32_lem,
    get_u8_lem,
    le→ltb
        (length (s1 ∷ s0 ∷ m1 ∷ m0 ∷ l3 ∷ l2 ∷ l1 ∷ l0 ∷ c1 ∷ c0 ∷ n1 ∷ n0 ∷ p ∷ i ∷ t ∷ r ∷ rest))
        header_size (omega arith),
  )

  -- A header is accepted only if it has 16 bytes, a known message type and a length of 8 or more;
  -- and then its fields are in range, and writing them gives the 16 bytes back.
  pub parse_canonical :
      (b : List ℕ) (h : Header) (rest : List ℕ)
      → All IsByte b
      → parse b ≡ some (h, rest)
      → IsValid h × (b ≡ header_bytes h rest)
  parse_canonical (s1 ∷ s0 ∷ m1 ∷ m0 ∷ l3 ∷ l2 ∷ l1 ∷ l0 ∷ c1 ∷ c0 ∷ n1 ∷ n0 ∷ p ∷ i ∷ t ∷ r ∷ rest)
        h rest' v e =
      elim (Option-cases (MessageType.from_u8 t)) [
        | inl bad ↦
            absurd (cc (parse_sixteen s1 s0 m1 m0 l3 l2 l1 l0 c1 c0 n1 n0 p i t r rest, bad))
        | inr (type, good) ↦
            elim (Bool-cases (ltb (l3 * 16777216 + l2 * 65536 + l1 * 256 + l0) 8)) [
              | inl small ↦
                  absurd (
                    cc
                      (parse_sixteen s1 s0 m1 m0 l3 l2 l1 l0 c1 c0 n1 n0 p i t r rest, good, small))
              | inr enough ↦
                  let q : ◌≡◌ {A = Header × List ℕ}
                      (spelled s1 s0 m1 m0 l3 l2 l1 l0 c1 c0 n1 n0 p i type r, rest) (h, rest') =
                    cc (
                      parse_sixteen s1 s0 m1 m0 l3 l2 l1 l0 c1 c0 n1 n0 p i t r rest,
                      good,
                      enough,
                    ) in
                  subst
                    (λ x.
                      IsValid x.0
                      × ((s1 ∷ s0 ∷ m1 ∷ m0 ∷ l3 ∷ l2 ∷ l1 ∷ l0 ∷ c1 ∷ c0 ∷ n1 ∷ n0 ∷ p ∷ i ∷ t ∷ r
                            ∷ rest)
                          ≡ header_bytes x.0 x.1))
                    q
                    (spelled_canonical s1 s0 m1 m0 l3 l2 l1 l0 c1 c0 n1 n0 p i t r rest type v good
                      (ground arith))
            ]
      ]
  parse_canonical b h rest' v e = absurd (cc (parse_short b (omega arith), e))
