-- ===== src/Wire/SdMessage/RoundTrip.antt =====
-- A service discovery payload is read back from its bytes.
use recentip.Prelude.{
  ℕ, zero, suc, ◌+◌, ◌*◌, ◌≤◌, ◌≡◌, sym, List, [], ◌∷◌, ◌++◌, append_assoc, append-nil, All, some,
  length, arith, le→ltb,
}
use recentip.Buffer.{ByteBuffer}
use recentip.Wire.Header.RoundTrip.{be32, u32_digits}
use recentip.Wire.SdEntry.{SdEntry}
use recentip.Wire.SdEntry.RoundTrip as Entry
use recentip.Wire.SdOption
use recentip.Wire.SdOption.{SdOption}
use recentip.Wire.SdOption.RoundTrip as Opt
use recentip.Wire.SdMessage.{
  SdMessage, options_size, parse_entries, parse_options, parse_rest, parse, serialize_payload,
}
use recentip.Wire.SdMessage.Layout.{
  IsValid, entries_bytes, options_bytes, payload_bytes, length-entries_bytes, length-options_bytes,
  serialize_payload-payload_bytes,
}

size_at_least : (o : SdOption) → 3 ≤ SdOption.size o
size_at_least o = unfold SdOption.size in ground arith

length-le-options_size : (os : List SdOption) → length os ≤ options_size os
unfolding options_size
length-le-options_size [] = omega arith
length-le-options_size (o ∷ os) = omega (arith, size_at_least o, length-le-options_size os)

module _ ⦃bytes : ByteBuffer⦄ where
  open bytes use {remaining_lem, get_u8_lem, get_u32_lem, advance_lem}

  parse_entries-entries_bytes :
      (es done : List SdEntry) (fuel len consumed : ℕ) (rest : List ℕ)
      → All Entry.IsValid es
      → length es ≤ fuel
      → consumed + length es * 16 ≡ len
      → parse_entries fuel len consumed (entries_bytes es rest) done ≡ some (done ++ es, len, rest)
  unfolding parse_entries
  parse_entries-entries_bytes [] done zero len consumed rest v hf hl =
      ground (arith, append-nil done)
  parse_entries-entries_bytes [] done (suc fuel) len consumed rest v hf hl =
      ground (arith, append-nil done)
  parse_entries-entries_bytes (e ∷ es) done zero len consumed rest v hf hl = absurd (omega arith)
  parse_entries-entries_bytes (e ∷ es) done (suc fuel) len consumed rest v hf hl = ground (
    arith,
    Entry.parse-entry_bytes e (entries_bytes es rest) v.0,
    parse_entries-entries_bytes es (done ++ e ∷ []) fuel len (consumed + 16) rest v.1,
    append_assoc done (e ∷ []) es,
  )

  -- The loop's test holds at each option: `c` bytes of the array are behind the cursor.
  parse_options-options_bytes :
      (os done : List SdOption) (fuel start len c : ℕ) (rest : List ℕ)
      → All Opt.IsValid os
      → length os ≤ fuel
      → c + options_size os ≡ len
      → c + length (options_bytes os rest) ≡ start
      → parse_options fuel start len (options_bytes os rest) done ≡ done ++ os
  unfolding parse_options options_size
  parse_options-options_bytes [] done zero start len c rest v hf hl hs = sym (append-nil done)
  parse_options-options_bytes [] done (suc fuel) start len c rest v hf hl hs =
      ground (arith, remaining_lem rest, append-nil done)
  parse_options-options_bytes (o ∷ os) done zero start len c rest v hf hl hs = absurd (omega arith)
  parse_options-options_bytes (o ∷ os) done (suc fuel) start len c rest v hf hl hs =
      let behind = options_bytes os rest in
      ground (
        arith,
        remaining_lem (Opt.option_bytes o behind),
        Opt.parse-option_bytes o behind v.0,
        Opt.length-option_bytes o behind,
        size_at_least o,
        parse_options-options_bytes os (done ++ o ∷ []) fuel start len (c + SdOption.size o) rest
            v.1,
        append_assoc done (o ∷ []) os,
      )

  parse_rest-options_bytes :
      (flags : ℕ) (es : List SdEntry) (os : List SdOption) (rest : List ℕ)
      → All Opt.IsValid os
      → parse_rest flags es (be32 (options_size os) (options_bytes os rest))
        ≡ some (record { flags = flags; entries = es; options = os })
  unfolding parse_rest
  parse_rest-options_bytes flags es os rest v = simp (
    remaining_lem,
    get_u32_lem,
    u32_digits,
    le→ltb (length (be32 (options_size os) (options_bytes os rest))) 4 (omega arith),
    le→ltb (length (options_bytes os rest)) (options_size os) fits,
    parse_options-options_bytes os [] (length (options_bytes os rest))
        (length (options_bytes os rest)) (options_size os) 0 rest v enough (omega arith)
        (omega arith),
  )
    where
      fits : options_size os ≤ length (options_bytes os rest)
      fits = omega (arith, length-options_bytes os rest)

      enough : length os ≤ length (options_bytes os rest)
      enough = omega (arith, length-options_bytes os rest, length-le-options_size os)

  parse-payload_bytes :
      (m : SdMessage) (rest : List ℕ) → IsValid m → parse (payload_bytes m rest) ≡ some m
  unfolding parse
  parse-payload_bytes m rest v = simp (
    remaining_lem,
    get_u8_lem,
    get_u32_lem,
    u32_digits,
    le→ltb (length (payload_bytes m rest)) 12 long,
    le→ltb (length (entries_bytes m.entries behind)) (length m.entries * 16) fits,
    parse_entries-entries_bytes m.entries [] (length m.entries * 16) (length m.entries * 16) 0
        behind v.entries_valid (omega arith) (omega arith),
    le→ltb (length m.entries * 16) (length m.entries * 16) (omega arith),
    parse_rest-options_bytes m.flags m.entries m.options rest v.options_valid,
  )
    where
      behind : List ℕ
      behind = be32 (options_size m.options) (options_bytes m.options rest)

      long : 12 ≤ length (payload_bytes m rest)
      long = omega (arith, length-entries_bytes m.entries behind)

      fits : length m.entries * 16 ≤ length (entries_bytes m.entries behind)
      fits = omega (arith, length-entries_bytes m.entries behind)

  -- A valid service discovery message is read back from its payload: every entry and every option,
  -- in order, whatever bytes follow the payload.
  pub parse-serialize_payload :
      (m : SdMessage) (rest : List ℕ) → IsValid m → parse (serialize_payload m ++ rest) ≡ some m
  parse-serialize_payload m rest v =
      rw (serialize_payload-payload_bytes m rest v) (parse-payload_bytes m rest v)
