-- ===== src/Wire/SdMessage/Layout.antt =====
-- The layout of a service discovery payload, and that `serialize_payload` writes it.
use recentip.Prelude.{
  ℕ, ◌+◌, ◌*◌, ◌%◌, ◌<◌, ◌≡◌, refl, ◌∙◌, List, [], ◌∷◌, ◌++◌, append_assoc, All, length, arith,
}
use recentip.Buffer.{ByteBuffer}
use recentip.Wire.Header.RoundTrip.{be32}
use recentip.Wire.SdEntry.{SdEntry}
use recentip.Wire.SdEntry.RoundTrip.{
  entry_bytes, length-entry_bytes, entry_bytes-append, serialize-entry_bytes,
}
use recentip.Wire.SdEntry.RoundTrip as Entry
use recentip.Wire.SdOption.{SdOption}
use recentip.Wire.SdOption.RoundTrip as Opt
use recentip.Wire.SdOption.RoundTrip.{
  option_bytes, length-option_bytes, option_bytes-append, serialize-option_bytes,
}
use recentip.Wire.SdMessage.{
  SdMessage, options_size, serialize_entries, serialize_options, serialize_payload,
}

-- Every entry and option is valid, and the two arrays are measured by 32 bits.
pub record IsValid (m : SdMessage) : Type 0 where
  pub flags_u8 : m.flags < 256
  pub entries_valid : All Entry.IsValid m.entries
  pub options_valid : All Opt.IsValid m.options
  pub entries_len_u32 : length m.entries * 16 < 4294967296
  pub options_len_u32 : options_size m.options < 4294967296

abbrev pub entries_bytes : List SdEntry → List ℕ → List ℕ
entries_bytes [] rest = rest
entries_bytes (e ∷ es) rest = entry_bytes e (entries_bytes es rest)

abbrev pub options_bytes : List SdOption → List ℕ → List ℕ
options_bytes [] rest = rest
options_bytes (o ∷ os) rest = option_bytes o (options_bytes os rest)

abbrev pub payload_bytes : SdMessage → List ℕ → List ℕ
payload_bytes m rest =
    m.flags
    ∷ 0
    ∷ 0
    ∷ 0
    ∷ be32 (length m.entries * 16)
        (entries_bytes m.entries (be32 (options_size m.options) (options_bytes m.options rest)))

pub length-entries_bytes :
    (es : List SdEntry) (rest : List ℕ)
    → length (entries_bytes es rest) ≡ length es * 16 + length rest
length-entries_bytes [] rest = omega arith
length-entries_bytes (e ∷ es) rest =
    omega (arith, length-entry_bytes e (entries_bytes es rest), length-entries_bytes es rest)

pub length-options_bytes :
    (os : List SdOption) (rest : List ℕ)
    → length (options_bytes os rest) ≡ options_size os + length rest
unfolding options_size
length-options_bytes [] rest = omega arith
length-options_bytes (o ∷ os) rest =
    omega (arith, length-option_bytes o (options_bytes os rest), length-options_bytes os rest)

module _ ⦃bytes : ByteBuffer⦄ where
  open bytes use {put_u8_lem, put_u32_lem, with_capacity_lem, freeze_lem}

  serialize_entries-entries_bytes :
      (es : List SdEntry) (b rest : List ℕ)
      → All Entry.IsValid es
      → serialize_entries es b ++ rest ≡ b ++ entries_bytes es rest
  unfolding serialize_entries
  serialize_entries-entries_bytes [] b rest v = refl
  serialize_entries-entries_bytes (e ∷ es) b rest v =
      serialize_entries-entries_bytes es _ rest v.1
      ∙ rw (serialize-entry_bytes e b v.0, append_assoc, entry_bytes-append)

  serialize_options-options_bytes :
      (os : List SdOption) (b rest : List ℕ)
      → All Opt.IsValid os
      → serialize_options os b ++ rest ≡ b ++ options_bytes os rest
  unfolding serialize_options
  serialize_options-options_bytes [] b rest v = refl
  serialize_options-options_bytes (o ∷ os) b rest v =
      serialize_options-options_bytes os _ rest v.1
      ∙ rw (serialize-option_bytes o b v.0, append_assoc, option_bytes-append)

  pub serialize_payload-payload_bytes :
      (m : SdMessage) (rest : List ℕ)
      → IsValid m
      → serialize_payload m ++ rest ≡ payload_bytes m rest
  unfolding serialize_payload
  serialize_payload-payload_bytes m rest v =
      simp
        (
          freeze_lem,
          serialize_options-options_bytes m.options _ rest v.options_valid,
          entries_fit,
          options_fit,
          put_u32_lem _ (length m.entries * 16) v.entries_len_u32,
          put_u32_lem _ (options_size m.options) v.options_len_u32,
          append_assoc,
        )
        (simp (
          serialize_entries-entries_bytes m.entries _ _ v.entries_valid,
          append_assoc,
          with_capacity_lem,
          put_u8_lem _ m.flags v.flags_u8,
          put_u8_lem _ 0 (omega arith),
        ))
    where
      entries_fit : length m.entries * 16 % 4294967296 ≡ length m.entries * 16
      entries_fit = omega (arith, v.entries_len_u32)

      options_fit : options_size m.options % 4294967296 ≡ options_size m.options
      options_fit = omega (arith, v.options_len_u32)
