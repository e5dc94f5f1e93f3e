-- ===== src/Wire/Version.antt =====
-- src/wire.rs: interface versions and their validation.
use recentip.Prelude.{ℕ, ◌≡◌, ◌==◌, leb, if◌then◌else◌, ◌&&◌, Bool, arith}

abbrev pub protocol_version : ℕ
protocol_version = 0x01

abbrev pub sd_interface_version : ℕ
sd_interface_version = 0x01

pub record InterfaceVersion : Type 0 where
  pub major : ℕ
  pub minor : ℕ

pub is_compatible_with : InterfaceVersion → InterfaceVersion → Bool
is_compatible_with self required = self.major == required.major && leb required.minor self.minor

pub matches_exactly : InterfaceVersion → InterfaceVersion → Bool
matches_exactly self other = self.major == other.major && self.minor == other.minor

pub data VersionError : Type 0 where
  protocol_mismatch : (expected found : ℕ) → VersionError
  interface_major_mismatch : (expected found : ℕ) → VersionError
  interface_minor_too_old : (minimum found : ℕ) → VersionError

pub data Validation : Type 0 where
  valid : Validation
  invalid : VersionError → Validation

unfoldable pub validate_protocol_version : ℕ → Validation
validate_protocol_version version_byte =
    if version_byte == protocol_version
    then valid
    else invalid (protocol_mismatch protocol_version version_byte)

pub validate_interface_version : ℕ → InterfaceVersion → Validation
validate_interface_version header_major expected =
    if header_major == expected.major
    then valid
    else invalid (interface_major_mismatch expected.major header_major)

-- Two versions are each compatible with the other exactly if they match exactly.
is_compatible_with_both :
    (a b : InterfaceVersion)
    → (is_compatible_with a b && is_compatible_with b a) ≡ matches_exactly a b
unfolding is_compatible_with matches_exactly
is_compatible_with_both a b = ground arith
