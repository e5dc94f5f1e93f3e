-- ===== src/Types/ReturnCode/Codes.antt =====
-- The bytes of return codes: reading and writing one, and the errors that a service may send.
use recentip.Prelude.{ℕ, ◌≤◌, ◌<◌, ◌≡◌, refl, ◌⊎◌, Bool, some, arith}
use recentip.Types.ReturnCode.{
  ReturnCode, ok, service_specific, reserved, from_u8, as_u8, ApplicationError,
  application_service_specific, return_code, application_as_u8, is_ok,
}

-- Writing the code that a byte was read as gives the byte back, for every byte.
pub as_u8-from_u8 : (value : ℕ) → as_u8 (from_u8 value) ≡ value
unfolding as_u8 from_u8
as_u8-from_u8 value = ground arith

-- What the two newtypes hold when only `new_service_error` and `from_u8` build them.
abbrev pub IsValid : ReturnCode → Type 0
IsValid (service_specific c) = (0x20 ≤ c.value) × (c.value ≤ 0x3f)
IsValid (reserved c) = (0x0b ≤ c.value) × (c.value < 256) × ((c.value < 0x20) ⊎ (0x3f < c.value))
IsValid _ = Unit {0}

pub from_u8-IsValid : (value : ℕ) → value < 256 → IsValid (from_u8 value)
unfolding from_u8
from_u8-IsValid value h = ground arith

pub from_u8-as_u8 : (c : ReturnCode) → IsValid c → from_u8 (as_u8 c) ≡ c
unfolding as_u8 from_u8
from_u8-as_u8 ok v = refl
from_u8-as_u8 (service_specific c) v = ground arith
from_u8-as_u8 (reserved c) v = ground arith
from_u8-as_u8 _ v = refl

pub as_u8-lt : (c : ReturnCode) → IsValid c → as_u8 c < 256
unfolding as_u8
as_u8-lt (service_specific c) v = omega arith
as_u8-lt (reserved c) v = v.1
as_u8-lt _ v = omega arith

-- An application error that was built from a byte has a byte from 0x20 to 0x3f, goes out as that
-- byte, and is read by a receiver as the return code of the error, which is not `ok`.
application_service_specific_wire :
    (code : ℕ) (e : ApplicationError)
    → application_service_specific code ≡ some e
    → (0x20 ≤ code)
      × (code ≤ 0x3f)
      × (application_as_u8 e ≡ code)
      × (from_u8 (application_as_u8 e) ≡ return_code e)
      × (is_ok (from_u8 (application_as_u8 e)) ≡ Bool.false)
unfolding application_service_specific application_as_u8 from_u8 is_ok
application_service_specific_wire code e h = ground arith
