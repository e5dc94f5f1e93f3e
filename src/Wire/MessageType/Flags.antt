-- ===== src/Wire/MessageType/Flags.antt =====
-- The bytes of message types, the TP flag, and which responses fit which requests.
use recentip.Prelude.{
  ℕ, ◌+◌, ◌<◌, ◌≡◌, refl, Bool, true, false, not, ◌&&◌, Option, none, some, arith,
}
use recentip.Wire.MessageType.{
  MessageType, as_u8, from_u8, is_tp, expects_response, is_response, with_tp_flag, without_tp_flag,
  is_valid_response_to,
}

pub from_u8-as_u8 : (t : MessageType) → from_u8 (as_u8 t) ≡ some t
unfolding from_u8 as_u8
from_u8-as_u8 MessageType.request = refl
from_u8-as_u8 _ = refl

-- A byte that is read as a message type is the byte that the type is written as.
pub as_u8_of_from_u8 : (value : ℕ) (t : MessageType) → from_u8 value ≡ some t → as_u8 t ≡ value
unfolding from_u8 as_u8
as_u8_of_from_u8 value t h = ground arith

pub as_u8-lt : (t : MessageType) → as_u8 t < 256
unfolding as_u8
as_u8-lt MessageType.request = omega arith
as_u8-lt _ = omega arith

-- What `with_tp_flag` has to answer for a type.
abbrev pub FlagLaw : MessageType → Option MessageType → Type 0
FlagLaw t none = (is_tp t ≡ true) × (as_u8 t ≡ as_u8 (without_tp_flag t) + 0x20)
FlagLaw t (some u) =
    (is_tp t ≡ false) × (is_tp u ≡ true) × (as_u8 u ≡ as_u8 t + 0x20) × (without_tp_flag u ≡ t)

-- The TP flag is the bit 0x20: setting it adds 0x20 to the byte of a type that lacks it, and is
-- refused for one that has it; clearing it undoes that.
with_tp_flag_law : (t : MessageType) → FlagLaw t (with_tp_flag t)
unfolding with_tp_flag without_tp_flag is_tp as_u8
with_tp_flag_law MessageType.request = (refl, refl, refl, refl)
with_tp_flag_law MessageType.request_no_return = (refl, refl, refl, refl)
with_tp_flag_law MessageType.notification = (refl, refl, refl, refl)
with_tp_flag_law MessageType.response = (refl, refl, refl, refl)
with_tp_flag_law MessageType.error = (refl, refl, refl, refl)
with_tp_flag_law _ = (refl, refl)

abbrev pub same_flag : Bool → Bool → Bool
same_flag true b = b
same_flag false b = not b

-- A message is accepted as the response to a request exactly if the request's type expects a
-- response, the message is of a response type, and the two agree on the TP flag.
pub is_valid_response_to_eq :
    (r q : MessageType)
    → is_valid_response_to r q
      ≡ (expects_response q && (is_response r && same_flag (is_tp r) (is_tp q)))
unfolding is_valid_response_to expects_response is_response is_tp as_u8
is_valid_response_to_eq r q = ground arith
