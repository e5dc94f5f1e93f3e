-- ===== src/Wire/MessageType.antt =====
-- src/wire.rs: `MessageType`.
pub mod Flags
use recentip.Prelude.{ℕ, ◌==◌, if◌then◌else◌, Bool, true, false, not, Option, none, some, bit_and}

pub data MessageType : Type 0 where
  request request_no_return notification response error : MessageType
  tp_request tp_request_no_return tp_notification tp_response tp_error : MessageType

-- `self as u8`
unfoldable pub as_u8 : MessageType → ℕ
as_u8 request = 0x00
as_u8 request_no_return = 0x01
as_u8 notification = 0x02
as_u8 response = 0x80
as_u8 error = 0x81
as_u8 tp_request = 0x20
as_u8 tp_request_no_return = 0x21
as_u8 tp_notification = 0x22
as_u8 tp_response = 0xa0
as_u8 tp_error = 0xa1

unfoldable pub from_u8 : ℕ → Option MessageType
from_u8 value =
    if value == 0x00
    then some request
    else if value == 0x01
    then some request_no_return
    else if value == 0x02
    then some notification
    else if value == 0x80
    then some response
    else if value == 0x81
    then some error
    else if value == 0x20
    then some tp_request
    else if value == 0x21
    then some tp_request_no_return
    else if value == 0x22
    then some tp_notification
    else if value == 0xa0
    then some tp_response
    else if value == 0xa1
    then some tp_error
    else none

pub is_tp : MessageType → Bool
unfolding as_u8
is_tp self = not (bit_and (as_u8 self) 0x20 == 0)

pub expects_response : MessageType → Bool
expects_response request = true
expects_response tp_request = true
expects_response _ = false

pub is_fire_and_forget : MessageType → Bool
is_fire_and_forget request_no_return = true
is_fire_and_forget tp_request_no_return = true
is_fire_and_forget _ = false

pub is_notification : MessageType → Bool
is_notification notification = true
is_notification tp_notification = true
is_notification _ = false

pub is_response : MessageType → Bool
is_response response = true
is_response tp_response = true
is_response error = true
is_response tp_error = true
is_response _ = false

pub with_tp_flag : MessageType → Option MessageType
with_tp_flag request = some tp_request
with_tp_flag request_no_return = some tp_request_no_return
with_tp_flag notification = some tp_notification
with_tp_flag response = some tp_response
with_tp_flag error = some tp_error
with_tp_flag _ = none

pub without_tp_flag : MessageType → MessageType
without_tp_flag tp_request = request
without_tp_flag tp_request_no_return = request_no_return
without_tp_flag tp_notification = notification
without_tp_flag tp_response = response
without_tp_flag tp_error = error
without_tp_flag other = other

pub expected_response_type : MessageType → Option MessageType
expected_response_type request = some response
expected_response_type tp_request = some tp_response
expected_response_type _ = none

pub is_valid_response_to : MessageType → MessageType → Bool
is_valid_response_to response request = true
is_valid_response_to error request = true
is_valid_response_to tp_response tp_request = true
is_valid_response_to tp_error tp_request = true
is_valid_response_to _ _ = false
