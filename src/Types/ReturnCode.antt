-- ===== src/Types/ReturnCode.antt =====
-- src/lib.rs: `ReturnCode`, `ServiceErrorCode`, `ReservedReturnCode`, `ApplicationError`.
pub mod Codes
use recentip.Prelude.{ℕ, ◌==◌, leb, if◌then◌else◌, ◌&&◌, Option, none, some, Bool, true, false, not}

-- The field of both newtypes is the raw byte.
pub record ServiceErrorCode : Type 0 where
  pub value : ℕ

pub record ReservedReturnCode : Type 0 where
  pub value : ℕ

pub data ReturnCode : Type 0 where
  ok not_ok unknown_service unknown_method not_ready not_reachable timeout : ReturnCode
  wrong_protocol_version wrong_interface_version malformed_message : ReturnCode
  wrong_message_type : ReturnCode
  service_specific : ServiceErrorCode → ReturnCode
  reserved : ReservedReturnCode → ReturnCode

-- `ServiceErrorCode::MIN` and `ServiceErrorCode::MAX`
abbrev pub min_service_error : ℕ
min_service_error = 0x20

abbrev pub max_service_error : ℕ
max_service_error = 0x3f

unfoldable pub new_service_error : ℕ → Option ServiceErrorCode
new_service_error code =
    if leb min_service_error code && leb code max_service_error
    then some (record { value = code })
    else none

unfoldable pub from_u8 : ℕ → ReturnCode
from_u8 value =
    if value == 0x00
    then ok
    else if value == 0x01
    then not_ok
    else if value == 0x02
    then unknown_service
    else if value == 0x03
    then unknown_method
    else if value == 0x04
    then not_ready
    else if value == 0x05
    then not_reachable
    else if value == 0x06
    then timeout
    else if value == 0x07
    then wrong_protocol_version
    else if value == 0x08
    then wrong_interface_version
    else if value == 0x09
    then malformed_message
    else if value == 0x0a
    then wrong_message_type
    else if leb min_service_error value && leb value max_service_error
    then service_specific (record { value = value })
    else reserved (record { value = value })

unfoldable pub as_u8 : ReturnCode → ℕ
as_u8 ok = 0x00
as_u8 not_ok = 0x01
as_u8 unknown_service = 0x02
as_u8 unknown_method = 0x03
as_u8 not_ready = 0x04
as_u8 not_reachable = 0x05
as_u8 timeout = 0x06
as_u8 wrong_protocol_version = 0x07
as_u8 wrong_interface_version = 0x08
as_u8 malformed_message = 0x09
as_u8 wrong_message_type = 0x0a
as_u8 (service_specific code) = code.value
as_u8 (reserved code) = code.value

pub data ApplicationError : Type 0 where
  app_not_ok app_unknown_method app_malformed_message : ApplicationError
  app_service_specific : ServiceErrorCode → ApplicationError

unfoldable pub application_service_specific : ℕ → Option ApplicationError
unfolding new_service_error
application_service_specific code = elim (new_service_error code) [
  | some code ↦ some (app_service_specific code)
  | none ↦ none
]

pub return_code : ApplicationError → ReturnCode
return_code app_not_ok = not_ok
return_code app_unknown_method = unknown_method
return_code app_malformed_message = malformed_message
return_code (app_service_specific code) = service_specific code

pub application_as_u8 : ApplicationError → ℕ
unfolding return_code as_u8
application_as_u8 e = as_u8 (return_code e)

-- `Response::is_ok` and `Response::is_err`, on the response's return code.
unfoldable pub is_ok : ReturnCode → Bool
is_ok ok = true
is_ok _ = false

pub is_err : ReturnCode → Bool
unfolding is_ok
is_err code = not (is_ok code)
