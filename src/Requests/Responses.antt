-- ===== src/Requests/Responses.antt =====
-- src/runtime/event_loop.rs and src/runtime/server.rs: the message that a request is completed with, as
-- its receiver reads it.
use recentip.Prelude.{
  ℕ, ◌<◌, ◌-◌, ◌^◌, ◌≡◌, refl, ◌⊎◌, Bool, false, not, ◌&&◌, if◌then◌else◌, List, [], length,
  Bool-cases, inl, inr,
}
use recentip.Buffer.{ByteBuffer}
use recentip.Types.ReturnCode.{ReturnCode, is_ok}
use recentip.Types.ReturnCode.Codes
use recentip.Wire.MessageType.{MessageType}
use recentip.State.Keys.{CallKey-Eq}
use recentip.State.{PendingServerResponse}
use recentip.Calls.Received.{InRange, Reads, read-built}
use recentip.Requests.{
  Completion, completed, protocol_error, other_error, error_code, build_response, complete_response,
}

abbrev pub code_of : Completion → ReturnCode
code_of (completed payload) = ReturnCode.ok
code_of (protocol_error code) = error_code code
code_of other_error = ReturnCode.not_ok

abbrev pub payload_of : Completion → List ℕ
payload_of (completed payload) = payload
payload_of (protocol_error code) = []
payload_of other_error = []

-- An exception is only used for a code other than `Ok`.
abbrev pub response_type : ReturnCode → (exception : Bool) → MessageType
response_type code exception =
    if not (is_ok code) && exception then MessageType.error else MessageType.response

-- The type of the message that a call is completed with.
abbrev pub response_type_of : PendingServerResponse → Completion → MessageType
response_type_of context (completed payload) = MessageType.response
response_type_of context done = response_type (code_of done) context.uses_exception

-- Codes and payloads that have a place in a message.
pub record IsValid (done : Completion) : Type 0 where
  pub code_valid : Codes.IsValid (code_of done)
  pub payload_fits : length (payload_of done) < 2 ^ 32 - 8

module _ ⦃bytes : ByteBuffer⦄ where
  pub read-build_response :
      (s m c n i : ℕ) (code : ReturnCode) (payload : List ℕ) (exception : Bool)
      → InRange s m c n i
      → Codes.IsValid code
      → length payload < 2 ^ 32 - 8
      → Reads
          (build_response s m c n i code payload exception)
          s
          m
          c
          n
          i
          (response_type code exception)
          code
          payload
  unfolding build_response
  read-build_response s m c n i code payload exception r hcode hp =
      read-built s m c n i _ code payload r hcode hp

  abbrev Responds : PendingServerResponse → Completion → Type 0
  Responds context done =
      Reads (complete_response context done) context.service_id context.method_id context.client_id
        context.session_id context.interface_version (response_type_of context done) (code_of done)
        (payload_of done)

  -- What the caller reads of a response: the ids of the request, the code and the payload.
  pub read-complete_response :
      (context : PendingServerResponse) (done : Completion)
      → IsValid done
      → InRange context.service_id context.method_id context.client_id context.session_id
          context.interface_version
      → Responds context done
  unfolding complete_response
  read-complete_response context (completed payload) v r =
      read-build_response _ _ _ _ _ ReturnCode.ok payload false r v.code_valid v.payload_fits
  read-complete_response context (protocol_error code) v r =
      read-build_response _ _ _ _ _ (error_code code) [] context.uses_exception r v.code_valid
        v.payload_fits
  read-complete_response context other_error v r =
      read-build_response _ _ _ _ _ ReturnCode.not_ok [] context.uses_exception r v.code_valid
        v.payload_fits

response_type-cases :
    (code : ReturnCode) (exception : Bool)
    → (response_type code exception ≡ MessageType.response)
      ⊎ (response_type code exception ≡ MessageType.error)
response_type-cases code exception = elim (Bool-cases (not (is_ok code) && exception)) [
  | inl error ↦ inr (rw error refl)
  | inr plain ↦ inl (rw plain refl)
]

pub response_type_of-cases :
    (context : PendingServerResponse) (done : Completion)
    → (response_type_of context done ≡ MessageType.response)
      ⊎ (response_type_of context done ≡ MessageType.error)
response_type_of-cases context (completed payload) = inl refl
response_type_of-cases context (protocol_error code) =
    response_type-cases (error_code code) context.uses_exception
response_type_of-cases context other_error =
    response_type-cases ReturnCode.not_ok context.uses_exception
