-- ===== src/Requests.antt =====
-- src/runtime/server.rs and src/runtime/event_loop.rs: received requests, and their responses.
pub mod Outcome
pub mod Responses
pub mod Answered
use recentip.Prelude.{
  ℕ, ◌==◌, ◌&&◌, leb, Bool, true, false, not, if◌then◌else◌, List, [], ◌∷◌, Option, none, some,
}
use recentip.Prelude.Maps.{Map, find}
use recentip.Buffer.{ByteBuffer}
use recentip.Config.{Transport, udp, tcp, uses_exception}
use recentip.Types.ReturnCode.{ReturnCode, is_ok}
use recentip.Wire.MessageType.{MessageType}
use recentip.Wire.SdOption.{SocketAddrV4}
use recentip.Wire.Header.{Header, build_someip_message}
use recentip.Sd.{ServiceKey, OfferedService}
use recentip.State.{
  RuntimeState, PendingServerResponse, Action, send_server_message, track_server_response,
  ServiceRequest, method_call, fire_forget, notify_service,
}

abbrev pub has_port : ℕ → Option SocketAddrV4 → Bool
has_port port none = false
has_port port (some ep) = ep.port == port

abbrev pub rpc_endpoint_of : Transport → OfferedService → Option SocketAddrV4
rpc_endpoint_of udp svc = svc.udp_endpoint
rpc_endpoint_of tcp svc = svc.tcp_endpoint

abbrev pub transport_of : Transport → OfferedService → Option ℕ
transport_of udp svc = svc.udp_transport
transport_of tcp svc = svc.tcp_transport

-- The service is bound to the port that the message came in on.
abbrev pub is_at_port : Transport → (port : ℕ) → ServiceKey × OfferedService → Bool
is_at_port transport port (key, svc) = has_port port (rpc_endpoint_of transport svc)

abbrev pub is_addressed :
    (service_id : ℕ) → Transport → (port : ℕ) → ServiceKey × OfferedService → Bool
is_addressed service_id transport port (key, svc) =
    key.service_id == service_id && is_at_port transport port (key, svc)

abbrev pub context_of : Header → SocketAddrV4 → Bool → ℕ → PendingServerResponse
context_of header from exception rpc_transport = record {
  service_id = header.service_id;
  method_id = header.method_id;
  client_id = header.client_id;
  session_id = header.session_id;
  interface_version = header.interface_version;
  client_addr = from;
  uses_exception = exception;
  rpc_transport = rpc_transport;
}

module _ ⦃bytes : ByteBuffer⦄ where
  unfoldable pub build_response :
      (service_id method_id client_id session_id interface_version : ℕ)
      → ReturnCode
      → (payload : List ℕ) → (uses_exception : Bool) → List ℕ
  unfolding build_someip_message is_ok
  build_response s m c n i code payload exception =
      build_someip_message s m c n i
        (if not (is_ok code) && exception then MessageType.error else MessageType.response) code
        payload

  -- The answer to a request that is not passed on: its header's fields, without a payload.
  unfoldable pub refuse :
      Header → ReturnCode → (uses_exception : Bool) → ServiceKey → SocketAddrV4 → Transport → Action
  unfolding build_response
  refuse header code exception key from transport =
      send_server_message key
        (build_response header.service_id header.method_id header.client_id header.session_id
          header.interface_version code [] exception)
        from transport

  -- The part for a service that is found. `delivered` says whether its channel takes the request.
  unfoldable pub serve :
      Header
      → (payload : List ℕ) → SocketAddrV4
      → RuntimeState
      → Transport
      → ServiceKey
      → OfferedService
      → (delivered : Bool) → (response : ℕ) → Option Action × RuntimeState
  unfolding refuse uses_exception notify_service
  serve header payload from state transport key offering delivered response =
      let exception = uses_exception offering.method_config header.method_id in
      elim (transport_of transport offering) [
        | none ↦ (none, state)
        | some rpc_transport ↦
            if leb 0x8000 header.method_id
            then (
              some (refuse header ReturnCode.malformed_message exception key from transport),
              state,
            )
            else if not (header.interface_version == offering.major_version)
            then (
              some (refuse header ReturnCode.wrong_interface_version exception key from transport),
              state,
            )
            else if delivered
            then (
              some
                  (track_server_response (context_of header from exception rpc_transport) response),
              notify_service key (method_call header.method_id payload from transport response)
                  state,
            )
            else (none, state)
      ]

  unfoldable pub handle_incoming_request :
      Header
      → (payload : List ℕ) → (from : SocketAddrV4) → RuntimeState
      → Transport
      → (port : ℕ) → (delivered : Bool) → (response : ℕ) → Option Action × RuntimeState
  unfolding serve refuse
  handle_incoming_request header payload from state transport port delivered response =
      elim (find (is_addressed header.service_id transport port) state.offered) [
        | some (key, offering) ↦
            serve header payload from state transport key offering delivered response
        | none ↦ elim (find (is_at_port transport port) state.offered) [
          | none ↦ (none, state)
          | some (key, svc) ↦
              (some (refuse header ReturnCode.unknown_service false key from transport), state)
        ]
      ]

-- The channel may be full; the result of sending is not looked at.
unfoldable pub handle_incoming_fire_forget :
    Header
    → (payload : List ℕ) → (from : SocketAddrV4) → RuntimeState
    → Transport
    → (port : ℕ) → (delivered : Bool) → RuntimeState
unfolding notify_service
handle_incoming_fire_forget header payload from state transport port delivered =
    elim (find (is_addressed header.service_id transport port) state.offered) [
      | none ↦ state
      | some (key, offered) ↦
          if not (header.interface_version == offered.major_version)
          then state
          else if delivered
          then notify_service key (fire_forget header.method_id payload from udp) state
          else state
    ]

-- What a service's application answers.
pub data Completion : Type 0 where
  completed : (payload : List ℕ) → Completion
  protocol_error : (return_code : Option ReturnCode) → Completion
  other_error : Completion

abbrev error_code : Option ReturnCode → ReturnCode
error_code none = ReturnCode.not_ok
error_code (some code) = code

module _ ⦃bytes : ByteBuffer⦄ where
  abbrev respond : PendingServerResponse → ReturnCode → List ℕ → Bool → List ℕ
  respond context code payload exception =
      build_response context.service_id context.method_id context.client_id context.session_id
        context.interface_version code payload exception

  -- The arm of the event loop for a completed response: what is sent, to `client_addr`.
  unfoldable pub complete_response : PendingServerResponse → Completion → List ℕ
  unfolding build_response
  complete_response context (completed payload) = respond context ReturnCode.ok payload false
  complete_response context (protocol_error code) =
      respond context (error_code code) [] context.uses_exception
  complete_response context other_error =
      respond context ReturnCode.not_ok [] context.uses_exception
