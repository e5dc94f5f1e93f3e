-- ===== src/Requests/Outcome.antt =====
-- What becomes of a received request.
use recentip.Prelude.{
  ℕ, ◌<◌, ◌≤◌, ◌≡◌, ◌≢◌, ◌⊎◌, Bool, true, false, if◌then◌else◌, List, [], Option, none, some,
}
use recentip.Prelude.Maps.{find}
use recentip.Buffer.{ByteBuffer}
use recentip.Config.{Transport, uses_exception}
use recentip.Types.ReturnCode.{ReturnCode}
use recentip.Wire.MessageType.{MessageType}
use recentip.Types.ReturnCode.Codes
use recentip.Wire.SdOption.{SocketAddrV4}
use recentip.Wire.Header.{Header}
use recentip.Sd.{ServiceKey, OfferedService}
use recentip.State.{
  RuntimeState, Action, send_server_message, track_server_response, method_call, notify_service,
}
use recentip.Requests.{is_addressed, is_at_port, transport_of, context_of}
use recentip.Calls.Received.{InRange, Reads}

abbrev pub Result : Type 0
Result = Option Action × RuntimeState

abbrev pub HeaderInRange : Header → Type 0
HeaderInRange header =
    InRange header.service_id header.method_id header.client_id header.session_id
      header.interface_version

-- The service that the request names.
abbrev pub Addressed :
    Header
    → RuntimeState
    → Transport
    → (port : ℕ) → ServiceKey
    → OfferedService
    → (rpc : ℕ) → Type 0
Addressed header server t port key offering rpc =
    (find (is_addressed header.service_id t port) server.offered ≡ some (key, offering))
    × (transport_of t offering ≡ some rpc)

-- The request reaches the application of the service, and its response is awaited.
abbrev pub Passed :
    Header
    → List ℕ
    → SocketAddrV4
    → RuntimeState
    → Transport
    → (port : ℕ) → (delivered : Bool) → (receiver : ℕ) → Result
    → Type 0
Passed header payload from server t port delivered receiver result =
    (key : ServiceKey) × (offering : OfferedService) × (rpc : ℕ) × Addressed header server t port
      key offering rpc
    × (header.method_id < 0x8000)
    × (header.interface_version ≡ offering.major_version)
    × (delivered ≡ true)
    × (result ≡ (
      some (
          track_server_response
            (context_of header from (uses_exception offering.method_config header.method_id) rpc)
            receiver),
      notify_service key (method_call header.method_id payload from t receiver) server,
    ))

-- Why a request is refused, with which code, and whether as an exception: as the service is configured
-- for the method, if there is one.
abbrev pub Reason :
    Header → RuntimeState → Transport → (port : ℕ) → ReturnCode → (exception : Bool) → Type 0
Reason header server t port code exception =
    ((code ≡ ReturnCode.unknown_service)
      × (exception ≡ false)
      × (find (is_addressed header.service_id t port) server.offered ≡ none))
    ⊎ ((key : ServiceKey) × (offering : OfferedService) × (rpc : ℕ) × Addressed header server t port
          key offering rpc
        × (exception ≡ uses_exception offering.method_config header.method_id)
        × (((code ≡ ReturnCode.malformed_message) × (0x8000 ≤ header.method_id))
            ⊎ ((code ≡ ReturnCode.wrong_interface_version)
                × (header.method_id < 0x8000)
                × (header.interface_version ≢ offering.major_version))))

-- The sender is sent the code, under the ids of its request, in an ERROR for an exception and else in a
-- RESPONSE; no application is told.
abbrev pub Refused :
    ⦃bytes : ByteBuffer⦄
    → Header
    → SocketAddrV4
    → RuntimeState
    → Transport
    → (port : ℕ) → Result
    → Type 0
Refused header from server t port result =
    (key : ServiceKey) × (code : ReturnCode) × (exception : Bool) × (message : List ℕ) × Reason
      header server t port code exception
    × (result ≡ (some (send_server_message key message from t), server))
    × Reads message header.service_id header.method_id header.client_id header.session_id
        header.interface_version (if exception then MessageType.error else MessageType.response)
        code []

-- Nothing happens: no service is at the port, or the one that is named has no transport there, or its
-- channel is full.
abbrev pub Dropped :
    Header → RuntimeState → Transport → (port : ℕ) → (delivered : Bool) → Result → Type 0
Dropped header server t port delivered result =
    (result ≡ (none, server))
    × ((find (is_at_port t port) server.offered ≡ none)
        ⊎ (delivered ≡ false)
        ⊎ ((key : ServiceKey) × (offering : OfferedService) × (find
                (is_addressed header.service_id t port) server.offered
              ≡ some (key, offering))
            × (transport_of t offering ≡ none)))

abbrev pub Outcome :
    ⦃bytes : ByteBuffer⦄
    → Header
    → List ℕ
    → SocketAddrV4
    → RuntimeState
    → Transport
    → (port : ℕ) → (delivered : Bool) → (receiver : ℕ) → Result
    → Type 0
Outcome header payload from server t port delivered receiver result =
    Passed header payload from server t port delivered receiver result
    ⊎ Refused header from server t port result
    ⊎ Dropped header server t port delivered result

module _ ⦃bytes : ByteBuffer⦄ where
  module _ (header : Header) (payload : List ℕ) (from : SocketAddrV4) (server : RuntimeState)
      (t : Transport) (port : ℕ) (delivered : Bool) (receiver : ℕ) where
    abbrev Becomes : Result → Type 0
    Becomes = Outcome header payload from server t port delivered receiver
