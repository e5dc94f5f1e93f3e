-- ===== src/EventLoop/Messages.antt =====
-- src/runtime/event_loop.rs: the arms of the select loop for SOME/IP messages, over UDP, from the clients of
-- a TCP server, and from a client's TCP connection.
use recentip.Prelude.{ℕ, ◌≡◌, refl, inl, inr, Option-cases, Bool, List, Option, none, some}
use recentip.Prelude.Maps.{get}
use recentip.State.Keys.{CallKey-Eq}
use recentip.Buffer.{ByteBuffer}
use recentip.Config.{Transport, udp, tcp}
use recentip.Wire.MessageType.{
  MessageType, request, request_no_return, notification, response, error, tp_request,
  tp_request_no_return, tp_notification, tp_response, tp_error,
}
use recentip.Wire.Header.{Header}
use recentip.Wire.SdOption.{SocketAddrV4}
use recentip.State.{RuntimeState, Action}
use recentip.Calls.{
  Response, Event, parse_method_message, handle_incoming_response, handle_incoming_notification,
}
use recentip.Requests.{handle_incoming_request, handle_incoming_fire_forget}

-- What comes of a message: nothing, an action for a request, the channel and the response of a call, or
-- an event for some channels.
pub data Reaction : Type 0 where
  dropped : Reaction
  acted : Option Action → Reaction
  completed : Option (ℕ × Response) → Reaction
  notified : List ℕ × Option Event → Reaction

-- A received message with its sender, and what the channel of a service's application says to it.
pub record Incoming : Type 0 where
  pub bytes : List ℕ
  pub from : SocketAddrV4
  pub delivered : Bool
  -- the channel for the answer of a request
  pub answer : ℕ

abbrev pub complete : Option (ℕ × Response) × RuntimeState → Reaction × RuntimeState
complete (call, state) = (completed call, state)

module _ ⦃bytes : ByteBuffer⦄ where
  abbrev pub serve_request :
      Header → List ℕ → Incoming → Transport → (port : ℕ) → RuntimeState → Reaction × RuntimeState
  serve_request header payload m transport port state =
      let (action, state') =
        handle_incoming_request header payload m.from state transport port m.delivered m.answer in
      (acted action, state')

  unfoldable pub dispatch_udp :
      MessageType → Header → List ℕ → Incoming → (port : ℕ) → RuntimeState → Reaction × RuntimeState
  unfolding handle_incoming_request handle_incoming_fire_forget handle_incoming_notification
      handle_incoming_response
  dispatch_udp request header payload m port state = serve_request header payload m udp port state
  dispatch_udp request_no_return header payload m port state =
      (dropped, handle_incoming_fire_forget header payload m.from state udp port m.delivered)
  dispatch_udp notification header payload m port state =
      (notified (handle_incoming_notification header payload m.from state 0), state)
  dispatch_udp response header payload m port state =
      complete (handle_incoming_response header payload state)
  dispatch_udp error header payload m port state =
      complete (handle_incoming_response header payload state)
  dispatch_udp _ header payload m port state = (dropped, state)

  unfoldable pub dispatch_server_tcp :
      MessageType → Header → List ℕ → Incoming → (port : ℕ) → RuntimeState → Reaction × RuntimeState
  unfolding handle_incoming_request handle_incoming_fire_forget
  dispatch_server_tcp request header payload m port state =
      serve_request header payload m tcp port state
  dispatch_server_tcp request_no_return header payload m port state =
      (dropped, handle_incoming_fire_forget header payload m.from state tcp port m.delivered)
  dispatch_server_tcp _ header payload m port state = (dropped, state)

  unfoldable pub dispatch_client_tcp :
      MessageType
      → Header
      → List ℕ
      → Incoming
      → (subscription_id : ℕ) → RuntimeState
      → Reaction × RuntimeState
  unfolding handle_incoming_notification handle_incoming_response
  dispatch_client_tcp notification header payload m id state =
      (notified (handle_incoming_notification header payload m.from state id), state)
  dispatch_client_tcp response header payload m id state =
      complete (handle_incoming_response header payload state)
  dispatch_client_tcp error header payload m id state =
      complete (handle_incoming_response header payload state)
  dispatch_client_tcp _ header payload m id state = (dropped, state)

  -- A message that cannot be read is dropped.
  unfoldable pub handle_udp_message :
      Incoming → (local_port : ℕ) → RuntimeState → Reaction × RuntimeState
  unfolding parse_method_message dispatch_udp
  handle_udp_message m port state = elim (parse_method_message m.bytes) [
    | none ↦ (dropped, state)
    | some (header, payload) ↦ dispatch_udp header.message_type header payload m port state
  ]

  unfoldable pub handle_server_tcp_message :
      Incoming → (local_port : ℕ) → RuntimeState → Reaction × RuntimeState
  unfolding parse_method_message dispatch_server_tcp
  handle_server_tcp_message m port state = elim (parse_method_message m.bytes) [
    | none ↦ (dropped, state)
    | some (header, payload) ↦ dispatch_server_tcp header.message_type header payload m port state
  ]

  unfoldable pub handle_client_tcp_message :
      Incoming → (subscription_id : ℕ) → RuntimeState → Reaction × RuntimeState
  unfolding parse_method_message dispatch_client_tcp
  handle_client_tcp_message m id state = elim (parse_method_message m.bytes) [
    | none ↦ (dropped, state)
    | some (header, payload) ↦ dispatch_client_tcp header.message_type header payload m id state
  ]

-- But for the calls that wait, a response changes nothing.
response_frame :
    (header : Header) (payload : List ℕ) (state : RuntimeState)
    → (handle_incoming_response header payload state).1 ≡ record state {
      pending_calls = (handle_incoming_response header payload state).1.pending_calls;
    }
unfolding handle_incoming_response
response_frame header payload state =
    elim (Option-cases (
      get state.pending_calls
        (record { client_id = header.client_id; session_id = header.session_id }))) [
          | inl nobody ↦ rw (handle_incoming_response, nobody) refl
          | inr (waiting, there) ↦ rw (handle_incoming_response, there) refl
        ]

module _ ⦃bytes : ByteBuffer⦄ where
  dispatch_frame :
      (type : MessageType) (header : Header) (payload : List ℕ) (m : Incoming) (id : ℕ)
      (state : RuntimeState)
      → (dispatch_client_tcp type header payload m id state).1 ≡ record state {
        pending_calls = (dispatch_client_tcp type header payload m id state).1.pending_calls;
      }
  unfolding dispatch_client_tcp
  dispatch_frame request header payload m id state = refl
  dispatch_frame request_no_return header payload m id state = refl
  dispatch_frame notification header payload m id state = refl
  dispatch_frame response header payload m id state = response_frame header payload state
  dispatch_frame error header payload m id state = response_frame header payload state
  dispatch_frame tp_request header payload m id state = refl
  dispatch_frame tp_request_no_return header payload m id state = refl
  dispatch_frame tp_notification header payload m id state = refl
  dispatch_frame tp_response header payload m id state = refl
  dispatch_frame tp_error header payload m id state = refl

  -- Whatever a server sends on a client's TCP connection, no request is served and nothing is changed but
  -- the calls that wait.
  client_tcp_frame :
      (m : Incoming) (id : ℕ) (state : RuntimeState)
      → (handle_client_tcp_message m id state).1
        ≡ record state { pending_calls = (handle_client_tcp_message m id state).1.pending_calls }
  unfolding handle_client_tcp_message
  client_tcp_frame m id state = elim (Option-cases (parse_method_message m.bytes)) [
    | inl unread ↦ rw (handle_client_tcp_message, unread) refl
    | inr ((header, payload), there) ↦
        rw (handle_client_tcp_message, there)
          (dispatch_frame header.message_type header payload m id state)
  ]
