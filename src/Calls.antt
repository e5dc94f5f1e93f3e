-- ===== src/Calls.antt =====
-- src/runtime/client.rs and src/runtime/event_loop.rs: calls, their responses, and received events.
pub mod Received
pub mod Socket
pub mod SocketEvents
use recentip.Prelude.{
  ℕ, ◌+◌, ◌==◌, ◌&&◌, ◌||◌, ltb, Bool, true, false, not, if◌then◌else◌, List, [], ◌∷◌, ◌++◌, Option,
  none, some, length, take, drop,
}
use recentip.Prelude.Maps.{Map, get, insert, remove, find}
use recentip.Buffer.{ByteBuffer}
use recentip.Config.{Transport, OfferedEndpoints, udp_only, tcp_only, both}
use recentip.Types.ReturnCode.{ReturnCode}
use recentip.Wire.MessageType.{MessageType}
use recentip.Wire.Version.{Validation, valid, invalid, validate_protocol_version}
use recentip.Wire.SdOption.{SocketAddrV4}
use recentip.Wire.SdMessage.{sd_service_id}
use recentip.Wire.Header
use recentip.Wire.Header.{Header, header_size, payload_length, build_someip_message}
use recentip.Sd.{ServiceKey}
use recentip.Session.{next_payload_session_id}
use recentip.State.Keys.{SubscriberKey, CallKey, CallKey-Eq, ServiceKey-Eq, addr_beq}
use recentip.State.{
  RuntimeState, DiscoveredService, ClientSubscription, Action, send_client_message,
}

-- `RuntimeState::next_payload_session_id`
abbrev pub draw_session_id : RuntimeState → ℕ × RuntimeState
draw_session_id state =
    let (id, sessions') = next_payload_session_id state.sessions in
    (id, record state { sessions = sessions' })

abbrev pub is_valid : Validation → Bool
is_valid valid = true
is_valid (invalid e) = false

module _ ⦃bytes : ByteBuffer⦄ where
  unfoldable pub build_request :
      (service_id method_id client_id session_id interface_version : ℕ) → List ℕ → List ℕ
  unfolding build_someip_message
  build_request s m c n i payload =
      build_someip_message s m c n i MessageType.request ReturnCode.ok payload

  unfoldable pub build_fire_and_forget :
      (service_id method_id client_id session_id interface_version : ℕ) → List ℕ → List ℕ
  unfolding build_someip_message
  build_fire_and_forget s m c n i payload =
      build_someip_message s m c n i MessageType.request_no_return ReturnCode.ok payload

  unfoldable pub handle_call :
      (service_id interface_version method_id : ℕ)
      → (payload : List ℕ) → (response : ℕ) → (target_endpoint : SocketAddrV4)
      → (target_transport : Transport) → RuntimeState
      → List Action × RuntimeState
  unfolding build_request
  handle_call s i m payload response target transport state =
      let (session_id, state') = draw_session_id state in
      let call_key : CallKey = record { client_id = state.client_id; session_id = session_id } in
      (
        send_client_message (build_request s m state.client_id session_id i payload) target
              transport
            ∷ [],
        record state' { pending_calls = insert state'.pending_calls call_key response },
      )

  unfoldable pub handle_fire_and_forget :
      (service_id interface_version method_id : ℕ)
      → (payload : List ℕ) → (target_endpoint : SocketAddrV4) → (target_transport : Transport)
      → RuntimeState
      → List Action
  unfolding build_fire_and_forget
  handle_fire_and_forget s i m payload target transport state =
      send_client_message (build_fire_and_forget s m state.client_id 0 i payload) target transport
      ∷ []

  -- A range of the message's bytes is taken and dropped of the list.
  unfoldable pub parse_method_message : List ℕ → Option (Header × List ℕ)
  unfolding payload_length validate_protocol_version
  parse_method_message message = elim (Header.parse message) [
    | none ↦ none
    | some (header, cursor) ↦
        if header.service_id == sd_service_id
        then none
        else if not (is_valid (validate_protocol_version header.protocol_version))
        then none
        else if ltb (length message) (header_size + payload_length header)
        then none
        else some (header, take (payload_length header) (drop header_size message))
  ]

pub record Response : Type 0 where
  pub return_code : ReturnCode
  pub payload : List ℕ

-- What is sent to the call that waits, if one does, and the state.
unfoldable pub handle_incoming_response :
    Header → (payload : List ℕ) → RuntimeState → Option (ℕ × Response) × RuntimeState
handle_incoming_response header payload state =
    let call_key : CallKey = record {
      client_id = header.client_id;
      session_id = header.session_id;
    } in
    elim (get state.pending_calls call_key) [
      | none ↦ (none, state)
      | some pending ↦ (
        some (pending, record { return_code = header.return_code; payload = payload }),
        record state { pending_calls = remove state.pending_calls call_key },
      )
    ]

-- `EventId::new`
unfoldable pub event_id_of : ℕ → Option ℕ
event_id_of id = if ltb id 0x8000 || id == 0xffff then none else some id

pub record Event : Type 0 where
  pub event_id : ℕ
  pub payload : List ℕ

unfoldable pub is_endpoint_of : SocketAddrV4 → OfferedEndpoints → Bool
is_endpoint_of from (udp_only u) = addr_beq u from
is_endpoint_of from (tcp_only t) = addr_beq t from
is_endpoint_of from (both u t) = addr_beq u from || addr_beq t from

abbrev pub is_sender : Header → SocketAddrV4 → ServiceKey × DiscoveredService → Bool
is_sender header from (key, service) =
    key.service_id == header.service_id && is_endpoint_of from service.offered_endpoints

-- The channels of the subscriptions that share the connection with the key.
unfoldable pub subscribed_channels : (conn_key : ℕ) → List ClientSubscription → List ℕ
subscribed_channels conn_key [] = []
subscribed_channels conn_key (sub ∷ subs) =
    let rest = subscribed_channels conn_key subs in
    if sub.has_dedicated_socket
    then rest
    else if not (sub.tcp_conn_key == conn_key)
    then rest
    else sub.events_tx ∷ rest

unfoldable pub listening_channels : Header → Map SubscriberKey ℕ → List ℕ
listening_channels header [] = []
listening_channels header ((key, events_tx) ∷ rest) =
    let later = listening_channels header rest in
    if key.service_id == header.service_id then events_tx ∷ later else later

-- What the channels are sent, in order.
unfoldable pub handle_incoming_notification :
    Header
    → (payload : List ℕ) → (from : SocketAddrV4) → RuntimeState
    → (subscription_id : ℕ) → List ℕ × Option Event
unfolding event_id_of is_endpoint_of subscribed_channels listening_channels
handle_incoming_notification header payload from state id = elim (event_id_of header.method_id) [
  | none ↦ ([], none)
  | some event_id ↦ elim (find (is_sender header from) state.discovered) [
    | none ↦ ([], none)
    | some (key, service) ↦
        let subscribed : List ℕ = elim (get state.subscriptions key) [
          | none ↦ []
          | some subs ↦ subscribed_channels id subs
        ] in
        (
          subscribed ++ listening_channels header state.static_listeners,
          some (record { event_id = event_id; payload = payload }),
        )
  ]
]
