-- ===== src/Calls/SocketEvents.antt =====
-- src/runtime/client.rs and src/runtime/server.rs: the events that a server sends, on a subscription's own
-- socket.
use recentip.Prelude.{
  ℕ, ◌+◌, ◌-◌, ◌^◌, ◌<◌, ◌≤◌, ◌≡◌, refl, sym, ap, ◌∙◌, false, ltb, List, [], ◌∷◌, ◌++◌, append-nil,
  some, length, arith, All, map,
}
use recentip.Buffer.{ByteBuffer}
use recentip.Types.ReturnCode.{ReturnCode}
use recentip.Wire.MessageType.{MessageType}
use recentip.Wire.Header
use recentip.Wire.Header.{Header, payload_length, build_someip_message}
use recentip.Wire.Header.RoundTrip.{header_bytes, parse-header_bytes}
use recentip.Wire.Message.RoundTrip.{built, built-IsValid, build-message_bytes, message_bytes}
use recentip.Calls.{Event, event_id_of}
use recentip.Calls.Received.{InRange, take-length}
use recentip.Calls.Socket.{socket_event, socket_events, ok}
use recentip.Offers.{build_notification}

-- An event with an event's id, whose message can be written.
pub record IsSendable (service_id client_id interface_version : ℕ) (e : Event) : Type 0 where
  pub in_range : InRange service_id e.event_id client_id 0 interface_version
  pub from_8000 : 0x8000 ≤ e.event_id
  pub below_ffff : e.event_id < 0xffff
  pub fits : length e.payload < 2 ^ 32 - 8

event_id_of-event : (id : ℕ) → 0x8000 ≤ id → id < 0xffff → event_id_of id ≡ some id
unfolding event_id_of
event_id_of-event id lo hi = ground arith

module _ ⦃bytes : ByteBuffer⦄ where
  socket_event-header_bytes :
      (h : Header) (payload : List ℕ)
      → Header.IsValid h
      → h.message_type ≡ MessageType.notification
      → 0x8000 ≤ h.method_id
      → h.method_id < 0xffff
      → h.length ≡ 8 + length payload
      → socket_event (header_bytes h payload)
        ≡ some (record { event_id = h.method_id; payload = payload })
  unfolding socket_event payload_length
  socket_event-header_bytes h payload v type lo hi len =
      let all : 8 + length payload - 8 ≡ length payload = omega arith in
      let enough : ltb (length payload) (length payload) ≡ false = ground arith in
      rw
        (
          socket_event,
          parse-header_bytes h payload v,
          type,
          event_id_of-event h.method_id lo hi,
          len,
          all,
          enough,
          take-length payload,
        )
        refl

  socket_event-notification :
      (s c i : ℕ) (e : Event)
      → IsSendable s c i e
      → socket_event (build_notification s e.event_id c 0 i e.payload) ≡ some e
  unfolding build_notification
  socket_event-notification s c i e h =
      let type = MessageType.notification in
      let message = built s e.event_id c 0 i type ReturnCode.ok e.payload in
      let r = h.in_range in
      let v =
        built-IsValid s e.event_id c 0 i type ReturnCode.ok e.payload r.service_id_u16
          r.method_id_u16 r.client_id_u16 r.session_id_u16 r.interface_version_u8 tt h.fits in
      let whole : build_someip_message s e.event_id c 0 i type ReturnCode.ok e.payload ++ []
          ≡ message_bytes message [] =
        build-message_bytes s e.event_id c 0 i type ReturnCode.ok e.payload [] h.fits v in
      ap socket_event
        (sym (append-nil _) ∙ whole ∙ ap (header_bytes message.header) (append-nil e.payload))
      ∙ socket_event-header_bytes message.header e.payload v.header_valid refl h.from_8000
          h.below_ffff refl

  -- The events that a server sends, each with an event's id and a payload that fits, come out of the
  -- socket of a subscription as they were sent, in order, while the channel takes them.
  pub socket_events-notifications :
      (s c i : ℕ) (events : List Event)
      → All (IsSendable s c i) events
      → socket_events (map (λ e. (build_notification s e.event_id c 0 i e.payload, ok)) events)
        ≡ events
  unfolding socket_events
  socket_events-notifications s c i [] h = refl
  socket_events-notifications s c i (e ∷ events) (sendable, h) =
      rw
        (
          socket_events,
          socket_event-notification s c i e sendable,
          socket_events-notifications s c i events h,
        )
        refl
