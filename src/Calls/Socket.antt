-- ===== src/Calls/Socket.antt =====
-- src/runtime/client.rs: the task of a subscription's own UDP socket, `spawn_udp_subscription_socket`: what
-- it makes of the datagrams that it receives.
use recentip.Prelude.{
  ℕ, ltb, Bool, true, false, not, if◌then◌else◌, List, [], ◌∷◌, Option, none, some, length, take,
}
use recentip.Buffer.{ByteBuffer}
use recentip.Wire.MessageType.{MessageType}
use recentip.Wire.Header
use recentip.Wire.Header.{payload_length}
use recentip.Calls.{Event, event_id_of}

abbrev pub is_notification_type : MessageType → Bool
is_notification_type MessageType.notification = true
is_notification_type _ = false

-- `try_send` on the subscription's channel.
pub data TrySend : Type 0 where
  ok full closed : TrySend

module _ ⦃bytes : ByteBuffer⦄ where
  -- The event of a datagram, or nothing where the task goes on to the next one.
  unfoldable pub socket_event : List ℕ → Option Event
  unfolding event_id_of payload_length
  socket_event datagram = elim (Header.parse datagram) [
    | none ↦ none
    | some (header, cursor) ↦
        if not (is_notification_type header.message_type)
        then none
        else elim (event_id_of header.method_id) [
          | none ↦ none
          | some event_id ↦
              let payload_len = payload_length header in
              if ltb (length cursor) payload_len
              then none
              else some (record { event_id = event_id; payload = take payload_len cursor })
        ]
  ]

  -- The datagrams in order, each with what the channel says to an event then; the events that reach the
  -- application. A full channel loses the event, a closed one ends the task.
  unfoldable pub socket_events : List (List ℕ × TrySend) → List Event
  unfolding socket_event
  socket_events [] = []
  socket_events ((datagram, channel) ∷ later) =
      let rest = socket_events later in
      elim (socket_event datagram) [
        | none ↦ rest
        | some event ↦ elim channel [ ok ↦ event ∷ rest | full ↦ rest | closed ↦ [] ]
      ]
