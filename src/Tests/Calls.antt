-- ===== src/Tests/Calls.antt =====
-- The theorems on calls and events at concrete inputs.
use recentip.Prelude.{
  ℕ, ◌≡◌, ◌≤◌, ◌<◌, ◌-◌, ◌^◌, refl, ◌==◌, ◌&&◌, ◌||◌, true, not, if◌then◌else◌, List, [], ◌∷◌, some,
  arith, length, map,
}
use recentip.Buffer.Slice.{slice}
use recentip.Types.ReturnCode.{ReturnCode}
use recentip.Wire.MessageType.{MessageType}
use recentip.Wire.Header.{Header}
use recentip.Config.{Transport}
use recentip.State.Keys.{service_key_beq}
use recentip.State.{
  PendingServerResponse, send_client_message, track_server_response, method_call, notify_service,
}
use recentip.Calls.{draw_session_id, handle_call}
use recentip.Calls.{Event}
use recentip.Calls.Socket.{socket_events, ok}
use recentip.Calls.SocketEvents.{IsSendable, socket_events-notifications}
use recentip.EventLoop.Messages.{Incoming, acted, handle_udp_message}
use recentip.Requests.{Completion, completed, complete_response}
use recentip.Requests.Answered
use recentip.Requests.Responses
use recentip.Calls.Received.{InRange, Reads}
use recentip.Requests.Outcome
use recentip.Offers.{build_notification, Target, handle_register_event, stop_offer, handle_notify}
use recentip.Offers.Registered
use recentip.Offers.Notified
use recentip.Session.{next_payload_session_id}
use recentip.Tests.Discovery.{node, service, offered_service, client_at, server_at}

register_event-Outcome_example :
    ((handle_register_event service 0x8001 node).0 ≡ Registered.expected node service 0x8001)
    × (Registered.is_registered (handle_register_event service 0x8001 node).1 service 0x8001 ≡ (
        Registered.is_registered node service 0x8001
        || (Registered.is_success (Registered.expected node service 0x8001)
            && (service_key_beq service service && 0x8001 == 0x8001))))
    × (Registered.is_registered (stop_offer service node).1 service 0x8001
        ≡ (not (service_key_beq service service) && Registered.is_registered node service 0x8001))
register_event-Outcome_example =
    Registered.register_event-Outcome service service 0x8001 0x8001 node

event-InRange : InRange 0x1234 0x8001 1 0 1
event-InRange = record {
  not_sd = refl;
  service_id_u16 = omega arith;
  method_id_u16 = omega arith;
  client_id_u16 = omega arith;
  session_id_u16 = omega arith;
  interface_version_u8 = omega arith;
}

handle_notify-Notified_example :
    (message : List ℕ) × Reads message 0x1234 0x8001 1 0 1 MessageType.notification ReturnCode.ok
      (9 ∷ [])
    × ((q : Target)
        → Notified.delivered q (handle_notify service (7 ∷ 8 ∷ []) 0x8001 (9 ∷ []) node)
          ≡ (if Notified.is_subscribed node service (7 ∷ 8 ∷ []) q then message ∷ [] else []))
handle_notify-Notified_example =
    Notified.handle_notify-Notified service (7 ∷ 8 ∷ []) 0x8001 (9 ∷ []) node event-InRange
      (omega arith)

call-InRange : InRange 0x1234 0x42 1 (draw_session_id node).0 1
unfolding next_payload_session_id
call-InRange = record {
  not_sd = refl;
  service_id_u16 = omega arith;
  method_id_u16 = omega arith;
  client_id_u16 = omega arith;
  session_id_u16 = omega arith;
  interface_version_u8 = omega arith;
}

abbrev done : Completion
done = completed (5 ∷ 6 ∷ [])

done-IsValid : Responses.IsValid done
done-IsValid = record { code_valid = tt; payload_fits = omega arith }

call_answered_example :
    let (actions, waiting) =
      handle_call 0x1234 1 0x42 (9 ∷ []) 3 (server_at 30501) Transport.udp node in
    (request : List ℕ) × (context : PendingServerResponse) × (actions
      ≡ send_client_message request (server_at 30501) Transport.udp ∷ [])
    × (handle_udp_message
          (record { bytes = request; from = client_at 5000; delivered = true; answer = 7 })
          30501
          node
        ≡ (
          acted (some (track_server_response context 7)),
          notify_service service (method_call 0x42 (9 ∷ []) (client_at 5000) Transport.udp 7) node,
        ))
    × (context.client_addr ≡ client_at 5000)
    × ((reply : Incoming) (n : ℕ)
        → reply.bytes ≡ complete_response context done
        → let (reaction, r) = handle_udp_message reply n waiting in
          Answered.Told node r reaction 3 done)
call_answered_example =
    Answered.call_answered 0x1234 1 0x42 (9 ∷ []) 3 (server_at 30501) Transport.udp node
      (client_at 5000) node 30501 7 1 service offered_service done call-InRange (omega arith)
      (omega arith) refl refl refl done-IsValid

abbrev request_header : Header
request_header = record {
  service_id = 0x1234;
  method_id = 0x42;
  length = 8;
  client_id = 1;
  session_id = 2;
  protocol_version = 1;
  interface_version = 2;
  message_type = MessageType.request;
  return_code = ReturnCode.ok;
}

abbrev two_events : List Event
two_events =
    record { event_id = 0x8001; payload = 1 ∷ 2 ∷ [] }
    ∷ record { event_id = 0x8002; payload = [] }
    ∷ []

first-InRange : (id : ℕ) → id < 65536 → InRange 0x1234 id 1 0 1
first-InRange id h = record {
  not_sd = refl;
  service_id_u16 = omega arith;
  method_id_u16 = h;
  client_id_u16 = omega arith;
  session_id_u16 = omega arith;
  interface_version_u8 = omega arith;
}

event-IsSendable :
    (id : ℕ) (payload : List ℕ)
    → 0x8000 ≤ id
    → id < 0xffff
    → length payload < 2 ^ 32 - 8
    → IsSendable 0x1234 1 1 (record { event_id = id; payload = payload })
event-IsSendable id payload lo hi fits = record {
  in_range = first-InRange id (omega arith);
  from_8000 = lo;
  below_ffff = hi;
  fits = fits;
}

socket_events-notifications_example :
    socket_events (map (λ e. (build_notification 0x1234 e.event_id 1 0 1 e.payload, ok)) two_events)
    ≡ two_events
socket_events-notifications_example = socket_events-notifications 0x1234 1 1 two_events (
  event-IsSendable 0x8001 (1 ∷ 2 ∷ []) (omega arith) (omega arith) (omega arith),
  (event-IsSendable 0x8002 [] (omega arith) (omega arith) (omega arith), tt),
)
