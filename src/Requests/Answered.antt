-- ===== src/Requests/Answered.antt =====
-- A call, from the client's command to the client's response.
use recentip.Prelude.{
  ℕ, ◌<◌, ◌-◌, ◌^◌, ◌≡◌, ◌==◌, refl, sym, subst, ◌∙◌, ◌⊎◌, true, false, if◌then◌else◌, List, [],
  ◌∷◌, none, some, length, arith, leb, Bool-cases, inl, inr,
}
use recentip.Prelude.Maps.{Map, get, insert, remove, find, get-insert, get-remove}
use recentip.Buffer.{ByteBuffer}
use recentip.Config.{Transport, udp, tcp, uses_exception}
use recentip.Types.ReturnCode.{ReturnCode}
use recentip.Wire.MessageType.{MessageType}
use recentip.Wire.SdOption.{SocketAddrV4}
use recentip.Wire.Header.{Header}
use recentip.Wire.Message.RoundTrip.{built, built-IsValid}
use recentip.Sd.{ServiceKey, OfferedService}
use recentip.State.Keys.{CallKey, CallKey-Eq, call_key_beq, call_key_beq_refl}
use recentip.State.{
  RuntimeState, PendingServerResponse, send_client_message, track_server_response, method_call,
  notify_service,
}
use recentip.Calls.{
  draw_session_id, build_request, handle_call, parse_method_message, handle_incoming_response,
}
use recentip.Calls.Received.{InRange, parse_method_message-built}
use recentip.EventLoop.Messages.{
  Reaction, acted, Incoming, complete, serve_request, handle_udp_message, handle_server_tcp_message,
  handle_client_tcp_message, dispatch_udp, dispatch_server_tcp, dispatch_client_tcp,
}
use recentip.Requests.Responses.{
  code_of, payload_of, IsValid, read-complete_response, response_type_of-cases,
}
use recentip.Requests.{
  Completion, is_addressed, transport_of, context_of, serve, handle_incoming_request,
  complete_response,
}

abbrev pub call_key_of : RuntimeState → CallKey
call_key_of c = record { client_id = c.client_id; session_id = (draw_session_id c).0 }

-- The waiting call is told, and no other.
abbrev pub Told : (c r : RuntimeState) → Reaction → ℕ → Completion → Type 0
Told c r reaction response done =
    (reaction
      ≡ Reaction.completed
          (some (response, record { return_code = code_of done; payload = payload_of done })))
    × ((k : CallKey)
        → get r.pending_calls k
          ≡ (if call_key_beq (call_key_of c) k then none else get c.pending_calls k))

-- The arms of the event loop that a call goes through: at the server, and back at the client.
abbrev pub at_server :
    ⦃bytes : ByteBuffer⦄
    → Transport
    → Incoming
    → (port : ℕ) → RuntimeState
    → Reaction × RuntimeState
at_server udp m port state = handle_udp_message m port state
at_server tcp m port state = handle_server_tcp_message m port state

abbrev pub at_client :
    ⦃bytes : ByteBuffer⦄ → Transport → Incoming → (n : ℕ) → RuntimeState → Reaction × RuntimeState
at_client udp m n state = handle_udp_message m n state
at_client tcp m n state = handle_client_tcp_message m n state

if-insert :
    (m : Map CallKey ℕ) (key k : CallKey) (v : ℕ)
    → (if call_key_beq key k then none else get (insert m key v) k)
      ≡ (if call_key_beq key k then none else get m k)
if-insert m key k v = elim (Bool-cases (call_key_beq key k)) [
  | inl hit ↦ rw hit refl
  | inr miss ↦ rw (get-insert m key k v, miss) refl
]

handle_incoming_response-Told :
    (c r : RuntimeState) (response : ℕ) (done : Completion) (header : Header)
    → header.client_id ≡ c.client_id
    → header.session_id ≡ (draw_session_id c).0
    → header.return_code ≡ code_of done
    → r.pending_calls ≡ insert c.pending_calls (call_key_of c) response
    → let (reaction, r') = complete (handle_incoming_response header (payload_of done) r) in
      Told c r' reaction response done
unfolding handle_incoming_response
handle_incoming_response-Told c r response done header hc hn hcode waits =
    let key : CallKey = record { client_id = header.client_id; session_id = header.session_id } in
    let same : key ≡ call_key_of c = λ j. record { client_id = hc j; session_id = hn j } in
    let there : get r.pending_calls key ≡ some response =
      (λ j. get (waits j) (same j))
      ∙ get-insert c.pending_calls (call_key_of c) (call_key_of c) response
      ∙ rw (call_key_beq_refl (call_key_of c)) refl in
    rw (handle_incoming_response, there)
      (
        (λ j.
            Reaction.completed
              (some (response, record { return_code = hcode j; payload = payload_of done }))),
        λ k.
            (λ j. get (remove (waits j) (same j)) k)
            ∙ get-remove (insert c.pending_calls (call_key_of c) response) (call_key_of c) k
            ∙ if-insert c.pending_calls (call_key_of c) k response,
      )

module _ ⦃bytes : ByteBuffer⦄ where
  handle_call-pending :
      (s i m : ℕ) (payload : List ℕ) (response : ℕ) (target : SocketAddrV4) (t : Transport)
      (c : RuntimeState)
      → (handle_call s i m payload response target t c).1.pending_calls
        ≡ insert c.pending_calls (call_key_of c) response
  unfolding handle_call
  handle_call-pending s i m payload response target t c = refl

  serve-passed :
      (header : Header) (payload : List ℕ) (from : SocketAddrV4) (server : RuntimeState)
      (t : Transport) (port : ℕ) (key : ServiceKey) (offering : OfferedService) (rpc receiver : ℕ)
      → find (is_addressed header.service_id t port) server.offered ≡ some (key, offering)
      → transport_of t offering ≡ some rpc
      → header.method_id < 0x8000
      → header.interface_version ≡ offering.major_version
      → handle_incoming_request header payload from server t port true receiver ≡ (
        some (
            track_server_response
              (context_of header from (uses_exception offering.method_config header.method_id) rpc)
              receiver),
        notify_service key (method_call header.method_id payload from t receiver) server,
      )
  unfolding handle_incoming_request serve
  serve-passed header payload from server t port key offering rpc receiver found bound method
        version =
      let small : leb 0x8000 header.method_id ≡ false = ground arith in
      let same : (header.interface_version == offering.major_version) ≡ true = ground arith in
      rw (handle_incoming_request, found, serve, bound, small, same) refl

  at_server-request :
      (t : Transport) (header : Header) (payload : List ℕ) (m : Incoming) (port : ℕ)
      (state : RuntimeState)
      → parse_method_message m.bytes ≡ some (header, payload)
      → header.message_type ≡ MessageType.request
      → at_server t m port state ≡ serve_request header payload m t port state
  unfolding handle_udp_message handle_server_tcp_message dispatch_udp dispatch_server_tcp
  at_server-request udp header payload m port state read type =
      rw (handle_udp_message, read, type, dispatch_udp) refl
  at_server-request tcp header payload m port state read type =
      rw (handle_server_tcp_message, read, type, dispatch_server_tcp) refl

  at_client-response :
      (t : Transport) (header : Header) (payload : List ℕ) (m : Incoming) (n : ℕ)
      (state : RuntimeState)
      → parse_method_message m.bytes ≡ some (header, payload)
      → (header.message_type ≡ MessageType.response) ⊎ (header.message_type ≡ MessageType.error)
      → at_client t m n state ≡ complete (handle_incoming_response header payload state)
  unfolding handle_udp_message handle_client_tcp_message dispatch_udp dispatch_client_tcp
  at_client-response udp header payload m n state read (inl type) =
      rw (handle_udp_message, read, type, dispatch_udp) refl
  at_client-response udp header payload m n state read (inr type) =
      rw (handle_udp_message, read, type, dispatch_udp) refl
  at_client-response tcp header payload m n state read (inl type) =
      rw (handle_client_tcp_message, read, type, dispatch_client_tcp) refl
  at_client-response tcp header payload m n state read (inr type) =
      rw (handle_client_tcp_message, read, type, dispatch_client_tcp) refl

module _ ⦃bytes : ByteBuffer⦄ where
  -- A call comes back to its caller. Where the ids are in range and the method's is below 0x8000, the
  -- payloads of the call and of what it is completed with fit and the code of the latter is a valid one, a
  -- service of the server is at the port and has the service id, the version and the transport of the
  -- call, and the channel of its application takes the request: the event loop of the server, given the
  -- bytes that the call sends, passes the method, the payload and the sender's address to the application
  -- and awaits its answer for that address; and the event loop of the client, given the bytes of what the
  -- call is completed with over the transport of the call, answers exactly the call that waits, with that
  -- code and that payload; then this call waits no more, and every other call waits as before.
  pub call_answered :
      (s i m : ℕ) (payload : List ℕ) (response : ℕ) (target : SocketAddrV4) (t : Transport)
      (client : RuntimeState) (from : SocketAddrV4) (server : RuntimeState) (port receiver rpc : ℕ)
      (key : ServiceKey) (offering : OfferedService) (done : Completion)
      → InRange s m client.client_id (draw_session_id client).0 i
      → length payload < 2 ^ 32 - 8
      → m < 0x8000
      → find (is_addressed s t port) server.offered ≡ some (key, offering)
      → transport_of t offering ≡ some rpc
      → i ≡ offering.major_version
      → IsValid done
      → let (actions, waiting) = handle_call s i m payload response target t client in
        (request : List ℕ) × (context : PendingServerResponse) × (actions
          ≡ send_client_message request target t ∷ [])
        × (at_server t
              (record { bytes = request; from = from; delivered = true; answer = receiver })
              port
              server
            ≡ (
              acted (some (track_server_response context receiver)),
              notify_service key (method_call m payload from t receiver) server,
            ))
        × (context.client_addr ≡ from)
        × ((reply : Incoming) (n : ℕ)
            → reply.bytes ≡ complete_response context done
            → let (reaction, r) = at_client t reply n waiting in
              Told client r reaction response done)
  unfolding handle_call build_request
  call_answered s i m payload response target t client from server port receiver rpc key offering
        done r fits method found bound version v =
      let n = (draw_session_id client).0 in
      let header =
        (built s m client.client_id n i MessageType.request ReturnCode.ok payload).header in
      let request = build_request s m client.client_id n i payload in
      let context = context_of header from (uses_exception offering.method_config m) rpc in
      let arrived : Incoming = record {
        bytes = request;
        from = from;
        delivered = true;
        answer = receiver;
      } in
      let (answer, read, type, same_s, same_m, same_c, same_n, same_i, same_code) =
        read-complete_response context done v r in
      let waiting = (handle_call s i m payload response target t client).1 in
      let told =
        handle_incoming_response-Told client waiting response done answer same_c same_n same_code
          (handle_call-pending s i m payload response target t client) in
      let served =
        serve-passed header payload from server t port key offering rpc receiver found bound method
          version in
      (
        request,
        context,
        refl,
        at_server-request t header payload arrived port server
              (parse_method_message-built s m client.client_id n i MessageType.request ReturnCode.ok
                payload r.not_sd fits
                (built-IsValid s m client.client_id n i MessageType.request ReturnCode.ok payload
                  r.service_id_u16 r.method_id_u16 r.client_id_u16 r.session_id_u16
                  r.interface_version_u8 tt fits))
              refl
            ∙ (λ j. (acted (served j).0, (served j).1)),
        refl,
        λ reply n same.
            subst (λ (o : Reaction × RuntimeState). Told client o.1 o.0 response done)
              (sym (
                at_client-response t answer (payload_of done) reply n waiting (rw same read)
                  (rw type (response_type_of-cases context done))))
              told,
      )
