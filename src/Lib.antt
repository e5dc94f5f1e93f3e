-- ===== src/Lib.antt =====
-- The SOME/IP library `recentip`: messages, service discovery, sessions and client ports.
--
-- The program is an async runtime: handles send commands to an event loop, which keeps one
-- `RuntimeState`, exchanges service discovery messages with its peers and SOME/IP messages with
-- clients and servers. This development models what is on the wire, the state of the event loop, and
-- the handlers of commands and messages, each as a function from the state to the actions that the
-- loop is to execute and the next state.
--
-- Files, with the source each one models:
--   Types               src/lib.rs: `ReturnCode`, `ServiceErrorCode`, `ApplicationError`, in
--                       Types/ReturnCode; the identifiers, in Types/Identifiers.
--   Wire/Version, Wire/Cookie, Wire/MessageType, Wire/Header, Wire/Message
--                       src/wire.rs: a function here has the name of the method there, in the
--                       module of its type (`Header::parse` is `Wire.Header.parse`).
--   Wire/SdEntry, Wire/SdOption, Wire/SdMessage
--                       src/wire.rs: service discovery entries, options and messages.
--   Config              src/config.rs: transports, `TransportPolicy`, TTLs, `MethodConfig`,
--                       `OfferConfig`, the addresses (Config/Address); and `OfferedEndpoints` of
--                       src/lib.rs.
--   Sd                  src/runtime/sd.rs, the `build_*` functions; `ServiceKey` of
--                       src/runtime/state.rs.
--   Session             src/runtime/state.rs: session counters, `sd_flags`, reboot detection; with
--                       the two places of src/runtime/event_loop.rs that call them.
--   Framing             src/tcp.rs: the loop that cuts the read buffer into messages, and the cookies.
--   Pool                src/tcp.rs: the client's pool of TCP connections. Pool/Ids has its histories,
--                       Pool/Kept the sends in them.
--   TcpServer           src/tcp.rs: the connections of a service's TCP server, `TcpServer::spawn`.
--   Client              src/runtime/state.rs: TCP connection keys and subscription ports.
--   State, State/Keys   src/runtime/state.rs: `RuntimeState`, its tables and their keys; `Action` of
--                       src/runtime/sd.rs.
--   Cluster             src/runtime/event_loop.rs: `cluster_sd_actions`. Cluster/Merge is about two
--                       messages, Cluster/Targets about all of them.
--   Subscribers         src/runtime/sd.rs: the requests of subscribers, `handle_subscribe_request` and
--                       `handle_unsubscribe_request`.
--   Subscriptions       src/runtime/state.rs, src/runtime/sd.rs and src/runtime/client.rs: a client's
--                       subscriptions, from `record_subscription_state` to the answers of the server
--                       (Subscriptions/Acks). Subscriptions/Udp is `handle_subscribe_udp`,
--                       Subscriptions/Tcp `handle_subscribe_tcp` of
--                       src/runtime/client_concurrent.rs with its updates of the event loop.
--   Discovery           src/runtime/sd.rs and src/runtime/client.rs: offers and searches.
--   Peer                src/runtime/event_loop.rs: `handle_peer_reboot` and its three passes.
--   Calls               src/runtime/client.rs: calls, responses and received events;
--                       `parse_method_message` of src/runtime/event_loop.rs.
--                       Calls/Socket is the task of a subscription's own UDP socket.
--   Requests            src/runtime/server.rs: received requests and their responses; Requests/Answered
--                       is about a call's whole way.
--   Offers              src/runtime/server.rs: registered events, the end of an offer (`stop_offer` is
--                       `server::handle_stop_offer`), notifications; the first offers
--                       (`flush_pending_initial_offers` of src/runtime/event_loop.rs).
--                       Offers/Ports and Offers/Command are `handle_offer_command`; Offers/Shared
--                       is about `find_shareable_udp_socket`, Offers/Collision about its use.
--   EventLoop           src/runtime/event_loop.rs: `handle_sd_message`, `handle_periodic`; the
--                       arms of the select loop for SOME/IP messages, in EventLoop/Messages.
--   Commands            src/runtime/event_loop.rs: `handle_command`.
--   Prelude, Buffer     shared notation and lemmas; the interface to the `bytes` crate.
--   Tests               the theorems at concrete inputs.
--
-- Integers are natural numbers, and a wrap-around is written out where the source has one: the casts
-- `as u8`, `as u16` and `as u32`, and `wrapping_add` on the session ids. Bounds of the fields are
-- predicates (`IsValid`). A method that changes `self` returns the new value.
--
-- The `bytes` crate is a parameter, the class `ByteBuffer` of Buffer: reading and writing big-endian
-- integers at the front and the end of a buffer, as the crate documents it. `Buffer/Slice` is an
-- instance by plain lists, over which the tests run. A read past the end panics in the crate; every
-- parser tests the remaining bytes first, and nothing is assumed of such a read.
--
-- Loops that are not structural run on fuel. The entries' loop of `SdMessage.parse` has `entries_len`
-- rounds of fuel, and each round consumes 16 of `entries_len`; the options' loop has a round for each
-- byte left, and each round consumes at least three; the search for a free connection key has a round
-- for each key in use.
--
-- Hash maps are association lists or functions, and hash sets are lists. Where the source goes through
-- a map, the model takes the list's order, which stands for the map's unspecified one; theorems that
-- need each key to stand once say so.
--
-- An instant is a number of milliseconds, and a handler takes the current one as an argument. A channel
-- is a number. What the handlers send to a service's application is kept in `service_requests`, what
-- they answer to a subscription in `answers`, in order. Whether the channel of a service's application
-- takes a request or a notice of a subscription is an argument, `delivered`, since the source drops what
-- does not fit; of the sends to a client's own channels the model says what is sent, not whether the
-- channel takes it. The actions of a handler are a list, where the source has `None` for no
-- action. Slices of a message's bytes are taken and dropped of the list.
--
-- Sockets are parameters: what binding or connecting comes to is an argument of the commands that do it,
-- and a theorem that needs a new socket to have a port that is not in use has that as a hypothesis.
--
-- Not modelled: sockets and timers (src/net, the rest of the select loop, src/handles),
-- which are I/O over the async runtime, and the tasks around them but for what they keep and decide;
-- the builder; logging and `Display`.
pub mod Prelude
pub mod Buffer
pub mod Types
pub mod Wire
pub mod Config
pub mod Sd
pub mod Client
pub mod Session
pub mod Framing
pub mod Pool
pub mod State
pub mod Cluster
pub mod Subscribers
pub mod TcpServer
pub mod Subscriptions
pub mod Discovery
pub mod Peer
pub mod Calls
pub mod Requests
pub mod Offers
pub mod EventLoop
pub mod Commands
pub mod Tests
