-- ===== src/EventLoop.antt =====
-- src/runtime/event_loop.rs: incoming service discovery messages, the periodic tasks, and the batches
-- of messages that wait for their deadline.
pub mod Periodic
pub mod Messages
use recentip.Prelude.{
  ℕ, ◌+◌, ◌-◌, ◌*◌, ◌==◌, ◌&&◌, ltb, leb, Bool, true, false, not, if◌then◌else◌, List, [], ◌∷◌,
  ◌++◌, Option, none, some, bit_and,
}
use recentip.Prelude.Maps.{Map, get, insert, remove, or_default}
use recentip.Buffer.{ByteBuffer}
use recentip.Wire.SdEntry.{SdEntry, SdEntryType, is_stop}
use recentip.Wire.SdOption.{SocketAddrV4}
use recentip.Wire.SdMessage
use recentip.Wire.SdMessage.{SdMessage, flag_unicast}
use recentip.Session.{observe, default_peer}
use recentip.Sd.{ServiceKey, OfferedService, build_offer_message, build_find_message}
use recentip.Cluster.{cluster_sd_actions}
use recentip.Subscribers.{service_key, handle_subscribe_request, handle_unsubscribe_request}
use recentip.Subscriptions.Acks.{handle_subscribe_ack, handle_subscribe_nack}
use recentip.Discovery.{handle_offer, handle_stop_offer, handle_find_request}
use recentip.Peer.{retain_subscribers, handle_peer_reboot}
use recentip.State.Keys.{ServiceKey-Eq, Ipv4Addr-Eq}
use recentip.State.{
  RuntimeState, DiscoveredService, FindRequest, ServerSubscription, Action, send_sd, emit_sd_event,
  service_expired, sd_flags,
}

-- One entry of a message, by its type and its TTL. No actions come from the entries on subscriptions
-- and searches. `delivered` says whether the channel of a service's application takes a notice.
unfoldable pub process_entry :
    (now : ℕ)
    → SdEntryType
    → SdEntry
    → SdMessage
    → SocketAddrV4
    → (delivered : Bool) → RuntimeState
    → List Action × RuntimeState
unfolding handle_offer handle_stop_offer handle_find_request handle_subscribe_request
    handle_unsubscribe_request handle_subscribe_ack handle_subscribe_nack is_stop
process_entry now SdEntryType.offer_service e m from delivered state =
    if is_stop e then handle_stop_offer e state else handle_offer now e m from state
process_entry now SdEntryType.find_service e m from delivered state =
    ([], handle_find_request now e from state)
process_entry now SdEntryType.subscribe_eventgroup e m from delivered state = (
  [],
  if is_stop e
      then handle_unsubscribe_request e m delivered state
      else handle_subscribe_request now e m from delivered state,
)
process_entry now SdEntryType.subscribe_eventgroup_ack e m from delivered state = (
  [],
  if is_stop e
      then handle_subscribe_nack (service_key e) e.eventgroup_id state
      else handle_subscribe_ack (service_key e) e.eventgroup_id state,
)

-- `delivered` is by the number of the entry.
unfoldable pub process_entries :
    (now : ℕ)
    → List SdEntry
    → SdMessage
    → SocketAddrV4
    → (delivered : ℕ → Bool) → RuntimeState
    → List Action × RuntimeState
unfolding process_entry
process_entries now [] m from delivered state = ([], state)
process_entries now (e ∷ es) m from delivered state =
    let (actions, state') = process_entry now e.entry_type e m from (delivered 0) state in
    let (later, state'') = process_entries now es m from (λ n. delivered (n + 1)) state' in
    (actions ++ later, state'')

unfoldable pub process_sd_entries :
    (now : ℕ)
    → SdMessage
    → SocketAddrV4
    → (delivered : ℕ → Bool) → RuntimeState
    → List Action × RuntimeState
unfolding process_entries
process_sd_entries now m from delivered state = process_entries now m.entries m from delivered state

unfoldable pub detect_and_handle_peer_reboot :
    (session_id : ℕ) → SdMessage → SocketAddrV4 → RuntimeState → List Action × RuntimeState
unfolding handle_peer_reboot
detect_and_handle_peer_reboot session_id m from state =
    let (detected, peer) =
      observe (or_default default_peer (get state.peer_sessions from.ip)) m.flags session_id in
    let noted : RuntimeState = record state {
      peer_sessions = insert state.peer_sessions from.ip peer;
    } in
    if detected then handle_peer_reboot from.ip noted else ([], noted)

-- In dual-socket mode the socket says which flag is expected.
abbrev pub is_expected : Option Bool → (flags : ℕ) → Bool
is_expected none flags = true
is_expected (some true) flags = not (bit_and flags flag_unicast == 0)
is_expected (some false) flags = bit_and flags flag_unicast == 0

-- The part behind the checks.
unfoldable pub process_message :
    (now session_id : ℕ)
    → SdMessage
    → SocketAddrV4
    → (delivered : ℕ → Bool) → RuntimeState
    → List Action × RuntimeState
unfolding detect_and_handle_peer_reboot process_sd_entries
process_message now session_id m from delivered state =
    let (reboot_actions, state') = detect_and_handle_peer_reboot session_id m from state in
    let (actions, state'') = process_sd_entries now m from delivered state' in
    (cluster_sd_actions (reboot_actions ++ actions), state'')

module _ ⦃bytes : ByteBuffer⦄ where
  -- The actions, of which there may be none, and the state.
  unfoldable pub handle_sd_message :
      (now session_id : ℕ)
      → (payload : List ℕ) → SocketAddrV4
      → (expect_unicast_flag : Option Bool) → (delivered : ℕ → Bool) → RuntimeState
      → List Action × RuntimeState
  unfolding process_message
  handle_sd_message now session_id payload from expect_unicast_flag delivered state =
      if session_id == 0 then ([], state) else elim (SdMessage.parse payload) [
        | none ↦ ([], state)
        | some m ↦
            if is_expected expect_unicast_flag m.flags
            then process_message now session_id m from delivered state
            else ([], state)
      ]

-- `duration_since` is 0 for an earlier instant, as the subtraction of the native numbers is.
unfoldable pub cyclic_offers :
    (now flags : ℕ)
    → RuntimeState
    → Map ServiceKey OfferedService
    → List Action × Map ServiceKey OfferedService
cyclic_offers now flags state [] = ([], [])
cyclic_offers now flags state ((key, offered) ∷ rest) =
    let (actions, rest') = cyclic_offers now flags state rest in
    if offered.is_announcing && leb state.config.cyclic_offer_delay (2 * (now - offered.last_offer))
    then (
      send_sd
            (build_offer_message key (record offered { last_offer = now }) flags
              state.config.offer_ttl state.config.unicast_ip)
            state.config.sd_multicast_addr
          ∷ actions,
      (key, record offered { last_offer = now }) ∷ rest',
    )
    else (actions, (key, offered) ∷ rest')

-- A search that is due is repeated; one with no repetition left is taken out.
unfoldable pub find_repetitions :
    (now flags : ℕ)
    → RuntimeState
    → Map ServiceKey FindRequest
    → List Action × Map ServiceKey FindRequest
find_repetitions now flags state [] = ([], [])
find_repetitions now flags state ((key, find_req) ∷ rest) =
    let (actions, rest') = find_repetitions now flags state rest in
    if ltb 0 find_req.repetitions_left
      && leb state.config.cyclic_offer_delay (now - find_req.last_find)
    then (
      send_sd
            (build_find_message key.service_id key.instance_id key.major_version flags
              state.config.find_ttl)
            state.config.sd_multicast_addr
          ∷ actions,
      (key, record find_req { last_find = now; repetitions_left = find_req.repetitions_left - 1 })
          ∷ rest',
    )
    else if find_req.repetitions_left == 0
    then (actions, rest')
    else (actions, (key, find_req) ∷ rest')

-- `is_alive`
abbrev pub is_alive : (now : ℕ) → DiscoveredService → Bool
is_alive now service = ltb now service.ttl_expires

abbrev pub expired_services : (now : ℕ) → Map ServiceKey DiscoveredService → List ServiceKey
expired_services now [] = []
expired_services now ((key, service) ∷ rest) =
    let later = expired_services now rest in if is_alive now service then later else key ∷ later

unfoldable pub expire_discovered : List ServiceKey → RuntimeState → List Action × RuntimeState
expire_discovered [] state = ([], state)
expire_discovered (key ∷ keys) state =
    let (actions, state') = expire_discovered keys (record state {
      discovered = remove state.discovered key;
      subscriptions = remove state.subscriptions key;
    }) in
    (emit_sd_event (service_expired key.service_id key.instance_id) ∷ actions, state')

abbrev pub is_current : (now : ℕ) → ServerSubscription → Bool
is_current now s = elim s.expires_at [ none ↦ true | some t ↦ not (leb t now) ]

unfoldable pub handle_periodic : (now : ℕ) → RuntimeState → List Action × RuntimeState
unfolding cyclic_offers find_repetitions expire_discovered retain_subscribers sd_flags
handle_periodic now state =
    let flags = sd_flags state false in
    let (offers, offered') = cyclic_offers now flags state state.offered in
    let (finds, find_requests') = find_repetitions now flags state state.find_requests in
    let (gone, state') =
      expire_discovered (expired_services now state.discovered)
        (record state { offered = offered'; find_requests = find_requests' }) in
    (
      cluster_sd_actions (offers ++ finds ++ gone),
      record state' {
        server_subscribers = retain_subscribers (is_current now) state'.server_subscribers;
      },
    )

-- `RuntimeState::flush_pending_unicast_sd`
unfoldable pub flush_pending_unicast_sd : RuntimeState → List Action × RuntimeState
flush_pending_unicast_sd state = (
  cluster_sd_actions state.pending_unicast_sd,
  record state { pending_unicast_sd = []; pending_unicast_sd_deadline = none },
)
