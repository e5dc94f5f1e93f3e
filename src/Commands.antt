-- ===== src/Commands.antt =====
-- src/runtime/event_loop.rs: the commands of the handles, with what is answered at once.
use recentip.Prelude.{ℕ, List, [], ◌∷◌, ◌++◌, Option, none, some}
use recentip.Buffer.{ByteBuffer}
use recentip.Config.{Transport}
use recentip.Wire.SdOption.{SocketAddrV4}
use recentip.Sd.{ServiceKey}
use recentip.State.{RuntimeState, DiscoveredService, Action}
use recentip.Discovery.{handle_find, handle_stop_find}
use recentip.Subscriptions.{handle_unsubscribe}
use recentip.Calls.{handle_call, handle_fire_and_forget}
use recentip.Offers.{RegisterResult, handle_register_event, stop_offer, handle_notify}

pub data Command : Type 0 where
  find : ServiceKey → (notify : ℕ) → Command
  stop_find stop_offering : ServiceKey → Command
  call :
      (service_id interface_version method_id : ℕ)
      → (payload : List ℕ) → (response : ℕ) → (target_endpoint : SocketAddrV4) → Transport
      → Command
  fire_and_forget :
      (service_id interface_version method_id : ℕ)
      → (payload : List ℕ) → (target_endpoint : SocketAddrV4) → Transport
      → Command
  unsubscribe : ServiceKey → (eventgroup_id subscription_id : ℕ) → Command
  register_event : ServiceKey → (event_id response : ℕ) → Command
  notify : ServiceKey → (eventgroup_ids : List ℕ) → (event_id : ℕ) → (payload : List ℕ) → Command
  monitor_sd : (events : ℕ) → Command
  -- These need sockets, and are handled elsewhere.
  subscribe offer shutdown : Command

-- What is sent over a channel at once.
pub data Reply : Type 0 where
  available : (notify : ℕ) → ServiceKey → DiscoveredService → Reply
  registration : (response : ℕ) → RegisterResult → Reply

abbrev reply_to : (channel : ℕ) → Option (ServiceKey × DiscoveredService) → List Reply
reply_to channel none = []
reply_to channel (some (key, service)) = available channel key service ∷ []

module _ ⦃bytes : ByteBuffer⦄ where
  unfoldable pub handle_command :
      (now : ℕ) → Command → RuntimeState → List Action × List Reply × RuntimeState
  unfolding handle_find handle_stop_find handle_unsubscribe handle_call handle_fire_and_forget
      handle_register_event stop_offer handle_notify
  handle_command now (find key channel) state =
      let (found, actions, state') = handle_find now key channel state in
      (actions, reply_to channel found, state')
  handle_command now (stop_find key) state = ([], [], handle_stop_find key state)
  handle_command now (stop_offering key) state =
      let (actions, state') = stop_offer key state in (actions, [], state')
  handle_command now (call s i m payload response target transport) state =
      let (actions, state') = handle_call s i m payload response target transport state in
      (actions, [], state')
  handle_command now (fire_and_forget s i m payload target transport) state =
      (handle_fire_and_forget s i m payload target transport state, [], state)
  handle_command now (unsubscribe key eg id) state =
      ([], [], handle_unsubscribe now key eg id state)
  handle_command now (register_event key event_id response) state =
      let (result, state') = handle_register_event key event_id state in
      ([], registration response result ∷ [], state')
  handle_command now (notify key egs event_id payload) state =
      (handle_notify key egs event_id payload state, [], state)
  handle_command now (monitor_sd events) state =
      ([], [], record state { sd_monitors = state.sd_monitors ++ events ∷ [] })
  handle_command now subscribe state = ([], [], state)
  handle_command now offer state = ([], [], state)
  handle_command now shutdown state = ([], [], state)
