-- ===== src/Session.antt =====
-- src/runtime/state.rs and src/runtime/event_loop.rs: the session counters of a node, the flags of
-- its service discovery messages, and the tracking of a peer's counters that detects a reboot.
pub mod Counters
pub mod Reboot
use recentip.Prelude.{
  ℕ, ◌+◌, ◌%◌, ◌==◌, leb, Bool, true, false, not, ◌&&◌, if◌then◌else◌, Option, none, some, bit_and,
  bit_or,
}
use recentip.Wire.SdMessage.{flag_reboot, flag_unicast}

-- The fields of `RuntimeState` that the counters use.
pub record Sessions : Type 0 where
  pub multicast_session_id : ℕ
  pub unicast_session_id : ℕ
  pub multicast_has_wrapped_once : Bool
  pub unicast_has_wrapped_once : Bool
  pub payload_session_id : ℕ

-- Their values in `RuntimeState::new`.
abbrev pub new : Sessions
new = record {
  multicast_session_id = 1;
  unicast_session_id = 1;
  multicast_has_wrapped_once = false;
  unicast_has_wrapped_once = false;
  payload_session_id = 1;
}

-- `wrapping_add(1)` on a u16.
abbrev pub wrapping_next : ℕ → ℕ
wrapping_next x = (x + 1) % 65536

unfoldable pub next_multicast_session_id : Sessions → ℕ × Sessions
next_multicast_session_id self =
    let id = self.multicast_session_id in
    let next = wrapping_next self.multicast_session_id in
    if next == 0
    then (id, record self { multicast_session_id = 1; multicast_has_wrapped_once = true })
    else (id, record self { multicast_session_id = next })

unfoldable pub next_unicast_session_id : Sessions → ℕ × Sessions
next_unicast_session_id self =
    let id = self.unicast_session_id in
    let next = wrapping_next self.unicast_session_id in
    if next == 0
    then (id, record self { unicast_session_id = 1; unicast_has_wrapped_once = true })
    else (id, record self { unicast_session_id = next })

unfoldable pub next_payload_session_id : Sessions → ℕ × Sessions
next_payload_session_id self =
    let id = self.payload_session_id in
    let next = wrapping_next self.payload_session_id in
    if next == 0
    then (id, record self { payload_session_id = 1 })
    else (id, record self { payload_session_id = next })

unfoldable pub sd_flags : Sessions → (unicast : Bool) → ℕ
sd_flags self true =
    let flags = bit_or 0 flag_unicast in
    if not self.unicast_has_wrapped_once then bit_or flags flag_reboot else flags
sd_flags self false = if not self.multicast_has_wrapped_once then bit_or 0 flag_reboot else 0

-- `execute_action`, at `SendSd`: the unicast bit of the message's flags chooses the counter.
unfoldable pub send_sd : Sessions → (flags : ℕ) → ℕ × Sessions
unfolding next_unicast_session_id next_multicast_session_id
send_sd self flags =
    if not (bit_and flags flag_unicast == 0)
    then next_unicast_session_id self
    else next_multicast_session_id self

pub record PeerChannelSession : Type 0 where
  pub last_session_id : Option ℕ
  pub last_reboot_flag : Bool

-- `#[derive(Default)]`
abbrev pub default_channel : PeerChannelSession
default_channel = record { last_session_id = none; last_reboot_flag = false }

-- The match of `check_and_update` on the stored session and the stored flag.
unfoldable pub reboot_detected : Option ℕ → Bool → ℕ → Bool → Bool
reboot_detected none last_flag session_id reboot_flag = false
reboot_detected (some last_session) false session_id reboot_flag = reboot_flag
reboot_detected (some last_session) true session_id reboot_flag =
    reboot_flag && leb session_id last_session

unfoldable pub check_and_update :
    PeerChannelSession → (session_id : ℕ) → (reboot_flag : Bool) → Bool × PeerChannelSession
unfolding reboot_detected
check_and_update self session_id reboot_flag = (
  reboot_detected self.last_session_id self.last_reboot_flag session_id reboot_flag,
  record { last_session_id = some session_id; last_reboot_flag = reboot_flag },
)

pub data SdChannel : Type 0 where
  multicast unicast : SdChannel

pub record PeerSessionState : Type 0 where
  pub multicast : PeerChannelSession
  pub unicast : PeerChannelSession

abbrev pub default_peer : PeerSessionState
default_peer = record { multicast = default_channel; unicast = default_channel }

-- The channel that a message came on is updated; a detected reboot resets both.
unfoldable pub check_reboot_and_reset :
    PeerSessionState → SdChannel → (session_id : ℕ) → (reboot_flag : Bool) → Bool × PeerSessionState
unfolding check_and_update
check_reboot_and_reset self SdChannel.multicast session_id reboot_flag =
    let (detected, channel) = check_and_update self.multicast session_id reboot_flag in
    if detected then (true, default_peer) else (false, record self { multicast = channel })
check_reboot_and_reset self SdChannel.unicast session_id reboot_flag =
    let (detected, channel) = check_and_update self.unicast session_id reboot_flag in
    if detected then (true, default_peer) else (false, record self { unicast = channel })

-- `detect_and_handle_peer_reboot`, as far as one peer's sessions go: the two flags of the message
-- and its session id.
abbrev pub channel_of : (flags : ℕ) → SdChannel
channel_of flags =
    if not (bit_and flags flag_unicast == 0) then SdChannel.unicast else SdChannel.multicast

unfoldable pub observe : PeerSessionState → (flags session_id : ℕ) → Bool × PeerSessionState
unfolding check_reboot_and_reset
observe self flags session_id =
    check_reboot_and_reset self (channel_of flags) session_id (not (bit_and flags flag_reboot == 0))
