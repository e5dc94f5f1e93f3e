-- ===== src/Session/Reboot.antt =====
-- A peer's reboot is detected from its messages: no false alarm, and every restart that can show.
use recentip.Prelude.{
  ℕ, ◌≤◌, ◌<◌, ◌≡◌, refl, Bool, true, false, not, ◌||◌, arith, List, [], ◌∷◌, Option, none, some,
}
use recentip.Session.{Sessions, new, sd_flags, send_sd, PeerSessionState, default_peer, observe}

-- A node sends a message, unicast or not, whose flags it reads just before the id is drawn, and a
-- peer observes it: whether the peer takes it for a reboot, and both states afterwards.
unfoldable pub exchange :
    (unicast : Bool) → Sessions → PeerSessionState → Bool × Sessions × PeerSessionState
exchange unicast s p =
    let flags = sd_flags s unicast in
    let (session_id, s') = send_sd s flags in
    let (detected, p') = observe p flags session_id in (detected, s', p')

-- The messages in the order in which they are sent, and whether any was taken for a reboot.
unfoldable pub exchanges :
    List Bool → Sessions → PeerSessionState → Bool × Sessions × PeerSessionState
unfolding exchange
exchanges [] s p = (false, s, p)
exchanges (u ∷ us) s p =
    let (detected, s', p') = exchange u s p in
    let (later, s'', p'') = exchanges us s' p' in (detected || later, s'', p'')

-- What a channel's stored session has to do with the sender's next id and wrap flag.
abbrev Follows : (next : ℕ) → (wrapped : Bool) → Option ℕ → (last_flag : Bool) → Type 0
Follows next wrapped none last_flag = (1 ≤ next) × (next < 65536)
Follows next false (some last) last_flag =
    (1 ≤ last) × (last < next) × (next < 65536) × (last_flag ≡ true)
Follows next true (some last) last_flag = (1 ≤ last) × (1 ≤ next) × (next < 65536)

record InStep (s : Sessions) (p : PeerSessionState) : Type 0 where
  multicast_follows :
      Follows s.multicast_session_id s.multicast_has_wrapped_once p.multicast.last_session_id
        p.multicast.last_reboot_flag
  unicast_follows :
      Follows s.unicast_session_id s.unicast_has_wrapped_once p.unicast.last_session_id
        p.unicast.last_reboot_flag

exchange-InStep :
    (u : Bool) (s : Sessions) (p : PeerSessionState)
    → InStep s p
    → ((exchange u s p).0 ≡ false) × InStep (exchange u s p).1 (exchange u s p).2
unfolding exchange sd_flags send_sd observe
exchange-InStep u s p i = ground arith

start-InStep : InStep new default_peer
start-InStep = omega arith

exchanges-InStep :
    (us : List Bool) (s : Sessions) (p : PeerSessionState)
    → InStep s p
    → ((exchanges us s p).0 ≡ false) × InStep (exchanges us s p).1 (exchanges us s p).2
unfolding exchanges
exchanges-InStep [] s p i = (refl, i)
exchanges-InStep (u ∷ us) s p i =
    let (quiet, i') = exchange-InStep u s p i in
    let (later, i'') = exchanges-InStep us (exchange u s p).1 (exchange u s p).2 i' in
    (rw (quiet) later, i'')

-- A peer that hears every message of a node from its start, over any mix of multicast and unicast
-- messages and through any number of wrap-arounds, never takes one for a reboot, if the flags of each
-- message are read just before its id is drawn.
pub no_false_reboot : (us : List Bool) → (exchanges us new default_peer).0 ≡ false
no_false_reboot us = (exchanges-InStep us new default_peer start-InStep).0

abbrev channel_heard : Option ℕ → Bool
channel_heard none = false
channel_heard (some last) = true

abbrev heard : Bool → PeerSessionState → Bool
heard true p = channel_heard p.unicast.last_session_id
heard false p = channel_heard p.multicast.last_session_id

abbrev same_kind : Bool → Bool → Bool
same_kind true v = v
same_kind false v = not v

abbrev pub sent : Bool → List Bool → Bool
sent u [] = false
sent u (v ∷ vs) = same_kind u v || sent u vs

exchange-heard :
    (u v : Bool) (s : Sessions) (p : PeerSessionState)
    → InStep s p
    → (same_kind u v || heard u p) ≡ true
    → heard u (exchange v s p).2 ≡ true
unfolding exchange sd_flags send_sd observe
exchange-heard u v s p i h = ground arith

exchanges-heard :
    (u : Bool) (us : List Bool) (s : Sessions) (p : PeerSessionState)
    → InStep s p
    → (sent u us || heard u p) ≡ true
    → heard u (exchanges us s p).2 ≡ true
unfolding exchanges
exchanges-heard u [] s p i h = h
exchanges-heard u (v ∷ vs) s p i h =
    exchanges-heard u vs (exchange v s p).1 (exchange v s p).2 (exchange-InStep v s p i).1
      (ground (arith, exchange-heard u v s p i))

restart-detected :
    (u : Bool) (s : Sessions) (p : PeerSessionState)
    → InStep s p
    → heard u p ≡ true
    → ((exchange u new p).0 ≡ true) × ((exchange u new p).2 ≡ default_peer)
unfolding exchange sd_flags send_sd observe
restart-detected u s p i h = ground arith

-- A node that restarts is detected by its first message after the restart, if that message comes on
-- a channel on which the peer heard the node before, and the flags of each message are read just
-- before its id is drawn; and then both channels are forgotten.
pub reboot_detected_after_restart :
    (us : List Bool) (u : Bool)
    → sent u us ≡ true
    → let p = (exchanges us new default_peer).2 in
      ((exchange u new p).0 ≡ true) × ((exchange u new p).2 ≡ default_peer)
reboot_detected_after_restart us u h =
    restart-detected u (exchanges us new default_peer).1 _
      (exchanges-InStep us new default_peer start-InStep).1
      (exchanges-heard u us new default_peer start-InStep (ground arith))

-- A message that was queued with the flags of an earlier state: where a node takes the last id of
-- the first cycle for one message and has queued a second with the same flags, the second goes out
-- under id 1 with the reboot bit, and any peer that heard the node with that bit on the unicast
-- channel takes it for a reboot.
pub stale_flags_reboot :
    (s : Sessions) (p : PeerSessionState) (last : ℕ)
    → s.unicast_session_id ≡ 65535
    → s.unicast_has_wrapped_once ≡ false
    → p.unicast.last_session_id ≡ some last
    → p.unicast.last_reboot_flag ≡ true
    → 1 ≤ last
    → let flags = sd_flags s true in
      let s' = (send_sd s flags).1 in
      ((send_sd s' flags).0 ≡ 1) × ((observe p flags (send_sd s' flags).0).0 ≡ true)
unfolding sd_flags send_sd observe
stale_flags_reboot s p last hs hw hl hf h = ground arith
