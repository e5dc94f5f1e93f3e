-- ===== src/Session/Counters.antt =====
-- The session counters: which ids they give, and when the reboot flag falls.
use recentip.Prelude.{
  ℕ, suc, ◌+◌, ◌%◌, ◌≡◌, refl, Bool, true, false, not, leb, arith, bit_and, ◌==◌, List, [], ◌∷◌,
  if◌then◌else◌,
}
use recentip.Session.{
  Sessions, new, next_multicast_session_id, next_unicast_session_id, next_payload_session_id,
  sd_flags,
}
use recentip.Wire.SdMessage.{flag_reboot, flag_unicast}

pub data Draw : Type 0 where
  multicast unicast payload : Draw

unfoldable pub draw : Sessions → Draw → Sessions
unfolding next_multicast_session_id next_unicast_session_id next_payload_session_id
draw s multicast = (next_multicast_session_id s).1
draw s unicast = (next_unicast_session_id s).1
draw s payload = (next_payload_session_id s).1

-- The state after a history of draws, the latest first.
unfoldable pub after : List Draw → Sessions
unfolding draw
after [] = new
after (d ∷ ds) = draw (after ds) d

abbrev pub same : Draw → Draw → Bool
same multicast multicast = true
same unicast unicast = true
same payload payload = true
same _ _ = false

abbrev pub drawn : Draw → List Draw → ℕ
drawn d [] = 0
drawn d (e ∷ es) = if same d e then suc (drawn d es) else drawn d es

-- The next id of each counter, and the wrap flags, by the number of ids drawn from it.
pub record Counted (ds : List Draw) (s : Sessions) : Type 0 where
  pub multicast_id : s.multicast_session_id ≡ 1 + drawn multicast ds % 65535
  pub unicast_id : s.unicast_session_id ≡ 1 + drawn unicast ds % 65535
  pub payload_id : s.payload_session_id ≡ 1 + drawn payload ds % 65535
  pub multicast_wrapped : s.multicast_has_wrapped_once ≡ leb 65535 (drawn multicast ds)
  pub unicast_wrapped : s.unicast_has_wrapped_once ≡ leb 65535 (drawn unicast ds)

draw-Counted :
    (d : Draw) (ds : List Draw) (s : Sessions) → Counted ds s → Counted (d ∷ ds) (draw s d)
unfolding draw
draw-Counted multicast ds s c = ground arith
draw-Counted unicast ds s c = ground arith
draw-Counted payload ds s c = ground arith

-- After any history of draws each counter's next id is 1 + n mod 65535, where n ids were drawn from
-- it: ids run from 1 to 65535 and start again at 1, never 0, whatever is drawn from the others. The
-- two wrap flags are set exactly once 65535 ids were drawn.
pub after-Counted : (ds : List Draw) → Counted ds (after ds)
unfolding after
after-Counted [] = record {
  multicast_id = refl;
  unicast_id = refl;
  payload_id = refl;
  multicast_wrapped = refl;
  unicast_wrapped = refl;
}
after-Counted (d ∷ ds) = draw-Counted d ds (after ds) (after-Counted ds)

abbrev pub drawn_for : Bool → List Draw → ℕ
drawn_for true ds = drawn unicast ds
drawn_for false ds = drawn multicast ds

-- The flags of a message hold the unicast bit exactly for a unicast message, and the reboot bit
-- exactly while fewer than 65535 ids of its own channel were drawn.
sd_flags-after :
    (u : Bool) (ds : List Draw)
    → ((bit_and (sd_flags (after ds) u) flag_unicast == 0) ≡ not u)
      × ((bit_and (sd_flags (after ds) u) flag_reboot == 0) ≡ leb 65535 (drawn_for u ds))
unfolding sd_flags
sd_flags-after true ds = ground (arith, (after-Counted ds).unicast_wrapped)
sd_flags-after false ds = ground (arith, (after-Counted ds).multicast_wrapped)
