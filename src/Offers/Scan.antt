-- ===== src/Offers/Scan.antt =====
-- src/runtime/server.rs: the auto-port scan goes once round all ports.
use recentip.Prelude.{
  ℕ, zero, suc, ◌+◌, ◌-◌, ◌%◌, ◌≤◌, ◌<◌, ◌==◌, ◌≡◌, ◌≢◌, refl, subst, ◌∙◌, false, arith,
}
use recentip.Prelude.Maps.{nat_beq_refl}
use recentip.Offers.Ports.{
  Bind, bound, addr_in_use, failed, nameless, exhausted, selected_of, next_port, scan, scan_fuel,
}

-- The port that is `steps` ports after another in the circle of the ports from 1 to 65535.
unfoldable pub port_after : (start steps : ℕ) → ℕ
port_after start steps = (start - 1 + steps) % 65535 + 1

-- The counter when the scan ends: past a port that was bound, at a port where another error came.
unfoldable pub counter_after : Bind → (port : ℕ) → ℕ
counter_after (bound endpoint channel) port = next_port port
counter_after addr_in_use port = port
counter_after failed port = port
counter_after nameless port = port

next_port-port_after :
    (start steps : ℕ) → next_port (port_after start steps) ≡ port_after start (steps + 1)
unfolding port_after
next_port-port_after start steps = ground arith

port_after-zero : (start : ℕ) → 1 ≤ start → start ≤ 65535 → port_after start 0 ≡ start
unfolding port_after
port_after-zero start lo hi = omega arith

round_closes :
    (start steps : ℕ)
    → 1 ≤ start
    → start ≤ 65535
    → 0 < steps
    → steps < 65535
    → (port_after start steps == start) ≡ false
unfolding port_after
round_closes start steps lo hi pos few = ground arith

round_ends : (start : ℕ) → 1 ≤ start → start ≤ 65535 → port_after start 65535 ≡ start
unfolding port_after
round_ends start lo hi = omega arith

scan-busy :
    (fuel : ℕ) (bind : ℕ → Bind) (start candidate : ℕ)
    → bind candidate ≡ addr_in_use
    → (next_port candidate == start) ≡ false
    → scan (suc fuel) bind start candidate ≡ scan fuel bind start (next_port candidate)
unfolding scan
scan-busy fuel bind start candidate busy more = rw (scan, busy, more) refl

scan-closes :
    (fuel : ℕ) (bind : ℕ → Bind) (start candidate : ℕ)
    → bind candidate ≡ addr_in_use
    → next_port candidate ≡ start
    → scan (suc fuel) bind start candidate ≡ (exhausted, start)
unfolding scan
scan-closes fuel bind start candidate busy end = rw (scan, busy, end, nat_beq_refl start) refl

scan-settles :
    (fuel : ℕ) (bind : ℕ → Bind) (start candidate : ℕ) (b : Bind)
    → bind candidate ≡ b
    → b ≢ addr_in_use
    → scan (suc fuel) bind start candidate ≡ (selected_of b, counter_after b candidate)
unfolding scan counter_after
scan-settles fuel bind start candidate (bound endpoint channel) e free = rw (scan, e) refl
scan-settles fuel bind start candidate addr_in_use e free = absurd (free refl)
scan-settles fuel bind start candidate failed e free = rw (scan, e) refl
scan-settles fuel bind start candidate nameless e free = rw (scan, e) refl

scan-from :
    (todo fuel tried n start : ℕ) (bind : ℕ → Bind) (b : Bind)
    → 1 ≤ start
    → start ≤ 65535
    → tried + todo ≡ n
    → n < 65535
    → todo < fuel
    → ((k : ℕ) → k < n → bind (port_after start k) ≡ addr_in_use)
    → bind (port_after start n) ≡ b
    → b ≢ addr_in_use
    → scan fuel bind start (port_after start tried)
      ≡ (selected_of b, counter_after b (port_after start n))
scan-from todo zero tried n start bind b lo hi sum few enough busy e free = absurd (omega arith)
scan-from zero (suc fuel) tried n start bind b lo hi sum few enough busy e free =
    let last : tried ≡ n = omega arith in
    rw last (scan-settles fuel bind start (port_after start n) b e free)
scan-from (suc todo) (suc fuel) tried n start bind b lo hi sum few enough busy e free =
    let step = next_port-port_after start tried in
    let more : (next_port (port_after start tried) == start) ≡ false =
      rw step (round_closes start (tried + 1) lo hi (omega arith) (omega arith)) in
    let here = busy tried (omega arith) in
    rw (scan-busy fuel bind start (port_after start tried) here more, step)
      (scan-from todo fuel (tried + 1) n start bind b lo hi (omega arith) few (omega arith) busy e
        free)

-- The scan tries the ports in a circle from the counter, and ends at the first that is not in use: if
-- that is the n-th after the counter, with n < 65535, the result is what binding it comes to, and the
-- counter stands past it if it was bound, at it if it failed.
pub scan-first :
    (n start : ℕ) (bind : ℕ → Bind) (b : Bind)
    → 1 ≤ start
    → start ≤ 65535
    → n < 65535
    → ((k : ℕ) → k < n → bind (port_after start k) ≡ addr_in_use)
    → bind (port_after start n) ≡ b
    → b ≢ addr_in_use
    → scan scan_fuel bind start start ≡ (selected_of b, counter_after b (port_after start n))
unfolding port_after
scan-first n start bind b lo hi few busy e free =
    subst (λ c. scan scan_fuel bind start c ≡ (selected_of b, counter_after b (port_after start n)))
      (port_after-zero start lo hi)
      (scan-from n scan_fuel 0 n start bind b lo hi (omega arith) few few busy e free)

scan-full :
    (todo fuel tried start : ℕ) (bind : ℕ → Bind)
    → 1 ≤ start
    → start ≤ 65535
    → tried + todo ≡ 65534
    → todo < fuel
    → ((k : ℕ) → k < 65535 → bind (port_after start k) ≡ addr_in_use)
    → scan fuel bind start (port_after start tried) ≡ (exhausted, start)
scan-full todo zero tried start bind lo hi all enough busy = absurd (omega arith)
scan-full zero (suc fuel) tried start bind lo hi all enough busy =
    let last : tried + 1 ≡ 65535 = omega arith in
    scan-closes fuel bind start (port_after start tried) (busy tried (omega arith))
      (next_port-port_after start tried ∙ (rw last (round_ends start lo hi)))
scan-full (suc todo) (suc fuel) tried start bind lo hi all enough busy =
    let step = next_port-port_after start tried in
    let more : (next_port (port_after start tried) == start) ≡ false =
      rw step (round_closes start (tried + 1) lo hi (omega arith) (omega arith)) in
    rw (scan-busy fuel bind start (port_after start tried) (busy tried (omega arith)) more, step)
      (scan-full todo fuel (tried + 1) start bind lo hi (omega arith) (omega arith) busy)

-- If every port is in use, the scan ends without a port, and the counter is back where it started.
scan-exhausted :
    (start : ℕ) (bind : ℕ → Bind)
    → 1 ≤ start
    → start ≤ 65535
    → ((k : ℕ) → k < 65535 → bind (port_after start k) ≡ addr_in_use)
    → scan scan_fuel bind start start ≡ (exhausted, start)
scan-exhausted start bind lo hi busy =
    subst (λ c. scan scan_fuel bind start c ≡ (exhausted, start)) (port_after-zero start lo hi)
      (scan-full 65534 scan_fuel 0 start bind lo hi refl (omega arith) busy)
