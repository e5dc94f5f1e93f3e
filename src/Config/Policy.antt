-- ===== src/Config/Policy.antt =====
-- What a transport policy selects, the methods that use exceptions, and the clamped TTL.
use recentip.Prelude.{
  ℕ, ◌<◌, ◌≡◌, refl, List, [], ◌∷◌, ◌++◌, Option, none, some, All, arith, ◌⊎◌, inl, inr, ap,
  Option-cases, Bool-cases, ◌||◌, ◌==◌,
}
use recentip.Wire.SdOption.{SocketAddrV4}
use recentip.Config.{
  Transport, tcp, udp, TransportPreference, TransportSelection, TransportPolicy, OfferedEndpoints,
  udp_only, tcp_only, both, remote_for, select, policy_from, clamp_ttl_to_24bit, MethodConfig,
  use_exception_for, uses_exception, contains,
}

-- The endpoint that a server offers for a transport.
abbrev pub udp_endpoint : OfferedEndpoints → Option SocketAddrV4
udp_endpoint (udp_only addr) = some addr
udp_endpoint (tcp_only addr) = none
udp_endpoint (both u t) = some u

abbrev pub tcp_endpoint : OfferedEndpoints → Option SocketAddrV4
tcp_endpoint (udp_only addr) = none
tcp_endpoint (tcp_only addr) = some addr
tcp_endpoint (both u t) = some t

abbrev pub offered : OfferedEndpoints → Transport → Option SocketAddrV4
offered e udp = udp_endpoint e
offered e tcp = tcp_endpoint e

remote_for-offered : (t : Transport) (e : OfferedEndpoints) → remote_for t e ≡ offered e t
unfolding remote_for
remote_for-offered t e = ground arith

-- What a selection has to be: that of the first preference whose transport is offered.
abbrev pub Selected : TransportPolicy → OfferedEndpoints → Option TransportSelection → Type 0
Selected prefs e none = All (λ p. offered e p.transport ≡ none) prefs
Selected prefs e (some s) =
    (before : TransportPolicy) × (pref : TransportPreference) × (behind : TransportPolicy) × (prefs
      ≡ before ++ pref ∷ behind)
    × All (λ p. offered e p.transport ≡ none) before
    × (offered e pref.transport ≡ some s.remote_endpoint)
    × (s.transport ≡ pref.transport)
    × (s.local_port ≡ pref.local_port)

Selected-cons :
    (p : TransportPreference) (prefs : TransportPolicy) (e : OfferedEndpoints)
    (r : Option TransportSelection)
    → offered e p.transport ≡ none
    → Selected prefs e r
    → Selected (p ∷ prefs) e r
Selected-cons p prefs e none h s = (h, s)
Selected-cons p prefs e (some x) h (before, pref, behind, q, a, r, k, l) =
    (p ∷ before, pref, behind, ap (◌∷◌ p) q, (h, a), r, k, l)

-- `select` takes the first preference in the policy whose transport the server offers, with that
-- preference's port, and selects nothing exactly if no preference's transport is offered.
pub select_first :
    (prefs : TransportPolicy) (e : OfferedEndpoints) → Selected prefs e (select prefs e)
unfolding select
select_first [] e = tt
select_first (p ∷ prefs) e = elim (Option-cases (remote_for p.transport e)) [
  | inl miss ↦
      rw (miss, select)
        (Selected-cons p prefs e (select prefs e) (rw (remote_for-offered p.transport e) at miss)
          (select_first prefs e))
  | inr (addr, hit) ↦
      rw (hit, select)
        ([], p, prefs, refl, tt, rw (remote_for-offered p.transport e) at hit, refl, refl)
]

-- The default policies of a transport always select, and take that transport wherever it is offered.
select-policy_from :
    (t : Transport) (e : OfferedEndpoints)
    → (s : TransportSelection) × (select (policy_from t) e ≡ some s)
      × ((s.transport ≡ t) ⊎ (offered e t ≡ none))
unfolding select
select-policy_from udp (udp_only addr) = (_, refl, inl refl)
select-policy_from udp (tcp_only addr) = (_, refl, inr refl)
select-policy_from udp (both u t) = (_, refl, inl refl)
select-policy_from tcp (udp_only addr) = (_, refl, inr refl)
select-policy_from tcp (tcp_only addr) = (_, refl, inl refl)
select-policy_from tcp (both u t) = (_, refl, inl refl)

contains_at : (ms : List ℕ) (m n : ℕ) → m ≡ n → contains ms m ≡ contains ms n
contains_at ms m n e = rw e

-- After a method was configured to use exceptions, exactly that method and those configured before
-- use them.
uses_exception-use_exception_for :
    (c : MethodConfig) (m n : ℕ)
    → uses_exception (use_exception_for c m) n ≡ (m == n || uses_exception c n)
unfolding uses_exception use_exception_for
uses_exception-use_exception_for c m n = elim (Bool-cases (contains c.exception_methods m)) [
  | inl old ↦ ground (arith, contains_at c.exception_methods m n)
  | inr fresh ↦ ground arith
]

-- The clamped TTL fits the 24-bit field, and is 0 exactly for TTL 0.
clamp_ttl_bounds :
    (ttl : ℕ) → (clamp_ttl_to_24bit ttl < 16777216) × ((clamp_ttl_to_24bit ttl == 0) ≡ (ttl == 0))
unfolding clamp_ttl_to_24bit
clamp_ttl_bounds ttl = ground arith
