-- ===== src/Subscribers/Held.antt =====
-- src/runtime/sd.rs: what a server remembers of its subscribers.
use recentip.Prelude.{
  ℕ, ◌≡◌, inl, inr, refl, not, if◌then◌else◌, List, [], ◌∷◌, Option, none, some, arith, Bool-cases,
}
use recentip.Prelude.Maps.{Map, get, any_of, filter, or_default, is_some}
use recentip.Config.{Transport}
use recentip.Wire.SdOption.{SocketAddrV4}
use recentip.State.Keys.{
  SubscriberKey, ServiceKey-Eq, SubscriberKey-Eq, addr_beq, addr_eq_of_beq, addr_beq_refl,
}
use recentip.State.{RuntimeState, ServerSubscription}
use recentip.Subscribers.{renew}

-- What a server remembers of a client's endpoint.
abbrev pub lookup : List ServerSubscription → SocketAddrV4 → Option (Transport × Option ℕ)
lookup [] q = none
lookup (s ∷ subs) q =
    if addr_beq s.endpoint q then some (s.transport, s.expires_at) else lookup subs q

abbrev pub held :
    Map SubscriberKey (List ServerSubscription)
    → SubscriberKey
    → SocketAddrV4
    → Option (Transport × Option ℕ)
held subscribers key q = lookup (or_default [] (get subscribers key)) q

abbrev pub subscription :
    RuntimeState → SubscriberKey → SocketAddrV4 → Option (Transport × Option ℕ)
subscription state key q = held state.server_subscribers key q

pub lookup-renew :
    (ep q : SocketAddrV4) (t : Transport) (x : Option ℕ) (subs : List ServerSubscription)
    → lookup (renew ep t x subs) q ≡ (if addr_beq ep q then some (t, x) else lookup subs q)
unfolding renew
lookup-renew ep q t x [] = refl
lookup-renew ep q t x (s ∷ subs) = elim (Bool-cases (addr_beq s.endpoint ep)) [
  | inl hit ↦ rw (hit, addr_eq_of_beq s.endpoint ep hit) (ground arith)
  | inr miss ↦ rw miss (
      ground (
        arith,
        lookup-renew ep q t x subs,
        addr_eq_of_beq s.endpoint q,
        addr_eq_of_beq ep q,
        addr_beq_refl q,
      ))
]

pub lookup-filter :
    (ep q : SocketAddrV4) (subs : List ServerSubscription)
    → lookup (filter (λ s. not (addr_beq s.endpoint ep)) subs) q
      ≡ (if addr_beq ep q then none else lookup subs q)
lookup-filter ep q [] = ground arith
lookup-filter ep q (s ∷ subs) = elim (Bool-cases (addr_beq s.endpoint ep)) [
  | inl hit ↦ rw (hit, addr_eq_of_beq s.endpoint ep hit) (ground (arith, lookup-filter ep q subs))
  | inr miss ↦ rw miss (
      ground (
        arith,
        lookup-filter ep q subs,
        addr_eq_of_beq s.endpoint q,
        addr_eq_of_beq ep q,
        addr_beq_refl q,
      ))
]

pub any-is_some-lookup :
    (ep : SocketAddrV4) (subs : List ServerSubscription)
    → any_of (λ (s : ServerSubscription). addr_beq s.endpoint ep) subs ≡ is_some (lookup subs ep)
any-is_some-lookup ep [] = refl
any-is_some-lookup ep (s ∷ subs) = ground (arith, any-is_some-lookup ep subs)
