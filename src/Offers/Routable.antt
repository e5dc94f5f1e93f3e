-- ===== src/Offers/Routable.antt =====
-- src/runtime/server.rs and src/runtime/event_loop.rs: which offered service a request reaches that comes
-- in on the socket of an offer.
use recentip.Prelude.{
  ℕ, ◌+◌, ◌≤◌, ◌≡◌, refl, ap, inl, inr, Bool-cases, true, if◌then◌else◌, [], ◌∷◌, none, some, arith,
}
use recentip.Prelude.Maps.{Map, get, insert, find, or_default}
use recentip.Config.{udp}
use recentip.Sd.{ServiceKey, OfferedService}
use recentip.State.Keys.{ServiceKey-Eq, service_key_beq, service_key_eq_of_beq}
use recentip.Requests.{is_addressed}

abbrev pub Offered : Type 0
Offered = Map ServiceKey OfferedService

-- The number of services that a request for a service id on a UDP port may mean.
unfoldable pub meant : (service_id port : ℕ) → Offered → ℕ
meant service_id port [] = 0
meant service_id port (entry ∷ offered) =
    (if is_addressed service_id udp port entry then 1 else 0) + meant service_id port offered

-- A request on a UDP port means one service at most.
abbrev pub IsRoutable : Offered → Type 0
IsRoutable offered = (service_id port : ℕ) → meant service_id port offered ≤ 1

pub meant-insert :
    (s p : ℕ) (offered : Offered) (key : ServiceKey) (svc : OfferedService)
    → meant s p (insert offered key svc)
      ≤ meant s p offered + (if is_addressed s udp p (key, svc) then 1 else 0)
unfolding meant
meant-insert s p [] key svc = omega arith
meant-insert s p ((k, v) ∷ offered) key svc = elim (Bool-cases (service_key_beq k key)) [
  | inl hit ↦ rw hit (omega arith)
  | inr miss ↦ rw miss (omega (arith, meant-insert s p offered key svc))
]

pub meant-insert_new :
    (s p : ℕ) (offered : Offered) (key : ServiceKey) (svc : OfferedService)
    → get offered key ≡ none
    → meant s p (insert offered key svc)
      ≡ meant s p offered + (if is_addressed s udp p (key, svc) then 1 else 0)
unfolding meant
meant-insert_new s p [] key svc new = omega arith
meant-insert_new s p ((k, v) ∷ offered) key svc new = elim (Bool-cases (service_key_beq k key)) [
  | inl hit ↦ absurd (ground (arith, rw hit at new))
  | inr miss ↦ rw (miss, meant-insert_new s p offered key svc (rw miss at new)) (omega arith)
]

pub meant-get :
    (s p : ℕ) (offered : Offered) (key : ServiceKey) (svc : OfferedService)
    → get offered key ≡ some svc
    → is_addressed s udp p (key, svc) ≡ true
    → 1 ≤ meant s p offered
unfolding meant
meant-get s p [] key svc there at = cc
meant-get s p ((k, v) ∷ offered) key svc there at = elim (Bool-cases (service_key_beq k key)) [
  | inl hit ↦
      let same = service_key_eq_of_beq k key hit in
      let same_svc = ap (or_default svc) (rw hit at there) in rw (same, same_svc, at) (omega arith)
  | inr miss ↦ omega (arith, meant-get s p offered key svc (rw miss at there) at)
]

-- A request that may mean one service only reaches that service.
pub find-meant :
    (s p : ℕ) (offered : Offered) (key : ServiceKey) (svc : OfferedService)
    → meant s p offered ≤ 1
    → get offered key ≡ some svc
    → is_addressed s udp p (key, svc) ≡ true
    → find (is_addressed s udp p) offered ≡ some (key, svc)
unfolding meant
find-meant s p [] key svc one there at = cc
find-meant s p ((k, v) ∷ offered) key svc one there at = elim (Bool-cases (service_key_beq k key)) [
  | inl hit ↦
      let same = service_key_eq_of_beq k key hit in
      let same_svc = ap (or_default svc) (rw hit at there) in rw (same, same_svc, at) refl
  | inr miss ↦
      let rest : get offered key ≡ some svc = rw miss at there in
      elim (Bool-cases (is_addressed s udp p (k, v))) [
        | inl both ↦ absurd (omega (arith, meant-get s p offered key svc rest at, rw both at one))
        | inr other ↦ rw other (find-meant s p offered key svc (omega arith) rest at)
      ]
]
