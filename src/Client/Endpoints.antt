-- ===== src/Client/Endpoints.antt =====
-- Subscription ports: who uses which, and which one a subscription may share.
use recentip.Prelude.{
  ℕ, ◌≡◌, ◌≢◌, ◌⊎◌, refl, ◌∙◌, ◌==◌, ◌||◌, ◌&&◌, true, false, not, List, [], ◌∷◌, Option, none,
  some, arith, inl, inr, Bool-cases, All,
}
use recentip.Client.{
  Usage, Service, service_eq, uses, lookup, port_used_by, insert_service, remove_service, put_back,
  register_subscription_endpoint, unregister_subscription_endpoint, find_other_port,
  find_reusable_subscription_endpoint,
}

service_eq→eq : (x y : Service) → service_eq x y ≡ true → x ≡ y
service_eq→eq (s, i) (t, j) h = ground arith

service_eq_comm : (x y : Service) → service_eq x y ≡ service_eq y x
service_eq_comm (s, i) (t, j) = ground arith

uses-insert_service :
    (x y : Service) (ys : List Service)
    → uses (insert_service x ys) y ≡ (service_eq x y || uses ys y)
uses-insert_service x y ys = elim (Bool-cases (uses ys x)) [
  | inl old ↦ elim (Bool-cases (service_eq x y)) [
    | inl e ↦ rw (old, e, ← service_eq→eq x y e) old
    | inr n ↦ rw (old, n)
  ]
  | inr fresh ↦ rw fresh
]

uses-remove_service :
    (x y : Service) (ys : List Service)
    → uses (remove_service x ys) y ≡ (not (service_eq x y) && uses ys y)
uses-remove_service x y [] = ground arith
uses-remove_service x y (z ∷ zs) = elim (Bool-cases (service_eq z x)) [
  | inl e ↦ rw (e, service_eq→eq z x e) (ground (arith, uses-remove_service x y zs))
  | inr n ↦ elim (Bool-cases (service_eq z y)) [
    | inl e ↦
        let f : service_eq x y ≡ false = service_eq_comm x y ∙ rw (service_eq→eq z y e) at n in
        rw (n, f, e)
    | inr m ↦ rw (n, m) (ground (arith, uses-remove_service x y zs))
  ]
]

-- The map's invariant: each port has one entry, and no entry is empty.
abbrev pub IsMap : Usage → Type 0
IsMap [] = Unit {0}
IsMap ((p, services) ∷ usage) = (services ≢ []) × (lookup p usage ≡ none) × IsMap usage

-- After a registration a service uses a port exactly if it is the registered pair or it did before.
pub port_used_by-register :
    (usage : Usage) (p q : ℕ) (x y : Service)
    → port_used_by (register_subscription_endpoint usage p x) q y
      ≡ ((p == q && service_eq x y) || port_used_by usage q y)
unfolding register_subscription_endpoint
port_used_by-register [] p q x y = ground arith
port_used_by-register ((r, services) ∷ usage) p q x y =
    ground (arith, port_used_by-register usage p q x y, uses-insert_service x y services)

lookup-register :
    (usage : Usage) (p q : ℕ) (x : Service)
    → q ≢ p
    → lookup q (register_subscription_endpoint usage p x) ≡ lookup q usage
unfolding register_subscription_endpoint
lookup-register [] p q x h = ground arith
lookup-register ((r, services) ∷ usage) p q x h = ground (arith, lookup-register usage p q x)

lookup-unregister :
    (usage : Usage) (p q : ℕ) (x : Service)
    → q ≢ p
    → lookup q (unregister_subscription_endpoint usage p x) ≡ lookup q usage
unfolding unregister_subscription_endpoint
lookup-unregister [] p q x h = refl
lookup-unregister ((r, services) ∷ usage) p q x h = ground (arith, lookup-unregister usage p q x)

insert_service-ne-nil : (x : Service) (ys : List Service) → insert_service x ys ≢ []
insert_service-ne-nil x [] = λ e. cc
insert_service-ne-nil x (y ∷ ys) = ground arith

put_back-IsMap :
    (r : ℕ) (services : List Service) (usage : Usage)
    → lookup r usage ≡ none
    → IsMap usage
    → IsMap (put_back r services usage)
put_back-IsMap r [] usage h v = v
put_back-IsMap r (y ∷ ys) usage h v = ((λ e. cc), h, v)

register-IsMap :
    (usage : Usage) (p : ℕ) (x : Service)
    → IsMap usage
    → IsMap (register_subscription_endpoint usage p x)
unfolding register_subscription_endpoint
register-IsMap [] p x v = ((λ e. cc), refl, tt)
register-IsMap ((r, services) ∷ usage) p x v = elim (Bool-cases (r == p)) [
  | inl hit ↦ rw hit (insert_service-ne-nil x services, v.1, v.2)
  | inr miss ↦
      rw miss (v.0, lookup-register usage p r x (ground arith) ∙ v.1, register-IsMap usage p x v.2)
]

unregister-IsMap :
    (usage : Usage) (p : ℕ) (x : Service)
    → IsMap usage
    → IsMap (unregister_subscription_endpoint usage p x)
unfolding unregister_subscription_endpoint
unregister-IsMap [] p x v = tt
unregister-IsMap ((r, services) ∷ usage) p x v = elim (Bool-cases (r == p)) [
  | inl hit ↦ rw hit (put_back-IsMap r (remove_service x services) usage v.1 v.2)
  | inr miss ↦
      rw miss
        (v.0, lookup-unregister usage p r x (ground arith) ∙ v.1, unregister-IsMap usage p x v.2)
]

-- Registering and unregistering a service keep the map in order, if it is: one entry for each port,
-- none of them empty.
pub usage-IsMap :
    (usage : Usage) (p : ℕ) (x : Service)
    → IsMap usage
    → IsMap (register_subscription_endpoint usage p x)
      × IsMap (unregister_subscription_endpoint usage p x)
usage-IsMap usage p x v = (register-IsMap usage p x v, unregister-IsMap usage p x v)

-- After an unregistration from a map in order a service uses a port exactly if it did before and it
-- is not the pair that was taken out.
port_used_by-unregister :
    (usage : Usage) (p q : ℕ) (x y : Service)
    → IsMap usage
    → port_used_by (unregister_subscription_endpoint usage p x) q y
      ≡ (not (p == q && service_eq x y) && port_used_by usage q y)
unfolding unregister_subscription_endpoint
port_used_by-unregister [] p q x y v = ground arith
port_used_by-unregister ((r, services) ∷ usage) p q x y v =
    ground (arith, port_used_by-unregister usage p q x y, uses-remove_service x y services)

-- What the search for another port may answer.
abbrev Other : Usage → (rpc_port : ℕ) → Service → Option ℕ → Type 0
Other usage rpc_port x none = All (λ e. (e.0 ≡ rpc_port) ⊎ (uses e.1 x ≡ true)) usage
Other usage rpc_port x (some p) =
    (port_used_by usage p x ≡ false) × (lookup p usage ≢ none) × (p ≢ rpc_port)

Other-cons :
    (r : ℕ) (services : List Service) (usage : Usage) (rpc_port : ℕ) (x : Service) (o : Option ℕ)
    → (r ≡ rpc_port) ⊎ (uses services x ≡ true)
    → lookup r usage ≡ none
    → Other usage rpc_port x o
    → Other ((r, services) ∷ usage) rpc_port x o
Other-cons r services usage rpc_port x none skip fresh other = (skip, other)
Other-cons r services usage rpc_port x (some p) skip fresh (unused, there, apart) = ground arith

find_other_port-Other :
    (usage : Usage) (rpc_port : ℕ) (x : Service)
    → IsMap usage
    → Other usage rpc_port x (find_other_port usage rpc_port x)
unfolding find_other_port
find_other_port-Other [] rpc_port x v = tt
find_other_port-Other ((r, services) ∷ usage) rpc_port x v = elim (Bool-cases (r == rpc_port)) [
  | inl e ↦ rw e (
      Other-cons r services usage rpc_port x _ (inl (ground arith)) v.1
        (find_other_port-Other usage rpc_port x v.2))
  | inr n ↦ elim (Bool-cases (uses services x)) [
    | inl used ↦
        rw (n, used)
          (Other-cons r services usage rpc_port x _ (inr used) v.1
            (find_other_port-Other usage rpc_port x v.2))
    | inr free ↦ rw (n, free) (ground arith)
  ]
]

-- What the search for a port to share may answer: a port that the service does not use, which is
-- the RPC port or one that has users; and nothing only if the service uses the RPC port and every
-- other port of the map.
abbrev pub Reusable : Usage → (rpc_port : ℕ) → Service → Option ℕ → Type 0
Reusable usage rpc_port x none =
    (port_used_by usage rpc_port x ≡ true) × All (λ e. (e.0 ≡ rpc_port) ⊎ (uses e.1 x ≡ true)) usage
Reusable usage rpc_port x (some p) =
    (port_used_by usage p x ≡ false) × ((p ≡ rpc_port) ⊎ (lookup p usage ≢ none))

Reusable-Other :
    (usage : Usage) (rpc_port : ℕ) (x : Service) (o : Option ℕ)
    → port_used_by usage rpc_port x ≡ true
    → Other usage rpc_port x o
    → Reusable usage rpc_port x o
Reusable-Other usage rpc_port x none used other = (used, other)
Reusable-Other usage rpc_port x (some p) used (unused, there, apart) = (unused, inr there)

-- In a map in order, the port that is found is one that the service does not use, and it is the RPC
-- port or a port of the map; none is found only if the service uses the RPC port and every other port of the map.
pub find_reusable_subscription_endpoint-Reusable :
    (usage : Usage) (rpc_port : ℕ) (x : Service)
    → IsMap usage
    → Reusable usage rpc_port x (find_reusable_subscription_endpoint usage rpc_port x)
unfolding find_reusable_subscription_endpoint
find_reusable_subscription_endpoint-Reusable usage rpc_port x v =
    elim (Bool-cases (port_used_by usage rpc_port x)) [
      | inl used ↦
          rw used
            (Reusable-Other usage rpc_port x _ used (find_other_port-Other usage rpc_port x v))
      | inr free ↦ rw free (free, inl refl)
    ]
