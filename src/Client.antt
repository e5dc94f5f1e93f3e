-- ===== src/Client.antt =====
-- src/runtime/state.rs: the client's ports and TCP connection keys.
-- A hash map is an association list or a function, and a hash set is a list.
pub mod ConnKeys
pub mod Endpoints
use recentip.Prelude.{
  ℕ, zero, suc, ◌+◌, ◌==◌, ◌&&◌, ◌||◌, Bool, true, false, not, if◌then◌else◌, List, [], ◌∷◌, ◌++◌,
  Option, none, some, length, map,
}
use recentip.Config.{PortSpec, any, fixed, contains}
use recentip.Sd.{ServiceKey}

-- The derived `PartialEq`.
abbrev pub key_eq : ServiceKey → ServiceKey → Bool
key_eq a b =
    a.service_id == b.service_id
    && (a.instance_id == b.instance_id && a.major_version == b.major_version)

-- `committed` gives the `tcp_conn_key`s of a service's entries in `subscriptions`, `pending` the
-- service's keys in `pending_tcp_conn_keys`. An absent entry is an empty one.
pub record ConnKeyState : Type 0 where
  pub committed : ServiceKey → List ℕ
  pub pending : ServiceKey → List ℕ

abbrev pub update : (ServiceKey → List ℕ) → ServiceKey → List ℕ → ServiceKey → List ℕ
update m key keys other = if key_eq key other then keys else m other

-- `while committed.contains(&slot) || pending.contains(&slot) { slot += 1 }`. The fuel bounds the
-- rounds.
unfoldable pub next_free : (fuel slot : ℕ) → (committed pending : List ℕ) → ℕ
next_free zero slot committed pending = slot
next_free (suc fuel) slot committed pending =
    let round = next_free fuel (slot + 1) committed pending in
    if contains committed slot || contains pending slot then round else slot

-- There are no more rounds than keys in use.
unfoldable pub allocate_tcp_conn_key : ConnKeyState → ServiceKey → ℕ × ConnKeyState
allocate_tcp_conn_key self service_key =
    let committed = self.committed service_key in
    let pending = self.pending service_key in
    let slot = next_free (length committed + length pending) 1 committed pending in
    (slot, record self { pending = update self.pending service_key (slot ∷ pending) })

abbrev pub remove : ℕ → List ℕ → List ℕ
remove x [] = []
remove x (y ∷ ys) = if y == x then remove x ys else y ∷ remove x ys

unfoldable pub release_pending_tcp_conn_key : ConnKeyState → ServiceKey → ℕ → ConnKeyState
release_pending_tcp_conn_key self service_key conn_key = record self {
  pending = update self.pending service_key (remove conn_key (self.pending service_key));
}

-- `subscription_endpoint_usage`: for each port the services that use it, each once.
abbrev pub Service : Type 0
Service = ℕ × ℕ

abbrev pub Usage : Type 0
Usage = List (ℕ × List Service)

abbrev pub service_eq : Service → Service → Bool
service_eq (s, i) (t, j) = s == t && i == j

abbrev pub uses : List Service → Service → Bool
uses [] x = false
uses (y ∷ ys) x = service_eq y x || uses ys x

abbrev pub insert_service : Service → List Service → List Service
insert_service x ys = if uses ys x then ys else x ∷ ys

abbrev pub remove_service : Service → List Service → List Service
remove_service x [] = []
remove_service x (y ∷ ys) = if service_eq y x then remove_service x ys else y ∷ remove_service x ys

abbrev pub lookup : ℕ → Usage → Option (List Service)
lookup port [] = none
lookup port ((p, services) ∷ usage) = if p == port then some services else lookup port usage

unfoldable pub register_subscription_endpoint : Usage → (port : ℕ) → Service → Usage
register_subscription_endpoint [] port x = (port, x ∷ []) ∷ []
register_subscription_endpoint ((p, services) ∷ usage) port x =
    if p == port
    then (p, insert_service x services) ∷ usage
    else (p, services) ∷ register_subscription_endpoint usage port x

-- An entry that becomes empty is taken out.
abbrev pub put_back : ℕ → List Service → Usage → Usage
put_back p [] usage = usage
put_back p (y ∷ ys) usage = (p, y ∷ ys) ∷ usage

unfoldable pub unregister_subscription_endpoint : Usage → (port : ℕ) → Service → Usage
unregister_subscription_endpoint [] port x = []
unregister_subscription_endpoint ((p, services) ∷ usage) port x =
    if p == port
    then put_back p (remove_service x services) usage
    else (p, services) ∷ unregister_subscription_endpoint usage port x

abbrev pub port_used_by : Usage → ℕ → Service → Bool
port_used_by usage port x = elim (lookup port usage) [
  | none ↦ false
  | some services ↦ uses services x
]

-- The loop over the other ports, in the map's order.
unfoldable pub find_other_port : Usage → (rpc_port : ℕ) → Service → Option ℕ
find_other_port [] rpc_port x = none
find_other_port ((port, services) ∷ usage) rpc_port x =
    let others = find_other_port usage rpc_port x in
    if port == rpc_port then others else if not (uses services x) then some port else others

unfoldable pub find_reusable_subscription_endpoint : Usage → (rpc_port : ℕ) → Service → Option ℕ
find_reusable_subscription_endpoint usage rpc_port x =
    if not (port_used_by usage rpc_port x) then some rpc_port else find_other_port usage rpc_port x

unfoldable pub find_existing_port_for_spec : Usage → PortSpec → Option ℕ
find_existing_port_for_spec usage any = none
find_existing_port_for_spec usage (fixed p) = elim (lookup p usage) [
  | some services ↦ some p
  | none ↦ none
]
