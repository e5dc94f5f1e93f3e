-- ===== src/Client/ConnKeys.antt =====
-- Connection keys: the smallest free one is taken, and it is never taken twice.
use recentip.Prelude.{
  ℕ, zero, suc, ◌+◌, ◌≤◌, ◌<◌, ◌≡◌, ◌≢◌, refl, ◌==◌, ◌||◌, ◌&&◌, Bool, true, false, not, leb,
  if◌then◌else◌, List, [], ◌∷◌, length, arith, inl, inr, Bool-cases,
}
use recentip.Config.{contains}
use recentip.Sd.{ServiceKey}
use recentip.Client.{
  ConnKeyState, key_eq, remove, next_free, allocate_tcp_conn_key, release_pending_tcp_conn_key,
}

-- The keys from `slot` on that are in use.
abbrev count_from : ℕ → List ℕ → ℕ
count_from slot [] = 0
count_from slot (x ∷ xs) = if leb slot x then suc (count_from slot xs) else count_from slot xs

count_from-le-length : (slot : ℕ) (xs : List ℕ) → count_from slot xs ≤ length xs
count_from-le-length slot [] = omega arith
count_from-le-length slot (x ∷ xs) = ground (arith, count_from-le-length slot xs)

count_from_mono : (slot : ℕ) (xs : List ℕ) → count_from (slot + 1) xs ≤ count_from slot xs
count_from_mono slot [] = omega arith
count_from_mono slot (x ∷ xs) = ground (arith, count_from_mono slot xs)

count_from_hit :
    (slot : ℕ) (xs : List ℕ)
    → contains xs slot ≡ true
    → count_from (slot + 1) xs < count_from slot xs
count_from_hit slot [] h = absurd (cc)
count_from_hit slot (x ∷ xs) h = ground (arith, count_from_mono slot xs, count_from_hit slot xs)

abbrev in_use : List ℕ → List ℕ → ℕ → Bool
in_use committed pending slot = contains committed slot || contains pending slot

count_from_busy :
    (slot : ℕ) (committed pending : List ℕ)
    → in_use committed pending slot ≡ true
    → count_from (slot + 1) committed + count_from (slot + 1) pending
      < count_from slot committed + count_from slot pending
count_from_busy slot committed pending h = ground (
  arith,
  count_from_mono slot committed,
  count_from_mono slot pending,
  count_from_hit slot committed,
  count_from_hit slot pending,
)

-- The slots from `slot` on are in use, `n` of them.
abbrev pub AllInUse : (committed pending : List ℕ) → (slot n : ℕ) → Type 0
AllInUse committed pending slot zero = Unit {0}
AllInUse committed pending slot (suc n) =
    (in_use committed pending slot ≡ true) × AllInUse committed pending (slot + 1) n

-- The first free slot from `slot` on.
abbrev pub FirstFree : (committed pending : List ℕ) → (slot found : ℕ) → Type 0
FirstFree committed pending slot found =
    (n : ℕ) × (found ≡ slot + n)
    × AllInUse committed pending slot n
    × (in_use committed pending found ≡ false)

FirstFree-here :
    (committed pending : List ℕ) (slot : ℕ)
    → in_use committed pending slot ≡ false
    → FirstFree committed pending slot slot
FirstFree-here committed pending slot free = (0, omega arith, tt, free)

FirstFree-later :
    (committed pending : List ℕ) (slot found : ℕ)
    → in_use committed pending slot ≡ true
    → FirstFree committed pending (slot + 1) found
    → FirstFree committed pending slot found
FirstFree-later committed pending slot found busy (n, e, used, free) =
    (suc n, omega arith, (busy, used), free)

-- With a round for each key in use from the start on, the loop ends at the first free slot.
next_free-FirstFree :
    (fuel slot : ℕ) (committed pending : List ℕ)
    → count_from slot committed + count_from slot pending ≤ fuel
    → FirstFree committed pending slot (next_free fuel slot committed pending)
unfolding next_free
next_free-FirstFree zero slot committed pending h =
    elim (Bool-cases (in_use committed pending slot)) [
      | inl busy ↦ absurd (omega (arith, count_from_busy slot committed pending busy))
      | inr free ↦ FirstFree-here committed pending slot free
    ]
next_free-FirstFree (suc fuel) slot committed pending h =
    elim (Bool-cases (in_use committed pending slot)) [
      | inl busy ↦ rw busy (
          FirstFree-later committed pending slot _ busy (
            next_free-FirstFree fuel (slot + 1) committed pending
              (omega (arith, count_from_busy slot committed pending busy))))
      | inr free ↦ rw free (FirstFree-here committed pending slot free)
    ]

-- The allocated key is the first from 1 on that is neither committed nor pending for the service;
-- afterwards it is pending too, and nothing else has changed, for this service or another.
pub allocate_tcp_conn_key_least :
    (s : ConnKeyState) (key : ServiceKey)
    → let (slot, s') = allocate_tcp_conn_key s key in
      FirstFree (s.committed key) (s.pending key) 1 slot
      × ((other : ServiceKey)
          → s'.pending other ≡ (if key_eq key other then slot ∷ s.pending key else s.pending other))
      × (s'.committed ≡ s.committed)
unfolding allocate_tcp_conn_key
allocate_tcp_conn_key_least s key = (
  next_free-FirstFree _ 1 (s.committed key) (s.pending key) (
      omega
        (arith, count_from-le-length 1 (s.committed key), count_from-le-length 1 (s.pending key))),
  (λ other. refl),
  refl,
)

pub key_eq→eq : (a b : ServiceKey) → key_eq a b ≡ true → a ≡ b
key_eq→eq a b h = ground arith

pending_kept :
    (s : ConnKeyState) (key other : ServiceKey) (k : ℕ)
    → contains (s.pending key) k ≡ true
    → contains ((allocate_tcp_conn_key s other).1.pending key) k ≡ true
unfolding allocate_tcp_conn_key
pending_kept s key other k held = elim (Bool-cases (key_eq other key)) [
  | inl hit ↦ rw (hit, key_eq→eq other key hit, held) (ground arith)
  | inr miss ↦ rw miss held
]

-- A key that is in flight for a service is not allocated again, and stays in flight whatever is
-- allocated for that service or for another.
pub allocate_tcp_conn_key-ne-pending :
    (s : ConnKeyState) (key : ServiceKey) (k : ℕ)
    → contains (s.pending key) k ≡ true
    → ((allocate_tcp_conn_key s key).0 ≢ k)
      × ((other : ServiceKey) → contains ((allocate_tcp_conn_key s other).1.pending key) k ≡ true)
allocate_tcp_conn_key-ne-pending s key k held =
    let (_, _, _, free) = (allocate_tcp_conn_key_least s key).0 in
    (ground arith, (λ other. pending_kept s key other k held))

contains-remove :
    (x y : ℕ) (xs : List ℕ) → contains (remove x xs) y ≡ (not (x == y) && contains xs y)
contains-remove x y [] = ground arith
contains-remove x y (z ∷ zs) = ground (arith, contains-remove x y zs)

-- Releasing a key takes exactly that key out of the service's pending keys.
pub pending-release :
    (s : ConnKeyState) (key : ServiceKey) (k j : ℕ)
    → contains ((release_pending_tcp_conn_key s key k).pending key) j
      ≡ (not (k == j) && contains (s.pending key) j)
unfolding release_pending_tcp_conn_key
pending-release s key k j = ground (arith, contains-remove k j (s.pending key))
