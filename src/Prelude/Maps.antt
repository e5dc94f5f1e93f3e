-- ===== src/Prelude/Maps.antt =====
-- Equality as an interface, and maps as association lists.
use Prim.Native.Nat.{ℕ}
use mathlib.Core.Path.{◌≡◌, refl}
use mathlib.Core.Logic.{inl, inr}
use mathlib.Core.Bool.{Bool, true, false, ◌&&◌, ◌||◌}
use mathlib.Core.Option.{Option, none, some}
use mathlib.Core.List.{List, [], ◌∷◌}
use native.Mathlib.Omega.{arith}
use recentip.Prelude.Tests.{if◌then◌else◌, ◌==◌ as nat_eq, Bool-cases}

-- The derived `PartialEq` and `Eq`.
pub record Eq {ℓ} (A : Type ℓ) : Type ℓ where
  pub beq : A → A → Bool
  pub eq_of_beq : (a b : A) → beq a b ≡ true → a ≡ b
  pub beq_refl : (a : A) → beq a a ≡ true

infix 50 ◌=?◌
abbrev pub ◌=?◌ {ℓ} : {A : Type ℓ} ⦃e : Eq A⦄ → A → A → Bool
◌=?◌ ⦃e⦄ = e.beq

pub nat_eq_of_beq : (a b : ℕ) → nat_eq a b ≡ true → a ≡ b
nat_eq_of_beq a b h = ground arith

pub nat_beq_refl : (a : ℕ) → nat_eq a a ≡ true
nat_beq_refl a = ground arith

instance abbrev pub ℕ-Eq : Eq ℕ
ℕ-Eq = record { beq = nat_eq; eq_of_beq = nat_eq_of_beq; beq_refl = nat_beq_refl }

abbrev pub filter {ℓ} : {A : Type ℓ} → (A → Bool) → List A → List A
filter p [] = []
filter p (x ∷ xs) = let rest = filter p xs in if p x then x ∷ rest else rest

abbrev pub any_of {ℓ} : {A : Type ℓ} → (A → Bool) → List A → Bool
any_of p [] = false
any_of p (x ∷ xs) = p x || any_of p xs

abbrev pub all_of {ℓ} : {A : Type ℓ} → (A → Bool) → List A → Bool
all_of p [] = true
all_of p (x ∷ xs) = p x && all_of p xs

abbrev pub find {ℓ} : {A : Type ℓ} → (A → Bool) → List A → Option A
find p [] = none
find p (x ∷ xs) = if p x then some x else find p xs

abbrev pub Map {ℓ κ} : Type ℓ → Type κ → Type (ℓ ⊔ κ)
Map K V = List (K × V)

abbrev pub or_default {ℓ} : {A : Type ℓ} → A → Option A → A
or_default d none = d
or_default d (some x) = x

abbrev pub is_some {ℓ} : {A : Type ℓ} → Option A → Bool
is_some none = false
is_some (some x) = true

beq_left {ℓ} : {A : Type ℓ} ⦃e : Eq A⦄ (i j k : A) → e.beq i j ≡ true → e.beq i k ≡ e.beq j k
beq_left ⦃e⦄ i j k h = rw (e.eq_of_beq i j h)

module _ {ℓ κ} {K : Type ℓ} {V : Type κ} ⦃e : Eq K⦄ where
  abbrev pub get : Map K V → K → Option V
  get [] k = none
  get ((j, v) ∷ m) k = if e.beq j k then some v else get m k

  abbrev pub contains_key : Map K V → K → Bool
  contains_key m k = is_some (get m k)

  -- A key that is there keeps its place.
  abbrev pub insert : Map K V → K → V → Map K V
  insert [] k v = (k, v) ∷ []
  insert ((j, w) ∷ m) k v = if e.beq j k then (k, v) ∷ m else (j, w) ∷ insert m k v

  abbrev pub remove : Map K V → K → Map K V
  remove [] k = []
  remove ((j, w) ∷ m) k = let rest = remove m k in if e.beq j k then rest else (j, w) ∷ rest

  -- `if let Some(v) = m.get_mut(&k)`
  abbrev pub modify : Map K V → K → (V → V) → Map K V
  modify [] k f = []
  modify ((j, w) ∷ m) k f = if e.beq j k then (j, f w) ∷ m else (j, w) ∷ modify m k f

  pub get-insert :
      (m : Map K V) (k j : K) (v : V)
      → get (insert m k v) j ≡ (if e.beq k j then some v else get m j)
  get-insert [] k j v = refl
  get-insert ((i, w) ∷ m) k j v = elim (Bool-cases (e.beq i k)) [
    | inl hit ↦ rw (hit, beq_left i k j hit) (ground arith)
    | inr miss ↦
        rw miss (ground (arith, get-insert m k j v, e.eq_of_beq i j, e.eq_of_beq k j, e.beq_refl j))
  ]

  pub get-remove :
      (m : Map K V) (k j : K) → get (remove m k) j ≡ (if e.beq k j then none else get m j)
  get-remove [] k j = ground arith
  get-remove ((i, w) ∷ m) k j = elim (Bool-cases (e.beq i k)) [
    | inl hit ↦ rw (hit, beq_left i k j hit) (ground (arith, get-remove m k j))
    | inr miss ↦
        rw miss (ground (arith, get-remove m k j, e.eq_of_beq i j, e.eq_of_beq k j, e.beq_refl j))
  ]

  pub get-modify :
      (m : Map K V) (k j : K) (f : V → V)
      → get (modify m k f) j
        ≡ (if e.beq k j then elim (get m j) [ none ↦ none | some v ↦ some (f v) ] else get m j)
  get-modify [] k j f = ground arith
  get-modify ((i, w) ∷ m) k j f = elim (Bool-cases (e.beq i k)) [
    | inl hit ↦
        rw (hit, beq_left i k j hit)
          (ground (arith, get-modify m k j f, e.eq_of_beq i j, e.eq_of_beq k j, e.beq_refl j))
    | inr miss ↦
        rw miss (ground (arith, get-modify m k j f, e.eq_of_beq i j, e.eq_of_beq k j, e.beq_refl j))
  ]

  -- No key stands twice.
  abbrev pub Distinct : Map K V → Type κ
  Distinct [] = Unit {κ}
  Distinct ((k, v) ∷ m) = (get m k ≡ none) × Distinct m

  pub insert-Distinct : (m : Map K V) (k : K) (v : V) → Distinct m → Distinct (insert m k v)
  insert-Distinct [] k v d = (refl, tt)
  insert-Distinct ((j, w) ∷ m) k v d = elim (Bool-cases (e.beq j k)) [
    | inl hit ↦ rw hit (rw (e.eq_of_beq j k hit) at d)
    | inr miss ↦ rw miss (
      ground (arith, get-insert m k j v, e.eq_of_beq k j, e.beq_refl j),
      insert-Distinct m k v d.1,
    )
  ]

  pub remove-Distinct : (m : Map K V) (k : K) → Distinct m → Distinct (remove m k)
  remove-Distinct [] k d = tt
  remove-Distinct ((j, w) ∷ m) k d = elim (Bool-cases (e.beq j k)) [
    | inl hit ↦ rw hit (remove-Distinct m k d.1)
    | inr miss ↦ rw miss (ground (arith, get-remove m k j), remove-Distinct m k d.1)
  ]

abbrev pub has_key {ℓ} : {K : Type ℓ} ⦃e : Eq K⦄ → K → List K → Bool
has_key ⦃e⦄ k = any_of (λ j. e.beq j k)
