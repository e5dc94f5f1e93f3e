-- ===== src/Prelude/Lists.antt =====
-- Lists measured and indexed by native numbers, under the library's names.
use Prim.Native.Nat.{ℕ, zero, suc, ◌+◌, ◌-◌, ◌≤◌}
use mathlib.Core.Path.{◌≡◌, refl, ap}
use mathlib.Core.Bool.{false}
use recentip.Prelude.Tests.{ltb, le→ltb}
use mathlib.Core.List.{List, [], ◌∷◌, ◌++◌}
use mathlib.Core.Option.{Option, none, some}
use native.Mathlib.Omega.{arith}

module _ {ℓ} {A : Type ℓ} where
  abbrev pub length : List A → ℕ
  length [] = 0
  length (x ∷ xs) = suc (length xs)

  abbrev pub get_elem? : List A → ℕ → Option A
  get_elem? [] i = none
  get_elem? (x ∷ xs) zero = some x
  get_elem? (x ∷ xs) (suc i) = get_elem? xs i

  abbrev pub take : ℕ → List A → List A
  take zero xs = []
  take (suc n) [] = []
  take (suc n) (x ∷ xs) = x ∷ take n xs

  abbrev pub drop : ℕ → List A → List A
  drop zero xs = xs
  drop (suc n) [] = []
  drop (suc n) (x ∷ xs) = drop n xs

  abbrev pub All {κ} : (A → Type κ) → List A → Type κ
  All P [] = Unit {κ}
  All P (x ∷ xs) = P x × All P xs

  pub length-append : (xs ys : List A) → length (xs ++ ys) ≡ length xs + length ys
  length-append [] ys = omega arith
  length-append (x ∷ xs) ys = omega (arith, length-append xs ys)

  pub take-append : (xs ys : List A) → take (length xs) (xs ++ ys) ≡ xs
  take-append [] ys = refl
  take-append (x ∷ xs) ys = ap (◌∷◌ x) (take-append xs ys)

  pub drop-append : (xs ys : List A) → drop (length xs) (xs ++ ys) ≡ ys
  drop-append [] ys = refl
  drop-append (x ∷ xs) ys = drop-append xs ys

  pub take-append-drop : (n : ℕ) (xs : List A) → take n xs ++ drop n xs ≡ xs
  take-append-drop zero xs = refl
  take-append-drop (suc n) [] = refl
  take-append-drop (suc n) (x ∷ xs) = ap (◌∷◌ x) (take-append-drop n xs)

  pub length-drop : (n : ℕ) (xs : List A) → length (drop n xs) ≡ length xs - n
  length-drop zero xs = omega arith
  length-drop (suc n) [] = omega arith
  length-drop (suc n) (x ∷ xs) = omega (arith, length-drop n xs)

  pub length-take_le : (n : ℕ) (xs : List A) → n ≤ length xs → length (take n xs) ≡ n
  length-take_le zero xs h = refl
  length-take_le (suc n) [] h = absurd (omega arith)
  length-take_le (suc n) (x ∷ xs) h = ap suc (length-take_le n xs (omega arith))

  pub ltb-length_append : (xs ys : List A) → ltb (length (xs ++ ys)) (length xs) ≡ false
  ltb-length_append xs ys = le→ltb _ _ (omega (arith, length-append xs ys))

  pub take-append_le : (n : ℕ) (b c : List A) → n ≤ length b → take n (b ++ c) ≡ take n b
  take-append_le zero b c h = refl
  take-append_le (suc n) [] c h = absurd (omega arith)
  take-append_le (suc n) (x ∷ b) c h = ap (◌∷◌ x) (take-append_le n b c (omega arith))

  pub drop-append_le : (n : ℕ) (b c : List A) → n ≤ length b → drop n (b ++ c) ≡ drop n b ++ c
  drop-append_le zero b c h = refl
  drop-append_le (suc n) [] c h = absurd (omega arith)
  drop-append_le (suc n) (x ∷ b) c h = drop-append_le n b c (omega arith)

  -- Past a first list the positions are counted from its end.
  pub drop-append_add : (b c : List A) (n : ℕ) → drop (length b + n) (b ++ c) ≡ drop n c
  drop-append_add [] c n = ap (λ k. drop k c) (let e : 0 + n ≡ n = omega arith in e)
  drop-append_add (x ∷ b) c n =
      let e : suc (length b) + n ≡ suc (length b + n) = omega arith in rw e (drop-append_add b c n)
