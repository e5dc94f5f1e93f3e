-- ===== src/Prelude/Bits.antt =====
-- Masks on bytes as arithmetic. Each law is a table over the bytes, checked by evaluation.
use Prim.Native.Nat.{
  ℕ, zero, suc, ◌+◌, ◌*◌, ◌/◌, ◌%◌, ◌≤◌, ◌<◌, min, bit_and, bit_or, digits, bit_and-bitwise,
}
use mathlib.Core.Path.{◌≡◌, refl, sym, ◌∙◌}
use mathlib.Core.Bool.{Bool, true, false}
use mathlib.Core.Logic.{ite}
use native.Mathlib.Decide.{ℕ_discrete}
use native.Mathlib.Omega.{arith}

module _ (f g : ℕ → ℕ) where
  agree_below : ℕ → Bool
  unfolding ℕ_discrete
  agree_below zero = true
  agree_below (suc n) = ite (ℕ_discrete (f n) (g n)) (agree_below n) false

  agree_below→eq : (n : ℕ) → agree_below n ≡ true → (i : ℕ) → i < n → f i ≡ g i
  unfolding agree_below
  agree_below→eq zero e i h = absurd (omega arith)
  agree_below→eq (suc n) e i h = ground (arith, agree_below→eq n (ground arith) i)

pub low_nibble : (b : ℕ) → b < 256 → bit_and b 0x0f ≡ b % 16
unfolding agree_below
low_nibble = agree_below→eq _ _ 256 refl

pub flag_0x80 : (b : ℕ) → b < 256 → bit_and b 0x80 ≡ b / 128 * 128
unfolding agree_below
flag_0x80 = agree_below→eq _ _ 256 refl

pub flag_0x40 : (b : ℕ) → b < 256 → bit_and b 0x40 ≡ b / 64 % 2 * 64
unfolding agree_below
flag_0x40 = agree_below→eq _ _ 256 refl

-- `(hi << 4) | (lo & 0x0F)` on a byte's two halves.
pub nibbles : (b : ℕ) → b < 256 → bit_or (b / 16 * 16 % 256) (bit_and (b % 16) 0x0f) ≡ b
unfolding agree_below
nibbles = agree_below→eq (λ b. bit_or (b / 16 * 16 % 256) (bit_and (b % 16) 0x0f)) _ 256 refl

-- The lowest digit of a conjunction, from the digits that the native operation stands for.
abbrev conj : ℕ → ℕ → ℕ → ℕ
conj fuel a b = digits (λ b. zero) min fuel a b

conj_fuel : (k l a b : ℕ) → a ≤ k → a ≤ l → conj k a b ≡ conj l a b
conj_fuel k l zero b h h' = conj_zero k b ∙ sym (conj_zero l b)
  where
    conj_zero : (k b : ℕ) → conj k zero b ≡ zero
    conj_zero zero b = refl
    conj_zero (suc k) b = refl
conj_fuel zero l (suc a) b h h' = absurd (omega arith)
conj_fuel (suc k) zero (suc a) b h h' = absurd (omega arith)
conj_fuel (suc k) (suc l) (suc a) b h h' =
    omega (arith, conj_fuel k l (suc a / 2) (b / 2) (omega arith) (omega arith))

bit_and-halves : (a b : ℕ) → bit_and a b ≡ bit_and (a / 2) (b / 2) * 2 + min (a % 2) (b % 2)
bit_and-halves zero b = omega (arith, bit_and-bitwise 0 b, bit_and-bitwise 0 (b / 2))
bit_and-halves (suc a) b = omega (
  arith,
  bit_and-bitwise (suc a) b,
  bit_and-bitwise (suc a / 2) (b / 2),
  conj_fuel a (suc a / 2) (suc a / 2) (b / 2) (omega arith) (omega arith),
)

bit_and-no_bits : (fuel a : ℕ) → a ≤ fuel → bit_and a 0 ≡ 0
bit_and-no_bits fuel zero h = refl
bit_and-no_bits zero (suc a) h = absurd (omega arith)
bit_and-no_bits (suc fuel) (suc a) h =
    omega (arith, bit_and-halves (suc a) 0, bit_and-no_bits fuel (suc a / 2) (omega arith))

bit_and-low2 : (a : ℕ) → bit_and a 3 ≡ a % 4
bit_and-low2 a = omega (
  arith,
  bit_and-halves a 3,
  bit_and-halves (a / 2) 1,
  bit_and-no_bits (a / 2 / 2) (a / 2 / 2) (omega arith),
)

bit_and-low5 : (a : ℕ) → bit_and a 31 ≡ a % 32
bit_and-low5 a = omega (
  arith,
  bit_and-halves a 31,
  bit_and-halves (a / 2) 15,
  bit_and-halves (a / 2 / 2) 7,
  bit_and-low2 (a / 2 / 2 / 2),
)

-- `x & 0xFF`
pub low_byte : (a : ℕ) → bit_and a 0xff ≡ a % 256
low_byte a = omega (
  arith,
  bit_and-halves a 255,
  bit_and-halves (a / 2) 127,
  bit_and-halves (a / 2 / 2) 63,
  bit_and-low5 (a / 2 / 2 / 2),
)
