-- ===== src/Prelude/Bits.antt =====
-- The conjunction of two words, one binary digit at a time. The library defines `bit_and` by
-- `digits`; the lemmas below give its recursion equation at variables.
use Prim.Native.Nat.{ℕ, zero, suc, ◌+◌, ◌*◌, ◌/◌, ◌%◌, ◌≤◌, min, bit_and, digits, bit_and-bitwise}
use mathlib.Core.Path.{◌≡◌, refl}
use native.Mathlib.Omega.{arith}

abbrev meet : ℕ → ℕ → ℕ → ℕ
meet fuel a b = digits (λ _. zero) min fuel a b

-- More fuel than the first word's value changes nothing.
meet_fuel : (f g a b : ℕ) → a ≤ f → a ≤ g → meet f a b ≡ meet g a b
meet_fuel zero zero a b p q = refl
meet_fuel zero (suc g) zero b p q = refl
meet_fuel zero (suc g) (suc a) b p q = absurd (omega arith)
meet_fuel (suc f) zero zero b p q = refl
meet_fuel (suc f) zero (suc a) b p q = absurd (omega arith)
meet_fuel (suc f) (suc g) zero b p q = refl
meet_fuel (suc f) (suc g) (suc a) b p q =
    omega (arith, meet_fuel f g (suc a / 2) (b / 2) (omega arith) (omega arith))

pub zero-bit_and : (b : ℕ) → bit_and 0 b ≡ 0
zero-bit_and b = bit_and-bitwise 0 b

pub bit_and-halves : (a b : ℕ) → bit_and a b ≡ 2 * bit_and (a / 2) (b / 2) + min (a % 2) (b % 2)
bit_and-halves zero b = omega (arith, zero-bit_and b, zero-bit_and (b / 2))
bit_and-halves (suc a) b =
    let shorter = meet_fuel a (suc a / 2) (suc a / 2) (b / 2) (omega arith) (omega arith) in
    omega (arith, bit_and-bitwise (suc a) b, bit_and-bitwise (suc a / 2) (b / 2), shorter)

bit_and-zero_below : (n a : ℕ) → a ≤ n → bit_and a 0 ≡ 0
bit_and-zero_below n zero h = refl
bit_and-zero_below zero (suc a) h = absurd (omega arith)
bit_and-zero_below (suc n) (suc a) h =
    omega (arith, bit_and-halves (suc a) 0, bit_and-zero_below n (suc a / 2) (omega arith))

pub bit_and-zero : (a : ℕ) → bit_and a 0 ≡ 0
bit_and-zero a = bit_and-zero_below a a (omega arith)
