-- ===== src/Kernel/Powers.antt =====
-- `Powers::subset_of` on whole words is inclusion bit by bit.
use vcissuer.Prelude.{
  ℕ, zero, suc, ◌*◌, ◌/◌, ◌%◌, ◌^◌, ◌≤◌, ◌≡◌, ◌↔◌, true, bit_and, arith, ==_iff, ◌==◌, not, ap,
  zero-bit_and, bit_and-halves, bit_and-zero,
}
use native.Mathlib.Nat.{pow-suc, one-le-pow}
use vcissuer.Kernel.{subset_of, power_bit}

-- Bit `k` of a word, 0 or 1.
abbrev pub bit_at : ℕ → ℕ → ℕ
bit_at zero n = n % 2
bit_at (suc k) n = bit_at k (n / 2)

abbrev pub Includes : ℕ → ℕ → Type 0
Includes a b = (k : ℕ) → bit_at k a ≤ bit_at k b

pub bit_at-le_one : (k n : ℕ) → bit_at k n ≤ 1
bit_at-le_one zero n = omega arith
bit_at-le_one (suc k) n = bit_at-le_one k (n / 2)

Includes_of_bit_and : (k a b : ℕ) → bit_and a b ≡ a → bit_at k a ≤ bit_at k b
Includes_of_bit_and zero a b h = omega (arith, bit_and-halves a b)
Includes_of_bit_and (suc k) a b h =
    Includes_of_bit_and k (a / 2) (b / 2) (omega (arith, bit_and-halves a b))

bit_and_of_Includes : (fuel a b : ℕ) → a ≤ fuel → Includes a b → bit_and a b ≡ a
bit_and_of_Includes fuel zero b h i = zero-bit_and b
bit_and_of_Includes zero (suc a) b h i = absurd (omega arith)
bit_and_of_Includes (suc fuel) (suc a) b h i =
    let rest = bit_and_of_Includes fuel (suc a / 2) (b / 2) (omega arith) (λ k. i (suc k)) in
    omega (arith, bit_and-halves (suc a) b, i 0)

-- Every power of the first set is in the second exactly when each bit of the first word is at
-- most the same bit of the second.
pub subset_of_iff : (a b : ℕ) → (subset_of a b ≡ true) ↔ Includes a b
unfolding subset_of
subset_of_iff a b = (
  λ h k. Includes_of_bit_and k a b ((==_iff _ a).0 h),
  λ i. (==_iff _ a).1 (bit_and_of_Includes a a b (omega arith) i),
)

bit_and-double : (n m : ℕ) → bit_and n (m * 2) ≡ 2 * bit_and (n / 2) m
bit_and-double n m =
    let half : m * 2 / 2 ≡ m = omega arith in
    omega (arith, bit_and-halves n (m * 2), ap (bit_and (n / 2)) half)

-- The test of one power reads one bit.
pub bit_and-power_bit : (k n : ℕ) → bit_and n (power_bit k) ≡ bit_at k n * 2 ^ k
bit_and-power_bit zero n = omega (arith, bit_and-halves n 1, bit_and-zero (n / 2))
bit_and-power_bit (suc k) n =
    rw (pow-suc 2 k)
      (omega (arith, bit_and-double n (2 ^ k), ap (λ (t : ℕ). 2 * t) (bit_and-power_bit k (n / 2))))

-- `powers.0 & (1u64 << bit) != 0`.
pub has_power_iff : (k n : ℕ) → (not (bit_and n (power_bit k) == 0) ≡ true) ↔ (bit_at k n ≡ 1)
has_power_iff k n =
    grind (arith, bit_and-power_bit k n, bit_at-le_one k n, one-le-pow k 2 (omega arith))
