-- ===== src/Kernel/Taxonomy.antt =====
-- The scope names on the wire against the words of the kernel: `powers_to_scope_urns`,
-- `scope_urns_subset` and `Powers::subset_of`.
use Prim.Native.String.{String}
use text.Mathlib.Text.{◌==◌ as str_eq}
use vcissuer.Prelude.{
  ℕ, zero, suc, ◌≤◌, ◌≡◌, refl, ◌∙◌, ◌↔◌, Bool, true, not, List, [], ◌∷◌, bit_and, ◌==◌, arith, All,
  all, any,
}
use vcissuer.Kernel.{
  subset_of, power_bit, power_taxonomy, taxonomy_mask, scope_urns_of, powers_to_scope_urns,
  scope_urns_subset,
}
use vcissuer.Kernel.Powers.{bit_at, bit_at-le_one, Includes, subset_of_iff, has_power_iff}

abbrev has_power : ℕ → ℕ → Bool
has_power n k = not (bit_and n (power_bit k) == 0)

-- What a test needs to pass on the scopes of a set of powers.
all-scope_urns_of :
    (p : String → Bool) (entries : List (ℕ × String)) (n : ℕ)
    → (all p (scope_urns_of entries n) ≡ true)
      ↔ All (λ e. has_power n e.0 ≡ true → p e.1 ≡ true) entries
unfolding scope_urns_of
all-scope_urns_of p [] n = ground arith
all-scope_urns_of p ((k, urn) ∷ entries) n = ground (arith, all-scope_urns_of p entries n)

-- Each name of the table is among the scopes exactly when its power is in the set.
any-powers_to_scope_urns :
    (n : ℕ) → All (λ e. any (str_eq e.1) (powers_to_scope_urns n) ≡ has_power n e.0) power_taxonomy
unfolding powers_to_scope_urns
any-powers_to_scope_urns n = ground arith

bit_at-zero : (k : ℕ) → bit_at k 0 ≡ 0
bit_at-zero zero = refl
bit_at-zero (suc k) = bit_at-zero k

-- The mask covers the six lowest bits and no other.
taxonomy_mask-above : (k : ℕ) → bit_at (suc (suc (suc (suc (suc (suc k)))))) taxonomy_mask ≡ 0
taxonomy_mask-above k = bit_at-zero k

module _ (a b : ℕ) where
  abbrev Implied : Type 0
  Implied =
      All (λ e. has_power a e.0 ≡ true → any (str_eq e.1) (powers_to_scope_urns b) ≡ true)
        power_taxonomy

  scope_urns_subset_iff :
      (scope_urns_subset (powers_to_scope_urns a) (powers_to_scope_urns b) ≡ true) ↔ Implied
  unfolding scope_urns_subset powers_to_scope_urns
  scope_urns_subset_iff = all-scope_urns_of _ power_taxonomy a

  -- One entry of the table, in both directions.
  power_implied :
      (k : ℕ)
      → {found : Bool} → found ≡ has_power b k
      → bit_at k a ≤ bit_at k b
      → has_power a k ≡ true
      → found ≡ true
  power_implied k e h p =
      e ∙ (has_power_iff k b).1 (omega (arith, (has_power_iff k a).0 p, bit_at-le_one k b))

  bit_of_implied :
      (k : ℕ)
      → {found : Bool} → found ≡ has_power b k
      → (has_power a k ≡ true → found ≡ true)
      → bit_at k a ≤ bit_at k b
  bit_of_implied k e h = grind (arith, has_power_iff k a, has_power_iff k b, bit_at-le_one k a)

  Implied_of_Includes : Includes a b → Implied
  Implied_of_Includes i =
      let (t0, (t1, (t2, (t3, (t4, (t5, _)))))) = any-powers_to_scope_urns b in
      (
        power_implied 0 t0 (i 0),
        (
          power_implied 1 t1 (i 1),
          (
            power_implied 2 t2 (i 2),
            (power_implied 3 t3 (i 3), (power_implied 4 t4 (i 4), (power_implied 5 t5 (i 5), tt))),
          ),
        ),
      )

  Includes-of_Implied : subset_of a taxonomy_mask ≡ true → Implied → Includes a b
  Includes-of_Implied covered (p0, (p1, (p2, (p3, (p4, (p5, _)))))) =
      let (t0, (t1, (t2, (t3, (t4, (t5, _)))))) = any-powers_to_scope_urns b in
      let above = (subset_of_iff a taxonomy_mask).0 covered in
      elim [
        | zero ↦ bit_of_implied 0 t0 p0
        | suc zero ↦ bit_of_implied 1 t1 p1
        | suc (suc zero) ↦ bit_of_implied 2 t2 p2
        | suc (suc (suc zero)) ↦ bit_of_implied 3 t3 p3
        | suc (suc (suc (suc zero))) ↦ bit_of_implied 4 t4 p4
        | suc (suc (suc (suc (suc zero)))) ↦ bit_of_implied 5 t5 p5
        | suc (suc (suc (suc (suc (suc k))))) ↦
            omega (arith, above (suc (suc (suc (suc (suc (suc k)))))), taxonomy_mask-above k)
      ]

-- The verifier's check of scope names agrees with the kernel's check of words, for every set of
-- powers that the table can name and every grant.
pub scope_urns_subset-subset_of :
    (a b : ℕ)
    → subset_of a taxonomy_mask ≡ true
    → (scope_urns_subset (powers_to_scope_urns a) (powers_to_scope_urns b) ≡ true)
      ↔ (subset_of a b ≡ true)
scope_urns_subset-subset_of a b covered = (
  λ h. (subset_of_iff a b).1 (Includes-of_Implied a b covered ((scope_urns_subset_iff a b).0 h)),
  λ h. (scope_urns_subset_iff a b).1 (Implied_of_Includes a b ((subset_of_iff a b).0 h)),
)
