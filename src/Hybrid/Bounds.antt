-- ===== src/Hybrid/Bounds.antt =====
-- Words of fixed width, and what the checks of a context leave.
use vcissuer.Prelude.{
  ℕ, ◌/◌, ◌%◌, ◌≤◌, ◌≡◌, refl, sym, ◌∙◌, List, [], ◌∷◌, ◌++◌, length, arith, u64_max,
}
use mathlib.Core.List.{append_assoc}
use vcissuer.Hybrid.{u32_to_be_bytes, u64_to_be_bytes}

pub u32_to_be_bytes_inj :
    (n m : ℕ) → n ≤ 4294967295 → m ≤ 4294967295 → u32_to_be_bytes n ≡ u32_to_be_bytes m → n ≡ m
unfolding u32_to_be_bytes
u32_to_be_bytes_inj n m p q h = ground arith

pub length-u32_to_be_bytes : (n : ℕ) → length (u32_to_be_bytes n) ≡ 4
unfolding u32_to_be_bytes
length-u32_to_be_bytes n = refl

pub append_split :
    (xs bs rs ss : List ℕ) → length xs ≡ length bs → xs ++ rs ≡ bs ++ ss → (xs ≡ bs) × (rs ≡ ss)
append_split [] [] rs ss h e = (refl, e)
append_split (a ∷ xs) (b ∷ bs) rs ss h e =
    let (p, q) = append_split xs bs rs ss (omega arith) cc in (cc, q)
append_split [] (b ∷ bs) rs ss h e = absurd (omega arith)
append_split (a ∷ xs) [] rs ss h e = absurd (omega arith)

pub length-u64_to_be_bytes : (n : ℕ) → length (u64_to_be_bytes n) ≡ 8
unfolding u64_to_be_bytes
length-u64_to_be_bytes n = refl

pub u64_to_be_bytes_inj :
    (n m : ℕ) → n ≤ u64_max → m ≤ u64_max → u64_to_be_bytes n ≡ u64_to_be_bytes m → n ≡ m
unfolding u64_to_be_bytes
u64_to_be_bytes_inj n m p q h =
    let (high, low) =
      append_split (u32_to_be_bytes (n / 4294967296)) (u32_to_be_bytes (m / 4294967296)) _ _ refl
        h in
    let a =
      u32_to_be_bytes_inj (n / 4294967296) (m / 4294967296) (omega arith) (omega arith) high in
    let b = u32_to_be_bytes_inj (n % 4294967296) (m % 4294967296) (omega arith) (omega arith) low in
    omega arith

-- A component with its length before it.
abbrev pub framed : List ℕ → List ℕ
framed component = u32_to_be_bytes (length component) ++ component

abbrev pub Fits : List ℕ → Type 0
Fits component = length component ≤ 4294967295

-- Two framed components with what follows them.
pub framed_split :
    (xs ys rs ss : List ℕ)
    → Fits xs
    → Fits ys
    → framed xs ++ rs ≡ framed ys ++ ss
    → (xs ≡ ys) × (rs ≡ ss)
framed_split xs ys rs ss p q e =
    let (heads, rest) =
      append_split (u32_to_be_bytes (length xs)) (u32_to_be_bytes (length ys)) (xs ++ rs) (ys ++ ss)
        (omega (arith, length-u32_to_be_bytes (length xs), length-u32_to_be_bytes (length ys)))
        (sym (append_assoc _ xs rs) ∙ e ∙ append_assoc _ ys ss) in
    append_split xs ys rs ss (u32_to_be_bytes_inj _ _ p q heads) rest
