-- ===== src/Table.antt =====
-- The `HashMap<String, _>` and `HashSet<String>` of the service, as association lists and lists. A
-- key stands in a table at most once where the table was built by these operations. The order in
-- which Rust visits a map is unspecified; `find_value` visits the newest entry last.
use Prim.Native.String.{String}
use text.Mathlib.Text.{◌==◌}
use text.Mathlib.TextEquality.{eq_iff}
use vcissuer.Prelude.{
  ◌≡◌, refl, Bool, true, false, ◌||◌, Option, none, some, List, [], ◌∷◌, All, arith, if◌then◌else◌,
}

abbrev pub Table : Type 0 → Type 0
Table V = List (String × V)

module _ {V : Type 0} where
  unfoldable pub insert : String → V → Table V → Table V
  insert key value [] = (key, value) ∷ []
  insert key value ((other, old) ∷ rest) =
      if other == key then (key, value) ∷ rest else (other, old) ∷ insert key value rest

  unfoldable pub lookup : String → Table V → Option V
  lookup key [] = none
  lookup key ((other, value) ∷ rest) = if other == key then some value else lookup key rest

  unfoldable pub remove : String → Table V → Table V
  remove k [] = []
  remove k ((j, w) ∷ m) = if j == k then remove k m else (j, w) ∷ remove k m

  -- `values().find(test)`.
  unfoldable pub find_value : (V → Bool) → Table V → Option V
  find_value test [] = none
  find_value test ((j, v) ∷ m) = if test v then some v else find_value test m

  -- `retain`, on the values.
  unfoldable pub retain : (V → Bool) → Table V → Table V
  retain test [] = []
  retain test ((j, v) ∷ m) = if test v then (j, v) ∷ retain test m else retain test m

  pub lookup-insert :
      (key asked : String) (value : V) (table : Table V)
      → lookup asked (insert key value table)
        ≡ (if key == asked then some value else lookup asked table)
  unfolding lookup insert
  lookup-insert key asked value [] = refl
  lookup-insert key asked value ((other, old) ∷ rest) = ground (
    arith,
    lookup-insert key asked value rest,
    eq_iff other asked,
    eq_iff other key,
    eq_iff key asked,
  )

  pub lookup-remove :
      (k j : String) (m : Table V) → lookup j (remove k m) ≡ (if k == j then none else lookup j m)
  unfolding lookup remove
  lookup-remove k j [] = ground arith
  lookup-remove k j ((i, w) ∷ m) =
      ground (arith, eq_iff k j, eq_iff i k, eq_iff i j, lookup-remove k j m)

  -- What holds of every value of a table.
  abbrev pub Values {ℓ} : (V → Type ℓ) → Table V → Type ℓ
  Values P m = All (λ e. P e.1) m

  module _ {ℓ} (P : V → Type ℓ) where
    pub Values-lookup : (k : String) (m : Table V) {v : V} → Values P m → lookup k m ≡ some v → P v
    unfolding lookup
    Values-lookup k [] h e = cc
    Values-lookup k ((j, w) ∷ m) {v} h e = ground (arith, Values-lookup k m {v = v} h.1)

    pub Values-insert :
        (k : String) (v : V) (m : Table V) → P v → Values P m → Values P (insert k v m)
    unfolding insert
    Values-insert k v [] p h = (p, tt)
    Values-insert k v ((j, w) ∷ m) p h = ground (arith, Values-insert k v m p h.1)

    pub Values-remove : (k : String) (m : Table V) → Values P m → Values P (remove k m)
    unfolding remove
    Values-remove k [] h = tt
    Values-remove k ((j, w) ∷ m) h = ground (arith, Values-remove k m h.1)

    pub Values-find_value :
        (test : V → Bool) (m : Table V) {v : V} → Values P m → find_value test m ≡ some v → P v
    unfolding find_value
    Values-find_value test [] h e = cc
    Values-find_value test ((j, w) ∷ m) {v} h e =
        ground (arith, Values-find_value test m {v = v} h.1)

unfoldable pub has : String → List String → Bool
has k [] = false
has k (x ∷ xs) = x == k || has k xs

-- `HashSet::insert` says whether the key is new.
unfoldable pub add : String → List String → Bool × List String
unfolding has
add k xs = if has k xs then (false, xs) else (true, k ∷ xs)

-- The set after `add` holds the key and what it held before.
pub has-add : (k j : String) (xs : List String) → has j (add k xs).1 ≡ (k == j || has j xs)
unfolding has add
has-add k j xs = ground (arith, eq_iff k j)

pub add_new : (k : String) (xs : List String) → (add k xs).0 ≡ true → has k xs ≡ false
unfolding add
add_new k xs h = ground arith
