-- ===== src/Tests/Codec.antt =====
-- A package that writes CBOR, and a reader that knows some values.
use Prim.Native.String.{String}
use mathlib.Core.Path.{subst}
use vcissuer.Prelude.{
  ℕ, ◌+◌, ◌*◌, ◌/◌, ◌%◌, ◌≡◌, refl, ap, true, Option, none, some, List, [], ◌∷◌, ◌++◌, length, ltb,
  leb, and_then, if◌then◌else◌, u64_max, arith, Option-cases, inl, inr,
}
use vcissuer.Text.{as_bytes}
use vcissuer.Tlsn.{same_bytes}
use vcissuer.Hybrid.Cbor.{Cbor, Patterns, ReadsBack}

-- A value: the items of an array, and the keys and values of a map, are a chain.
pub data Item : Type 0 where
  integer : ℕ → Item
  text : String → Item
  bytes : List ℕ → Item
  array : Item → Item
  map : Item → Item
  done : Item
  next : Item → Item → Item

unfoldable pub chain : List Item → Item
chain [] = done
chain (v ∷ vs) = next v (chain vs)

unfoldable pub items : Item → Option (List Item)
items done = some []
items (next v rest) = and_then (items rest) λ vs. some (v ∷ vs)
items _ = none

unfoldable pub entry_chain : List (Item × Item) → Item
entry_chain [] = done
entry_chain ((k, v) ∷ rest) = next k (next v (entry_chain rest))

unfoldable pub entries : Item → Option (List (Item × Item))
entries done = some []
entries (next k (next v rest)) = and_then (entries rest) λ vs. some ((k, v) ∷ vs)
entries _ = none

-- The initial byte of an item with its argument, and the items of a chain.
unfoldable pub head : ℕ → ℕ → List ℕ
head major n =
    if ltb n 24
    then (major * 32 + n) ∷ []
    else if ltb n 256
    then (major * 32 + 24) ∷ n ∷ []
    else (major * 32 + 25) ∷ (n / 256) ∷ (n % 256) ∷ []

unfoldable pub count : Item → ℕ
count (next v rest) = count rest + 1
count _ = 0

unfoldable pub write : Item → List ℕ
write (integer n) = head 0 n
write (text s) = head 3 (length (as_bytes s)) ++ as_bytes s
write (bytes b) = head 2 (length b) ++ b
write (array vs) = head 4 (count vs) ++ write vs
write (map vs) = head 5 (count vs / 2) ++ write vs
write done = []
write (next v rest) = write v ++ write rest

-- A reader that knows some values.
unfoldable pub read : List Item → List ℕ → Option (Item × ℕ)
read [] w = none
read (v ∷ vs) w =
    let rest = read vs w in if same_bytes (write v) w then some (v, length w) else rest

abbrev pub codec : List Item → Cbor
codec known = record {
  Value = Item;
  integer = integer;
  text = text;
  bytes = bytes;
  array = λ vs. array (chain vs);
  map = λ vs. map (entry_chain vs);
  as_integer = λ v. elim v [ integer n ↦ if leb n u64_max then some n else none | _ ↦ none ];
  as_text = λ v. elim v [ text s ↦ some s | _ ↦ none ];
  as_bytes = λ v. elim v [ bytes b ↦ some b | _ ↦ none ];
  as_array = λ v. elim v [ array vs ↦ items vs | _ ↦ none ];
  as_map = λ v. elim v [ map vs ↦ entries vs | _ ↦ none ];
  into_writer = λ v. some (write v);
  from_reader = read known;
}

items-chain : (vs : List Item) → items (chain vs) ≡ some vs
unfolding items chain
items-chain [] = refl
items-chain (v ∷ vs) = rw (items-chain vs) refl

chain_of_items : (v : Item) (vs : List Item) → items v ≡ some vs → v ≡ chain vs
unfolding items chain
chain_of_items done vs h = let e : vs ≡ [] = cc in rw e refl
chain_of_items (next v rest) vs h = elim (Option-cases (items rest)) [
  | inl e ↦ absurd (ground arith)
  | inr (ws, e) ↦ let same : vs ≡ v ∷ ws = ground arith in rw (same, chain_of_items rest ws e) refl
]
chain_of_items (integer n) vs h = absurd cc
chain_of_items (text s) vs h = absurd cc
chain_of_items (bytes b) vs h = absurd cc
chain_of_items (array w) vs h = absurd cc
chain_of_items (map w) vs h = absurd cc

entries-chain : (es : List (Item × Item)) → entries (entry_chain es) ≡ some es
unfolding entries entry_chain
entries-chain [] = refl
entries-chain ((k, v) ∷ es) = rw (entries-chain es) refl

chain_of_entries : (v : Item) (es : List (Item × Item)) → entries v ≡ some es → v ≡ entry_chain es
unfolding entries entry_chain
chain_of_entries done es h = let e : es ≡ [] = cc in rw e refl
chain_of_entries (next k (next v rest)) es h = elim (Option-cases (entries rest)) [
  | inl e ↦ absurd (ground arith)
  | inr (ws, e) ↦
      let same : es ≡ (k, v) ∷ ws = ground arith in rw (same, chain_of_entries rest ws e) refl
]
chain_of_entries (next k done) es h = absurd cc
chain_of_entries (next k (integer n)) es h = absurd cc
chain_of_entries (next k (text s)) es h = absurd cc
chain_of_entries (next k (bytes b)) es h = absurd cc
chain_of_entries (next k (array w)) es h = absurd cc
chain_of_entries (next k (map w)) es h = absurd cc
chain_of_entries (integer n) es h = absurd cc
chain_of_entries (text s) es h = absurd cc
chain_of_entries (bytes b) es h = absurd cc
chain_of_entries (array w) es h = absurd cc
chain_of_entries (map w) es h = absurd cc

array_of :
    (known : List Item) (v : Item) (vs : List Item)
    → (codec known).as_array v ≡ some vs
    → v ≡ array (chain vs)
array_of known (integer n) vs h = absurd cc
array_of known (text s) vs h = absurd cc
array_of known (bytes b) vs h = absurd cc
array_of known (array w) vs h = ap array (chain_of_items w vs h)
array_of known (map w) vs h = absurd cc
array_of known done vs h = absurd cc
array_of known (next w x) vs h = absurd cc

map_of :
    (known : List Item) (v : Item) (es : List (Item × Item))
    → (codec known).as_map v ≡ some es
    → v ≡ map (entry_chain es)
map_of known (integer n) es h = absurd cc
map_of known (text s) es h = absurd cc
map_of known (bytes b) es h = absurd cc
map_of known (array w) es h = absurd cc
map_of known (map w) es h = ap map (chain_of_entries w es h)
map_of known done es h = absurd cc
map_of known (next w x) es h = absurd cc

pub patterns : (known : List Item) → Patterns (codec known)
patterns known = record {
  integer-iff = λ v n. ground arith;
  text-iff = λ v s. ground arith;
  bytes-iff = λ v b. ground arith;
  array-iff = λ v vs. (array_of known v vs, λ e. rw e (items-chain vs));
  map-iff = λ v es. (map_of known v es, λ e. rw e (entries-chain es));
}

-- What is known is read back.
same_bytes_self : (xs : List ℕ) → same_bytes xs xs ≡ true
same_bytes_self [] = refl
same_bytes_self (x ∷ xs) = ground (arith, same_bytes_self xs)

read_known : (v : Item) (vs : List Item) → read (v ∷ vs) (write v) ≡ some (v, length (write v))
unfolding read
read_known v vs = rw (same_bytes_self (write v)) refl

pub reads_back : (v : Item) (vs : List Item) → ReadsBack (codec (v ∷ vs)) v
reads_back v vs w e =
    let same : write v ≡ w = cc in
    subst (λ x. read (v ∷ vs) x ≡ some (v, length x)) same (read_known v vs)
