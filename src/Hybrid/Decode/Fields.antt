-- ===== src/Hybrid/Decode/Fields.antt =====
-- Numbered fields: what the maps of the envelopes hold, and what is read from them.
use vcissuer.Prelude.{
  ℕ, ◌+◌, ◌≡◌, refl, sym, ap, ◌∙◌, ◌≤◌, ◌<◌, ◌↔◌, true, false, not, ◌||◌, List, [], ◌∷◌, All, any,
  length, arith, u64_max, ◌==◌,
}
use vcissuer.Outcome.{ok, ok_then, some_then, pass_then, then_ok, then_some, then_pass, ok_or-eq-ok}
use vcissuer.Hybrid.Cbor.{Cbor, Patterns}
use vcissuer.Hybrid.Envelope.{read_integer}
use vcissuer.Hybrid.Decode.{keyed_from, counts_from, read_fields}

module _ {A : Type 0} where
  abbrev pub number_from : ℕ → List A → List (ℕ × A)
  number_from n [] = []
  number_from n (v ∷ vs) = (n, v) ∷ number_from (n + 1) vs

  length-number_from : (n : ℕ) (vs : List A) → length (number_from n vs) ≡ length vs
  length-number_from n [] = refl
  length-number_from n (v ∷ vs) = omega (arith, length-number_from (n + 1) vs)

module _ (p : Cbor) where
  abbrev pub pairs_from : ℕ → List p.Value → List (p.Value × p.Value)
  pairs_from n [] = []
  pairs_from n (v ∷ vs) = (p.integer n, v) ∷ pairs_from (n + 1) vs

  pub length-pairs_from : (n : ℕ) (vs : List p.Value) → length (pairs_from n vs) ≡ length vs
  length-pairs_from n [] = refl
  length-pairs_from n (v ∷ vs) = omega (arith, length-pairs_from (n + 1) vs)

  counts_from-number_from : (n : ℕ) (vs : List p.Value) → counts_from p n (number_from n vs) ≡ true
  unfolding counts_from
  counts_from-number_from n [] = refl
  counts_from-number_from n (v ∷ vs) = ground (arith, counts_from-number_from (n + 1) vs)

abbrev Below : ℕ → List ℕ → Type 0
Below n seen = All (λ m. m < n) seen

any-Below : (n : ℕ) (seen : List ℕ) → Below n seen → any (λ m. m == n) seen ≡ false
any-Below n [] h = refl
any-Below n (m ∷ seen) h = ground (arith, any-Below n seen h.1)

Below-next : (n : ℕ) (seen : List ℕ) → Below n seen → Below (n + 1) seen
Below-next n [] h = tt
Below-next n (m ∷ seen) h = (omega arith, Below-next n seen h.1)

module _ (p : Cbor) (patterns : Patterns p) where
  read_integer-integer : (n : ℕ) → n ≤ u64_max → read_integer p (p.integer n) ≡ ok n
  unfolding read_integer
  read_integer-integer n h = rw ((patterns.integer-iff (p.integer n) n).1 (refl, h)) refl

  keyed_from-pairs_from :
      (n : ℕ) (seen : List ℕ) (vs : List p.Value)
      → Below n seen
      → n + length vs ≤ u64_max
      → keyed_from p seen (pairs_from p n vs) ≡ ok (number_from n vs)
  unfolding keyed_from
  keyed_from-pairs_from n seen [] h small = refl
  keyed_from-pairs_from n seen (v ∷ vs) h small =
      then_ok (read_integer p (p.integer n)) _ (read_integer-integer n (omega arith)) (
        then_pass _ _ _ (any-Below n seen h) (
          then_ok _ _
            (keyed_from-pairs_from (n + 1) (n ∷ seen) vs (omega arith, Below-next n seen h)
              (omega arith))
            refl))

  integer_of_read : (v : p.Value) (n : ℕ) → read_integer p v ≡ ok n → v ≡ p.integer n
  unfolding read_integer
  integer_of_read v n h = ((patterns.integer-iff v n).0 (ok_or-eq-ok _ _ h)).0

  pairs_from_of_keyed :
      (n : ℕ) (seen : List ℕ) (entries : List (p.Value × p.Value)) (fields : List (ℕ × p.Value))
      → keyed_from p seen entries ≡ ok fields
      → counts_from p n fields ≡ true
      → (vs : List p.Value) × (entries ≡ pairs_from p n vs) × (fields ≡ number_from n vs)
  unfolding keyed_from counts_from
  pairs_from_of_keyed n seen [] fields h counted = ([], refl, cc)
  pairs_from_of_keyed n seen ((key, value) ∷ entries) fields h counted =
      ok_then (read_integer p key) _ h λ number q h0.
        pass_then (any (λ m. m == number) seen) _ _ h0 λ new h1.
          ok_then (keyed_from p (number ∷ seen) entries) _ h1 λ rest r h2.
            let e : fields ≡ (number, value) ∷ rest = cc in
            let counted' : counts_from p n ((number, value) ∷ rest) ≡ true =
              ap (counts_from p n) (sym e) ∙ counted in
            let same : number ≡ n = ground arith in
            let (vs, es, fs) =
              pairs_from_of_keyed (n + 1) (number ∷ seen) entries rest r (ground arith) in
            (value ∷ vs, rw (integer_of_read key number q, same, es) refl, rw (e, same, fs) refl)

  -- Fields that count up from 1 are the entries of the value in its order.
  pub read_fields_iff :
      (value : p.Value) (count : ℕ) (fields : List (ℕ × p.Value))
      → count < u64_max
      → (read_fields p value count ≡ ok fields) ↔ (
          (vs : List p.Value) × (length vs ≡ count)
          × (value ≡ p.map (pairs_from p 1 vs))
          × (fields ≡ number_from 1 vs))
  unfolding read_fields
  read_fields_iff value count fields small = (
    λ h. some_then (p.as_map value) _ _ h λ entries q h0.
        ok_then (keyed_from p [] entries) _ h0 λ found r h1.
          pass_then (not (length found == count) || not (counts_from p 1 found)) _ _ h1 λ t h2.
            let (vs, es, fs) = pairs_from_of_keyed 1 [] entries found r (ground arith) in
            let e : fields ≡ found = cc in
            let n : length found ≡ count = ground arith in
            (
              vs,
              sym (length-number_from 1 vs) ∙ ap length (sym fs) ∙ n,
              (patterns.map-iff value entries).0 q ∙ ap p.map es,
              e ∙ fs,
            ),
    λ x.
        let (vs, n, e, fs) = x in
        then_some _ _ _ ((patterns.map-iff value _).1 e) (
          then_ok _ _ (keyed_from-pairs_from 1 [] vs tt (omega arith)) (
            then_pass _ _ _
              (let a = length-number_from 1 vs in
                let b = counts_from-number_from p 1 vs in ground arith)
              (ap ok (sym fs)))),
  )
