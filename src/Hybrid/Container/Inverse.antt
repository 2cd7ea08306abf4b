-- ===== src/Hybrid/Container/Inverse.antt =====
-- The containers of keys and signatures: writing and reading their fields.
use package.text.Mathlib.TextEquality.{eq_iff}
use vcissuer.Prelude.{
  ℕ, ◌+◌, ◌≡◌, refl, sym, ap, ◌∙◌, ◌≤◌, ◌<◌, ◌↔◌, not, some, List, [], ◌∷◌, ◌++◌, length, ltb,
  arith, u64_max, ◌==◌ as nat_eq,
}
use vcissuer.Text.{as_bytes}
use vcissuer.Outcome.{ok, ok_then, some_then, pass_then, then_ok, then_some, then_pass}
use vcissuer.Hybrid.{unsupported, version, profile, envelope_magic, max_component_envelope_bytes}
use vcissuer.Hybrid.Cbor.{Cbor, Patterns, ReadsBack}
use vcissuer.Hybrid.Envelope.{read_integer, read_text}
use vcissuer.Hybrid.Decode.{strip_prefix, canonical}
use vcissuer.Hybrid.Decode.Fields.{number_from, pairs_from, length-pairs_from}
use vcissuer.Hybrid.Decode.Contents.{read_integer_iff, read_text_iff}
use vcissuer.Hybrid.Decode.RoundTrip.{strip_prefix-append, append_of_strip_prefix, canonical_iff}
use vcissuer.Hybrid.Container.{
  encode_component_envelope, indexed_from, decode_component_envelope, expect_header,
}

module _ (p : Cbor) (patterns : Patterns p) where
  indexed_from-pairs_from :
      (n : ℕ) (vs : List p.Value)
      → n + length vs ≤ u64_max
      → indexed_from p n (pairs_from p n vs) ≡ ok (number_from n vs)
  unfolding indexed_from
  indexed_from-pairs_from n [] small = refl
  indexed_from-pairs_from n (v ∷ vs) small =
      then_ok (read_integer p (p.integer n)) _
        ((read_integer_iff p patterns _ n).1 (refl, omega arith))
        (then_pass (not (nat_eq n n)) _ _ (ground arith)
          (then_ok _ _ (indexed_from-pairs_from (n + 1) vs (omega arith)) refl))

  pairs_from_of_indexed :
      (n : ℕ) (entries : List (p.Value × p.Value)) (fields : List (ℕ × p.Value))
      → indexed_from p n entries ≡ ok fields
      → (vs : List p.Value) × (entries ≡ pairs_from p n vs)
        × (fields ≡ number_from n vs)
        × (length vs ≡ length entries)
  unfolding indexed_from
  pairs_from_of_indexed n [] fields h = ([], refl, cc, refl)
  pairs_from_of_indexed n ((key, value) ∷ entries) fields h =
      ok_then (read_integer p key) _ h λ number q h0.
        pass_then (not (nat_eq number n)) _ _ h0 λ t h1.
          ok_then (indexed_from p (n + 1) entries) _ h1 λ rest r h2.
            let e : fields ≡ (number, value) ∷ rest = cc in
            let same : number ≡ n = ground arith in
            let (vs, es, fs, count) = pairs_from_of_indexed (n + 1) entries rest r in
            let (is_number, _) = (read_integer_iff p patterns key number).0 q in
            (value ∷ vs, rw (is_number, same, es) refl, rw (e, same, fs) refl, omega arith)

  -- Values that are written as the entries of a map, with keys that count up from 1.
  pub record Contained (encoded : List ℕ) (vs : List p.Value) : Type 0 where
    pub body : List ℕ
    pub written : p.into_writer (p.map (pairs_from p 1 vs)) ≡ some body
    pub magic : encoded ≡ as_bytes envelope_magic ++ body
    pub bounded : length encoded ≤ max_component_envelope_bytes

  pub encode_component_envelope_iff :
      (vs : List p.Value) (encoded : List ℕ)
      → (encode_component_envelope p (pairs_from p 1 vs) ≡ ok encoded) ↔ Contained encoded vs
  unfolding encode_component_envelope
  encode_component_envelope_iff vs encoded = (
    λ h. some_then (p.into_writer (p.map (pairs_from p 1 vs))) _ _ h λ body q h0.
        pass_then (ltb max_component_envelope_bytes (length (as_bytes envelope_magic ++ body))) _ _
          h0
          λ t h1.
            let e : encoded ≡ as_bytes envelope_magic ++ body = cc in
            record { body = body; written = q; magic = e; bounded = rw e (ground arith) },
    λ w.
        let bound : length (as_bytes envelope_magic ++ w.body) ≤ max_component_envelope_bytes =
          rw (sym w.magic) w.bounded in
        then_some _ _ _ w.written (then_pass _ _ _ (ground arith) (ap ok (sym w.magic))),
  )

  pub decode_component_envelope-Contained :
      (vs : List p.Value) (encoded : List ℕ)
      → length vs < u64_max
      → ReadsBack p (p.map (pairs_from p 1 vs))
      → Contained encoded vs
      → decode_component_envelope p encoded (length vs) ≡ ok (number_from 1 vs)
  unfolding decode_component_envelope
  decode_component_envelope-Contained vs encoded small reads w =
      then_pass _ _ _ (let b = w.bounded in ground arith) (
        then_some _ _ _
          (ap (strip_prefix (as_bytes envelope_magic)) w.magic ∙ strip_prefix-append _ w.body)
          (then_ok _ _ ((canonical_iff p w.body _).1 (reads w.body w.written, w.written)) (
            then_some _ _ _ ((patterns.map-iff _ _).1 refl) (
              then_pass (not (nat_eq (length (pairs_from p 1 vs)) (length vs))) _ _
                (let e = length-pairs_from p 1 vs in ground arith)
                (indexed_from-pairs_from 1 vs (omega arith))))))

  pub Contained-of_decode :
      (encoded : List ℕ) (count : ℕ) (fields : List (ℕ × p.Value))
      → decode_component_envelope p encoded count ≡ ok fields
      → (vs : List p.Value) × (length vs ≡ count)
        × (fields ≡ number_from 1 vs)
        × Contained encoded vs
  unfolding decode_component_envelope
  Contained-of_decode encoded count fields h =
      pass_then (ltb max_component_envelope_bytes (length encoded)) _ _ h λ t h0.
        some_then (strip_prefix (as_bytes envelope_magic) encoded) _ _ h0 λ body q h1.
          ok_then (canonical p body) _ h1 λ value r h2.
            some_then (p.as_map value) _ _ h2 λ entries m h3.
              pass_then (not (nat_eq (length entries) count)) _ _ h3 λ t' h4.
                let (vs, es, fs, n) = pairs_from_of_indexed 1 entries fields h4 in
                let is_map : value ≡ p.map (pairs_from p 1 vs) =
                  (patterns.map-iff value entries).0 m ∙ ap p.map es in
                let counted : length entries ≡ count = ground arith in
                (
                  vs,
                  n ∙ counted,
                  fs,
                  record {
                    body = body;
                    written = ap p.into_writer (sym is_map) ∙ ((canonical_iff p body value).0 r).1;
                    magic = append_of_strip_prefix _ encoded body q;
                    bounded = ground arith;
                  },
                )

  abbrev HeaderOf : ℕ → p.Value → p.Value → p.Value → Type 0
  HeaderOf kind v0 v1 v2 = (v0 ≡ p.integer version) × (v1 ≡ p.integer kind) × (v2 ≡ p.text profile)

  pub expect_header_iff :
      (kind : ℕ) (v0 v1 v2 : p.Value) (rest : List p.Value)
      → kind ≤ u64_max
      → (expect_header p (number_from 1 (v0 ∷ v1 ∷ v2 ∷ rest)) kind ≡ ok tt)
        ↔ HeaderOf kind v0 v1 v2
  unfolding expect_header
  expect_header_iff kind v0 v1 v2 rest small = (
    λ h. ok_then (read_integer p v0) _ h λ a0 q0 h0.
        pass_then (not (nat_eq a0 version)) _ _ h0 λ t0 h1.
          ok_then (read_integer p v1) _ h1 λ a1 q1 h2.
            pass_then (not (nat_eq a1 kind)) _ _ h2 λ t1 h3.
              ok_then (read_text p v2) _ h3 λ a2 q2 h4.
                let one : a0 ≡ version = ground arith in
                let two : a1 ≡ kind = ground arith in
                let three : a2 ≡ profile = (eq_iff a2 profile).0 (ground arith) in
                (
                  ((read_integer_iff p patterns v0 a0).0 q0).0 ∙ ap p.integer one,
                  ((read_integer_iff p patterns v1 a1).0 q1).0 ∙ ap p.integer two,
                  (read_text_iff p patterns v2 a2).0 q2 ∙ ap p.text three,
                ),
    λ x.
        let (e0, e1, e2) = x in
        then_ok _ _ ((read_integer_iff p patterns v0 version).1 (e0, omega arith)) (
          then_pass (not (nat_eq version version)) unsupported _ refl (
            then_ok _ _ ((read_integer_iff p patterns v1 kind).1 (e1, small)) (
              then_pass (not (nat_eq kind kind)) _ _ (ground arith)
                (then_ok _ _ ((read_text_iff p patterns v2 profile).1 e2) refl)))),
  )
