-- ===== src/Hybrid/Decode/RoundTrip.antt =====
-- `encode` and `decode`, one after the other.
use vcissuer.Prelude.{
  ℕ, ◌≡◌, refl, sym, ap, ◌∙◌, ◌≤◌, ◌↔◌, true, not, some, List, [], ◌∷◌, ◌++◌, length, ltb, arith,
  u64_max, ◌==◌ as nat_eq, ==_iff, Bool-cases, inl, inr,
}
use vcissuer.Text.{as_bytes}
use vcissuer.Tlsn.{same_bytes}
use vcissuer.Tlsn.Sound.{same_bytes_eq}
use vcissuer.Outcome.{ok, ok_then, some_then, pass_then, then_ok, then_some, then_pass}
use vcissuer.Hybrid.{
  HybridPurpose, HybridContext, UnsignedEnvelope, EnvelopeSignatures, envelope_magic,
  max_envelope_bytes, require_nonempty_bounded,
}
use vcissuer.Hybrid.Cbor.{Cbor, Patterns, ReadsBack}
use vcissuer.Hybrid.Envelope.{envelope_value, encode, each_bounded, kid_bounded, wrong_lengths}
use vcissuer.Hybrid.Decode.{strip_prefix, canonical, read_fields, read_envelope, decode}
use vcissuer.Hybrid.Decode.Fields.{number_from, pairs_from, read_fields_iff}
use vcissuer.Hybrid.Decode.Contents.{Admissible, contents, read_envelope_iff}

pub strip_prefix-append : (prefix rest : List ℕ) → strip_prefix prefix (prefix ++ rest) ≡ some rest
unfolding strip_prefix
strip_prefix-append [] rest = refl
strip_prefix-append (b ∷ prefix) rest = ground (arith, strip_prefix-append prefix rest)

pub append_of_strip_prefix :
    (prefix whole rest : List ℕ) → strip_prefix prefix whole ≡ some rest → whole ≡ prefix ++ rest
unfolding strip_prefix
append_of_strip_prefix [] whole rest h = cc
append_of_strip_prefix (b ∷ prefix) [] rest h = absurd cc
append_of_strip_prefix (b ∷ prefix) (c ∷ whole) rest h = elim (Bool-cases (nat_eq b c)) [
  | inl t ↦
      let e : b ≡ c = (==_iff b c).0 t in
      let next = append_of_strip_prefix prefix whole rest (ground arith) in cc
  | inr f ↦ absurd (ground arith)
]

same_bytes_refl : (xs : List ℕ) → same_bytes xs xs ≡ true
same_bytes_refl [] = refl
same_bytes_refl (x ∷ xs) = ground (arith, same_bytes_refl xs)

module _ (p : Cbor) where
  -- One value that takes up the body and is written as the body.
  pub canonical_iff :
      (body : List ℕ) (value : p.Value)
      → (canonical p body ≡ ok value)
        ↔ ((p.from_reader body ≡ some (value, length body)) × (p.into_writer value ≡ some body))
  unfolding canonical
  canonical_iff body value = (
    λ h. some_then (p.from_reader body) _ _ h λ x q h0.
        let (found, position) = x in
        pass_then (not (nat_eq position (length body))) _ _ h0 λ t h1.
          some_then (p.into_writer found) _ _ h1 λ written r h2.
            pass_then (not (same_bytes written body)) _ _ h2 λ t' h3.
              let e = same_bytes_eq written body (ground arith) in
              let n : position ≡ length body = ground arith in
              let same : found ≡ value = cc in (cc, cc),
    λ x. then_some _ _ _ x.0 (
        then_pass _ _ _ (ground arith)
          (then_some _ _ _ x.1 (then_pass _ _ _ (ground (arith, same_bytes_refl body)) refl))),
  )

  -- The bytes of an envelope whose value is written as the body.
  pub record Written (u : UnsignedEnvelope) (s : EnvelopeSignatures) (encoded : List ℕ)
      : Type 0 where
    pub body : List ℕ
    pub written : p.into_writer (envelope_value p u s) ≡ some body
    pub magic : encoded ≡ as_bytes envelope_magic ++ body
    pub bounded : length encoded ≤ max_envelope_bytes

  pub encode_iff :
      (u : UnsignedEnvelope) (s : EnvelopeSignatures) (encoded : List ℕ)
      → u.generation ≤ u64_max
      → (encode p u s ≡ ok encoded) ↔ (Admissible p u s × Written u s encoded)
  unfolding encode
  encode_iff u s encoded small = (
    λ h. pass_then (wrong_lengths p s) _ _ h λ lengths_ok h0.
        ok_then (require_nonempty_bounded u.payload) _ h0 λ _ payload_ok h1.
          ok_then (each_bounded p u.disclosures) _ h1 λ _ disclosures_ok h2.
            ok_then (kid_bounded p u.classical_kid) _ h2 λ _ classical_ok h3.
              ok_then (kid_bounded p u.pq_kid) _ h3 λ _ pq_ok h4.
                pass_then (nat_eq u.generation 0) _ _ h4 λ given h5.
                  some_then (p.into_writer (envelope_value p u s)) _ _ h5 λ body q h6.
                    pass_then (ltb max_envelope_bytes (length (as_bytes envelope_magic ++ body))) _
                      _ h6
                      λ t h7.
                        let e : encoded ≡ as_bytes envelope_magic ++ body = cc in
                        (
                          record {
                            lengths = lengths_ok;
                            payload_bounded = payload_ok;
                            disclosures_bounded = disclosures_ok;
                            classical_kid_bounded = classical_ok;
                            pq_kid_bounded = pq_ok;
                            generation_given = given;
                            generation_u64 = small;
                          },
                          record {
                            body = body;
                            written = q;
                            magic = e;
                            bounded = rw e (ground arith);
                          },
                        ),
    λ x.
        let (a, w) = x in
        let bound : length (as_bytes envelope_magic ++ w.body) ≤ max_envelope_bytes =
          rw (sym w.magic) w.bounded in
        then_pass _ _ _ a.lengths (
          then_ok _ _ a.payload_bounded (
            then_ok _ _ a.disclosures_bounded (
              then_ok _ _ a.classical_kid_bounded (
                then_ok _ _ a.pq_kid_bounded (
                  then_pass _ _ _ a.generation_given (
                    then_some _ _ _ w.written
                      (then_pass _ _ _ (ground arith) (ap ok (sym w.magic))))))))),
  )

module _ (p : Cbor) (patterns : Patterns p) (u : UnsignedEnvelope) (s : EnvelopeSignatures)
    (encoded : List ℕ) where
  -- What was encoded is decoded to the same envelope and the same signatures, for its purpose and its
  -- context. The generation is a `u64`, and the package reads back what it wrote for the envelope.
  pub decode-encode :
      u.generation ≤ u64_max
      → ReadsBack p (envelope_value p u s)
      → encode p u s ≡ ok encoded
      → decode p encoded u.purpose u.context ≡ ok (u, s)
  unfolding decode
  decode-encode small reads_back h =
      let (admissible, w) = (encode_iff p u s encoded small).0 h in
      let fields =
        (read_fields_iff p patterns (envelope_value p u s) 11 (number_from 1 (contents p u s))
            (omega arith)).1
          (contents p u s, refl, refl, refl) in
      then_pass _ _ _ (let b = w.bounded in ground arith) (
        then_some _ _ _
          (ap (strip_prefix (as_bytes envelope_magic)) w.magic ∙ strip_prefix-append _ w.body)
          (then_ok _ _ ((canonical_iff p w.body _).1 (reads_back w.body w.written, w.written)) (
            then_ok _ _ fields (
              (read_envelope_iff p patterns (contents p u s) u.purpose u.context u s refl).1
                (refl, admissible, refl, refl)))))

  -- Bytes that are decoded are the encoding of what they were decoded to, so that no envelope has two
  -- encodings; the envelope has the purpose and the context that were asked for, and a generation
  -- that is a `u64`.
  pub encode-decode :
      (purpose : HybridPurpose) (context : HybridContext)
      → decode p encoded purpose context ≡ ok (u, s)
      → (encode p u s ≡ ok encoded)
        × (u.purpose ≡ purpose)
        × (u.context ≡ context)
        × u.generation ≤ u64_max
  unfolding decode
  encode-decode purpose context h =
      pass_then (ltb max_envelope_bytes (length encoded)) _ _ h λ bounded h0.
        some_then (strip_prefix (as_bytes envelope_magic) encoded) _ _ h0 λ body q h1.
          ok_then (canonical p body) _ h1 λ value r h2.
            ok_then (read_fields p value 11) _ h2 λ fields f h3.
              let (vs, n, is_map, numbered) =
                (read_fields_iff p patterns value 11 fields (omega arith)).0 f in
              let h4 : read_envelope p (number_from 1 vs) purpose context ≡ ok (u, s) =
                rw (sym numbered) h3 in
              let (listed, admissible, same, same') =
                (read_envelope_iff p patterns vs purpose context u s n).0 h4 in
              let is_value : value ≡ envelope_value p u s =
                is_map ∙ ap (λ x. p.map (pairs_from p 1 x)) listed in
              let w : Written p u s encoded = record {
                body = body;
                written = ap p.into_writer (sym is_value) ∙ ((canonical_iff p body value).0 r).1;
                magic = append_of_strip_prefix _ encoded body q;
                bounded = ground arith;
              } in
              (
                (encode_iff p u s encoded admissible.generation_u64).1 (admissible, w),
                same,
                same',
                admissible.generation_u64,
              )
