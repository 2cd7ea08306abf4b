-- ===== src/Hybrid/Container/Signatures.antt =====
-- The container of the two signatures.
use mathlib.Core.Path.{subst}
use vcissuer.Prelude.{ℕ, ◌≡◌, refl, sym, ap, ◌∙◌, ◌↔◌, false, not, List, [], ◌∷◌, arith}
use vcissuer.Outcome.{ok, ok_then, pass_then, then_ok, then_pass, then_done}
use vcissuer.Hybrid.{HybridPurpose, EnvelopeSignatures, unsupported, version, profile, id, try_from}
use vcissuer.Hybrid.Cbor.{Cbor, Patterns, ReadsBack}
use vcissuer.Hybrid.Envelope.{read_text, read_bytes, wrong_lengths}
use vcissuer.Hybrid.Purposes.{try_from_iff}
use vcissuer.Hybrid.Decode.{same_purpose}
use vcissuer.Hybrid.Decode.Fields.{number_from}
use vcissuer.Hybrid.Decode.Contents.{
  read_text_iff, read_bytes_iff, same_purpose_iff, more_then, no_more,
}
use vcissuer.Hybrid.Container.{
  decode_component_envelope, expect_header, read_signatures, signature_fields,
  encode_signature_envelope, decode_signature_envelope,
}
use vcissuer.Hybrid.Container.Inverse.{
  Contained, encode_component_envelope_iff, decode_component_envelope-Contained,
  Contained-of_decode, expect_header_iff,
}

module _ (p : Cbor) (patterns : Patterns p) (purpose : HybridPurpose) where
  abbrev signature_values : EnvelopeSignatures → List p.Value
  signature_values s =
      p.integer version
      ∷ p.integer 2
      ∷ p.text profile
      ∷ p.bytes s.classical
      ∷ p.bytes s.post_quantum
      ∷ p.text (id purpose)
      ∷ []

  values_of_signatures :
      (v0 v1 v2 v3 v4 v5 : p.Value) (s : EnvelopeSignatures)
      → let vs : List p.Value = v0 ∷ v1 ∷ v2 ∷ v3 ∷ v4 ∷ v5 ∷ [] in
        read_signatures p (number_from 1 vs) purpose ≡ ok s
        → (vs ≡ signature_values s) × (wrong_lengths p s ≡ false)
  unfolding read_signatures
  values_of_signatures v0 v1 v2 v3 v4 v5 s h = ok_then (read_text p v5) _ h λ a5 q5 h0.
      ok_then (try_from a5) _ h0 λ pu q h1.
        ok_then (expect_header p (number_from 1 (v0 ∷ v1 ∷ v2 ∷ v3 ∷ v4 ∷ v5 ∷ [])) 2) _ h1
          λ _ header h2. pass_then (not (same_purpose p pu purpose)) _ _ h2 λ same_pu h3.
            ok_then (read_bytes p v3) _ h3 λ a3 q3 h4. ok_then (read_bytes p v4) _ h4 λ a4 q4 h5.
              let found : EnvelopeSignatures = record { classical = a3; post_quantum = a4 } in
              pass_then (wrong_lengths p found) _ _ h5 λ t h6.
                let (e0, e1, e2) =
                  (expect_header_iff p patterns 2 v0 v1 v2 (v3 ∷ v4 ∷ v5 ∷ []) (omega arith)).0
                    header in
                let e3 = (read_bytes_iff p patterns v3 a3).0 q3 in
                let e4 = (read_bytes_iff p patterns v4 a4).0 q4 in
                let e5 = (read_text_iff p patterns v5 a5).0 q5 in
                let named : a5 ≡ id pu = (try_from_iff a5 pu).0 q in
                let right : pu ≡ purpose = (same_purpose_iff p pu purpose).0 (ground arith) in
                let same : found ≡ s = cc in
                let vs : List p.Value = v0 ∷ v1 ∷ v2 ∷ v3 ∷ v4 ∷ v5 ∷ [] in
                subst (λ x. (vs ≡ signature_values x) × (wrong_lengths p x ≡ false)) same (cc, t)

  read_signatures-values :
      (s : EnvelopeSignatures)
      → wrong_lengths p s ≡ false
      → read_signatures p (number_from 1 (signature_values s)) purpose ≡ ok s
  unfolding read_signatures
  read_signatures-values s t =
      then_ok _ _ ((read_text_iff p patterns (p.text (id purpose)) (id purpose)).1 refl) (
        then_ok _ _ ((try_from_iff (id purpose) purpose).1 refl) (
          then_done _ _
            ((expect_header_iff p patterns 2 _ _ _
                (p.bytes s.classical ∷ p.bytes s.post_quantum ∷ p.text (id purpose) ∷ [])
                (omega arith)).1
              (refl, refl, refl))
            (then_pass (not (same_purpose p purpose purpose)) unsupported _
              (ap not ((same_purpose_iff p purpose purpose).1 refl))
              (then_ok _ _ ((read_bytes_iff p patterns (p.bytes s.classical) s.classical).1 refl) (
                then_ok _ _
                  ((read_bytes_iff p patterns (p.bytes s.post_quantum) s.post_quantum).1 refl)
                  (then_pass _ _ _ t refl))))))

  -- Bytes are read as two signatures for a purpose exactly if they are the encoding of the two for that
  -- purpose, so that signatures for one purpose are not read for another. The package reads back what
  -- it wrote for them.
  pub signature_envelope_iff :
      (encoded : List ℕ) (s : EnvelopeSignatures)
      → ReadsBack p (p.map (signature_fields p purpose s))
      → (decode_signature_envelope p encoded purpose ≡ ok s)
        ↔ (encode_signature_envelope p purpose s ≡ ok encoded)
  unfolding decode_signature_envelope encode_signature_envelope
  signature_envelope_iff encoded s reads = (
    λ h. ok_then (decode_component_envelope p encoded 6) _ h λ fields q h0.
        let (vs, n, fs, contained) = Contained-of_decode p patterns encoded 6 fields q in
        more_then 5 vs n λ v0 r0 e0 n0. more_then 4 r0 n0 λ v1 r1 e1 n1.
          more_then 3 r1 n1 λ v2 r2 e2 n2. more_then 2 r2 n2 λ v3 r3 e3 n3.
            more_then 1 r3 n3 λ v4 r4 e4 n4. more_then 0 r4 n4 λ v5 r5 e5 n5.
              let listed : vs ≡ v0 ∷ v1 ∷ v2 ∷ v3 ∷ v4 ∷ v5 ∷ [] = let last = no_more r5 n5 in cc in
              let read : read_signatures p fields purpose ≡ ok s = h0 in
              let (e, t) = values_of_signatures v0 v1 v2 v3 v4 v5 s (
                ap (λ x. read_signatures p (number_from 1 x) purpose) (sym listed)
                ∙ ap (λ x. read_signatures p x purpose) (sym fs)
                ∙ read) in
              then_pass _ _ _ t (
                (encode_component_envelope_iff p patterns (signature_values s) encoded).1
                  (subst (λ x. Contained p patterns encoded x) (listed ∙ e) contained)),
    λ h. pass_then (wrong_lengths p s) _ _ h λ t h0.
        let contained =
          (encode_component_envelope_iff p patterns (signature_values s) encoded).0 h0 in
        then_ok _ _
          (decode_component_envelope-Contained p patterns (signature_values s) encoded (omega arith)
            reads contained)
          (read_signatures-values s t),
  )
