-- ===== src/Hybrid/Container/Keys.antt =====
-- The container of the two public keys.
use mathlib.Core.Path.{subst}
use vcissuer.Prelude.{ℕ, ◌≡◌, refl, sym, ap, ◌∙◌, ◌↔◌, false, List, [], ◌∷◌, arith}
use vcissuer.Outcome.{ok, ok_then, pass_then, then_ok, then_pass, then_done}
use vcissuer.Hybrid.{HybridPublicComponents, version, profile}
use vcissuer.Hybrid.Cbor.{Cbor, Patterns, ReadsBack}
use vcissuer.Hybrid.Envelope.{read_bytes}
use vcissuer.Hybrid.Decode.Fields.{number_from}
use vcissuer.Hybrid.Decode.Contents.{read_bytes_iff, more_then, no_more}
use vcissuer.Hybrid.Container.{
  decode_component_envelope, expect_header, wrong_keys, read_keys, public_key_fields,
  encode_public_key_envelope, decode_public_key_envelope,
}
use vcissuer.Hybrid.Container.Inverse.{
  Contained, encode_component_envelope_iff, decode_component_envelope-Contained,
  Contained-of_decode, expect_header_iff,
}

module _ (p : Cbor) (patterns : Patterns p) where
  abbrev key_values : HybridPublicComponents → List p.Value
  key_values keys =
      p.integer version
      ∷ p.integer 1
      ∷ p.text profile
      ∷ p.bytes keys.classical
      ∷ p.bytes keys.post_quantum
      ∷ []

  values_of_keys :
      (v0 v1 v2 v3 v4 : p.Value) (keys : HybridPublicComponents)
      → let vs : List p.Value = v0 ∷ v1 ∷ v2 ∷ v3 ∷ v4 ∷ [] in
        read_keys p (number_from 1 vs) ≡ ok keys
        → (vs ≡ key_values keys) × (wrong_keys p keys.classical keys.post_quantum ≡ false)
  unfolding read_keys
  values_of_keys v0 v1 v2 v3 v4 keys h =
      ok_then (expect_header p (number_from 1 (v0 ∷ v1 ∷ v2 ∷ v3 ∷ v4 ∷ [])) 1) _ h λ _ header h0.
        ok_then (read_bytes p v3) _ h0 λ a3 q3 h1. ok_then (read_bytes p v4) _ h1 λ a4 q4 h2.
          pass_then (wrong_keys p a3 a4) _ _ h2 λ t h3.
            let (e0, e1, e2) =
              (expect_header_iff p patterns 1 v0 v1 v2 (v3 ∷ v4 ∷ []) (omega arith)).0 header in
            let e3 = (read_bytes_iff p patterns v3 a3).0 q3 in
            let e4 = (read_bytes_iff p patterns v4 a4).0 q4 in
            let found : HybridPublicComponents = record { classical = a3; post_quantum = a4 } in
            let same : found ≡ keys = cc in
            let vs : List p.Value = v0 ∷ v1 ∷ v2 ∷ v3 ∷ v4 ∷ [] in
            subst (λ x. (vs ≡ key_values x) × (wrong_keys p x.classical x.post_quantum ≡ false))
              same (cc, t)

  read_keys-values :
      (keys : HybridPublicComponents)
      → wrong_keys p keys.classical keys.post_quantum ≡ false
      → read_keys p (number_from 1 (key_values keys)) ≡ ok keys
  unfolding read_keys
  read_keys-values keys t =
      then_done _ _
        ((expect_header_iff p patterns 1 _ _ _
            (p.bytes keys.classical ∷ p.bytes keys.post_quantum ∷ []) (omega arith)).1
          (refl, refl, refl))
        (then_ok _ _ ((read_bytes_iff p patterns (p.bytes keys.classical) keys.classical).1 refl) (
          then_ok _ _
            ((read_bytes_iff p patterns (p.bytes keys.post_quantum) keys.post_quantum).1 refl)
            (then_pass _ _ _ t refl)))

  -- Bytes are read as two keys exactly if they are the encoding of the two keys. The package reads back
  -- what it wrote for them.
  pub public_key_envelope_iff :
      (encoded : List ℕ) (keys : HybridPublicComponents)
      → ReadsBack p (p.map (public_key_fields p keys.classical keys.post_quantum))
      → (decode_public_key_envelope p encoded ≡ ok keys)
        ↔ (encode_public_key_envelope p keys.classical keys.post_quantum ≡ ok encoded)
  unfolding decode_public_key_envelope encode_public_key_envelope
  public_key_envelope_iff encoded keys reads = (
    λ h. ok_then (decode_component_envelope p encoded 5) _ h λ fields q h0.
        let (vs, n, fs, contained) = Contained-of_decode p patterns encoded 5 fields q in
        more_then 4 vs n λ v0 r0 e0 n0. more_then 3 r0 n0 λ v1 r1 e1 n1.
          more_then 2 r1 n1 λ v2 r2 e2 n2. more_then 1 r2 n2 λ v3 r3 e3 n3.
            more_then 0 r3 n3 λ v4 r4 e4 n4.
              let listed : vs ≡ v0 ∷ v1 ∷ v2 ∷ v3 ∷ v4 ∷ [] = let last = no_more r4 n4 in cc in
              let read : read_keys p fields ≡ ok keys = h0 in
              let (e, t) = values_of_keys v0 v1 v2 v3 v4 keys (
                ap (λ x. read_keys p (number_from 1 x)) (sym listed)
                ∙ ap (read_keys p) (sym fs)
                ∙ read) in
              then_pass _ _ _ t (
                (encode_component_envelope_iff p patterns (key_values keys) encoded).1
                  (subst (λ x. Contained p patterns encoded x) (listed ∙ e) contained)),
    λ h. pass_then (wrong_keys p keys.classical keys.post_quantum) _ _ h λ t h0.
        let contained = (encode_component_envelope_iff p patterns (key_values keys) encoded).0 h0 in
        then_ok _ _
          (decode_component_envelope-Contained p patterns (key_values keys) encoded (omega arith)
            reads contained)
          (read_keys-values keys t),
  )
