-- ===== src/Hybrid/Decode/Verified.antt =====
-- What a verified envelope is, and what its signatures are for.
use package.text.Mathlib.Text.{◌==◌}
use package.text.Mathlib.TextEquality.{eq_iff}
use vcissuer.Prelude.{ℕ, ◌≡◌, true, not, ◌||◌, some, List, arith, ◌==◌ as nat_eq}
use vcissuer.Platform.{Platform}
use vcissuer.Outcome.{ok, ok_then, some_then, pass_then}
use vcissuer.Hybrid.{UnsignedEnvelope, EnvelopeSignatures, VerificationParameters}
use vcissuer.Hybrid.Cbor.{Cbor, Patterns}
use vcissuer.Hybrid.Envelope.{encode, tbs}
use vcissuer.Hybrid.Decode.{decode, verify, verify_signatures}
use vcissuer.Hybrid.Decode.RoundTrip.{encode-decode}

-- Bytes that are the one encoding of an envelope for the parameters, with two signatures over the
-- bytes that the envelope signs: one by each key.
pub record Genuine {V : Type 0} (p : Cbor) (platform : Platform V) (encoded : List ℕ)
    (parameters : VerificationParameters) (u : UnsignedEnvelope) (s : EnvelopeSignatures)
    : Type 0 where
  pub encoding : encode p u s ≡ ok encoded
  pub purpose_matches : u.purpose ≡ parameters.purpose
  pub context_matches : u.context ≡ parameters.context
  pub generation_matches : u.generation ≡ parameters.generation
  pub key_generation_matches : u.context.key_generation ≡ parameters.generation
  pub classical_kid_matches : u.classical_kid ≡ parameters.classical_kid
  pub pq_kid_matches : u.pq_kid ≡ parameters.pq_kid
  pub signed : List ℕ
  pub signs : tbs p u ≡ ok signed
  pub key : platform.VerifyingKey
  pub key_read : platform.key_from_sec1_bytes parameters.classical_public_key ≡ some key
  pub signature : platform.Signature
  pub signature_read : platform.signature_from_slice s.classical ≡ some signature
  pub classical_verifies : platform.verify key signed signature ≡ true
  pub pq_verifies : platform.ml_dsa_verify parameters.pq_public_key signed s.post_quantum ≡ true

module _ {V : Type 0} (p : Cbor) (patterns : Patterns p) (platform : Platform V) (encoded : List ℕ)
    (parameters : VerificationParameters) where
  -- Bytes verify only if they are the encoding of an envelope with the purpose, the context, the
  -- generation and the key identifiers of the parameters, and both of its signatures verify over the
  -- same bytes: neither algorithm can be left out.
  pub verify-Genuine :
      verify p platform encoded parameters ≡ ok tt
      → (u : UnsignedEnvelope) × (s : EnvelopeSignatures) × Genuine p platform encoded parameters u
          s
  unfolding verify verify_signatures
  verify-Genuine h =
      ok_then (decode p encoded parameters.purpose parameters.context) _ h λ found q h0.
        let (u, s) = found in
        pass_then
          (not (nat_eq u.generation parameters.generation)
            || not (nat_eq u.context.key_generation parameters.generation))
          _ _ h0
          λ t1 h1.
            pass_then
              (not (u.classical_kid == parameters.classical_kid)
                || not (u.pq_kid == parameters.pq_kid))
              _ _ h1
              λ t2 h2. ok_then (tbs p u) _ h2 λ message signing h3.
                some_then (platform.key_from_sec1_bytes parameters.classical_public_key) _ _ h3
                  λ k kq h4.
                    some_then (platform.signature_from_slice s.classical) _ _ h4 λ sig sq h5.
                      pass_then (not (platform.verify k message sig)) _ _ h5 λ t3 h6.
                        let (e, same, same', small) =
                          encode-decode p patterns u s encoded parameters.purpose parameters.context
                            q in
                        (
                          u,
                          s,
                          record {
                            encoding = e;
                            purpose_matches = same;
                            context_matches = same';
                            generation_matches = ground arith;
                            key_generation_matches = ground arith;
                            classical_kid_matches = (eq_iff _ _).0 (ground arith);
                            pq_kid_matches = (eq_iff _ _).0 (ground arith);
                            signed = message;
                            signs = signing;
                            key = k;
                            key_read = kq;
                            signature = sig;
                            signature_read = sq;
                            classical_verifies = ground arith;
                            pq_verifies = ground arith;
                          },
                        )
