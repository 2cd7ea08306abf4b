-- ===== src/Hybrid/Envelope.antt =====
-- rust/issuer-service/src/hybrid_codec.rs: `tbs`, `encode` and what they share with `decode`.
use Prim.Native.String.{String}
use vcissuer.Prelude.{ℕ, Bool, not, ◌||◌, List, [], ◌∷◌, ◌++◌, map, length, ltb, ◌==◌ as nat_eq}
use vcissuer.Text.{as_bytes, is_empty}
use vcissuer.Outcome.{ok, deny_if, ok_or, ◌>>=◌, ◌>>◌}
use vcissuer.Hybrid.{
  UnsignedEnvelope, EnvelopeSignatures, oversized, malformed, missing, generation_mismatch, Coded,
  version, profile, format, envelope_magic, max_envelope_bytes, max_key_id_bytes, signature_bytes,
  id, require_nonempty_bounded, build_tbs,
}
use vcissuer.Hybrid.Cbor.{Cbor}

module _ (p : Cbor) where
  open p use {Value, as_integer, as_text, as_array, into_writer}

  abbrev pub pair : ℕ → Value → Value × Value
  pair key value = (p.integer key, value)

  unfoldable pub read_integer : Value → Coded ℕ
  read_integer value = ok_or (as_integer value) malformed

  unfoldable pub read_text : Value → Coded String
  read_text value = ok_or (as_text value) malformed

  unfoldable pub read_bytes : Value → Coded (List ℕ)
  read_bytes value = ok_or (p.as_bytes value) malformed

  unfoldable pub all_bytes : List Value → Coded (List (List ℕ))
  all_bytes [] = ok []
  all_bytes (value ∷ values) =
      read_bytes value >>= λ first. all_bytes values >>= λ rest. ok (first ∷ rest)

  unfoldable pub byte_array : Value → Coded (List (List ℕ))
  unfolding all_bytes
  byte_array value = do values ← ok_or (as_array value) malformed; all_bytes values

  abbrev pub payload_value : UnsignedEnvelope → Value
  payload_value unsigned =
      p.map (
        pair 1 (p.bytes unsigned.payload)
        ∷ pair 2 (p.array (map p.bytes unsigned.disclosures))
        ∷ [])

  unfoldable pub committed_payload : UnsignedEnvelope → Coded (List ℕ)
  committed_payload unsigned = ok_or (into_writer (payload_value unsigned)) malformed

  unfoldable pub tbs : UnsignedEnvelope → Coded (List ℕ)
  unfolding committed_payload
  tbs unsigned = do
    payload ← committed_payload unsigned
    build_tbs unsigned.purpose unsigned.context payload

  unfoldable pub each_bounded : List (List ℕ) → Coded (Unit {0})
  each_bounded [] = ok tt
  each_bounded (disclosure ∷ rest) = require_nonempty_bounded disclosure >> each_bounded rest

  unfoldable pub kid_bounded : String → Coded (Unit {0})
  kid_bounded kid = do
    deny_if (is_empty kid) malformed
    deny_if (ltb max_key_id_bytes (length (as_bytes kid))) oversized

  abbrev pub envelope_value : UnsignedEnvelope → EnvelopeSignatures → Value
  envelope_value unsigned signatures = p.map (
      pair 1 (p.integer version)
      ∷ pair 2 (p.text profile)
      ∷ pair 3 (p.text (id unsigned.purpose))
      ∷ pair 4 (p.text format)
      ∷ pair 5 (p.bytes unsigned.payload)
      ∷ pair 6 (p.array (map p.bytes unsigned.disclosures))
      ∷ pair 7 (p.text unsigned.classical_kid)
      ∷ pair 8 (p.text unsigned.pq_kid)
      ∷ pair 9 (p.integer unsigned.generation)
      ∷ pair 10 (p.bytes signatures.classical)
      ∷ pair 11 (p.bytes signatures.post_quantum)
      ∷ [])

  -- What `encode` and `decode` both require of the two signatures and of the envelope.
  unfoldable pub wrong_lengths : EnvelopeSignatures → Bool
  wrong_lengths signatures =
      not (nat_eq (length signatures.classical) 64)
      || not (nat_eq (length signatures.post_quantum) signature_bytes)

  unfoldable pub encode : UnsignedEnvelope → EnvelopeSignatures → Coded (List ℕ)
  unfolding wrong_lengths each_bounded kid_bounded
  encode unsigned signatures = do
    deny_if (wrong_lengths signatures) missing
    require_nonempty_bounded unsigned.payload
    each_bounded unsigned.disclosures
    kid_bounded unsigned.classical_kid
    kid_bounded unsigned.pq_kid
    deny_if (nat_eq unsigned.generation 0) generation_mismatch
    body ← ok_or (into_writer (envelope_value unsigned signatures)) malformed
    deny_if (ltb max_envelope_bytes (length (as_bytes envelope_magic ++ body))) oversized
    ok (as_bytes envelope_magic ++ body)
