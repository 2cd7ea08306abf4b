-- ===== src/Hybrid/Container.antt =====
-- rust/issuer-service/src/hybrid_codec.rs: the standalone containers of the two public keys and of the
-- two signatures.
pub mod Inverse
pub mod Keys
pub mod Signatures
use Prim.Native.String.{String}
use text.Mathlib.Text.{◌==◌}
use vcissuer.Prelude.{
  ℕ, ◌+◌, Bool, true, false, not, ◌||◌, List, [], ◌∷◌, ◌++◌, length, ltb, ◌==◌ as nat_eq,
}
use vcissuer.Text.{as_bytes}
use vcissuer.Outcome.{ok, deny_if, ok_or, ◌>>=◌, ◌>>◌}
use vcissuer.Hybrid.{
  HybridPurpose, EnvelopeSignatures, HybridPublicComponents, oversized, malformed, duplicate_field,
  unsupported, missing, Coded, version, profile, envelope_magic, max_component_envelope_bytes,
  public_key_bytes, id, try_from,
}
use vcissuer.Hybrid.Cbor.{Cbor}
use vcissuer.Hybrid.Envelope.{pair, read_integer, wrong_lengths}
use vcissuer.Hybrid.Decode.{
  strip_prefix, canonical, integer_at, text_at, bytes_at, same_purpose, field_at,
}

module _ (p : Cbor) where
  open p use {Value, as_map, into_writer}

  pub encode_component_envelope : List (Value × Value) → Coded (List ℕ)
  encode_component_envelope fields = do
    body ← ok_or (into_writer (p.map fields)) malformed
    deny_if (ltb max_component_envelope_bytes (length (as_bytes envelope_magic ++ body))) oversized
    ok (as_bytes envelope_magic ++ body)

  -- Each key is one more than its index.
  indexed_from : ℕ → List (Value × Value) → Coded (List (ℕ × Value))
  indexed_from n [] = ok []
  indexed_from n ((key, value) ∷ entries) = read_integer p key >>= λ number.
      deny_if (not (nat_eq number n)) duplicate_field
      >> (indexed_from (n + 1) entries >>= λ rest. ok ((number, value) ∷ rest))

  pub decode_component_envelope : List ℕ → ℕ → Coded (List (ℕ × Value))
  unfolding indexed_from
  decode_component_envelope encoded expected_fields = do
    deny_if (ltb max_component_envelope_bytes (length encoded)) oversized
    body ← ok_or (strip_prefix (as_bytes envelope_magic) encoded) malformed
    value ← canonical p body
    entries ← ok_or (as_map value) malformed
    deny_if (not (nat_eq (length entries) expected_fields)) missing
    indexed_from 1 entries

  -- The version, the kind and the profile: a field is read only where those before it are right.
  pub expect_header : List (ℕ × Value) → ℕ → Coded (Unit {0})
  unfolding field_at integer_at text_at
  expect_header fields kind = do
    container_version ← integer_at p fields 0
    deny_if (not (nat_eq container_version version)) unsupported
    container_kind ← integer_at p fields 1
    deny_if (not (nat_eq container_kind kind)) unsupported
    container_profile ← text_at p fields 2
    deny_if (not (container_profile == profile)) unsupported

  -- An uncompressed point of 65 bytes that begins with 4, and an ML-DSA-65 key.
  is_uncompressed : List ℕ → Bool
  is_uncompressed [] = false
  is_uncompressed (b ∷ rest) = nat_eq b 4

  pub wrong_keys : List ℕ → List ℕ → Bool
  unfolding is_uncompressed
  wrong_keys classical post_quantum =
      not (nat_eq (length classical) 65)
      || not (is_uncompressed classical)
      || not (nat_eq (length post_quantum) public_key_bytes)

  abbrev pub public_key_fields : List ℕ → List ℕ → List (Value × Value)
  public_key_fields classical post_quantum =
      pair p 1 (p.integer version)
      ∷ pair p 2 (p.integer 1)
      ∷ pair p 3 (p.text profile)
      ∷ pair p 4 (p.bytes classical)
      ∷ pair p 5 (p.bytes post_quantum)
      ∷ []

  unfoldable pub encode_public_key_envelope : List ℕ → List ℕ → Coded (List ℕ)
  unfolding wrong_keys encode_component_envelope
  encode_public_key_envelope classical post_quantum = do
    deny_if (wrong_keys classical post_quantum) malformed
    encode_component_envelope (public_key_fields classical post_quantum)

  pub read_keys : List (ℕ × Value) → Coded HybridPublicComponents
  unfolding field_at bytes_at
  read_keys fields = do
    expect_header fields 1
    classical ← bytes_at p fields 3
    post_quantum ← bytes_at p fields 4
    deny_if (wrong_keys classical post_quantum) malformed
    ok (record { classical = classical; post_quantum = post_quantum })

  unfoldable pub decode_public_key_envelope : List ℕ → Coded HybridPublicComponents
  unfolding read_keys expect_header wrong_keys decode_component_envelope
  decode_public_key_envelope encoded = do
    fields ← decode_component_envelope encoded 5
    read_keys fields

  abbrev pub signature_fields : HybridPurpose → EnvelopeSignatures → List (Value × Value)
  signature_fields purpose signatures =
      pair p 1 (p.integer version)
      ∷ pair p 2 (p.integer 2)
      ∷ pair p 3 (p.text profile)
      ∷ pair p 4 (p.bytes signatures.classical)
      ∷ pair p 5 (p.bytes signatures.post_quantum)
      ∷ pair p 6 (p.text (id purpose))
      ∷ []

  unfoldable pub encode_signature_envelope : HybridPurpose → EnvelopeSignatures → Coded (List ℕ)
  unfolding encode_component_envelope
  encode_signature_envelope purpose signatures = do
    deny_if (wrong_lengths p signatures) missing
    encode_component_envelope (signature_fields purpose signatures)

  pub read_signatures : List (ℕ × Value) → HybridPurpose → Coded EnvelopeSignatures
  unfolding field_at text_at bytes_at
  read_signatures fields expected_purpose = do
    purpose_id ← text_at p fields 5
    purpose ← try_from purpose_id
    expect_header fields 2
    deny_if (not (same_purpose p purpose expected_purpose)) unsupported
    classical ← bytes_at p fields 3
    post_quantum ← bytes_at p fields 4
    let signatures : EnvelopeSignatures = record {
      classical = classical;
      post_quantum = post_quantum;
    }
    deny_if (wrong_lengths p signatures) missing
    ok signatures

  unfoldable pub decode_signature_envelope : List ℕ → HybridPurpose → Coded EnvelopeSignatures
  unfolding read_signatures expect_header decode_component_envelope
  decode_signature_envelope encoded expected_purpose = do
    fields ← decode_component_envelope encoded 6
    read_signatures fields expected_purpose
