-- ===== src/Hybrid/Decode.antt =====
-- rust/issuer-service/src/hybrid_codec.rs: `decode` and `verify`.
pub mod Fields
pub mod Contents
pub mod RoundTrip
pub mod Verified
pub mod Payload
use Prim.Native.String.{String, len}
use text.Mathlib.Text.{◌==◌}
use vcissuer.Prelude.{
  ℕ, zero, suc, ◌+◌, ◌≡◌, refl, Bool, true, false, not, ◌&&◌, ◌||◌, Option, none, some, List, [],
  ◌∷◌, ◌++◌, map, any, length, ltb, if◌then◌else◌, ◌==◌ as nat_eq,
}
use vcissuer.Text.{as_bytes, is_empty}
use vcissuer.Outcome.{Outcome, ok, err, deny_if, ok_or, ◌>>=◌, ◌>>◌}
use vcissuer.Tlsn.{same_bytes}
use vcissuer.Platform.{Platform}
use vcissuer.Hybrid.{
  HybridPurpose, wallet_export_v1, wallet_recovery_v1, private_provider_message_v1,
  test_sd_jwt_wrapper_v1, test_mdoc_wrapper_v1, HybridContext, UnsignedEnvelope, EnvelopeSignatures,
  VerificationParameters, HybridCodecError, oversized, malformed, duplicate_field, non_canonical,
  unsupported, missing, generation_mismatch, classical_signature, post_quantum_signature, Coded,
  version, profile, format, envelope_magic, max_envelope_bytes, max_key_id_bytes, signature_bytes,
  id, try_from, require_nonempty_bounded, build_tbs,
}
use vcissuer.Hybrid.Cbor.{Cbor}
use vcissuer.Hybrid.Envelope.{
  read_integer, read_text, read_bytes, byte_array, each_bounded, kid_bounded, wrong_lengths, tbs,
}

-- `strip_prefix`, and `starts_with` with the slice after it.
unfoldable pub strip_prefix : List ℕ → List ℕ → Option (List ℕ)
strip_prefix [] whole = some whole
strip_prefix (b ∷ prefix) [] = none
strip_prefix (b ∷ prefix) (c ∷ whole) =
    let rest = strip_prefix prefix whole in if nat_eq b c then rest else none

module _ (p : Cbor) where
  open p use {Value, as_map, into_writer, from_reader}

  -- One value that takes up the whole body and is written as it was read.
  unfoldable pub canonical : List ℕ → Coded Value
  canonical body = do
    (value, position) ← ok_or (from_reader body) malformed
    deny_if (not (nat_eq position (length body))) non_canonical
    written ← ok_or (into_writer value) malformed
    deny_if (not (same_bytes written body)) non_canonical
    ok value

  -- The keys that were seen, and the entries: each key is a number that was not seen before.
  keyed_from : List ℕ → List (Value × Value) → Coded (List (ℕ × Value))
  keyed_from seen [] = ok []
  keyed_from seen ((key, value) ∷ entries) = read_integer p key >>= λ number.
      deny_if (any (λ n. nat_eq n number) seen) duplicate_field
      >> (keyed_from (number ∷ seen) entries >>= λ rest. ok ((number, value) ∷ rest))

  -- The keys count up from the first.
  counts_from : ℕ → List (ℕ × Value) → Bool
  counts_from n [] = true
  counts_from n ((key, value) ∷ entries) = nat_eq key n && counts_from (n + 1) entries

  pub read_fields : Value → ℕ → Coded (List (ℕ × Value))
  unfolding keyed_from counts_from
  read_fields value count = do
    entries ← ok_or (as_map value) malformed
    fields ← keyed_from [] entries
    deny_if (not (nat_eq (length fields) count) || not (counts_from 1 fields)) missing
    ok fields

  -- `&fields[n].1`, which the count of the fields has made safe.
  unfoldable pub field_at : List (ℕ × Value) → ℕ → Coded Value
  field_at [] n = err missing
  field_at ((key, value) ∷ fields) zero = ok value
  field_at ((key, value) ∷ fields) (suc n) = field_at fields n

  unfoldable pub integer_at : List (ℕ × Value) → ℕ → Coded ℕ
  integer_at fields n = field_at fields n >>= read_integer p

  unfoldable pub text_at : List (ℕ × Value) → ℕ → Coded String
  text_at fields n = field_at fields n >>= read_text p

  unfoldable pub bytes_at : List (ℕ × Value) → ℕ → Coded (List ℕ)
  bytes_at fields n = field_at fields n >>= read_bytes p

  -- `PartialEq` of the purposes.
  unfoldable pub same_purpose : HybridPurpose → HybridPurpose → Bool
  same_purpose wallet_export_v1 wallet_export_v1 = true
  same_purpose wallet_recovery_v1 wallet_recovery_v1 = true
  same_purpose private_provider_message_v1 private_provider_message_v1 = true
  same_purpose test_sd_jwt_wrapper_v1 test_sd_jwt_wrapper_v1 = true
  same_purpose test_mdoc_wrapper_v1 test_mdoc_wrapper_v1 = true
  same_purpose _ _ = false

  pub read_envelope :
      List (ℕ × Value)
      → HybridPurpose
      → HybridContext
      → Coded (UnsignedEnvelope × EnvelopeSignatures)
  unfolding field_at integer_at text_at bytes_at same_purpose
  read_envelope fields expected_purpose context = do
    envelope_version ← integer_at fields 0
    envelope_profile ← text_at fields 1
    purpose_id ← text_at fields 2
    purpose ← try_from purpose_id
    envelope_format ← text_at fields 3
    deny_if
        (not (nat_eq envelope_version version)
          || not (envelope_profile == profile)
          || not (same_purpose purpose expected_purpose)
          || not (envelope_format == format))
        unsupported
    payload ← bytes_at fields 4
    require_nonempty_bounded payload
    disclosures ← (field_at fields 5 >>= byte_array p)
    each_bounded p disclosures
    classical_kid ← text_at fields 6
    pq_kid ← text_at fields 7
    kid_bounded p classical_kid
    kid_bounded p pq_kid
    generation ← integer_at fields 8
    deny_if (nat_eq generation 0) generation_mismatch
    classical ← bytes_at fields 9
    post_quantum ← bytes_at fields 10
    let unsigned : UnsignedEnvelope = record {
      purpose = purpose;
      context = context;
      payload = payload;
      disclosures = disclosures;
      classical_kid = classical_kid;
      pq_kid = pq_kid;
      generation = generation;
    }
    let signatures : EnvelopeSignatures = record {
      classical = classical;
      post_quantum = post_quantum;
    }
    deny_if (wrong_lengths p signatures) missing
    ok (unsigned, signatures)

  unfoldable pub decode :
      List ℕ → HybridPurpose → HybridContext → Coded (UnsignedEnvelope × EnvelopeSignatures)
  unfolding canonical read_fields read_envelope
  decode encoded expected_purpose context = do
    deny_if (ltb max_envelope_bytes (length encoded)) oversized
    body ← ok_or (strip_prefix (as_bytes envelope_magic) encoded) oversized
    value ← canonical body
    fields ← read_fields value 11
    read_envelope fields expected_purpose context

  -- The envelope as it was decoded, and the bytes that both signatures are for.
  verify_signatures :
      {V : Type 0}
      → Platform V
      → VerificationParameters
      → List ℕ
      → EnvelopeSignatures
      → Coded (Unit {0})
  verify_signatures platform parameters signed signatures = do
    classical_key ←
        ok_or (platform.key_from_sec1_bytes parameters.classical_public_key) classical_signature
    signature ← ok_or (platform.signature_from_slice signatures.classical) classical_signature
    deny_if (not (platform.verify classical_key signed signature)) classical_signature
    deny_if (not (platform.ml_dsa_verify parameters.pq_public_key signed signatures.post_quantum))
        post_quantum_signature

  unfoldable pub verify :
      {V : Type 0} → Platform V → List ℕ → VerificationParameters → Coded (Unit {0})
  unfolding verify_signatures
  verify platform encoded parameters = do
    (unsigned, signatures) ← decode encoded parameters.purpose parameters.context
    deny_if
        (not (nat_eq unsigned.generation parameters.generation)
          || not (nat_eq unsigned.context.key_generation parameters.generation))
        generation_mismatch
    deny_if
        (not (unsigned.classical_kid == parameters.classical_kid)
          || not (unsigned.pq_kid == parameters.pq_kid))
        generation_mismatch
    signed ← tbs p unsigned
    verify_signatures platform parameters signed signatures
