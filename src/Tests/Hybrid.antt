-- ===== src/Tests/Hybrid.antt =====
-- The hybrid envelope on one credential.
use vcissuer.Prelude.{
  ℕ, zero, suc, ◌≤◌, ◌≡◌, ◌↔◌, refl, some, none, List, [], ◌∷◌, ◌++◌, length, arith,
}
use vcissuer.Text.{as_bytes}
use vcissuer.Outcome.{ok, err}
use vcissuer.Hybrid.{
  HybridContext, UnsignedEnvelope, EnvelopeSignatures, HybridPublicComponents,
  VerificationParameters, test_sd_jwt_wrapper_v1, validate_common, validate_for, build_tbs,
}
use vcissuer.Hybrid.Cbor.{Cbor}
use vcissuer.Hybrid.Injective.{HasTypes}
use vcissuer.Hybrid.Complete.{build_tbs_bounds}
use vcissuer.Hybrid.Envelope.{payload_value, envelope_value, encode, tbs}
use vcissuer.Hybrid.Decode.{decode, verify}
use vcissuer.Hybrid.Decode.RoundTrip.{decode-encode, encode-decode}
use vcissuer.Hybrid.Decode.Verified.{Genuine, verify-Genuine}
use vcissuer.Hybrid.Decode.Payload.{tbs_inj}
use vcissuer.Hybrid.Container.{
  public_key_fields, encode_public_key_envelope, decode_public_key_envelope, signature_fields,
  encode_signature_envelope, decode_signature_envelope,
}
use vcissuer.Hybrid.Container.Keys.{public_key_envelope_iff}
use vcissuer.Hybrid.Container.Signatures.{signature_envelope_iff}
use vcissuer.Tests.{platform}
use vcissuer.Tests.Codec.{Item, codec, patterns, reads_back, write}

unfoldable pub times : ℕ → List ℕ
times zero = []
times (suc n) = 7 ∷ times n

abbrev pub context : HybridContext
context = record {
  wallet_identity = 1 ∷ [];
  issuer_identity = some (2 ∷ []);
  key_generation = 3;
  transaction_id = some (4 ∷ []);
  session_id = none;
  audience = some (5 ∷ []);
  nonce = times 16;
  created_at_epoch_seconds = 100;
  expires_at_epoch_seconds = 200;
  transcript_hash = none;
}

abbrev pub unsigned : UnsignedEnvelope
unsigned = record {
  purpose = test_sd_jwt_wrapper_v1;
  context = context;
  payload = 6 ∷ 7 ∷ [];
  disclosures = (8 ∷ []) ∷ [];
  classical_kid = "c";
  pq_kid = "q";
  generation = 3;
}

abbrev pub signatures : EnvelopeSignatures
signatures = record { classical = times 64; post_quantum = times 3309 }

abbrev pub sealed : Item
sealed = envelope_value (codec []) unsigned signatures

abbrev pub cbor : Cbor
cbor = codec (sealed ∷ [])

abbrev pub encoded : List ℕ
encoded = as_bytes "EUWALLET-EXPERIMENTAL-HYBRID-PQ-V1\0" ++ write sealed

sealed_encodes : encode cbor unsigned signatures ≡ ok encoded
unfolding encode vcissuer.Hybrid.require_nonempty_bounded vcissuer.Text.as_bytes
    vcissuer.Text.is_empty vcissuer.Hybrid.id times vcissuer.Tests.Codec.write
    vcissuer.Tests.Codec.head vcissuer.Tests.Codec.count vcissuer.Tests.Codec.chain
    vcissuer.Tests.Codec.entry_chain
sealed_encodes = refl

sealed_decodes : decode cbor encoded test_sd_jwt_wrapper_v1 context ≡ ok (unsigned, signatures)
unfolding vcissuer.Hybrid.require_nonempty_bounded vcissuer.Text.as_bytes vcissuer.Text.is_empty
    vcissuer.Hybrid.id times vcissuer.Tests.Codec.write vcissuer.Tests.Codec.head
    vcissuer.Tests.Codec.count vcissuer.Tests.Codec.chain vcissuer.Tests.Codec.entry_chain
    vcissuer.Tests.Codec.items vcissuer.Tests.Codec.entries vcissuer.Tests.Codec.read decode
    vcissuer.Hybrid.Decode.strip_prefix vcissuer.Hybrid.Decode.canonical
    vcissuer.Hybrid.Decode.field_at vcissuer.Hybrid.Decode.integer_at vcissuer.Hybrid.Decode.text_at
    vcissuer.Hybrid.Decode.bytes_at vcissuer.Hybrid.Decode.same_purpose vcissuer.Hybrid.try_from
    vcissuer.Hybrid.Envelope.read_integer vcissuer.Hybrid.Envelope.read_text
    vcissuer.Hybrid.Envelope.read_bytes vcissuer.Hybrid.Envelope.byte_array
    vcissuer.Hybrid.Envelope.all_bytes vcissuer.Hybrid.Envelope.each_bounded
    vcissuer.Hybrid.Envelope.kid_bounded vcissuer.Hybrid.Envelope.wrong_lengths
sealed_decodes = refl

decode-encode_example :
    decode cbor encoded unsigned.purpose unsigned.context ≡ ok (unsigned, signatures)
decode-encode_example =
    decode-encode cbor (patterns (sealed ∷ [])) unsigned signatures encoded (omega arith)
      (reads_back sealed []) sealed_encodes

encode-decode_example :
    (encode cbor unsigned signatures ≡ ok encoded)
    × (unsigned.purpose ≡ test_sd_jwt_wrapper_v1)
    × (unsigned.context ≡ context)
    × unsigned.generation ≤ 18446744073709551615
encode-decode_example =
    encode-decode cbor (patterns (sealed ∷ [])) unsigned signatures encoded test_sd_jwt_wrapper_v1
      context sealed_decodes

abbrev parameters : VerificationParameters
parameters = record {
  purpose = test_sd_jwt_wrapper_v1;
  context = context;
  classical_kid = "c";
  pq_kid = "q";
  classical_public_key = 4 ∷ [];
  pq_public_key = 9 ∷ [];
  generation = 3;
}

sealed_verifies : verify cbor platform encoded parameters ≡ ok tt
unfolding verify tbs vcissuer.Hybrid.Envelope.committed_payload build_tbs vcissuer.Hybrid.encode_for
    validate_common validate_for vcissuer.Hybrid.validate_optional vcissuer.Hybrid.require_present
    vcissuer.Hybrid.require_absent vcissuer.Hybrid.append_component
    vcissuer.Hybrid.encode_context_field vcissuer.Hybrid.u32_to_be_bytes
    vcissuer.Hybrid.u64_to_be_bytes vcissuer.Hybrid.require_nonempty_bounded vcissuer.Text.as_bytes
    vcissuer.Text.is_empty vcissuer.Hybrid.id times vcissuer.Tests.Codec.write
    vcissuer.Tests.Codec.head vcissuer.Tests.Codec.count vcissuer.Tests.Codec.chain
    vcissuer.Tests.Codec.entry_chain vcissuer.Tests.Codec.items vcissuer.Tests.Codec.entries
    vcissuer.Tests.Codec.read decode vcissuer.Hybrid.Decode.strip_prefix
    vcissuer.Hybrid.Decode.canonical vcissuer.Hybrid.Decode.field_at
    vcissuer.Hybrid.Decode.integer_at vcissuer.Hybrid.Decode.text_at vcissuer.Hybrid.Decode.bytes_at
    vcissuer.Hybrid.Decode.same_purpose vcissuer.Hybrid.try_from
    vcissuer.Hybrid.Envelope.read_integer vcissuer.Hybrid.Envelope.read_text
    vcissuer.Hybrid.Envelope.read_bytes vcissuer.Hybrid.Envelope.byte_array
    vcissuer.Hybrid.Envelope.all_bytes vcissuer.Hybrid.Envelope.each_bounded
    vcissuer.Hybrid.Envelope.kid_bounded vcissuer.Hybrid.Envelope.wrong_lengths
sealed_verifies = refl

verify-Genuine_example :
    (u : UnsignedEnvelope) × (s : EnvelopeSignatures) × Genuine cbor platform encoded parameters u s
verify-Genuine_example =
    verify-Genuine cbor (patterns (sealed ∷ [])) platform encoded parameters sealed_verifies

abbrev signed : List ℕ
signed = elim (tbs cbor unsigned) [ ok t ↦ t | err e ↦ [] ]

context_types : HasTypes context
context_types = record {
  key_generation_u64 = omega arith;
  created_at_u64 = omega arith;
  expires_at_u64 = omega arith;
  transcript_length = tt;
}

abbrev committed : Item
committed = payload_value (codec []) unsigned

abbrev payload_codec : Cbor
payload_codec = codec (committed ∷ [])

-- The key identifiers are not signed.
abbrev renamed : UnsignedEnvelope
renamed = record unsigned { classical_kid = "another" }

signs_unsigned : tbs payload_codec unsigned ≡ ok signed
unfolding tbs vcissuer.Hybrid.Envelope.committed_payload build_tbs vcissuer.Hybrid.encode_for
    validate_common validate_for vcissuer.Hybrid.validate_optional vcissuer.Hybrid.require_present
    vcissuer.Hybrid.require_absent vcissuer.Hybrid.append_component
    vcissuer.Hybrid.encode_context_field vcissuer.Hybrid.u32_to_be_bytes
    vcissuer.Hybrid.u64_to_be_bytes vcissuer.Hybrid.require_nonempty_bounded vcissuer.Text.as_bytes
    vcissuer.Text.is_empty vcissuer.Hybrid.id times vcissuer.Tests.Codec.write
    vcissuer.Tests.Codec.head vcissuer.Tests.Codec.count vcissuer.Tests.Codec.chain
    vcissuer.Tests.Codec.entry_chain
signs_unsigned = refl

signs_renamed : tbs payload_codec renamed ≡ ok signed
unfolding tbs vcissuer.Hybrid.Envelope.committed_payload build_tbs vcissuer.Hybrid.encode_for
    validate_common validate_for vcissuer.Hybrid.validate_optional vcissuer.Hybrid.require_present
    vcissuer.Hybrid.require_absent vcissuer.Hybrid.append_component
    vcissuer.Hybrid.encode_context_field vcissuer.Hybrid.u32_to_be_bytes
    vcissuer.Hybrid.u64_to_be_bytes vcissuer.Hybrid.require_nonempty_bounded vcissuer.Text.as_bytes
    vcissuer.Text.is_empty vcissuer.Hybrid.id times vcissuer.Tests.Codec.write
    vcissuer.Tests.Codec.head vcissuer.Tests.Codec.count vcissuer.Tests.Codec.chain
    vcissuer.Tests.Codec.entry_chain
signs_renamed = refl

tbs_inj_example :
    (unsigned.purpose ≡ renamed.purpose)
    × (unsigned.context ≡ renamed.context)
    × (unsigned.payload ≡ renamed.payload)
    × (unsigned.disclosures ≡ renamed.disclosures)
tbs_inj_example =
    tbs_inj payload_codec unsigned renamed (patterns (committed ∷ [])) context_types context_types
      (reads_back committed []) (reads_back committed []) signs_unsigned signs_renamed

build_tbs_bounds_example :
    (((t : List ℕ) × (build_tbs test_sd_jwt_wrapper_v1 context (6 ∷ []) ≡ ok t)) ↔ (
      1 ≤ 4096
      × (validate_common context ≡ ok tt)
      × (validate_for test_sd_jwt_wrapper_v1 context ≡ ok tt)))
    × ((t : List ℕ) → build_tbs test_sd_jwt_wrapper_v1 context (6 ∷ []) ≡ ok t → length t ≤ 24864)
build_tbs_bounds_example = build_tbs_bounds test_sd_jwt_wrapper_v1 context (6 ∷ []) context_types

abbrev keys : HybridPublicComponents
keys = record { classical = 4 ∷ times 64; post_quantum = times 1952 }

abbrev held : Item
held = (codec []).map (public_key_fields (codec []) keys.classical keys.post_quantum)

abbrev key_codec : Cbor
key_codec = codec (held ∷ [])

abbrev key_container : List ℕ
key_container = as_bytes "EUWALLET-EXPERIMENTAL-HYBRID-PQ-V1\0" ++ write held

keys_encode :
    encode_public_key_envelope key_codec keys.classical keys.post_quantum ≡ ok key_container
unfolding encode_public_key_envelope vcissuer.Hybrid.require_nonempty_bounded vcissuer.Text.as_bytes
    vcissuer.Text.is_empty vcissuer.Hybrid.id times vcissuer.Tests.Codec.write
    vcissuer.Tests.Codec.head vcissuer.Tests.Codec.count vcissuer.Tests.Codec.chain
    vcissuer.Tests.Codec.entry_chain
keys_encode = refl

public_key_envelope_iff_example :
    (decode_public_key_envelope key_codec key_container ≡ ok keys)
    ↔ (encode_public_key_envelope key_codec keys.classical keys.post_quantum ≡ ok key_container)
unfolding public_key_fields
public_key_envelope_iff_example =
    public_key_envelope_iff key_codec (patterns (held ∷ [])) key_container keys (reads_back held [])

abbrev signed_item : Item
signed_item = (codec []).map (signature_fields (codec []) test_sd_jwt_wrapper_v1 signatures)

abbrev signature_codec : Cbor
signature_codec = codec (signed_item ∷ [])

abbrev signature_container : List ℕ
signature_container = as_bytes "EUWALLET-EXPERIMENTAL-HYBRID-PQ-V1\0" ++ write signed_item

signatures_encode :
    encode_signature_envelope signature_codec test_sd_jwt_wrapper_v1 signatures
    ≡ ok signature_container
unfolding encode_signature_envelope vcissuer.Hybrid.Envelope.wrong_lengths
    vcissuer.Hybrid.require_nonempty_bounded vcissuer.Text.as_bytes vcissuer.Text.is_empty
    vcissuer.Hybrid.id times vcissuer.Tests.Codec.write vcissuer.Tests.Codec.head
    vcissuer.Tests.Codec.count vcissuer.Tests.Codec.chain vcissuer.Tests.Codec.entry_chain
signatures_encode = refl

signature_envelope_iff_example :
    (decode_signature_envelope signature_codec signature_container test_sd_jwt_wrapper_v1
      ≡ ok signatures)
    ↔ (encode_signature_envelope signature_codec test_sd_jwt_wrapper_v1 signatures
        ≡ ok signature_container)
signature_envelope_iff_example =
    signature_envelope_iff signature_codec (patterns (signed_item ∷ [])) test_sd_jwt_wrapper_v1
      signature_container signatures (reads_back signed_item [])
