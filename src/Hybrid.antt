-- ===== src/Hybrid.antt =====
-- rust/issuer-service/src/hybrid_codec.rs: the types of the private hybrid envelope, its constants,
-- and the bytes that both of its signatures sign.
pub mod Purposes
pub mod Bounds
pub mod Tbs
pub mod Injective
pub mod Complete
pub mod Cbor
pub mod Envelope
pub mod Decode
pub mod Container
pub mod Signer
use Prim.Native.String.{String}
use text.Mathlib.Text.{◌==◌}
use vcissuer.Prelude.{
  ℕ, ◌+◌, ◌*◌, ◌/◌, ◌%◌, Bool, true, false, not, ◌&&◌, ◌||◌, Option, none, some, List, [], ◌∷◌,
  ◌++◌, length, ltb, leb, is_some, is_none, if◌then◌else◌, ◌==◌ as nat_eq,
}
use vcissuer.Text.{as_bytes}
use vcissuer.Outcome.{Outcome, ok, err, deny_if, ◌>>=◌, ◌>>◌}

abbrev pub version : ℕ
version = 1

abbrev pub profile : String
profile = "euwallet-hybrid-pq-v1"

abbrev pub test_sd_jwt_purpose : String
test_sd_jwt_purpose = "test-sd-jwt-wrapper-v1"

abbrev pub format : String
format = "dev-hybrid-pq+cbor"

abbrev pub domain : String
domain = "EUWALLET-HYBRID-SIGNATURE-V1"

abbrev pub context_domain : String
context_domain = "EUWALLET-HYBRID-CONTEXT-V1"

abbrev pub envelope_magic : String
envelope_magic = "EUWALLET-EXPERIMENTAL-HYBRID-PQ-V1\0"

abbrev pub max_envelope_bytes : ℕ
max_envelope_bytes = 65536

abbrev pub max_component_envelope_bytes : ℕ
max_component_envelope_bytes = 8192

abbrev pub max_field_bytes : ℕ
max_field_bytes = 4096

abbrev pub max_key_id_bytes : ℕ
max_key_id_bytes = 128

abbrev pub min_nonce_bytes : ℕ
min_nonce_bytes = 16

abbrev pub max_nonce_bytes : ℕ
max_nonce_bytes = 64

-- rust/issuer-service/src/pq_backend.rs
abbrev pub public_key_bytes : ℕ
public_key_bytes = 1952

abbrev pub signature_bytes : ℕ
signature_bytes = 3309

pub data HybridPurpose : Type 0 where
  wallet_export_v1 wallet_recovery_v1 private_provider_message_v1 : HybridPurpose
  test_sd_jwt_wrapper_v1 test_mdoc_wrapper_v1 : HybridPurpose

pub data HybridCodecError : Type 0 where
  oversized length_overflow malformed duplicate_field non_canonical : HybridCodecError
  unsupported missing generation_mismatch classical_signature : HybridCodecError
  post_quantum_signature : HybridCodecError

abbrev pub Coded {ℓ} : Type ℓ → Type ℓ
Coded A = Outcome HybridCodecError A

-- `HybridPurpose::id`.
unfoldable pub id : HybridPurpose → String
id HybridPurpose.wallet_export_v1 = "wallet-export-v1"
id HybridPurpose.wallet_recovery_v1 = "wallet-recovery-v1"
id HybridPurpose.private_provider_message_v1 = "private-provider-message-v1"
id HybridPurpose.test_sd_jwt_wrapper_v1 = test_sd_jwt_purpose
id HybridPurpose.test_mdoc_wrapper_v1 = "test-mdoc-wrapper-v1"

-- `HybridPurpose::try_from`.
unfoldable pub try_from : String → Coded HybridPurpose
try_from value =
    if value == "wallet-export-v1"
    then ok wallet_export_v1
    else if value == "wallet-recovery-v1"
    then ok wallet_recovery_v1
    else if value == "private-provider-message-v1"
    then ok private_provider_message_v1
    else if value == test_sd_jwt_purpose
    then ok test_sd_jwt_wrapper_v1
    else if value == "test-mdoc-wrapper-v1"
    then ok test_mdoc_wrapper_v1
    else err unsupported

pub record HybridContext : Type 0 where
  pub wallet_identity : List ℕ
  pub issuer_identity : Option (List ℕ)
  pub key_generation : ℕ
  pub transaction_id : Option (List ℕ)
  pub session_id : Option (List ℕ)
  pub audience : Option (List ℕ)
  pub nonce : List ℕ
  pub created_at_epoch_seconds : ℕ
  pub expires_at_epoch_seconds : ℕ
  pub transcript_hash : Option (List ℕ)

pub record UnsignedEnvelope : Type 0 where
  pub purpose : HybridPurpose
  pub context : HybridContext
  pub payload : List ℕ
  pub disclosures : List (List ℕ)
  pub classical_kid : String
  pub pq_kid : String
  pub generation : ℕ

pub record EnvelopeSignatures : Type 0 where
  pub classical : List ℕ
  pub post_quantum : List ℕ

pub record HybridPublicComponents : Type 0 where
  pub classical : List ℕ
  pub post_quantum : List ℕ

pub record VerificationParameters : Type 0 where
  pub purpose : HybridPurpose
  pub context : HybridContext
  pub classical_kid : String
  pub pq_kid : String
  pub classical_public_key : List ℕ
  pub pq_public_key : List ℕ
  pub generation : ℕ

-- `Vec::is_empty`.
abbrev pub no_bytes : {A : Type 0} → List A → Bool
no_bytes [] = true
no_bytes (b ∷ rest) = false

unfoldable pub require_nonempty_bounded : List ℕ → Coded (Unit {0})
require_nonempty_bounded value = do
  deny_if (no_bytes value) malformed
  deny_if (ltb max_field_bytes (length value)) oversized

unfoldable pub validate_optional : Option (List ℕ) → Coded (Unit {0})
validate_optional none = ok tt
validate_optional (some value) = require_nonempty_bounded value

unfoldable pub require_present : {A : Type 0} → Option A → Coded (Unit {0})
require_present value = deny_if (is_none value) missing

unfoldable pub require_absent : {A : Type 0} → Option A → Coded (Unit {0})
require_absent value = deny_if (is_some value) unsupported

-- `u32::to_be_bytes` and `u64::to_be_bytes`.
unfoldable pub u32_to_be_bytes : ℕ → List ℕ
u32_to_be_bytes n = (n / 16777216 % 256) ∷ (n / 65536 % 256) ∷ (n / 256 % 256) ∷ (n % 256) ∷ []

unfoldable pub u64_to_be_bytes : ℕ → List ℕ
unfolding u32_to_be_bytes
u64_to_be_bytes n = u32_to_be_bytes (n / 4294967296) ++ u32_to_be_bytes (n % 4294967296)

-- The output so far and the component: `u32::try_from` fails above the greatest `u32`.
unfoldable pub append_component : List ℕ → List ℕ → Coded (List ℕ)
append_component output component = do
  deny_if (ltb 4294967295 (length component)) length_overflow
  ok (output ++ u32_to_be_bytes (length component) ++ component)

unfoldable pub encode_context_field : List ℕ → ℕ → Option (List ℕ) → Coded (List ℕ)
encode_context_field output tag none = append_component (output ++ (tag ∷ [])) []
encode_context_field output tag (some value) = append_component (output ++ (tag ∷ [])) value

unfoldable pub validate_common : HybridContext → Coded (Unit {0})
validate_common context = do
  require_nonempty_bounded context.wallet_identity
  validate_optional context.issuer_identity
  validate_optional context.transaction_id
  validate_optional context.session_id
  validate_optional context.audience
  deny_if (nat_eq context.key_generation 0) generation_mismatch
  deny_if
      (not
          (leb min_nonce_bytes (length context.nonce) && leb (length context.nonce) max_nonce_bytes)
        || leb context.expires_at_epoch_seconds context.created_at_epoch_seconds)
      malformed

-- The transcript is required where there is a session.
session_with_transcript : HybridContext → Coded (Unit {0})
session_with_transcript context =
    if is_some context.session_id then require_present context.transcript_hash else ok tt

credential_fields : HybridContext → Coded (Unit {0})
unfolding session_with_transcript
credential_fields context = do
  require_present context.issuer_identity
  require_present context.transaction_id
  require_present context.audience
  session_with_transcript context

wallet_fields : HybridContext → Coded (Unit {0})
wallet_fields context = do
  require_absent context.issuer_identity
  require_absent context.transaction_id
  require_absent context.session_id
  require_absent context.audience
  require_absent context.transcript_hash

unfoldable pub validate_for : HybridPurpose → HybridContext → Coded (Unit {0})
unfolding wallet_fields credential_fields
validate_for HybridPurpose.wallet_export_v1 context = wallet_fields context
validate_for HybridPurpose.wallet_recovery_v1 context = wallet_fields context
validate_for HybridPurpose.private_provider_message_v1 context = do
  require_present context.session_id
  require_present context.audience
  require_present context.transcript_hash
validate_for HybridPurpose.test_sd_jwt_wrapper_v1 context = credential_fields context
validate_for HybridPurpose.test_mdoc_wrapper_v1 context = credential_fields context

unfoldable pub encode_for : HybridPurpose → HybridContext → Coded (List ℕ)
encode_for purpose context = do
  validate_common context
  validate_for purpose context
  with_wallet ← encode_context_field (as_bytes context_domain) 1 (some context.wallet_identity)
  with_issuer ← encode_context_field with_wallet 2 context.issuer_identity
  with_key ← encode_context_field with_issuer 3 (some (u64_to_be_bytes context.key_generation))
  with_transaction ← encode_context_field with_key 4 context.transaction_id
  with_session ← encode_context_field with_transaction 5 context.session_id
  with_audience ← encode_context_field with_session 6 context.audience
  with_nonce ← encode_context_field with_audience 7 (some context.nonce)
  with_creation ←
      encode_context_field with_nonce 8 (some (u64_to_be_bytes context.created_at_epoch_seconds))
  with_expiry ←
      encode_context_field with_creation 9 (some (u64_to_be_bytes context.expires_at_epoch_seconds))
  encode_context_field with_expiry 10 context.transcript_hash

unfoldable pub build_tbs : HybridPurpose → HybridContext → List ℕ → Coded (List ℕ)
build_tbs purpose context payload = do
  deny_if (ltb max_field_bytes (length payload)) oversized
  encoded_context ← encode_for purpose context
  with_profile ← append_component (as_bytes domain) (as_bytes profile)
  with_purpose ← append_component with_profile (as_bytes (id purpose))
  with_context ← append_component with_purpose encoded_context
  append_component with_context payload
