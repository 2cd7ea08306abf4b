-- ===== src/Hybrid/Signer/Signs.antt =====
-- What a signing identity signs, put to `verify`.
use text.Mathlib.Text.{◌==◌}
use vcissuer.Prelude.{ℕ, ◌≡◌, true, Option, some, List, ◌==◌ as nat_eq}
use vcissuer.Platform.{Platform}
use vcissuer.Outcome.{ok}
use vcissuer.Hybrid.{UnsignedEnvelope, VerificationParameters}
use vcissuer.Hybrid.Cbor.{Cbor}
use vcissuer.Hybrid.Decode.{verify}
use vcissuer.Hybrid.Signer.{Custody, HybridCredentialSigner, StoredKey, load_stored_key}

-- What a verifier knows of the identity.
abbrev pub parameters_of : HybridCredentialSigner → UnsignedEnvelope → VerificationParameters
parameters_of signer u = record {
  purpose = u.purpose;
  context = u.context;
  classical_kid = signer.classical_kid;
  pq_kid = signer.pq_kid;
  classical_public_key = signer.classical_public_key;
  pq_public_key = signer.pq_public_key;
  generation = signer.generation;
}

-- ES256 signatures of the Keychain's key verify under its public key.
abbrev pub ClassicalKey : {V : Type 0} → Custody → Platform V → HybridCredentialSigner → Type 0
ClassicalKey custody platform signer =
    (message raw : List ℕ)
    → custody.sign_es256 message ≡ some raw
    → (key : platform.VerifyingKey) × (signature : platform.Signature)
      × (platform.key_from_sec1_bytes signer.classical_public_key ≡ some key)
      × (platform.signature_from_slice raw ≡ some signature)
      × (platform.verify key message signature ≡ true)

-- The secret and the public key that the file holds are a pair.
abbrev pub StoredPair :
    {V : Type 0} → Custody → Platform V → HybridCredentialSigner → Option (List ℕ) → Type 0
StoredPair custody platform signer file =
    (stored : StoredKey)
    → load_stored_key custody file signer.wrapping_key ≡ ok stored
    → (message raw : List ℕ) → custody.sign_once stored.secret_key message ≡ some raw
    → platform.ml_dsa_verify stored.public_key message raw ≡ true
