-- ===== src/Hybrid/Signer.antt =====
-- rust/issuer-service/src/hybrid_signer.rs: the signing identity of the hybrid envelope and the record
-- of its post-quantum key. The Keychain, AES-GCM, ML-DSA and the system's files are parameters.
pub mod Signs
pub mod Store
use Prim.Native.String.{String}
use text.Mathlib.Text.{◌==◌}
use vcissuer.Prelude.{
  ℕ, ◌+◌, ◌*◌, Bool, not, ◌||◌, Option, none, some, List, [], ◌∷◌, ◌++◌, length, drop, get_elem?,
  unwrap_or, saturating_add, if◌then◌else◌, ◌==◌ as nat_eq,
}
use vcissuer.Text.{as_bytes}
use vcissuer.Outcome.{Outcome, ok, err, deny_if, ok_or, ◌>>=◌, ◌>>◌}
use vcissuer.Tlsn.{same_bytes}
use vcissuer.Platform.{Platform}
use vcissuer.Attest.{range, u32_at}
use vcissuer.Hybrid.{UnsignedEnvelope, Coded, public_key_bytes, u64_to_be_bytes}
use vcissuer.Hybrid.Cbor.{Cbor}
use vcissuer.Hybrid.Envelope.{tbs, encode}

abbrev pub store_version : ℕ
store_version = 1

abbrev pub nonce_bytes : ℕ
nonce_bytes = 12

-- rust/issuer-service/src/pq_backend.rs
abbrev pub secret_key_bytes : ℕ
secret_key_bytes = 4032

-- The texts of the errors are left out.
pub data HybridSignerError : Type 0 where
  classical storage wrapping post_quantum envelope : HybridSignerError

-- The calls of other packages: the ES256 key in the Keychain, AES-256-GCM under a wrapping key and a
-- nonce, ML-DSA with fresh randomness, and the replacement of the file, which can fail.
pub record Custody : Type 0 where
  pub sign_es256 : List ℕ → Option (List ℕ)
  pub encrypt : List ℕ → List ℕ → List ℕ → Option (List ℕ)
  pub decrypt : List ℕ → List ℕ → List ℕ → Option (List ℕ)
  pub sign_once : List ℕ → List ℕ → Option (List ℕ)
  pub replaces : List ℕ → Bool

pub record HybridCredentialSigner : Type 0 where
  pub classical_kid : String
  pub classical_public_key : List ℕ
  pub pq_public_key : List ℕ
  pub pq_kid : String
  pub generation : ℕ
  pub wrapping_key : List ℕ

pub record StoredKey : Type 0 where
  pub generation : ℕ
  pub classical_kid_hash : List ℕ
  pub public_key : List ℕ
  pub secret_key : List ℕ

-- `u64::from_be_bytes` of the bytes at an index.
unfoldable pub u64_at : List ℕ → ℕ → ℕ
unfolding u32_at
u64_at bytes n = u32_at bytes n * 4294967296 + u32_at bytes (n + 4)

abbrev pub Kept {ℓ} : Type ℓ → Type ℓ
Kept A = Outcome HybridSignerError A

module _ (custody : Custody) where
  -- The record that the file holds when the call succeeds.
  unfoldable pub persist_key : List ℕ → ℕ → List ℕ → List ℕ → List ℕ → List ℕ → Kept (List ℕ)
  persist_key wrapping_key generation classical_kid_hash public_key secret_key nonce = do
    ciphertext ← ok_or (custody.encrypt wrapping_key nonce secret_key) wrapping
    let encoded : List ℕ =
        store_version
        ∷ (u64_to_be_bytes generation ++ classical_kid_hash ++ nonce ++ public_key ++ ciphertext)
    deny_if (not (custody.replaces encoded)) storage
    ok encoded

  -- The file, where there is one.
  unfoldable pub load_stored_key : Option (List ℕ) → List ℕ → Kept StoredKey
  unfolding u64_at
  load_stored_key file wrapping_key = do
    encoded ← ok_or file storage
    deny_if
        (not (
            nat_eq (length encoded)
              (1 + 8 + 32 + nonce_bytes + public_key_bytes + secret_key_bytes + 16))
          || not (nat_eq (unwrap_or (get_elem? encoded 0) 0) store_version))
        storage
    let public_start : ℕ = 41 + nonce_bytes
    let public_end : ℕ = public_start + public_key_bytes
    secret_key ←
        ok_or
          (custody.decrypt wrapping_key (range 41 public_start encoded) (drop public_end encoded))
          wrapping
    deny_if (not (nat_eq (length secret_key) secret_key_bytes)) storage
    ok (record {
      generation = u64_at encoded 1;
      classical_kid_hash = range 9 41 encoded;
      public_key = range public_start public_end encoded;
      secret_key = secret_key;
    })

  module _ {V : Type 0} (platform : Platform V) where
    -- The key that `find_or_create` makes where none is stored for the classical key: its generation
    -- follows that of the record that it replaces.
    pub replaced_key :
        HybridCredentialSigner
        → Option (List ℕ)
        → Option (List ℕ × List ℕ)
        → List ℕ
        → Kept (HybridCredentialSigner × Option (List ℕ))
    replaced_key signer file generated nonce = do
      (public_key, secret_key) ← ok_or generated post_quantum
      written ←
          persist_key signer.wrapping_key signer.generation
            (platform.sha256 (as_bytes signer.classical_kid)) public_key secret_key nonce
      ok (
        record signer {
          pq_public_key = public_key;
          pq_kid = platform.base64url_encode (platform.sha256 public_key);
        },
        some written,
      )

    -- The identity and the file that is left. The classical key and the wrapping key come from the
    -- Keychain, a new key pair and a nonce from the system's generator.
    unfoldable pub find_or_create :
        String
        → List ℕ
        → List ℕ
        → Option (List ℕ)
        → Option (List ℕ × List ℕ)
        → List ℕ
        → Kept (HybridCredentialSigner × Option (List ℕ))
    unfolding replaced_key
    find_or_create classical_kid classical_public_key wrapping_key none generated nonce =
        replaced_key
          (record {
            classical_kid = classical_kid;
            classical_public_key = classical_public_key;
            pq_public_key = [];
            pq_kid = "";
            generation = 1;
            wrapping_key = wrapping_key;
          })
          none generated nonce
    find_or_create classical_kid classical_public_key wrapping_key (some file) generated nonce = do
      stored ← load_stored_key (some file) wrapping_key
      let signer : HybridCredentialSigner = record {
        classical_kid = classical_kid;
        classical_public_key = classical_public_key;
        pq_public_key = stored.public_key;
        pq_kid = platform.base64url_encode (platform.sha256 stored.public_key);
        generation = stored.generation;
        wrapping_key = wrapping_key;
      }
      if same_bytes stored.classical_kid_hash (platform.sha256 (as_bytes classical_kid))
          then ok (signer, some file)
          else replaced_key (record signer { generation = saturating_add stored.generation 1 })
              (some file) generated nonce

    -- The stored key is that of the identity.
    unfoldable pub current_key : HybridCredentialSigner → Option (List ℕ) → Kept StoredKey
    current_key signer file = do
      stored ← load_stored_key file signer.wrapping_key
      deny_if
          (not (nat_eq stored.generation signer.generation)
            || not (same_bytes stored.public_key signer.pq_public_key)
            || not (
                same_bytes stored.classical_kid_hash
                  (platform.sha256 (as_bytes signer.classical_kid))))
          storage
      ok stored

    unfoldable pub sign_pq_raw : HybridCredentialSigner → Option (List ℕ) → List ℕ → Kept (List ℕ)
    unfolding current_key
    sign_pq_raw signer file message = do
      stored ← current_key signer file
      ok_or (custody.sign_once stored.secret_key message) post_quantum

    -- `map_err` of the codec's errors.
    pub enveloped : {A : Type 0} → Coded A → Kept A
    enveloped (ok a) = ok a
    enveloped (err e) = err envelope

    unfoldable pub sign_envelope :
        Cbor → HybridCredentialSigner → Option (List ℕ) → UnsignedEnvelope → Kept (List ℕ)
    unfolding enveloped current_key
    sign_envelope cbor signer file unsigned = do
      deny_if
          (not (unsigned.classical_kid == signer.classical_kid)
            || not (unsigned.pq_kid == signer.pq_kid)
            || not (nat_eq unsigned.generation signer.generation))
          envelope
      signed ← enveloped (tbs cbor unsigned)
      classical_signature ← ok_or (custody.sign_es256 signed) classical
      stored ← current_key signer file
      pq_signature ← ok_or (custody.sign_once stored.secret_key signed) post_quantum
      enveloped (
          encode cbor unsigned
            (record { classical = classical_signature; post_quantum = pq_signature }))
