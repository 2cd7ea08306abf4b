-- ===== src/Tlsn.antt =====
-- rust/issuer-service/src/main.rs: `verify_tlsn_artifact` and `reserve_tlsn_session`.
pub mod Sound
use Prim.Native.String.{String, len}
use text.Mathlib.Text.{◌==◌}
use vcissuer.Prelude.{
  ℕ, ◌-◌, Bool, not, ◌&&◌, ◌||◌, Option, none, some, List, [], ◌∷◌, length, ltb, saturating_add,
  and_then, unwrap_or, if◌then◌else◌, true, false, ◌==◌ as nat_eq,
}
use vcissuer.Text.{is_empty}
use vcissuer.Oauth.{OauthError, oauth_error, Result, ok, err, ◌>>=◌, ◌>>◌, deny_if, ok_or}
use vcissuer.Platform.{Platform, TlsnArtifactPayload}
use vcissuer.Table.{add}

pub record SignedTlsnArtifact (V : Type 0) : Type 0 where
  pub payload : TlsnArtifactPayload V
  pub algorithm : String
  pub public_key : String
  pub signature : String
  pub pq_algorithm : Option String
  pub pq_public_key : Option String
  pub pq_signature : Option String

pub record VerifiedTlsnEvidence (V : Type 0) : Type 0 where
  pub session_id : String
  pub issued_at : ℕ
  pub verifier_output : V

abbrev pub tlsn_artifact_version : String
tlsn_artifact_version = "tlsn.notary-artifact.v1"

abbrev pub max_tlsn_artifact_bytes : ℕ
max_tlsn_artifact_bytes = 262144

abbrev pub tlsn_evidence_lifetime_seconds : ℕ
tlsn_evidence_lifetime_seconds = 300

abbrev pub same_bytes : List ℕ → List ℕ → Bool
same_bytes [] [] = true
same_bytes (a ∷ xs) (b ∷ ys) = nat_eq a b && same_bytes xs ys
same_bytes _ _ = false

unfoldable pub evidence_error : ℕ → String → OauthError
evidence_error status what = oauth_error status "invalid_evidence" what

module _ {V : Type 0} (p : Platform V) where
  open p use {
    base64url_decode, signature_from_slice, key_from_sec1_bytes, verify, ml_dsa_verify,
    payload_to_vec,
  }

  is_ml_dsa : Option String → Bool
  is_ml_dsa none = false
  is_ml_dsa (some algorithm) = algorithm == "ML-DSA-65"

  -- The second signature, where a key for it is configured.
  verify_pq : SignedTlsnArtifact V → List ℕ → Option (List ℕ) → Result (Unit {0})
  unfolding is_ml_dsa
  verify_pq artifact message none = ok tt
  verify_pq artifact message (some pq_key) = do
    deny_if (not (is_ml_dsa artifact.pq_algorithm)) (
        evidence_error 400
          "a post-quantum notary signature is required but missing or of an unknown algorithm")
    embedded_pq_key ←
        ok_or (base64url_decode (unwrap_or artifact.pq_public_key ""))
          (evidence_error 400 "TLSNotary post-quantum public key is malformed")
    deny_if
        (not (nat_eq (length embedded_pq_key) (length pq_key))
          || not (same_bytes embedded_pq_key pq_key))
        (evidence_error 403
          "TLSNotary artifact was not post-quantum signed by the configured notary")
    pq_signature ←
        ok_or (base64url_decode (unwrap_or artifact.pq_signature ""))
          (evidence_error 400 "TLSNotary post-quantum signature is malformed")
    deny_if (not (ml_dsa_verify pq_key message pq_signature))
        (evidence_error 403 "TLSNotary post-quantum signature verification failed")

  -- The artifact, the key of the trusted notary, its post-quantum key and the time.
  unfoldable pub verify_tlsn_artifact :
      SignedTlsnArtifact V → List ℕ → Option (List ℕ) → ℕ → Result (VerifiedTlsnEvidence V)
  unfolding verify_pq
  verify_tlsn_artifact artifact trusted_key trusted_pq_key now = do
    deny_if
        (not (artifact.payload.version == tlsn_artifact_version)
          || not (artifact.algorithm == "ES256"))
        (evidence_error 400 "unsupported TLSNotary artifact version or algorithm")
    deny_if
        (is_empty artifact.payload.session_id
          || ltb 256 (len artifact.payload.session_id)
          || ltb (saturating_add now 5) artifact.payload.issued_at
          || ltb tlsn_evidence_lifetime_seconds (now - artifact.payload.issued_at))
        (evidence_error 400
          "TLSNotary artifact is stale, future-dated, or has an invalid session identifier")
    message ←
        ok_or (payload_to_vec artifact.payload)
          (evidence_error 400 "TLSNotary artifact payload cannot be encoded")
    deny_if (ltb max_tlsn_artifact_bytes (length message))
        (evidence_error 413 "TLSNotary artifact exceeds the accepted size")
    embedded_key ←
        ok_or (base64url_decode artifact.public_key)
          (evidence_error 400 "TLSNotary public key is malformed")
    deny_if (not (same_bytes embedded_key trusted_key))
        (evidence_error 403 "TLSNotary artifact was not signed by the configured notary")
    signature_bytes ←
        ok_or (base64url_decode artifact.signature)
          (evidence_error 400 "TLSNotary signature is malformed")
    signature ←
        ok_or (signature_from_slice signature_bytes)
          (evidence_error 400 "TLSNotary signature has an invalid length")
    key ←
        ok_or (key_from_sec1_bytes trusted_key)
          (oauth_error 500 "server_error" "configured TLSNotary key is invalid")
    deny_if (not (verify key message signature))
        (evidence_error 403 "TLSNotary artifact signature verification failed")
    verify_pq artifact message trusted_pq_key
    ok (record {
      session_id = artifact.payload.session_id;
      issued_at = artifact.payload.issued_at;
      verifier_output = artifact.payload.verifier_output;
    })

-- The set of sessions is returned beside the outcome.
unfoldable pub reserve_tlsn_session : List String → String → Result (Unit {0}) × List String
unfolding add
reserve_tlsn_session sessions session_id =
    let (fresh, sessions') = add session_id sessions in
    if fresh then (ok tt, sessions') else (
      err (
          oauth_error 409 "invalid_request"
            "TLSNotary session has already created an issuance offer"),
      sessions',
    )
