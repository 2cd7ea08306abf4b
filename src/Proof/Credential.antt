-- ===== src/Proof/Credential.antt =====
-- rust/issuer-service/src/main.rs: `verify_credential_proof`.
pub mod Sound
use Prim.Native.String.{String, len}
use text.Mathlib.Text.{◌==◌}
use vcissuer.Prelude.{ℕ, ◌-◌, not, ◌||◌, Option, ltb, saturating_add}
use vcissuer.Text.{is_empty, trim_end_slashes}
use vcissuer.Oauth.{OauthError, oauth_error, Result, ok, ◌>>=◌, ◌>>◌, deny_if, ok_or}
use vcissuer.Platform.{Platform}
use vcissuer.Proof.Jws.{compact_parts, signing_input, verifying_key_and_jwk, unix_time}

pub record VerifiedCredentialProof (V : Type 0) : Type 0 where
  pub holder_jkt : String
  pub holder_jwk : V
  pub nonce : String

unfoldable pub proof_error : String → OauthError
proof_error what = oauth_error 400 "invalid_proof" what

module _ {V : Type 0} (p : Platform V) where
  open p use {
    base64url_decode, dpop_header_from_slice, signature_from_slice, verify, proof_claims_from_slice,
  }

  -- The proof, the issuer's URL and the clock.
  unfoldable pub verify_credential_proof :
      String → String → Option ℕ → Result (VerifiedCredentialProof V)
  verify_credential_proof proof issuer clock = do
    (encoded, encoded_claims, encoded_signature) ←
        ok_or (compact_parts proof)
          (proof_error "credential proof must be a three-part compact JWS")
    header_bytes ←
        ok_or (base64url_decode encoded) (proof_error "credential proof header is malformed")
    header ←
        ok_or (dpop_header_from_slice header_bytes)
          (proof_error "credential proof header is not valid JSON")
    deny_if (not (header.alg == "ES256") || not (header.typ == "openid4vci-proof+jwt"))
        (proof_error "credential proof must use typ=openid4vci-proof+jwt and alg=ES256")
    (verifying_key, jkt, jwk) ← verifying_key_and_jwk p header.jwk "invalid_proof"
    signature_bytes ←
        ok_or (base64url_decode encoded_signature)
          (proof_error "credential proof signature is malformed")
    signature ←
        ok_or (signature_from_slice signature_bytes)
          (proof_error "credential proof signature must be ES256")
    deny_if (not (verify verifying_key (signing_input encoded encoded_claims) signature))
        (proof_error "credential proof signature verification failed")
    claims_bytes ←
        ok_or (base64url_decode encoded_claims)
          (proof_error "credential proof claims are malformed")
    claims ←
        ok_or (proof_claims_from_slice claims_bytes)
          (proof_error "credential proof claims are not valid JSON")
    deny_if (not (trim_end_slashes claims.aud == trim_end_slashes issuer))
        (proof_error "credential proof audience does not match the issuer")
    now ← unix_time clock
    deny_if (ltb (saturating_add now 5) claims.iat || ltb 300 (now - claims.iat))
        (proof_error "credential proof iat is outside the accepted freshness window")
    deny_if (is_empty claims.nonce || ltb 256 (len claims.nonce))
        (proof_error "credential proof nonce is missing or too long")
    ok (record { holder_jkt = jkt; holder_jwk = jwk; nonce = claims.nonce })
