-- ===== src/Proof/Dpop.antt =====
-- rust/issuer-service/src/main.rs: `verify_dpop`.
pub mod Sound
use Prim.Native.String.{String, len}
use text.Mathlib.Text.{◌==◌}
use vcissuer.Prelude.{
  ℕ, ◌-◌, Bool, not, ◌&&◌, ◌||◌, Option, length, ltb, saturating_add, ◌==◌ as nat_eq,
}
use vcissuer.Text.{is_empty, trim_end_slashes}
use vcissuer.Oauth.{OauthError, oauth_error, Result, ok, ◌>>=◌, ◌>>◌, deny_if, ok_or}
use vcissuer.Platform.{Platform}
use vcissuer.Proof.Jws.{compact_parts, signing_input, thumbprint, unix_time}

pub record VerifiedDpop : Type 0 where
  pub jkt : String
  pub jti : String

unfoldable pub dpop_error : String → OauthError
dpop_error what = oauth_error 400 "invalid_dpop_proof" what

module _ {V : Type 0} (p : Platform V) where
  open p use {
    base64url_decode, dpop_header_from_slice, key_from_coordinates, signature_from_slice, verify,
    dpop_claims_from_slice,
  }

  -- The proof, the method and the URL that are expected, and the clock.
  unfoldable pub verify_dpop : String → String → String → Option ℕ → Result VerifiedDpop
  verify_dpop proof expected_method expected_uri clock = do
    (encoded, encoded_claims, encoded_signature) ←
        ok_or (compact_parts proof) (dpop_error "DPoP proof must be a three-part compact JWS")
    decoded ← ok_or (base64url_decode encoded) (dpop_error "malformed protected header")
    header ← ok_or (dpop_header_from_slice decoded) (dpop_error "protected header is not JSON")
    deny_if (not (header.alg == "ES256") || not (header.typ == "dpop+jwt"))
        (dpop_error "DPoP protected header must use typ=dpop+jwt and alg=ES256")
    deny_if (not (header.jwk.kty == "EC") || not (header.jwk.crv == "P-256"))
        (dpop_error "DPoP jwk must be an EC P-256 public key")
    x ← ok_or (base64url_decode header.jwk.x) (dpop_error "DPoP jwk x coordinate is malformed")
    y ← ok_or (base64url_decode header.jwk.y) (dpop_error "DPoP jwk y coordinate is malformed")
    deny_if (not (nat_eq (length x) 32) || not (nat_eq (length y) 32))
        (dpop_error "DPoP P-256 coordinates must be 32 octets")
    key ← ok_or (key_from_coordinates x y) (dpop_error "DPoP jwk is not a valid P-256 point")
    signature_bytes ←
        ok_or (base64url_decode encoded_signature) (dpop_error "DPoP signature is malformed")
    signature ←
        ok_or (signature_from_slice signature_bytes)
          (dpop_error "DPoP signature must be an ES256 signature")
    deny_if (not (verify key (signing_input encoded encoded_claims) signature))
        (dpop_error "DPoP signature verification failed")
    claims_bytes ← ok_or (base64url_decode encoded_claims) (dpop_error "DPoP claims are malformed")
    claims ←
        ok_or (dpop_claims_from_slice claims_bytes) (dpop_error "DPoP claims are not valid JSON")
    deny_if
        (not (claims.htm == expected_method)
          || not (trim_end_slashes claims.htu == trim_end_slashes expected_uri))
        (dpop_error "DPoP htm or htu does not match this request")
    deny_if (is_empty claims.jti || ltb 256 (len claims.jti))
        (dpop_error "DPoP jti is missing or too long")
    now ← unix_time clock
    deny_if (ltb (saturating_add now 5) claims.iat || ltb 60 (now - claims.iat))
        (dpop_error "DPoP iat is outside the accepted freshness window")
    ok (record { jkt = thumbprint p header.jwk; jti = claims.jti })
