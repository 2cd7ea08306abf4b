-- ===== src/Proof/Jws.antt =====
-- rust/issuer-service/src/main.rs: compact JWS parts, P-256 JWKs with their thumbprints,
-- `verify_jws_payload`, `verifying_key_and_jwk`, `hash_u128` and `unix_time`.
use Prim.Native.String.{String, ◌++◌}
use text.Mathlib.Text.{◌==◌}
use vcissuer.Prelude.{
  ℕ, zero, suc, ◌+◌, ◌*◌, not, ◌||◌, Option, none, some, List, [], ◌∷◌, length, and_then,
  ◌==◌ as nat_eq,
}
use vcissuer.Text.{as_bytes, split}
use vcissuer.Oauth.{OauthError, oauth_error, Result, ok, ◌>>=◌, ◌>>◌, deny_if, ok_or}
use vcissuer.Platform.{Platform, EcJwk}

-- `split('.')` where it has exactly three pieces.
unfoldable pub three_parts : List String → Option (String × String × String)
three_parts (header ∷ claims ∷ signature ∷ []) = some (header, claims, signature)
three_parts _ = none

unfoldable pub compact_parts : String → Option (String × String × String)
compact_parts jws = three_parts (split b'.' jws)

-- What is signed: the first two parts with the dot between them.
abbrev pub signing_input : String → String → List ℕ
signing_input header claims = as_bytes (header ++ ("." ++ claims))

-- The canonical JSON of a P-256 key, and its thumbprint.
abbrev pub canonical_jwk : EcJwk → String
canonical_jwk jwk =
    "{\"crv\":\"P-256\",\"kty\":\"EC\",\"x\":\"" ++ (jwk.x ++ ("\",\"y\":\"" ++ (jwk.y ++ "\"}")))

abbrev pub take_bytes : ℕ → List ℕ → List ℕ
take_bytes zero bytes = []
take_bytes (suc n) [] = []
take_bytes (suc n) (b ∷ bytes) = b ∷ take_bytes n bytes

-- `u128::from_be_bytes`.
abbrev pub from_be_bytes : ℕ → List ℕ → ℕ
from_be_bytes acc [] = acc
from_be_bytes acc (b ∷ bytes) = from_be_bytes (acc * 256 + b) bytes

-- `unix_time`: a clock before the epoch has no reading.
unfoldable pub unix_time : Option ℕ → Result ℕ
unix_time clock =
    ok_or clock (oauth_error 500 "server_error" "system clock is before the Unix epoch")

module _ {V : Type 0} (p : Platform V) where
  open p use {
    VerifyingKey, base64url_decode, base64url_encode, sha256, signature_from_slice,
    key_from_coordinates, verify, value_from_slice, ec_jwk_value,
  }

  abbrev pub thumbprint : EcJwk → String
  thumbprint jwk = base64url_encode (sha256 (as_bytes (canonical_jwk jwk)))

  unfoldable pub hash_u128 : String → ℕ
  hash_u128 value = from_be_bytes 0 (take_bytes 16 (sha256 (as_bytes value)))

  unfoldable pub verifying_key_and_jwk : EcJwk → String → Result (VerifyingKey × String × V)
  verifying_key_and_jwk jwk error_code = do
    deny_if (not (jwk.kty == "EC") || not (jwk.crv == "P-256"))
        (oauth_error 400 error_code "JWK must be an EC P-256 public key")
    x ← ok_or (base64url_decode jwk.x) (oauth_error 400 error_code "JWK x is malformed")
    y ← ok_or (base64url_decode jwk.y) (oauth_error 400 error_code "JWK y is malformed")
    deny_if (not (nat_eq (length x) 32) || not (nat_eq (length y) 32))
        (oauth_error 400 error_code "P-256 coordinates must be 32 octets")
    key ←
        ok_or (key_from_coordinates x y)
          (oauth_error 400 error_code "JWK is not a valid P-256 point")
    ok (key, thumbprint jwk, ec_jwk_value jwk.x jwk.y)

  jws_error : String → String → OauthError
  jws_error label what = oauth_error 400 "invalid_proof" (label ++ what)

  unfoldable pub verify_jws_payload : String → VerifyingKey → String → Result V
  unfolding compact_parts jws_error
  verify_jws_payload compact key label = do
    (header, claims, sig) ← ok_or (compact_parts compact) (jws_error label " is not a compact JWS")
    signature ←
        ok_or (and_then (base64url_decode sig) signature_from_slice)
          (jws_error label " signature is malformed")
    deny_if (not (verify key (signing_input header claims) signature))
        (jws_error label " signature is invalid")
    payload ← ok_or (base64url_decode claims) (jws_error label " payload is malformed")
    ok_or (value_from_slice payload) (jws_error label " payload is not JSON")
