-- ===== src/Tests.antt =====
-- Inputs for the tests: a platform of plain functions, a configuration and a whole issuance.
pub mod Kernel
pub mod Gate
pub mod Proofs
pub mod Flow
pub mod Orders
pub mod Replay
pub mod Codec
pub mod Hybrid
pub mod Signer
pub mod Attest
pub mod Capture
use Prim.Native.String.{String, ◌++◌}
use text.Mathlib.Text.{◌==◌}
use vcissuer.Prelude.{
  ℕ, Bool, true, false, Option, none, some, List, [], ◌∷◌, length, ltb, if◌then◌else◌,
  ◌==◌ as nat_eq,
}
use vcissuer.Text.{as_bytes}
use vcissuer.Platform.{
  Platform, EcJwk, DpopHeader, DpopClaims, CredentialProofClaims, BindingProofClaims,
  EmrtdEvidenceClaims, TlsnArtifactPayload,
}
use vcissuer.Profile.{pid_vct}
use vcissuer.Proof.Pid.{PidBindingObject}
use vcissuer.Gate.{KernelTokens}
use vcissuer.Tlsn.{SignedTlsnArtifact}
use vcissuer.State.{Config}
use vcissuer.Endpoint.Par.{ParRequest}
use vcissuer.Endpoint.Authorize.{AuthorizationRequest}
use vcissuer.Endpoint.Token.{TokenRequest}
use vcissuer.Endpoint.Credential.{CredentialInput}

abbrev first_byte : List ℕ → ℕ
first_byte [] = 0
first_byte (b ∷ bytes) = b

abbrev jwk : EcJwk
jwk = record {
  kty = "EC";
  crv = "P-256";
  x = "0123456789abcdef0123456789abcdef";
  y = "fedcba9876543210fedcba9876543210";
}

-- A header that begins with `d` is of a DPoP proof, another of a credential proof.
abbrev header_of : List ℕ → Option DpopHeader
header_of bytes = some (record {
  alg = "ES256";
  typ = if nat_eq (first_byte bytes) 100 then "dpop+jwt" else "openid4vci-proof+jwt";
  jwk = jwk;
})

-- Claims that begin with `t` are for the token endpoint, and those with `x` have the same identifier.
abbrev dpop_claims_of : List ℕ → Option DpopClaims
dpop_claims_of bytes =
    if nat_eq (first_byte bytes) 116
    then some (record { htm = "POST"; htu = "https://i/token"; iat = 100; jti = "t" })
    else some (record {
      htm = "POST";
      htu = "https://i/credential";
      iat = 100;
      jti = if nat_eq (first_byte bytes) 120 then "t" else "c";
    })

abbrev value_of : List ℕ → Option String
value_of bytes =
    if nat_eq (first_byte bytes) 102
    then some "f"
    else if nat_eq (first_byte bytes) 103
    then some "g"
    else if nat_eq (first_byte bytes) 98
    then some "b"
    else some "payload"

abbrev text_of : String → Option String
text_of s = if s == "vct" then some pid_vct else if s == "iss" then some "https://i" else some s

abbrev number_of : String → Option ℕ
number_of s = if s == "nbf" then some 50 else if s == "exp" then some 200 else none

abbrev array_of : String → Option (List String)
array_of s =
    if s == "f"
    then some ("salt" ∷ "family_name" ∷ "Mustermann" ∷ [])
    else if s == "g"
    then some ("salt" ∷ "given_name" ∷ "Erika" ∷ [])
    else if s == "b"
    then some ("salt" ∷ "birthdate" ∷ "1990-01-01" ∷ [])
    else some ("digest" ∷ [])

abbrev binding_claims : BindingProofClaims
binding_claims = record {
  aud = "https://i";
  iat = 100;
  nonce = "n";
  jti = "binding";
  pid_sd_hash = "digest";
  new_holder_jkt = "digest";
}

abbrev chip_claims : EmrtdEvidenceClaims
chip_claims = record {
  aud = "https://i";
  iat = 100;
  exp = 200;
  nonce = "n";
  jti = "chip";
  new_holder_jkt = "digest";
  passive_authentication = true;
  chip_authentic = true;
  liveness = record { assurance = "iproov:gpa"; matched_portrait = true };
  mrz = record {
    family_name = "Mustermann";
    given_name = "Erika";
    birthdate = "1990-01-01";
    nationality = "D";
    issuing_country = "D";
    document_number = "1";
    date_of_expiry = "2030-01-01";
  };
  portrait = none;
}

-- Base64 is the text itself, a hash the bytes themselves, and every signature with a byte verifies.
abbrev pub platform : Platform String
platform = record {
  VerifyingKey = List ℕ;
  Signature = List ℕ;
  base64url_decode = λ s. some (as_bytes s);
  base64url_encode = λ bytes. "digest";
  sha256 = λ bytes. bytes;
  signature_from_slice = λ bytes. some bytes;
  key_from_sec1_bytes = λ bytes. some bytes;
  key_from_coordinates = λ x y. some x;
  verify = λ key message signature. ltb 0 (length signature);
  ml_dsa_verify = λ key message signature. ltb 0 (length signature);
  dpop_header_from_slice = header_of;
  dpop_claims_from_slice = dpop_claims_of;
  proof_claims_from_slice = λ bytes. some (record { aud = "https://i"; iat = 100; nonce = "n" });
  value_from_slice = value_of;
  emrtd_claims_from_value = λ v. some chip_claims;
  binding_claims_from_value = λ v. some binding_claims;
  ec_jwk_from_value = λ v. some jwk;
  payload_to_vec = λ payload. some (1 ∷ []);
  ec_jwk_value = λ x y. x;
  get = λ v name. some name;
  pointer = λ v path. some path;
  as_str = text_of;
  as_u64 = number_of;
  as_array = array_of;
  url_join = λ base path. base ++ path;
  url_append_pair = λ url name value. url ++ ("?" ++ (name ++ ("=" ++ value)));
  date_from_unix_timestamp = λ now. some (2026, 1, 1);
}

abbrev pub config : Config String
config = record {
  issuer = "https://i/";
  trusted_notary_key = as_bytes "k";
  trusted_notary_pq_key = some (as_bytes "q");
  trusted_emrtd_reader_key = some (as_bytes "r");
  hybrid_pq_enabled = true;
  hybrid_signer_present = true;
  pid_issuer_jwk = "jwk";
}

abbrev pub artifact : SignedTlsnArtifact String
artifact = record {
  payload = record {
    version = "tlsn.notary-artifact.v1";
    session_id = "session";
    issued_at = 100;
    verifier_output = "output";
  };
  algorithm = "ES256";
  public_key = "k";
  signature = "s";
  pq_algorithm = some "ML-DSA-65";
  pq_public_key = some "q";
  pq_signature = some "s";
}

abbrev pub clock : Option ℕ
clock = some 100

abbrev pub par_request : String → Option String → ParRequest
par_request scope issuer_state = record {
  client_id = "wallet";
  redirect_uri = "https://w/";
  response_type = "code";
  scope = scope;
  state = none;
  code_challenge = "digest";
  code_challenge_method = "S256";
  issuer_state = issuer_state;
}

abbrev pub authorization_request : AuthorizationRequest
authorization_request = record {
  client_id = "wallet";
  request_uri = "urn:ietf:params:oauth:request_uri:u";
}

abbrev pub token_request : TokenRequest
token_request = record {
  grant_type = "authorization_code";
  code = "code";
  redirect_uri = "https://w/";
  client_id = "wallet";
  code_verifier = "verifier";
}

abbrev pub kernel_tokens : KernelTokens
kernel_tokens = record { request = "r"; session = "s" }

abbrev pub credential_input : String → Option PidBindingObject → Option String → CredentialInput
credential_input id pid chip = record {
  authorization = some "DPoP access";
  dpop = some "d.c.s";
  configuration_id = id;
  proofs = "p.x.s" ∷ [];
  pid_binding = pid;
  emrtd_evidence = chip;
  dpop_clock = some 100;
  proof_clock = some 100;
  clock = some 100;
  kernel_tokens = kernel_tokens;
  mandate_jti = "mandate";
}

abbrev pub pid_object : PidBindingObject
pid_object = record { pid_vp = "h.c.s~f~g~b~p.x.s"; proof_jwt = "p.x.s" }
