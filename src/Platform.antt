-- ===== src/Platform.antt =====
-- What the service takes from other packages: base64, SHA-256, ECDSA over P-256, JSON, URLs and the
-- calendar. Each is a parameter. The JSON records below are the shapes of
-- rust/issuer-service/src/main.rs that the parsers return.
use Prim.Native.String.{String}
use vcissuer.Prelude.{ℕ, Bool, Option, List}

pub record EcJwk : Type 0 where
  pub kty : String
  pub crv : String
  pub x : String
  pub y : String

pub record DpopHeader : Type 0 where
  pub alg : String
  pub typ : String
  pub jwk : EcJwk

pub record DpopClaims : Type 0 where
  pub htm : String
  pub htu : String
  pub iat : ℕ
  pub jti : String

pub record CredentialProofClaims : Type 0 where
  pub aud : String
  pub iat : ℕ
  pub nonce : String

pub record BindingProofClaims : Type 0 where
  pub aud : String
  pub iat : ℕ
  pub nonce : String
  pub jti : String
  pub pid_sd_hash : String
  pub new_holder_jkt : String

pub record EmrtdLivenessClaim : Type 0 where
  pub assurance : String
  pub matched_portrait : Bool

pub record EmrtdMrzClaim : Type 0 where
  pub family_name : String
  pub given_name : String
  pub birthdate : String
  pub nationality : String
  pub issuing_country : String
  pub document_number : String
  pub date_of_expiry : String

pub record EmrtdEvidenceClaims : Type 0 where
  pub aud : String
  pub iat : ℕ
  pub exp : ℕ
  pub nonce : String
  pub jti : String
  pub new_holder_jkt : String
  pub passive_authentication : Bool
  pub chip_authentic : Bool
  pub liveness : EmrtdLivenessClaim
  pub mrz : EmrtdMrzClaim
  pub portrait : Option String

pub record TlsnArtifactPayload (V : Type 0) : Type 0 where
  pub version : String
  pub session_id : String
  pub issued_at : ℕ
  pub verifier_output : V

-- Bytes are numbers below 256, and a URL is its text. A missing result is the package's error.
pub record Platform (Value : Type 0) : Type 1 where
  pub VerifyingKey : Type 0
  pub Signature : Type 0
  pub base64url_decode : String → Option (List ℕ)
  pub base64url_encode : List ℕ → String
  pub sha256 : List ℕ → List ℕ
  pub signature_from_slice : List ℕ → Option Signature
  pub key_from_sec1_bytes : List ℕ → Option VerifyingKey
  pub key_from_coordinates : List ℕ → List ℕ → Option VerifyingKey
  pub verify : VerifyingKey → List ℕ → Signature → Bool
  pub ml_dsa_verify : List ℕ → List ℕ → List ℕ → Bool
  pub dpop_header_from_slice : List ℕ → Option DpopHeader
  pub dpop_claims_from_slice : List ℕ → Option DpopClaims
  pub proof_claims_from_slice : List ℕ → Option CredentialProofClaims
  pub value_from_slice : List ℕ → Option Value
  pub emrtd_claims_from_value : Value → Option EmrtdEvidenceClaims
  pub binding_claims_from_value : Value → Option BindingProofClaims
  pub ec_jwk_from_value : Value → Option EcJwk
  pub payload_to_vec : TlsnArtifactPayload Value → Option (List ℕ)
  pub ec_jwk_value : String → String → Value
  pub get : Value → String → Option Value
  pub pointer : Value → String → Option Value
  pub as_str : Value → Option String
  pub as_u64 : Value → Option ℕ
  pub as_array : Value → Option (List Value)
  pub url_join : String → String → String
  pub url_append_pair : String → String → String → String
  pub date_from_unix_timestamp : ℕ → Option (ℕ × ℕ × ℕ)
