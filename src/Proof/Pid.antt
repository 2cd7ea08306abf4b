-- ===== src/Proof/Pid.antt =====
-- rust/issuer-service/src/main.rs: `verify_pid_binding`.
pub mod Disclosures
pub mod Person
pub mod Sound
use Prim.Native.String.{String, len, ◌++◌}
use text.Mathlib.Text.{◌==◌}
use vcissuer.Prelude.{
  ℕ, ◌-◌, Bool, true, false, not, ◌||◌, Option, none, some, List, [], ◌∷◌, any, ltb, leb,
  saturating_add, and_then, unwrap_or, if◌then◌else◌,
}
use vcissuer.Text.{as_bytes, is_empty, split, trim_end_slashes}
use vcissuer.Oauth.{oauth_error, Result, ok, ◌>>=◌, ◌>>◌, deny_if, ok_or}
use vcissuer.Platform.{Platform}
use vcissuer.Proof.Jws.{verify_jws_payload, verifying_key_and_jwk, hash_u128}
use vcissuer.Proof.Credential.{proof_error}
use vcissuer.Profile.{pid_vct}

pub record PidBindingObject : Type 0 where
  pub pid_vp : String
  pub proof_jwt : String

pub record VerifiedPidBinding : Type 0 where
  pub subject : ℕ
  pub jti : String

-- `option == Some(text)`.
abbrev pub is_text : Option String → String → Bool
is_text none text = false
is_text (some s) text = s == text

abbrev drop_empty : List String → List String
drop_empty [] = []
drop_empty (part ∷ parts) =
    let rest = drop_empty parts in if is_empty part then rest else part ∷ rest

abbrev last_is : String → List String → Bool
last_is text [] = false
last_is text (part ∷ []) = part == text
last_is text (part ∷ next ∷ parts) = last_is text (next ∷ parts)

abbrev all_but_last : List String → List String
all_but_last [] = []
all_but_last (part ∷ []) = []
all_but_last (part ∷ next ∷ parts) = part ∷ all_but_last (next ∷ parts)

-- The issuer's JWT and the parts behind it that are not empty.
abbrev presented_parts : List String → String × List String
presented_parts [] = ("", [])
presented_parts (issuer_jwt ∷ parts) = (issuer_jwt, drop_empty parts)

-- The names that the disclosures have given so far.
pub record Disclosed : Type 0 where
  pub family_name : Option String
  pub given_name : Option String
  pub birthdate : Option String

-- The three names with unit separators between them; a name is there where the subject was matched.
abbrev pub canonical_subject : Disclosed → String
canonical_subject d =
    unwrap_or d.family_name ""
    ++ ("\u{1f}" ++ (unwrap_or d.given_name "" ++ ("\u{1f}" ++ unwrap_or d.birthdate "")))

disclose : Option String → Option String → Disclosed → Disclosed
disclose none value d = d
disclose (some name) value d =
    if name == "family_name"
    then record d { family_name = value }
    else if name == "given_name"
    then record d { given_name = value }
    else if name == "birthdate"
    then record d { birthdate = value }
    else d

module _ {V : Type 0} (p : Platform V) where
  open p use {
    base64url_decode, base64url_encode, sha256, value_from_slice, ec_jwk_from_value,
    binding_claims_from_value, get, pointer, as_str, as_u64, as_array,
  }

  abbrev text_digest : String → String
  text_digest text = base64url_encode (sha256 (as_bytes text))

  -- An array of three is a salt, a name and a value; another is skipped.
  disclose_values : List V → Disclosed → Disclosed
  unfolding disclose
  disclose_values (salt ∷ name ∷ value ∷ []) d = disclose (as_str name) (as_str value) d
  disclose_values _ d = d

  -- The loop over the disclosures.
  pub read_disclosures : List String → List String → Disclosed → Result Disclosed
  unfolding disclose_values
  read_disclosures allowed [] d = ok d
  read_disclosures allowed (encoded ∷ rest) d = do
    deny_if (not (any (◌==◌ (text_digest encoded)) allowed))
        (proof_error "PID disclosure is not committed by the issuer")
    decoded ← ok_or (base64url_decode encoded) (proof_error "PID disclosure is malformed")
    disclosure ← ok_or (value_from_slice decoded) (proof_error "PID disclosure is not JSON")
    values ← ok_or (as_array disclosure) (proof_error "PID disclosure is not an array")
    read_disclosures allowed rest (disclose_values values d)

  pub text_values : List V → List String
  text_values [] = []
  text_values (v ∷ vs) =
      let rest = text_values vs in elim (as_str v) [ none ↦ rest | some s ↦ s ∷ rest ]

  -- The start is missing or later than now.
  pub not_begun : Option ℕ → ℕ → Bool
  not_begun none now = true
  not_begun (some nbf) now = ltb now nbf

  pub has_ended : Option ℕ → ℕ → Bool
  has_ended none now = true
  has_ended (some exp) now = leb exp now

  pub issued_by : Option String → String → Bool
  issued_by none issuer = false
  issued_by (some iss) issuer = trim_end_slashes iss == trim_end_slashes issuer

  -- The binding, the key of the PID issuer, this issuer, the nonce and the holder key that are
  -- expected, and the time.
  unfoldable pub verify_pid_binding :
      PidBindingObject → V → String → String → String → ℕ → Result VerifiedPidBinding
  unfolding read_disclosures text_values not_begun has_ended issued_by
  verify_pid_binding binding trusted_pid_issuer_jwk issuer expected_nonce expected_jkt now = do
    deny_if (ltb 32768 (len binding.pid_vp) || ltb 8192 (len binding.proof_jwt))
        (proof_error "PID binding evidence exceeds the accepted size")
    let presented = presented_parts (split b'~' binding.pid_vp)
    let issuer_jwt = presented.0
    let tail = presented.1
    deny_if (is_empty issuer_jwt || not (last_is binding.proof_jwt tail))
        (proof_error "PID VP must end in the supplied cross-attestation proof JWT")
    trusted_jwk ←
        ok_or (ec_jwk_from_value trusted_pid_issuer_jwk)
          (oauth_error 500 "server_error" "configured PID issuer key is malformed")
    (issuer_key, _, _) ← verifying_key_and_jwk p trusted_jwk "invalid_proof"
    pid_payload ← verify_jws_payload p issuer_jwt issuer_key "PID credential"
    deny_if (not (is_text (and_then (get pid_payload "vct") as_str) pid_vct))
        (proof_error "presented credential is not the required PID type")
    deny_if
        (not (issued_by (and_then (get pid_payload "iss") as_str) issuer)
          || not_begun (and_then (get pid_payload "nbf") as_u64) now
          || has_ended (and_then (get pid_payload "exp") as_u64) now)
        (proof_error "presented PID issuer or validity interval is not accepted")
    digests ←
        ok_or (and_then (get pid_payload "_sd") as_array)
          (proof_error "PID has no selective-disclosure digests")
    holder_value ← ok_or (pointer pid_payload "/cnf/jwk") (proof_error "PID has no holder key")
    pid_holder_jwk ←
        ok_or (ec_jwk_from_value holder_value) (proof_error "PID holder key is malformed")
    (pid_holder_key, _, _) ← verifying_key_and_jwk p pid_holder_jwk "invalid_proof"
    proof_payload ← verify_jws_payload p binding.proof_jwt pid_holder_key "PID binding proof"
    claims ←
        ok_or (binding_claims_from_value proof_payload)
          (proof_error "PID binding proof claims are malformed")
    deny_if
        (not (trim_end_slashes claims.aud == trim_end_slashes issuer)
          || not (claims.nonce == expected_nonce)
          || not (claims.new_holder_jkt == expected_jkt)
          || not (claims.pid_sd_hash == text_digest issuer_jwt)
          || is_empty claims.jti
          || ltb 256 (len claims.jti)
          || ltb (saturating_add now 5) claims.iat
          || ltb 300 (now - claims.iat))
        (proof_error
          "PID binding proof is stale or does not bind this PID, nonce, issuer, and new holder key")
    disclosed ←
        read_disclosures (text_values digests) (all_but_last tail)
          (record { family_name = none; given_name = none; birthdate = none })
    deny_if
        (not (is_text disclosed.family_name "Mustermann")
          || not (is_text disclosed.given_name "Erika")
          || not (is_text disclosed.birthdate "1990-01-01"))
        (oauth_error 403 "credential_request_denied"
          "PID subject does not match the authoritative education record")
    ok (record { subject = hash_u128 p (canonical_subject disclosed); jti = claims.jti })
