-- ===== src/Endpoint/Credential.antt =====
-- rust/issuer-service/src/main.rs: `credential`, up to the call of an encoder. The answer is the
-- order that the encoder is given; this is the build for macOS, which has the signing keys.
pub mod Steps
pub mod Issued
pub mod Orders
pub mod Svipe
use Prim.Native.String.{String}
use text.Mathlib.Text.{◌==◌}
use vcissuer.Prelude.{
  ℕ, Bool, true, false, not, ◌&&◌, ◌||◌, Option, none, some, List, [], ◌∷◌, any, and_then, is_none,
  is_some, if◌then◌else◌,
}
use vcissuer.Text.{split_ascii_whitespace, strip_prefix}
use vcissuer.Oauth.{OauthError, oauth_error, Result, ok, err, deny_if, ok_or}
use vcissuer.Platform.{Platform}
use vcissuer.Profile.{
  pid_sd_jwt, pid_mdoc, eaa_mdoc, qeaa_sd_jwt, qeaa_pid_bound_sd_jwt, pid_from_emrtd_sd_jwt,
  tlsn_evidence_sd_jwt, hybrid_pq_sd_jwt, mandate_sd_jwt,
}
use vcissuer.Proof.Jws.{unix_time}
use vcissuer.Proof.Dpop.{verify_dpop}
use vcissuer.Proof.Credential.{VerifiedCredentialProof, proof_error, verify_credential_proof}
use vcissuer.Proof.Pid.{PidBindingObject, VerifiedPidBinding, verify_pid_binding}
use vcissuer.Proof.Emrtd.{PidSubjectClaims, VerifiedChipLiveness, verify_emrtd_evidence}
use vcissuer.Gate.{MandateGrant, KernelTokens, authorize_kernel}
use vcissuer.Table.{insert, lookup}
use vcissuer.Tlsn.{VerifiedTlsnEvidence}
use vcissuer.State.{
  AccessToken, VolatileState, Config, Handler, continue, ◌>>=◌, ◌>>◌, pure, lift, change,
  use_dpop_jti, use_binding_jti,
}

-- The headers and the body of the request. A clock is read for each of the two proofs and once more.
pub record CredentialInput : Type 0 where
  pub authorization : Option String
  pub dpop : Option String
  pub configuration_id : String
  pub proofs : List String
  pub pid_binding : Option PidBindingObject
  pub emrtd_evidence : Option String
  pub dpop_clock : Option ℕ
  pub proof_clock : Option ℕ
  pub clock : Option ℕ
  pub kernel_tokens : KernelTokens
  pub mandate_jti : String

-- The encoder and its arguments. `panicked` is the failure of an `expect`.
pub data Order (V : Type 0) : Type 0 where
  sd_jwt : String → V → ℕ → Option (VerifiedTlsnEvidence V) → Option PidSubjectClaims → Order V
  hybrid : V → String → String → ℕ → Order V
  mdoc : String → V → ℕ → Order V
  mandate : V → ℕ → ℕ → String → ℕ → Order V
  panicked : Order V

single_credential_proof : List String → Option String
single_credential_proof (proof ∷ []) = some proof
single_credential_proof _ = none

unfoldable pub bearer : Option String → Result String
bearer header =
    ok_or (and_then header (strip_prefix "DPoP "))
      (oauth_error 401 "invalid_token" "DPoP access token is required")

abbrev pub takes_pid_binding : String → Bool
takes_pid_binding id = id == qeaa_pid_bound_sd_jwt || id == mandate_sd_jwt

abbrev pub chip_claims : Option VerifiedChipLiveness → Option PidSubjectClaims
chip_claims none = none
chip_claims (some c) = some c.claims

abbrev binding_subject : Option VerifiedPidBinding → Option ℕ
binding_subject none = none
binding_subject (some b) = some b.subject

module _ {V : Type 0} (p : Platform V) (config : Config V) (input : CredentialInput) where
  open p use {url_join}

  mandate_order : V → Option MandateGrant → ℕ → Order V
  mandate_order jwk none now = panicked
  mandate_order jwk (some grant) now =
      mandate jwk grant.on_behalf_of grant.granted_powers input.mandate_jti now

  -- The last match of the handler, behind the release of the lock.
  unfoldable pub order :
      VerifiedCredentialProof V
      → Option (VerifiedTlsnEvidence V)
      → Option VerifiedChipLiveness
      → Option MandateGrant
      → ℕ
      → Result (Order V)
  unfolding mandate_order
  order proof evidence chip grant now =
      let id = input.configuration_id in
      if any (◌==◌ id) (
        pid_sd_jwt ∷ pid_from_emrtd_sd_jwt ∷ qeaa_sd_jwt ∷ qeaa_pid_bound_sd_jwt
        ∷ tlsn_evidence_sd_jwt ∷ [])
      then ok (sd_jwt id proof.holder_jwk now evidence (chip_claims chip))
      else if id == hybrid_pq_sd_jwt
      then if config.hybrid_signer_present && config.hybrid_pq_enabled
        then ok (hybrid proof.holder_jwk proof.holder_jkt proof.nonce now)
        else err (
            oauth_error 403 "credential_request_denied"
              "experimental hybrid-PQ issuance is disabled")
      else if any (◌==◌ id) (pid_mdoc ∷ eaa_mdoc ∷ [])
      then ok (mdoc id proof.holder_jwk now)
      else if id == mandate_sd_jwt
      then ok (mandate_order proof.holder_jwk grant now)
      else err
          (oauth_error 400 "unknown_credential_configuration" "credential configuration is unknown")

  check_pid : VerifiedCredentialProof V → ℕ → Handler V (Option VerifiedPidBinding)
  check_pid proof now = do
    supplied ← lift (
        ok_or input.pid_binding (proof_error "the PID-bound profile requires pid_binding evidence"))
    verified ← lift (
        verify_pid_binding p supplied config.pid_issuer_jwk config.issuer proof.nonce
          proof.holder_jkt now)
    use_binding_jti verified.jti (proof_error "PID binding proof jti has already been used")
    pure (some verified)

  no_pid : Handler V (Option VerifiedPidBinding)
  no_pid = do
    lift (
        deny_if (is_some input.pid_binding) (
          oauth_error 400 "invalid_request"
            "pid_binding evidence is not accepted by this credential profile"))
    pure none

  -- The first `match` on the configuration: evidence of a PID, where one is taken.
  pub pid_step : VerifiedCredentialProof V → ℕ → Handler V (Option VerifiedPidBinding)
  unfolding check_pid no_pid
  pid_step proof now =
      if takes_pid_binding input.configuration_id then check_pid proof now else no_pid

  check_chip : VerifiedCredentialProof V → ℕ → Handler V (Option VerifiedChipLiveness)
  check_chip proof now = do
    supplied ← lift (
        ok_or input.emrtd_evidence
          (proof_error "the NFC-sourced PID profile requires emrtd_evidence"))
    reader_key ← lift (
        ok_or config.trusted_emrtd_reader_key (
          oauth_error 501 "credential_request_denied"
            "NFC-sourced PID issuance is not configured on this issuer"))
    verified ←
        lift (
          verify_emrtd_evidence p supplied reader_key config.issuer proof.nonce proof.holder_jkt
            now)
    use_binding_jti verified.jti
        (proof_error "`eMRTD` evidence attestation jti has already been used")
    pure (some verified)

  no_chip : Handler V (Option VerifiedChipLiveness)
  no_chip = do
    lift (
        deny_if (is_some input.emrtd_evidence) (
          oauth_error 400 "invalid_request"
            "emrtd_evidence is not accepted by this credential profile"))
    pure none

  -- The second: evidence of a chip read.
  pub chip_step : VerifiedCredentialProof V → ℕ → Handler V (Option VerifiedChipLiveness)
  unfolding check_chip no_chip
  chip_step proof now =
      if input.configuration_id == pid_from_emrtd_sd_jwt then check_chip proof now else no_chip

  -- The access token with its checks.
  pub access_step : String → String → Handler V (AccessToken V)
  access_step token jkt = do
    access ← λ s. (
      ok_or (lookup token s.tokens) (oauth_error 401 "invalid_token" "access token is unknown"),
      s,
    )
    lift (
        deny_if (not (access.dpop_jkt == jkt))
          (oauth_error 401 "invalid_token" "DPoP key binding mismatch"))
    lift (
        deny_if (not (any (◌==◌ input.configuration_id) (split_ascii_whitespace access.scope))) (
          oauth_error 403 "credential_request_denied" "credential is outside the authorized scope"))
    pure access

  -- The proof of the holder's key, for the key of the token and with a nonce that is not used.
  pub proof_step : AccessToken V → Handler V (VerifiedCredentialProof V)
  unfolding single_credential_proof
  proof_step access = do
    credential_proof ← lift (
        ok_or (single_credential_proof input.proofs)
          (proof_error "exactly one JWT credential proof is required"))
    verified ← lift (verify_credential_proof p credential_proof config.issuer input.proof_clock)
    lift (
        deny_if (not (access.dpop_jkt == verified.holder_jkt))
          (proof_error "development profile requires the credential proof and DPoP key to match"))
    nonce_used ← λ s. (
      ok_or (lookup verified.nonce s.nonces) (proof_error "credential proof nonce is unknown"),
      s,
    )
    lift (deny_if nonce_used (proof_error "credential proof nonce has already been used"))
    pure verified

  unfoldable pub credential : Handler V (Order V)
  unfolding bearer order pid_step chip_step access_step proof_step
  credential = do
    token ← lift (bearer input.authorization)
    dpop ← lift (ok_or input.dpop (oauth_error 401 "invalid_token" "DPoP proof is required"))
    verified_dpop ←
        lift (verify_dpop p dpop "POST" (url_join config.issuer "credential") input.dpop_clock)
    use_dpop_jti verified_dpop.jti
        (oauth_error 401 "invalid_dpop_proof" "DPoP jti has already been used")
    access ← access_step token verified_dpop.jkt
    proof ← proof_step access
    now ← lift (unix_time input.clock)
    lift (
        deny_if (input.configuration_id == tlsn_evidence_sd_jwt && is_none access.tlsn_evidence) (
          oauth_error 403 "credential_request_denied"
            "TLSNotary evidence was not bound to this authorization"))
    pid ← pid_step proof now
    chip ← chip_step proof now
    grant ← lift (
        authorize_kernel p input.configuration_id proof.holder_jkt proof.nonce (binding_subject pid)
          chip now input.kernel_tokens)
    change λ s. record s { nonces = insert proof.nonce true s.nonces }
    lift (order proof access.tlsn_evidence chip grant now)
