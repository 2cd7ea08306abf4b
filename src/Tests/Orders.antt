-- ===== src/Tests/Orders.antt =====
-- Issuances on evidence of the holder: a mandate for a PID subject and a PID from a chip read.
use Prim.Native.String.{String}
use vcissuer.Prelude.{arith, ℕ, ◌≡◌, ◌≢◌, refl, true, false, Option, none, some, List, [], ◌∷◌}
use vcissuer.Oauth.{ok, Result}
use vcissuer.Profile.{
  dev_svipe_pid_sd_jwt, tlsn_evidence_sd_jwt, pid_sd_jwt, mandate_sd_jwt, pid_from_emrtd_sd_jwt,
  pid_from_emrtd_mdoc, is_allowed,
}
use vcissuer.Proof.Credential.{VerifiedCredentialProof, verify_credential_proof}
use vcissuer.Proof.Jws.{unix_time}
use vcissuer.Proof.Pid.{PidBindingObject, VerifiedPidBinding, verify_pid_binding}
use vcissuer.Proof.Emrtd.{PidSubjectClaims, VerifiedChipLiveness, verify_emrtd_evidence}
use vcissuer.Table.{lookup}
use vcissuer.Gate.{MandateGrant, authorize_kernel, demo_mandate_powers}
use vcissuer.State.{AccessToken, VolatileState, initial}
use vcissuer.Endpoint.Token.{TokenResponse, token}
use vcissuer.Endpoint.Credential.{
  CredentialInput, Order, sd_jwt, mandate, panicked, credential, bearer,
}
use vcissuer.Endpoint.Credential.Orders.{mandate_for_pid_subject, chip_pid_from_read}
use vcissuer.Flow.{
  Call, Reach, start, next, step, to_par, to_tlsn_offer, to_authorize, to_token, to_nonce,
}
use vcissuer.Endpoint.Credential.Svipe.{svipe_never_issued}
use vcissuer.Tests.{
  kernel_tokens, platform, config, clock, par_request, authorization_request, token_request,
  credential_input, pid_object,
}

-- The same with a scope of two configurations that take evidence of their own.
abbrev both_scopes : String
both_scopes = "urn:eudi:mandate:1:dc+sd-jwt:de eu.europa.ec.eudi.pid_vc_sd_jwt.de:nfc"

abbrev both_ready : VolatileState String
both_ready =
    step platform config
      (step platform config
        (step platform config
          (step platform config initial (to_par (par_request both_scopes none) clock "u"))
          (to_authorize authorization_request "code"))
        (to_token (some "d.t.s") token_request clock "access"))
      (to_nonce "n")

abbrev mandate_input : CredentialInput
mandate_input = credential_input mandate_sd_jwt (some pid_object) none

abbrev mandate_order : Order String
mandate_order =
    mandate "0123456789abcdef0123456789abcdef" 102960396106854688713523186080118565729
      demo_mandate_powers "mandate" 100

mandate_issued :
    credential platform config mandate_input both_ready
    ≡ (ok mandate_order, (credential platform config mandate_input both_ready).1)
unfolding vcissuer.Flow.step vcissuer.State.initial vcissuer.Table.lookup vcissuer.Table.insert
    vcissuer.Table.remove vcissuer.Table.find_value vcissuer.Table.has vcissuer.Table.add
    vcissuer.Text.as_bytes vcissuer.Text.is_empty vcissuer.Text.split
    vcissuer.Text.split_ascii_whitespace vcissuer.Text.trim_end_slashes vcissuer.Text.strip_prefix
    vcissuer.Proof.Jws.unix_time vcissuer.Proof.Jws.three_parts vcissuer.Proof.Jws.compact_parts
    vcissuer.Oauth.oauth_error vcissuer.Endpoint.Par.par vcissuer.Endpoint.Par.offered_evidence
    vcissuer.Profile.valid_scope vcissuer.Profile.is_allowed vcissuer.Endpoint.Authorize.authorize
    vcissuer.Endpoint.Token.token vcissuer.State.use_dpop_jti vcissuer.Proof.Dpop.verify_dpop
    vcissuer.Endpoint.Token.pkce_matches vcissuer.Endpoint.Token.nonce
    vcissuer.Endpoint.Credential.credential vcissuer.Endpoint.Credential.bearer
    vcissuer.Endpoint.Credential.order vcissuer.State.use_binding_jti
    vcissuer.Proof.Credential.verify_credential_proof vcissuer.Proof.Jws.verifying_key_and_jwk
    vcissuer.Gate.authorize_kernel vcissuer.Gate.role_of vcissuer.Profile.is_nfc_pid
    vcissuer.Proof.Jws.hash_u128 vcissuer.Kernel.authorize_sign vcissuer.Kernel.may_issue
    vcissuer.Kernel.usable_at vcissuer.Kernel.role_evidence_ok vcissuer.Kernel.representation_ok
    vcissuer.Kernel.chip_liveness_ok vcissuer.Kernel.device_binding_ok vcissuer.Kernel.subset_of
    vcissuer.Kernel.command_powers vcissuer.Gate.subject_of vcissuer.Gate.chip_subject
    vcissuer.Gate.or_else vcissuer.Gate.demo_mandate_delegation vcissuer.Kernel.is_empty
    vcissuer.Proof.Pid.verify_pid_binding vcissuer.Proof.Jws.verify_jws_payload
mandate_issued = refl

mandate_for_pid_subject_example :
    (jwt : String) × (k : VerifiedCredentialProof String) × (x : PidBindingObject)
    × (b : VerifiedPidBinding) × (now : ℕ) × (mandate_input.proofs ≡ jwt ∷ [])
    × (verify_credential_proof platform jwt config.issuer mandate_input.proof_clock ≡ ok k)
    × (unix_time mandate_input.clock ≡ ok now)
    × (some pid_object ≡ some x)
    × (verify_pid_binding platform x config.pid_issuer_jwk config.issuer k.nonce k.holder_jkt now
        ≡ ok b)
    × (mandate_order ≡ mandate k.holder_jwk b.subject demo_mandate_powers "mandate" now)
mandate_for_pid_subject_example =
    mandate_for_pid_subject platform config mandate_input both_ready
      (credential platform config mandate_input both_ready).1 mandate_order mandate_issued refl

abbrev chip_input : CredentialInput
chip_input = credential_input pid_from_emrtd_sd_jwt none (some "h.c.s")

abbrev chip_order : Order String
chip_order = sd_jwt pid_from_emrtd_sd_jwt "0123456789abcdef0123456789abcdef" 100 none (
    some (record {
      family_name = "Mustermann";
      given_name = "Erika";
      birthdate = "1990-01-01";
      nationality = "D";
      issuing_country = "D";
      age_over_18 = true;
      portrait = none;
    }))

chip_issued :
    credential platform config chip_input both_ready
    ≡ (ok chip_order, (credential platform config chip_input both_ready).1)
unfolding vcissuer.Flow.step vcissuer.State.initial vcissuer.Table.lookup vcissuer.Table.insert
    vcissuer.Table.remove vcissuer.Table.find_value vcissuer.Table.has vcissuer.Table.add
    vcissuer.Text.as_bytes vcissuer.Text.is_empty vcissuer.Text.split
    vcissuer.Text.split_ascii_whitespace vcissuer.Text.trim_end_slashes vcissuer.Text.strip_prefix
    vcissuer.Proof.Jws.unix_time vcissuer.Proof.Jws.three_parts vcissuer.Proof.Jws.compact_parts
    vcissuer.Oauth.oauth_error vcissuer.Endpoint.Par.par vcissuer.Endpoint.Par.offered_evidence
    vcissuer.Profile.valid_scope vcissuer.Profile.is_allowed vcissuer.Endpoint.Authorize.authorize
    vcissuer.Endpoint.Token.token vcissuer.State.use_dpop_jti vcissuer.Proof.Dpop.verify_dpop
    vcissuer.Endpoint.Token.pkce_matches vcissuer.Endpoint.Token.nonce
    vcissuer.Endpoint.Credential.credential vcissuer.Endpoint.Credential.bearer
    vcissuer.Endpoint.Credential.order vcissuer.State.use_binding_jti
    vcissuer.Proof.Credential.verify_credential_proof vcissuer.Proof.Jws.verifying_key_and_jwk
    vcissuer.Gate.authorize_kernel vcissuer.Gate.role_of vcissuer.Profile.is_nfc_pid
    vcissuer.Proof.Jws.hash_u128 vcissuer.Kernel.authorize_sign vcissuer.Kernel.may_issue
    vcissuer.Kernel.usable_at vcissuer.Kernel.role_evidence_ok vcissuer.Kernel.representation_ok
    vcissuer.Kernel.chip_liveness_ok vcissuer.Kernel.device_binding_ok vcissuer.Kernel.subset_of
    vcissuer.Kernel.command_powers vcissuer.Gate.subject_of vcissuer.Gate.chip_subject
    vcissuer.Gate.or_else vcissuer.Gate.demo_mandate_delegation vcissuer.Kernel.is_empty
    vcissuer.Proof.Emrtd.verify_emrtd_evidence vcissuer.Proof.Jws.verify_jws_payload
    vcissuer.Proof.Emrtd.is_expired_document vcissuer.Proof.Emrtd.age_over_18
    vcissuer.Proof.Emrtd.parse_date vcissuer.Text.parse_number vcissuer.Proof.Emrtd.today_at
    vcissuer.Text.is_blank
chip_issued = refl

chip_pid_from_read_example :
    (jwt : String) × (k : VerifiedCredentialProof String) × (x : String) × (key : List ℕ)
    × (c : VerifiedChipLiveness) × (now : ℕ) × (token : String) × (a : AccessToken String)
    × (chip_input.proofs ≡ jwt ∷ [])
    × (verify_credential_proof platform jwt config.issuer chip_input.proof_clock ≡ ok k)
    × (unix_time chip_input.clock ≡ ok now)
    × (bearer chip_input.authorization ≡ ok token)
    × (lookup token both_ready.tokens ≡ some a)
    × (some "h.c.s" ≡ some x)
    × (config.trusted_emrtd_reader_key ≡ some key)
    × (verify_emrtd_evidence platform x key config.issuer k.nonce k.holder_jkt now ≡ ok c)
    × (chip_order ≡ sd_jwt pid_from_emrtd_sd_jwt k.holder_jwk now a.tlsn_evidence (some c.claims))
chip_pid_from_read_example =
    chip_pid_from_read platform config chip_input both_ready
      (credential platform config chip_input both_ready).1 chip_order chip_issued refl

svipe_never_issued_example :
    (credential platform config (credential_input dev_svipe_pid_sd_jwt none none) both_ready
      ≢ (ok chip_order, both_ready))
    × (is_allowed false dev_svipe_pid_sd_jwt ≡ true)
    × ((g : Option MandateGrant) × (authorize_kernel platform dev_svipe_pid_sd_jwt "digest" "n" none
            none 100 kernel_tokens
          ≡ ok g))
svipe_never_issued_example =
    svipe_never_issued platform config (credential_input dev_svipe_pid_sd_jwt none none) both_ready
      both_ready chip_order false "digest" "n" 100 kernel_tokens refl (omega arith)
