-- ===== src/Tests/Flow.antt =====
-- Whole issuances, call by call, and what holds of them.
use Prim.Native.String.{String}
use vcissuer.Prelude.{ℕ, ◌≡◌, ◌↔◌, ◌≢◌, refl, true, Option, none, some}
use vcissuer.Oauth.{ok, Result}
use vcissuer.Profile.{
  tlsn_evidence_sd_jwt, pid_sd_jwt, mandate_sd_jwt, pid_from_emrtd_sd_jwt, pid_from_emrtd_mdoc,
  is_allowed,
}
use vcissuer.Proof.Credential.{VerifiedCredentialProof}
use vcissuer.Proof.Emrtd.{PidSubjectClaims}
use vcissuer.Tlsn.{SignedTlsnArtifact, VerifiedTlsnEvidence, verify_tlsn_artifact}
use vcissuer.Table.{lookup}
use vcissuer.Gate.{demo_mandate_powers}
use vcissuer.State.{VolatileState, initial}
use vcissuer.Endpoint.Token.{TokenResponse, token}
use vcissuer.Endpoint.Token.Redeem.{Redeemed, token_iff}
use vcissuer.Endpoint.Credential.{CredentialInput, Order, sd_jwt, mandate, panicked, credential}
use vcissuer.Endpoint.Credential.Issued.{Issued, credential-Issued}
use vcissuer.Endpoint.Credential.Orders.{credential_never_panics}
use vcissuer.Flow.{
  Call, Reach, start, next, step, to_par, to_tlsn_offer, to_authorize, to_token, to_nonce,
}
use vcissuer.Flow.Granted.{WellFormed}
use vcissuer.Flow.Granted.Reached.{Reach-WellFormed}
use vcissuer.Flow.Granted.Issuance.{issued_configuration_allowed, issued_evidence_genuine}
use vcissuer.Tests.{
  platform, config, artifact, clock, par_request, authorization_request, token_request,
  credential_input,
}

-- An offer from a notary's artifact, and the calls that lead to a token for it and a nonce.
abbrev offered : VolatileState String
offered = step platform config initial (to_tlsn_offer artifact "o" "is" clock)

abbrev pushed : VolatileState String
pushed =
    step platform config offered (to_par (par_request tlsn_evidence_sd_jwt (some "is")) clock "u")

abbrev pub authorized : VolatileState String
authorized = step platform config pushed (to_authorize authorization_request "code")

abbrev pub with_token : VolatileState String
with_token = step platform config authorized (to_token (some "d.t.s") token_request clock "access")

abbrev pub ready : VolatileState String
ready = step platform config with_token (to_nonce "n")

no_code : lookup "code" pushed.codes ≡ none
unfolding vcissuer.Flow.step vcissuer.State.initial vcissuer.Table.lookup vcissuer.Table.insert
    vcissuer.Table.remove vcissuer.Table.find_value vcissuer.Table.has vcissuer.Table.add
    vcissuer.Text.as_bytes vcissuer.Text.is_empty vcissuer.Text.split
    vcissuer.Text.split_ascii_whitespace vcissuer.Text.trim_end_slashes vcissuer.Text.strip_prefix
    vcissuer.Proof.Jws.unix_time vcissuer.Proof.Jws.three_parts vcissuer.Proof.Jws.compact_parts
    vcissuer.Oauth.oauth_error vcissuer.Endpoint.Offer.build_tlsn_offer
    vcissuer.Tlsn.verify_tlsn_artifact vcissuer.Endpoint.Offer.reserve
    vcissuer.Tlsn.reserve_tlsn_session vcissuer.Endpoint.Par.par
    vcissuer.Endpoint.Par.offered_evidence vcissuer.Profile.valid_scope vcissuer.Profile.is_allowed
no_code = refl

no_nonce : lookup "n" with_token.nonces ≡ none
unfolding vcissuer.Flow.step vcissuer.State.initial vcissuer.Table.lookup vcissuer.Table.insert
    vcissuer.Table.remove vcissuer.Table.find_value vcissuer.Table.has vcissuer.Table.add
    vcissuer.Text.as_bytes vcissuer.Text.is_empty vcissuer.Text.split
    vcissuer.Text.split_ascii_whitespace vcissuer.Text.trim_end_slashes vcissuer.Text.strip_prefix
    vcissuer.Proof.Jws.unix_time vcissuer.Proof.Jws.three_parts vcissuer.Proof.Jws.compact_parts
    vcissuer.Oauth.oauth_error vcissuer.Endpoint.Offer.build_tlsn_offer
    vcissuer.Tlsn.verify_tlsn_artifact vcissuer.Endpoint.Offer.reserve
    vcissuer.Tlsn.reserve_tlsn_session vcissuer.Endpoint.Par.par
    vcissuer.Endpoint.Par.offered_evidence vcissuer.Profile.valid_scope vcissuer.Profile.is_allowed
    vcissuer.Endpoint.Authorize.authorize vcissuer.Endpoint.Token.token vcissuer.State.use_dpop_jti
    vcissuer.Proof.Dpop.verify_dpop vcissuer.Endpoint.Token.pkce_matches
no_nonce = refl

ready-Reach : Reach platform config initial ready
ready-Reach =
    next
      (next
        (next
          (next (next start (to_tlsn_offer artifact "o" "is" clock) tt refl)
            (to_par (par_request tlsn_evidence_sd_jwt (some "is")) clock "u") tt refl)
          (to_authorize authorization_request "code") no_code refl)
        (to_token (some "d.t.s") token_request clock "access") tt refl)
      (to_nonce "n") no_nonce refl

abbrev pub evidence_input : CredentialInput
evidence_input = credential_input tlsn_evidence_sd_jwt none none

abbrev pub evidence : VerifiedTlsnEvidence String
evidence = record { session_id = "session"; issued_at = 100; verifier_output = "output" }

abbrev pub evidence_order : Order String
evidence_order =
    sd_jwt tlsn_evidence_sd_jwt "0123456789abcdef0123456789abcdef" 100 (some evidence) none

pub evidence_issued :
    credential platform config evidence_input ready
    ≡ (ok evidence_order, (credential platform config evidence_input ready).1)
unfolding vcissuer.Flow.step vcissuer.State.initial vcissuer.Table.lookup vcissuer.Table.insert
    vcissuer.Table.remove vcissuer.Table.find_value vcissuer.Table.has vcissuer.Table.add
    vcissuer.Text.as_bytes vcissuer.Text.is_empty vcissuer.Text.split
    vcissuer.Text.split_ascii_whitespace vcissuer.Text.trim_end_slashes vcissuer.Text.strip_prefix
    vcissuer.Proof.Jws.unix_time vcissuer.Proof.Jws.three_parts vcissuer.Proof.Jws.compact_parts
    vcissuer.Oauth.oauth_error vcissuer.Endpoint.Offer.build_tlsn_offer
    vcissuer.Tlsn.verify_tlsn_artifact vcissuer.Endpoint.Offer.reserve
    vcissuer.Tlsn.reserve_tlsn_session vcissuer.Endpoint.Par.par
    vcissuer.Endpoint.Par.offered_evidence vcissuer.Profile.valid_scope vcissuer.Profile.is_allowed
    vcissuer.Endpoint.Authorize.authorize vcissuer.Endpoint.Token.token vcissuer.State.use_dpop_jti
    vcissuer.Proof.Dpop.verify_dpop vcissuer.Endpoint.Token.pkce_matches
    vcissuer.Endpoint.Token.nonce vcissuer.Endpoint.Credential.credential
    vcissuer.Endpoint.Credential.bearer vcissuer.Endpoint.Credential.order
    vcissuer.State.use_binding_jti vcissuer.Proof.Credential.verify_credential_proof
    vcissuer.Proof.Jws.verifying_key_and_jwk vcissuer.Gate.authorize_kernel vcissuer.Gate.role_of
    vcissuer.Profile.is_nfc_pid vcissuer.Proof.Jws.hash_u128 vcissuer.Kernel.authorize_sign
    vcissuer.Kernel.may_issue vcissuer.Kernel.usable_at vcissuer.Kernel.role_evidence_ok
    vcissuer.Kernel.representation_ok vcissuer.Kernel.chip_liveness_ok
    vcissuer.Kernel.device_binding_ok vcissuer.Kernel.subset_of vcissuer.Kernel.command_powers
    vcissuer.Gate.subject_of vcissuer.Gate.chip_subject vcissuer.Gate.or_else
    vcissuer.Gate.demo_mandate_delegation vcissuer.Kernel.is_empty
evidence_issued = refl

Reach-WellFormed_example : WellFormed platform config ready
Reach-WellFormed_example = Reach-WellFormed platform config ready ready-Reach

issued_configuration_allowed_example :
    (is_allowed true tlsn_evidence_sd_jwt ≡ true) × (tlsn_evidence_sd_jwt ≢ pid_from_emrtd_mdoc)
issued_configuration_allowed_example =
    issued_configuration_allowed platform config evidence_input ready
      (credential platform config evidence_input ready).1 evidence_order ready-Reach evidence_issued

issued_evidence_genuine_example :
    (v : VerifiedTlsnEvidence String) × (a : SignedTlsnArtifact String) × (earlier : ℕ)
    × (verify_tlsn_artifact platform a config.trusted_notary_key config.trusted_notary_pq_key
          earlier
        ≡ ok v)
    × (jwk : String) × (now : ℕ) × (claims : Option PidSubjectClaims) × (evidence_order
        ≡ sd_jwt tlsn_evidence_sd_jwt jwk now (some v) claims)
issued_evidence_genuine_example =
    issued_evidence_genuine platform config evidence_input ready
      (credential platform config evidence_input ready).1 evidence_order ready-Reach evidence_issued
      refl

credential-Issued_example :
    Issued platform config evidence_input ready
      (credential platform config evidence_input ready).1
      evidence_order
credential-Issued_example =
    credential-Issued platform config evidence_input ready
      (credential platform config evidence_input ready).1 evidence_order evidence_issued

credential_never_panics_example : (credential platform config evidence_input ready).0 ≢ ok panicked
credential_never_panics_example = credential_never_panics platform config evidence_input ready

abbrev pub granted : TokenResponse
granted = record { access_token = "access"; scope = tlsn_evidence_sd_jwt }

token_iff_example :
    (token platform config (some "d.t.s") token_request clock "access" authorized
      ≡ (ok granted, with_token))
    ↔ Redeemed platform config
        (some "d.t.s")
        token_request
        clock
        "access"
        authorized
        granted
        with_token
token_iff_example =
    token_iff platform config (some "d.t.s") token_request clock "access" authorized with_token
      granted

pub token_granted :
    token platform config (some "d.t.s") token_request clock "access" authorized
    ≡ (ok granted, with_token)
unfolding vcissuer.Flow.step vcissuer.State.initial vcissuer.Table.lookup vcissuer.Table.insert
    vcissuer.Table.remove vcissuer.Table.find_value vcissuer.Table.has vcissuer.Table.add
    vcissuer.Text.as_bytes vcissuer.Text.is_empty vcissuer.Text.split
    vcissuer.Text.split_ascii_whitespace vcissuer.Text.trim_end_slashes vcissuer.Text.strip_prefix
    vcissuer.Proof.Jws.unix_time vcissuer.Proof.Jws.three_parts vcissuer.Proof.Jws.compact_parts
    vcissuer.Oauth.oauth_error vcissuer.Endpoint.Offer.build_tlsn_offer
    vcissuer.Tlsn.verify_tlsn_artifact vcissuer.Endpoint.Offer.reserve
    vcissuer.Tlsn.reserve_tlsn_session vcissuer.Endpoint.Par.par
    vcissuer.Endpoint.Par.offered_evidence vcissuer.Profile.valid_scope vcissuer.Profile.is_allowed
    vcissuer.Endpoint.Authorize.authorize vcissuer.Endpoint.Token.token vcissuer.State.use_dpop_jti
    vcissuer.Proof.Dpop.verify_dpop vcissuer.Endpoint.Token.pkce_matches
token_granted = refl
