-- ===== src/Tests/Replay.antt =====
-- Replays of the calls of one issuance.
use Prim.Native.String.{String}
use vcissuer.Prelude.{◌≡◌, refl, false, some, none}
use vcissuer.Oauth.{ok, is_ok}
use vcissuer.Proof.Dpop.{VerifiedDpop, verify_dpop}
use vcissuer.Proof.Credential.{VerifiedCredentialProof, verify_credential_proof}
use vcissuer.Proof.Jws.{unix_time}
use vcissuer.State.{VolatileState, initial}
use vcissuer.Table.{lookup}
use vcissuer.Tlsn.{VerifiedTlsnEvidence, verify_tlsn_artifact}
use vcissuer.Endpoint.Offer.{CreateOfferResponse, build_tlsn_offer}
use vcissuer.Endpoint.Token.{token}
use vcissuer.Endpoint.Credential.{CredentialInput, credential}
use vcissuer.Flow.{Reach, start, next, step, to_nonce}
use vcissuer.Flow.Replay.{token_once, nonce_once, dpop_jti_once, tlsn_session_once}
use vcissuer.Tests.{platform, config, artifact, clock, token_request}
use vcissuer.Tests.Flow.{
  evidence, evidence_input, evidence_issued, evidence_order, ready, with_token, authorized, granted,
  token_granted,
}

-- The state after one more nonce.
abbrev later : VolatileState String → VolatileState String
later s = step platform config s (to_nonce "m")

later-Reach :
    (s : VolatileState String) → lookup "m" s.nonces ≡ none → Reach platform config s (later s)
later-Reach s h = next start (to_nonce "m") h refl

no_m : lookup "m" with_token.nonces ≡ none
unfolding vcissuer.Flow.step vcissuer.State.initial vcissuer.Table.lookup vcissuer.Table.insert
    vcissuer.Table.remove vcissuer.Table.find_value vcissuer.Table.has vcissuer.Table.add
    vcissuer.Text.as_bytes vcissuer.Text.is_empty vcissuer.Text.split
    vcissuer.Text.split_ascii_whitespace vcissuer.Text.trim_end_slashes vcissuer.Text.strip_prefix
    vcissuer.Proof.Jws.unix_time vcissuer.Proof.Jws.three_parts vcissuer.Proof.Jws.compact_parts
    vcissuer.Oauth.oauth_error vcissuer.Endpoint.Offer.build_tlsn_offer
    vcissuer.Tlsn.verify_tlsn_artifact vcissuer.Endpoint.Offer.reserve
    vcissuer.Tlsn.reserve_tlsn_session vcissuer.Endpoint.Par.par
    vcissuer.Endpoint.Par.offered_evidence vcissuer.Profile.valid_scope vcissuer.Profile.is_allowed
    vcissuer.Endpoint.Authorize.authorize vcissuer.Endpoint.Token.token vcissuer.State.use_dpop_jti
    vcissuer.Proof.Dpop.verify_dpop vcissuer.Endpoint.Token.pkce_matches
no_m = refl

token_once_example :
    is_ok
      (token platform config (some "d.u.s") token_request (some 101) "other" (later with_token)).0
    ≡ false
token_once_example =
    token_once platform config (some "d.t.s") (some "d.u.s") token_request token_request clock
      (some 101) "access" "other" authorized with_token (later with_token) granted token_granted
      (later-Reach with_token no_m) refl

abbrev after : VolatileState String
after = (credential platform config evidence_input ready).1

abbrev holder : VerifiedCredentialProof String
holder = record {
  holder_jkt = "digest";
  holder_jwk = "0123456789abcdef0123456789abcdef";
  nonce = "n";
}

proof_verifies : verify_credential_proof platform "p.x.s" config.issuer clock ≡ ok holder
unfolding vcissuer.Flow.step vcissuer.State.initial vcissuer.Table.lookup vcissuer.Table.insert
    vcissuer.Table.remove vcissuer.Table.find_value vcissuer.Table.has vcissuer.Table.add
    vcissuer.Text.as_bytes vcissuer.Text.is_empty vcissuer.Text.split
    vcissuer.Text.split_ascii_whitespace vcissuer.Text.trim_end_slashes vcissuer.Text.strip_prefix
    vcissuer.Proof.Jws.unix_time vcissuer.Proof.Jws.three_parts vcissuer.Proof.Jws.compact_parts
    vcissuer.Oauth.oauth_error vcissuer.Proof.Credential.verify_credential_proof
    vcissuer.Proof.Jws.verifying_key_and_jwk
proof_verifies = refl

no_m_after : lookup "m" after.nonces ≡ none
unfolding vcissuer.Flow.step vcissuer.State.initial vcissuer.Table.lookup vcissuer.Table.insert
    vcissuer.Table.remove vcissuer.Table.find_value vcissuer.Table.has vcissuer.Table.add
    vcissuer.Text.as_bytes vcissuer.Text.is_empty vcissuer.Text.split
    vcissuer.Text.split_ascii_whitespace vcissuer.Text.trim_end_slashes vcissuer.Text.strip_prefix
    vcissuer.Proof.Jws.unix_time vcissuer.Proof.Jws.three_parts vcissuer.Proof.Jws.compact_parts
    vcissuer.Oauth.oauth_error vcissuer.Endpoint.Offer.build_tlsn_offer
    vcissuer.Tlsn.verify_tlsn_artifact vcissuer.Endpoint.Offer.reserve
    vcissuer.Tlsn.reserve_tlsn_session vcissuer.Endpoint.Par.par
    vcissuer.Endpoint.Par.offered_evidence vcissuer.Profile.valid_scope vcissuer.Profile.is_allowed
    vcissuer.Endpoint.Authorize.authorize vcissuer.Endpoint.Token.token vcissuer.State.use_dpop_jti
    vcissuer.Proof.Dpop.verify_dpop vcissuer.Endpoint.Token.pkce_matches
    vcissuer.Endpoint.Token.nonce vcissuer.Endpoint.Credential.credential
    vcissuer.Endpoint.Credential.bearer vcissuer.Endpoint.Credential.order
    vcissuer.State.use_binding_jti vcissuer.Proof.Credential.verify_credential_proof
    vcissuer.Proof.Jws.verifying_key_and_jwk vcissuer.Gate.authorize_kernel vcissuer.Gate.role_of
    vcissuer.Profile.is_nfc_pid vcissuer.Proof.Jws.hash_u128 vcissuer.Kernel.authorize_sign
    vcissuer.Kernel.may_issue vcissuer.Kernel.usable_at vcissuer.Kernel.role_evidence_ok
    vcissuer.Kernel.representation_ok vcissuer.Kernel.chip_liveness_ok
    vcissuer.Kernel.device_binding_ok vcissuer.Kernel.subset_of vcissuer.Kernel.command_powers
    vcissuer.Gate.subject_of vcissuer.Gate.chip_subject vcissuer.Gate.or_else
    vcissuer.Gate.demo_mandate_delegation vcissuer.Kernel.is_empty
no_m_after = refl

nonce_once_example : is_ok (credential platform config evidence_input (later after)).0 ≡ false
nonce_once_example =
    nonce_once platform config evidence_input evidence_input ready after (later after)
      evidence_order "p.x.s" "p.x.s" holder holder evidence_issued (later-Reach after no_m_after)
      refl proof_verifies refl proof_verifies refl

abbrev token_proof : VerifiedDpop
token_proof = record { jkt = "digest"; jti = "t" }

token_proof_verifies :
    verify_dpop platform "d.t.s" "POST" (platform.url_join config.issuer "token") clock
    ≡ ok token_proof
unfolding vcissuer.Flow.step vcissuer.State.initial vcissuer.Table.lookup vcissuer.Table.insert
    vcissuer.Table.remove vcissuer.Table.find_value vcissuer.Table.has vcissuer.Table.add
    vcissuer.Text.as_bytes vcissuer.Text.is_empty vcissuer.Text.split
    vcissuer.Text.split_ascii_whitespace vcissuer.Text.trim_end_slashes vcissuer.Text.strip_prefix
    vcissuer.Proof.Jws.unix_time vcissuer.Proof.Jws.three_parts vcissuer.Proof.Jws.compact_parts
    vcissuer.Oauth.oauth_error vcissuer.Proof.Dpop.verify_dpop
token_proof_verifies = refl

-- A proof for the other endpoint, with the same identifier.
abbrev replayed : CredentialInput
replayed = record evidence_input { dpop = some "d.x.s" }

replayed_verifies :
    verify_dpop platform "d.x.s" "POST" (platform.url_join config.issuer "credential") clock
    ≡ ok token_proof
unfolding vcissuer.Flow.step vcissuer.State.initial vcissuer.Table.lookup vcissuer.Table.insert
    vcissuer.Table.remove vcissuer.Table.find_value vcissuer.Table.has vcissuer.Table.add
    vcissuer.Text.as_bytes vcissuer.Text.is_empty vcissuer.Text.split
    vcissuer.Text.split_ascii_whitespace vcissuer.Text.trim_end_slashes vcissuer.Text.strip_prefix
    vcissuer.Proof.Jws.unix_time vcissuer.Proof.Jws.three_parts vcissuer.Proof.Jws.compact_parts
    vcissuer.Oauth.oauth_error vcissuer.Proof.Dpop.verify_dpop
replayed_verifies = refl

dpop_jti_once_example :
    (is_ok (token platform config (some "d.t.s") token_request clock "other" (later with_token)).0
      ≡ false)
    × (is_ok (credential platform config replayed (later with_token)).0 ≡ false)
unfolding token step
dpop_jti_once_example =
    dpop_jti_once platform config "d.t.s" "d.t.s" "d.x.s" token_request token_request replayed clock
      clock "access" "other" authorized (later with_token) token_proof token_proof token_proof refl
      token_proof_verifies (later-Reach with_token no_m) token_proof_verifies refl refl
      replayed_verifies refl

read_clock : unix_time clock ≡ ok 100
unfolding unix_time
read_clock = refl

abbrev offered : VolatileState String
offered = (build_tlsn_offer platform config artifact "o" "is" clock initial).1

abbrev offer : CreateOfferResponse
offer = record {
  credential_offer_uri = "https://i/credential-offer/o";
  deep_link = "openid-credential-offer://?credential_offer_uri=https://i/credential-offer/o";
  expires_in = 300;
}

offer_made : build_tlsn_offer platform config artifact "o" "is" clock initial ≡ (ok offer, offered)
unfolding vcissuer.Flow.step vcissuer.State.initial vcissuer.Table.lookup vcissuer.Table.insert
    vcissuer.Table.remove vcissuer.Table.find_value vcissuer.Table.has vcissuer.Table.add
    vcissuer.Text.as_bytes vcissuer.Text.is_empty vcissuer.Text.split
    vcissuer.Text.split_ascii_whitespace vcissuer.Text.trim_end_slashes vcissuer.Text.strip_prefix
    vcissuer.Proof.Jws.unix_time vcissuer.Proof.Jws.three_parts vcissuer.Proof.Jws.compact_parts
    vcissuer.Oauth.oauth_error vcissuer.Endpoint.Offer.build_tlsn_offer
    vcissuer.Tlsn.verify_tlsn_artifact vcissuer.Endpoint.Offer.reserve
    vcissuer.Tlsn.reserve_tlsn_session
offer_made = refl

artifact_verifies :
    verify_tlsn_artifact platform artifact config.trusted_notary_key config.trusted_notary_pq_key
      100
    ≡ ok evidence
unfolding vcissuer.Flow.step vcissuer.State.initial vcissuer.Table.lookup vcissuer.Table.insert
    vcissuer.Table.remove vcissuer.Table.find_value vcissuer.Table.has vcissuer.Table.add
    vcissuer.Text.as_bytes vcissuer.Text.is_empty vcissuer.Text.split
    vcissuer.Text.split_ascii_whitespace vcissuer.Text.trim_end_slashes vcissuer.Text.strip_prefix
    vcissuer.Proof.Jws.unix_time vcissuer.Proof.Jws.three_parts vcissuer.Proof.Jws.compact_parts
    vcissuer.Oauth.oauth_error vcissuer.Endpoint.Offer.build_tlsn_offer
    vcissuer.Tlsn.verify_tlsn_artifact vcissuer.Endpoint.Offer.reserve
    vcissuer.Tlsn.reserve_tlsn_session
artifact_verifies = refl

no_m_offered : lookup "m" offered.nonces ≡ none
unfolding vcissuer.Flow.step vcissuer.State.initial vcissuer.Table.lookup vcissuer.Table.insert
    vcissuer.Table.remove vcissuer.Table.find_value vcissuer.Table.has vcissuer.Table.add
    vcissuer.Text.as_bytes vcissuer.Text.is_empty vcissuer.Text.split
    vcissuer.Text.split_ascii_whitespace vcissuer.Text.trim_end_slashes vcissuer.Text.strip_prefix
    vcissuer.Proof.Jws.unix_time vcissuer.Proof.Jws.three_parts vcissuer.Proof.Jws.compact_parts
    vcissuer.Oauth.oauth_error vcissuer.Endpoint.Offer.build_tlsn_offer
    vcissuer.Tlsn.verify_tlsn_artifact vcissuer.Endpoint.Offer.reserve
    vcissuer.Tlsn.reserve_tlsn_session
no_m_offered = refl

tlsn_session_once_example :
    is_ok (build_tlsn_offer platform config artifact "p" "js" clock (later offered)).0 ≡ false
tlsn_session_once_example =
    tlsn_session_once platform config artifact artifact "o" "p" "is" "js" clock clock 100 100
      initial offered (later offered) offer evidence evidence read_clock artifact_verifies
      offer_made (later-Reach offered no_m_offered) read_clock artifact_verifies refl
