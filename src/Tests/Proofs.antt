-- ===== src/Tests/Proofs.antt =====
-- Proofs and artifacts that verify, and an age.
use Prim.Native.String.{String}
use vcissuer.Prelude.{ℕ, ◌≡◌, ◌↔◌, ◌⊎◌, ◌≤◌, refl, true, none, some, [], ◌∷◌}
use vcissuer.Oauth.{ok}
use vcissuer.Proof.Dpop.{VerifiedDpop, verify_dpop}
use vcissuer.Proof.Dpop.Sound.{DpopProven, verify_dpop-DpopProven}
use vcissuer.Proof.Emrtd.{
  VerifiedChipLiveness, parse_date, today_at, age_over_18, verify_emrtd_evidence,
}
use vcissuer.Proof.Emrtd.Sound.{
  Overflows, completed_years, ChipReadProven, verify_emrtd_evidence-ChipReadProven, age_over_18_iff,
}
use vcissuer.Tlsn.{VerifiedTlsnEvidence, verify_tlsn_artifact}
use vcissuer.Tlsn.Sound.{ArtifactProven, verify_tlsn_artifact-ArtifactProven}
use vcissuer.Proof.Credential.{VerifiedCredentialProof, verify_credential_proof}
use vcissuer.Proof.Credential.Sound.{ProofShown, verify_credential_proof-ProofShown}
use vcissuer.Proof.Pid.{VerifiedPidBinding, verify_pid_binding}
use vcissuer.Proof.Pid.Sound.{PidShown, verify_pid_binding-PidShown}
use vcissuer.Tests.{platform, config, artifact, clock, pid_object}

abbrev proof : VerifiedDpop
proof = record { jkt = "digest"; jti = "t" }

proof_verifies : verify_dpop platform "d.t.s" "POST" "https://i/token" clock ≡ ok proof
unfolding vcissuer.Flow.step vcissuer.State.initial vcissuer.Table.lookup vcissuer.Table.insert
    vcissuer.Table.remove vcissuer.Table.find_value vcissuer.Table.has vcissuer.Table.add
    vcissuer.Text.as_bytes vcissuer.Text.is_empty vcissuer.Text.split
    vcissuer.Text.split_ascii_whitespace vcissuer.Text.trim_end_slashes vcissuer.Text.strip_prefix
    vcissuer.Proof.Jws.unix_time vcissuer.Proof.Jws.three_parts vcissuer.Proof.Jws.compact_parts
    vcissuer.Oauth.oauth_error vcissuer.Proof.Dpop.verify_dpop
proof_verifies = refl

verify_dpop-DpopProven_example :
    (now : ℕ) × (clock ≡ some now) × DpopProven platform "d.t.s" "POST" "https://i/token" now proof
verify_dpop-DpopProven_example =
    verify_dpop-DpopProven platform "d.t.s" "POST" "https://i/token" clock proof proof_verifies

abbrev evidence : VerifiedTlsnEvidence String
evidence = record { session_id = "session"; issued_at = 100; verifier_output = "output" }

artifact_verifies :
    verify_tlsn_artifact platform artifact config.trusted_notary_key config.trusted_notary_pq_key
      100
    ≡ ok evidence
unfolding vcissuer.Flow.step vcissuer.State.initial vcissuer.Table.lookup vcissuer.Table.insert
    vcissuer.Table.remove vcissuer.Table.find_value vcissuer.Table.has vcissuer.Table.add
    vcissuer.Text.as_bytes vcissuer.Text.is_empty vcissuer.Text.split
    vcissuer.Text.split_ascii_whitespace vcissuer.Text.trim_end_slashes vcissuer.Text.strip_prefix
    vcissuer.Proof.Jws.unix_time vcissuer.Proof.Jws.three_parts vcissuer.Proof.Jws.compact_parts
    vcissuer.Oauth.oauth_error vcissuer.Endpoint.Offer.build_tlsn_offer
    vcissuer.Tlsn.verify_tlsn_artifact vcissuer.Endpoint.Offer.reserve
    vcissuer.Tlsn.reserve_tlsn_session
artifact_verifies = refl

verify_tlsn_artifact-ArtifactProven_example :
    ArtifactProven platform artifact config.trusted_notary_key config.trusted_notary_pq_key 100
      evidence
verify_tlsn_artifact-ArtifactProven_example =
    verify_tlsn_artifact-ArtifactProven platform artifact config.trusted_notary_key
      config.trusted_notary_pq_key 100 evidence artifact_verifies

abbrev pub chip : VerifiedChipLiveness
chip = record {
  subject = 1871007645315966974513;
  jti = "chip";
  sod_passive_auth = true;
  chip_authentic = true;
  liveness_matched = true;
  claims = record {
    family_name = "Mustermann";
    given_name = "Erika";
    birthdate = "1990-01-01";
    nationality = "D";
    issuing_country = "D";
    age_over_18 = true;
    portrait = none;
  };
}

chip_verifies :
    verify_emrtd_evidence platform "h.c.s" (114 ∷ []) "https://i/" "n" "digest" 100 ≡ ok chip
unfolding vcissuer.Flow.step vcissuer.State.initial vcissuer.Table.lookup vcissuer.Table.insert
    vcissuer.Table.remove vcissuer.Table.find_value vcissuer.Table.has vcissuer.Table.add
    vcissuer.Text.as_bytes vcissuer.Text.is_empty vcissuer.Text.split
    vcissuer.Text.split_ascii_whitespace vcissuer.Text.trim_end_slashes vcissuer.Text.strip_prefix
    vcissuer.Proof.Jws.unix_time vcissuer.Proof.Jws.three_parts vcissuer.Proof.Jws.compact_parts
    vcissuer.Oauth.oauth_error vcissuer.Proof.Emrtd.verify_emrtd_evidence
    vcissuer.Proof.Jws.verify_jws_payload vcissuer.Proof.Jws.hash_u128
    vcissuer.Proof.Emrtd.is_expired_document vcissuer.Proof.Emrtd.age_over_18
    vcissuer.Proof.Emrtd.parse_date vcissuer.Text.parse_number vcissuer.Proof.Emrtd.today_at
    vcissuer.Text.is_blank
chip_verifies = refl

verify_emrtd_evidence-ChipReadProven_example :
    ChipReadProven platform "h.c.s" (114 ∷ []) "https://i/" "n" "digest" 100 chip
verify_emrtd_evidence-ChipReadProven_example =
    verify_emrtd_evidence-ChipReadProven platform "h.c.s" (114 ∷ []) "https://i/" "n" "digest" 100
      chip chip_verifies

age_over_18_iff_example : (age_over_18 platform "1990-01-01" 100 ≡ true) ↔ (
    (date : ℕ × ℕ × ℕ) × (today : ℕ × ℕ × ℕ) × (parse_date "1990-01-01" ≡ some date)
    × (today_at platform 100 ≡ some today)
    × (Overflows date ⊎ 18 ≤ completed_years today date))
age_over_18_iff_example = age_over_18_iff platform "1990-01-01" 100

abbrev holder : VerifiedCredentialProof String
holder = record {
  holder_jkt = "digest";
  holder_jwk = "0123456789abcdef0123456789abcdef";
  nonce = "n";
}

holder_verifies : verify_credential_proof platform "p.x.s" "https://i/" clock ≡ ok holder
unfolding vcissuer.Flow.step vcissuer.State.initial vcissuer.Table.lookup vcissuer.Table.insert
    vcissuer.Table.remove vcissuer.Table.find_value vcissuer.Table.has vcissuer.Table.add
    vcissuer.Text.as_bytes vcissuer.Text.is_empty vcissuer.Text.split
    vcissuer.Text.split_ascii_whitespace vcissuer.Text.trim_end_slashes vcissuer.Text.strip_prefix
    vcissuer.Proof.Jws.unix_time vcissuer.Proof.Jws.three_parts vcissuer.Proof.Jws.compact_parts
    vcissuer.Oauth.oauth_error vcissuer.Proof.Credential.verify_credential_proof
    vcissuer.Proof.Jws.verifying_key_and_jwk
holder_verifies = refl

verify_credential_proof-ProofShown_example :
    (now : ℕ) × (clock ≡ some now) × ProofShown platform "p.x.s" "https://i/" now holder
verify_credential_proof-ProofShown_example =
    verify_credential_proof-ProofShown platform "p.x.s" "https://i/" clock holder holder_verifies

abbrev binding : VerifiedPidBinding
binding = record { subject = 102960396106854688713523186080118565729; jti = "binding" }

binding_verifies :
    verify_pid_binding platform pid_object "jwk" "https://i/" "n" "digest" 100 ≡ ok binding
unfolding vcissuer.Flow.step vcissuer.State.initial vcissuer.Table.lookup vcissuer.Table.insert
    vcissuer.Table.remove vcissuer.Table.find_value vcissuer.Table.has vcissuer.Table.add
    vcissuer.Text.as_bytes vcissuer.Text.is_empty vcissuer.Text.split
    vcissuer.Text.split_ascii_whitespace vcissuer.Text.trim_end_slashes vcissuer.Text.strip_prefix
    vcissuer.Proof.Jws.unix_time vcissuer.Proof.Jws.three_parts vcissuer.Proof.Jws.compact_parts
    vcissuer.Oauth.oauth_error vcissuer.Proof.Pid.verify_pid_binding
    vcissuer.Proof.Jws.verify_jws_payload vcissuer.Proof.Jws.verifying_key_and_jwk
    vcissuer.Proof.Jws.hash_u128
binding_verifies = refl

verify_pid_binding-PidShown_example :
    PidShown platform pid_object "jwk" "https://i/" "n" "digest" 100 binding
verify_pid_binding-PidShown_example =
    verify_pid_binding-PidShown platform pid_object "jwk" "https://i/" "n" "digest" 100 binding
      binding_verifies
