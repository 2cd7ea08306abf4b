-- ===== src/Tests/Gate.antt =====
-- The gate for a mandate.
use vcissuer.Prelude.{ℕ, ◌≡◌, ◌≢◌, ◌↔◌, refl, Option, none, some, arith, unwrap_or}
use vcissuer.Oauth.{ok}
use vcissuer.Profile.{mandate_sd_jwt}
use vcissuer.Gate.{MandateGrant, KernelTokens, authorize_kernel, chip_subject, demo_mandate_powers}
use vcissuer.Gate.Grants.{Grantable, authorize_kernel_iff}
use vcissuer.Gate.Mandates.{authorize_kernel-grant}
use vcissuer.Tests.{platform, kernel_tokens}

authorize_kernel_iff_example :
    ((g : Option MandateGrant) × (authorize_kernel platform mandate_sd_jwt "digest" "n"
          (some 7)
          none
          100
          kernel_tokens
        ≡ ok g))
    ↔ Grantable mandate_sd_jwt (some 7) none
authorize_kernel_iff_example =
    authorize_kernel_iff platform mandate_sd_jwt "digest" "n" (some 7) none 100 kernel_tokens
      (omega arith)

abbrev grant : Option MandateGrant
grant = some (record { on_behalf_of = 7; granted_powers = 3 })

mandate_granted :
    authorize_kernel platform mandate_sd_jwt "digest" "n" (some 7) none 100 kernel_tokens ≡ ok grant
unfolding vcissuer.Flow.step vcissuer.State.initial vcissuer.Table.lookup vcissuer.Table.insert
    vcissuer.Table.remove vcissuer.Table.find_value vcissuer.Table.has vcissuer.Table.add
    vcissuer.Text.as_bytes vcissuer.Text.is_empty vcissuer.Text.split
    vcissuer.Text.split_ascii_whitespace vcissuer.Text.trim_end_slashes vcissuer.Text.strip_prefix
    vcissuer.Proof.Jws.unix_time vcissuer.Proof.Jws.three_parts vcissuer.Proof.Jws.compact_parts
    vcissuer.Oauth.oauth_error vcissuer.Endpoint.Credential.credential
    vcissuer.Endpoint.Credential.bearer vcissuer.Endpoint.Credential.order
    vcissuer.State.use_dpop_jti vcissuer.State.use_binding_jti vcissuer.Proof.Dpop.verify_dpop
    vcissuer.Proof.Credential.verify_credential_proof vcissuer.Proof.Jws.verifying_key_and_jwk
    vcissuer.Gate.authorize_kernel vcissuer.Gate.role_of vcissuer.Profile.is_nfc_pid
    vcissuer.Proof.Jws.hash_u128 vcissuer.Kernel.authorize_sign vcissuer.Kernel.may_issue
    vcissuer.Kernel.usable_at vcissuer.Kernel.role_evidence_ok vcissuer.Kernel.representation_ok
    vcissuer.Kernel.chip_liveness_ok vcissuer.Kernel.device_binding_ok vcissuer.Kernel.subset_of
    vcissuer.Kernel.command_powers vcissuer.Gate.subject_of vcissuer.Gate.chip_subject
    vcissuer.Gate.or_else vcissuer.Gate.demo_mandate_delegation vcissuer.Kernel.is_empty
mandate_granted = refl

authorize_kernel-grant_example :
    (mandate_sd_jwt ≡ mandate_sd_jwt
      → (x : ℕ) × (some 7 ≡ some x)
        × (grant
            ≡ some (record {
              on_behalf_of = unwrap_or (chip_subject none) x;
              granted_powers = demo_mandate_powers;
            })))
    × (mandate_sd_jwt ≢ mandate_sd_jwt → grant ≡ none)
authorize_kernel-grant_example =
    authorize_kernel-grant platform mandate_sd_jwt "digest" "n" (some 7) none 100 kernel_tokens
      grant mandate_granted
