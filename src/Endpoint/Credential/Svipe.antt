-- ===== src/Endpoint/Credential/Svipe.antt =====
-- The configuration of the Svipe PID, which the last match of `credential` has no arm for.
use Prim.Native.String.{String}
use text.Mathlib.TextEquality.{eq_iff}
use vcissuer.Prelude.{◌<◌, u64_max, Bool, true, false, ℕ, ◌≡◌, refl, ◌≢◌, true, Option, none, arith}
use vcissuer.Oauth.{oauth_error, err, ok}
use vcissuer.Platform.{Platform}
use vcissuer.Profile.{
  dev_svipe_pid_sd_jwt, qeaa_pid_bound_sd_jwt, is_allowed, is_nfc_pid, mandate_sd_jwt,
}
use vcissuer.Proof.Credential.{VerifiedCredentialProof}
use vcissuer.Proof.Emrtd.{VerifiedChipLiveness}
use vcissuer.Gate.{authorize_kernel, role_of, KernelTokens, MandateGrant}
use vcissuer.Gate.Grants.{Grantable, authorize_kernel_iff}
use vcissuer.Tlsn.{VerifiedTlsnEvidence}
use vcissuer.State.{VolatileState, Config}
use vcissuer.Endpoint.Credential.{CredentialInput, Order, order, credential}
use vcissuer.Endpoint.Credential.Issued.{credential-Issued}

svipe_allowed : (h : Bool) → is_allowed h dev_svipe_pid_sd_jwt ≡ true
unfolding is_allowed
svipe_allowed true = refl
svipe_allowed false = refl

svipe-Grantable : Grantable dev_svipe_pid_sd_jwt none none
unfolding role_of is_nfc_pid
svipe-Grantable = record {
  known = λ z. cc;
  pid_bound = λ z. ground (
    arith,
    eq_iff dev_svipe_pid_sd_jwt qeaa_pid_bound_sd_jwt,
    eq_iff dev_svipe_pid_sd_jwt mandate_sd_jwt,
  );
  chip_read = λ z. cc;
}

module _ {V : Type 0} (p : Platform V) (config : Config V) (input : CredentialInput) where
  order-svipe :
      (k : VerifiedCredentialProof V) (e : Option (VerifiedTlsnEvidence V))
      (c : Option VerifiedChipLiveness) (g : Option MandateGrant) (now : ℕ)
      → input.configuration_id ≡ dev_svipe_pid_sd_jwt
      → order p config input k e c g now
        ≡ err (
            oauth_error 400 "unknown_credential_configuration"
              "credential configuration is unknown")
  unfolding order
  order-svipe k e c g now h = rw h refl

  -- No request for the Svipe PID is answered with a credential, although the closed set of scopes
  -- contains it and, with a clock below the last second of `u64`, the gate lets it through without
  -- further evidence.
  pub svipe_never_issued :
      (s t : VolatileState V) (o : Order V) (h : Bool) (holder_jkt nonce : String) (now : ℕ)
      (tokens : KernelTokens)
      → input.configuration_id ≡ dev_svipe_pid_sd_jwt
      → now < u64_max
      → (credential p config input s ≢ (ok o, t))
        × (is_allowed h input.configuration_id ≡ true)
        × ((g : Option MandateGrant) × (authorize_kernel p input.configuration_id holder_jkt nonce
                none none now tokens
              ≡ ok g))
  svipe_never_issued s t o h holder_jkt nonce now tokens e small = (
    λ q.
        let i = credential-Issued p config input s t o q in
        let r = order-svipe i.proof i.access.tlsn_evidence i.chip i.grant i.now e in
        let w = i.ordered in cc,
    rw e (svipe_allowed h),
    rw e (
        (authorize_kernel_iff p dev_svipe_pid_sd_jwt holder_jkt nonce none none now tokens small).1
          svipe-Grantable),
  )
