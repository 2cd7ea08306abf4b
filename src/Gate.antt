-- ===== src/Gate.antt =====
-- rust/issuer-service/src/main.rs: `authorize_kernel`, which builds the kernel's session and request
-- for one of the configurations and asks the kernel.
pub mod Grants
pub mod Mandates
use Prim.Native.String.{String}
use text.Mathlib.Text.{◌==◌}
use vcissuer.Prelude.{
  ℕ, ◌-◌, Bool, true, false, ◌&&◌, ◌||◌, Option, none, some, any, List, [], ◌∷◌, is_some, is_none,
  saturating_add, unwrap_or, if◌then◌else◌,
}
use vcissuer.Oauth.{oauth_error, Result, ok, err, ◌>>=◌, ◌>>◌, deny_if, ok_or}
use vcissuer.Platform.{Platform}
use vcissuer.Profile.{
  pid_sd_jwt, pid_mdoc, eaa_mdoc, qeaa_sd_jwt, qeaa_pid_bound_sd_jwt, pid_from_emrtd_sd_jwt,
  pid_from_emrtd_mdoc, dev_svipe_pid_sd_jwt, tlsn_evidence_sd_jwt, hybrid_pq_sd_jwt, mandate_sd_jwt,
  is_nfc_pid,
}
use vcissuer.Proof.Jws.{hash_u128}
use vcissuer.Proof.Emrtd.{VerifiedChipLiveness}
use vcissuer.Kernel.{
  IssuerRole, pid, qeaa, non_qualified_eaa, development_evidence, representation, CredentialFormat,
  sd_jwt_vc, mdoc, Evidence, Delegation, CredentialProfile, CredentialProof, Request, Session,
  ChipLivenessEvidence, Decision, signed, not_authorized, taxonomy_mask, authorize_sign,
}

abbrev among : String → List String → Bool
among name names = any (◌==◌ name) names

-- The first match of `authorize_kernel`; the last arm is the unknown configuration.
unfoldable pub role_of : String → Option IssuerRole
role_of name =
    if among name (pid_sd_jwt ∷ pid_from_emrtd_sd_jwt ∷ pid_from_emrtd_mdoc ∷ pid_mdoc ∷ [])
    then some pid
    else if among name (qeaa_sd_jwt ∷ qeaa_pid_bound_sd_jwt ∷ dev_svipe_pid_sd_jwt ∷ [])
    then some qeaa
    else if name == eaa_mdoc
    then some non_qualified_eaa
    else if among name (tlsn_evidence_sd_jwt ∷ hybrid_pq_sd_jwt ∷ [])
    then some development_evidence
    else if name == mandate_sd_jwt
    then some representation
    else none

-- The second match, for a name that the first has accepted.
format_of : String → CredentialFormat
format_of name =
    if among name (pid_from_emrtd_mdoc ∷ pid_mdoc ∷ eaa_mdoc ∷ []) then mdoc else sd_jwt_vc

-- The powers that the development mandate asks for: present-identity and sign-document.
abbrev pub demo_mandate_powers : ℕ
demo_mandate_powers = 0b11

unfoldable pub demo_mandate_delegation : ℕ → ℕ → Evidence → Delegation × ℕ
demo_mandate_delegation delegator delegate_key delegator_evidence = (
  record {
    delegator_evidence = delegator_evidence;
    delegator = delegator;
    delegate_key = delegate_key;
    grant = taxonomy_mask;
    mandate_not_revoked = true;
  },
  demo_mandate_powers,
)

mandate_context : IssuerRole → ℕ → ℕ → Evidence → Option (Delegation × ℕ)
unfolding demo_mandate_delegation
mandate_context representation delegator delegate_key e =
    some (demo_mandate_delegation delegator delegate_key e)
mandate_context _ delegator delegate_key e = none

pub record MandateGrant : Type 0 where
  pub on_behalf_of : ℕ
  pub granted_powers : ℕ

abbrev pub evidence_at : ℕ → Evidence
evidence_at now = record {
  valid_from = now - 1;
  valid_until = saturating_add now 300;
  fresh_until = saturating_add now 60;
  accepted = true;
}

chip_passes : Option VerifiedChipLiveness → Bool
chip_passes none = false
chip_passes (some c) = c.sod_passive_auth && c.chip_authentic && c.liveness_matched

unfoldable pub chip_subject : Option VerifiedChipLiveness → Option ℕ
chip_subject none = none
chip_subject (some c) = some c.subject

chip_evidence_of : Option VerifiedChipLiveness → Evidence → Option ChipLivenessEvidence
chip_evidence_of none e = none
chip_evidence_of (some c) e = some (record {
  evidence = e;
  subject = c.subject;
  sod_passive_auth = c.sod_passive_auth;
  chip_authentic = c.chip_authentic;
  liveness_matched = c.liveness_matched;
})

unfoldable pub or_else : Option ℕ → Option ℕ → Option ℕ
or_else none other = other
or_else (some a) other = some a

requested_of : Option (Delegation × ℕ) → ℕ
requested_of none = 0
requested_of (some (d, requested)) = requested

delegation_of : Option (Delegation × ℕ) → Option Delegation
delegation_of none = none
delegation_of (some (d, requested)) = some d

grant_of : Option ℕ → ℕ → Option MandateGrant
grant_of none powers = none
grant_of (some delegator) powers =
    some (record { on_behalf_of = delegator; granted_powers = powers })

pub decided : Decision → Result (Option MandateGrant)
unfolding grant_of
decided (signed command) = ok (grant_of command.on_behalf_of command.granted_powers)
decided not_authorized = err (
    oauth_error 403 "credential_request_denied" "verified issuer kernel denied the signing command")

-- The values that are hashed into the kernel's identifiers.
pub record KernelIds : Type 0 where
  pub profile : ℕ
  pub holder_key : ℕ
  pub nonce : ℕ
  pub demo_subject : ℕ
  pub request : ℕ
  pub session : ℕ

module _ (name : String) (role : IssuerRole) (ids : KernelIds) (pid_subject : Option ℕ)
    (chip : Option VerifiedChipLiveness) (now : ℕ) where
  unfoldable pub subject_of : ℕ
  unfolding chip_subject or_else
  subject_of = unwrap_or (or_else (chip_subject chip) pid_subject) ids.demo_subject

  abbrev context : Option (Delegation × ℕ)
  context = mandate_context role subject_of ids.holder_key (evidence_at now)

  kernel_profile : CredentialProfile
  unfolding format_of
  kernel_profile = record {
    id = ids.profile;
    role = role;
    format = format_of name;
    enabled = true;
    device_binding_required = true;
    pid_binding_required = name == qeaa_pid_bound_sd_jwt;
    require_hybrid_pq = false;
    require_chip_liveness = is_nfc_pid name;
  }

  pub kernel_request : Request
  unfolding requested_of mandate_context subject_of
  kernel_request = record {
    id = ids.request;
    profile = ids.profile;
    subject = subject_of;
    dataset = ids.profile;
    dpop_key = ids.holder_key;
    proof = record {
      evidence = evidence_at now;
      nonce = ids.nonce;
      holder_key = ids.holder_key;
      possession_valid = true;
    };
    expiry = saturating_add now 3600;
    requested_powers = requested_of context;
  }

  pub kernel_session : Session
  unfolding kernel_profile delegation_of mandate_context subject_of chip_evidence_of chip_passes
  kernel_session = record {
    id = ids.session;
    profile = kernel_profile;
    authorization = record {
      evidence = evidence_at now;
      profile = ids.profile;
      subject = subject_of;
      dataset = ids.profile;
    };
    token = record { evidence = evidence_at now; dpop_key = ids.holder_key };
    wallet = record {
      wia = evidence_at now;
      ka = some (evidence_at now);
      wallet_not_revoked = true;
      holder_key_approved = true;
    };
    subject = record {
      evidence = evidence_at now;
      subject = subject_of;
      loa_high = if is_nfc_pid name then chip_passes chip else true;
      entitled = true;
      claims_current = true;
      dataset = ids.profile;
      pid_binding_verified = is_some pid_subject;
    };
    expected_nonce = ids.nonce;
    nonce_unused = true;
    issuer_entitled = true;
    status_reserved = true;
    already_issued = false;
    wia_ka_maintenance_end = saturating_add now 86400;
    hybrid_pq_bound = false;
    delegation = delegation_of context;
    chip_evidence = chip_evidence_of chip (evidence_at now);
  }

-- What the two calls of `random_token` return, for the request and for the session.
pub record KernelTokens : Type 0 where
  pub request : String
  pub session : String

abbrev pub kernel_ids :
    {V : Type 0} → Platform V → String → String → String → KernelTokens → KernelIds
kernel_ids p name holder_jkt nonce tokens = record {
  profile = hash_u128 p name;
  holder_key = hash_u128 p holder_jkt;
  nonce = hash_u128 p nonce;
  demo_subject = hash_u128 p "demo-education-subject";
  request = hash_u128 p tokens.request;
  session = hash_u128 p tokens.session;
}

unfoldable pub authorize_kernel :
    {V : Type 0}
    → Platform V
    → String
    → String
    → String
    → Option ℕ
    → Option VerifiedChipLiveness
    → ℕ
    → KernelTokens
    → Result (Option MandateGrant)
unfolding decided kernel_session kernel_request
authorize_kernel p name holder_jkt nonce pid_subject chip now tokens = do
  role ←
      ok_or (role_of name)
        (oauth_error 400 "unknown_credential_configuration" "credential configuration is unknown")
  deny_if ((name == qeaa_pid_bound_sd_jwt || name == mandate_sd_jwt) && is_none pid_subject)
      (oauth_error 403 "credential_request_denied" "PID-bound issuance has no verified PID subject")
  deny_if (is_nfc_pid name && is_none chip) (
      oauth_error 403 "credential_request_denied"
        "NFC-sourced PID issuance has no verified chip + liveness evidence")
  let ids = kernel_ids p name holder_jkt nonce tokens
  decided (
      authorize_sign (kernel_session name role ids pid_subject chip now)
        (kernel_request name role ids pid_subject chip now) now)
