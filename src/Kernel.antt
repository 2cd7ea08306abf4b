-- ===== src/Kernel.antt =====
-- rust/issuer-core/src/lib.rs: the pure decision kernel. An identifier (`u128`) and an instant
-- (`u64`) is a number: the kernel only compares them.
pub mod Issuance
pub mod Mandate
pub mod Powers
pub mod Taxonomy
use Prim.Native.String.{String}
use text.Mathlib.Text.{◌==◌ as str_eq}
use mathlib.Core.List.{foldl}
use vcissuer.Prelude.{
  ℕ, ◌*◌, ◌^◌, Bool, true, false, not, ◌&&◌, ◌||◌, Option, none, some, List, [], ◌∷◌, map, bit_and,
  bit_or, ltb, leb, ◌==◌, if◌then◌else◌, is_some, all, any,
}

pub data IssuerRole : Type 0 where
  pid qeaa public_body_eaa non_qualified_eaa development_evidence representation : IssuerRole

pub data CredentialFormat : Type 0 where
  sd_jwt_vc mdoc : CredentialFormat

pub record CredentialProfile : Type 0 where
  pub id : ℕ
  pub role : IssuerRole
  pub format : CredentialFormat
  pub enabled : Bool
  pub device_binding_required : Bool
  pub pid_binding_required : Bool
  pub require_hybrid_pq : Bool
  pub require_chip_liveness : Bool

pub record Evidence : Type 0 where
  pub valid_from : ℕ
  pub valid_until : ℕ
  pub fresh_until : ℕ
  pub accepted : Bool

pub record Authorization : Type 0 where
  pub evidence : Evidence
  pub profile : ℕ
  pub subject : ℕ
  pub dataset : ℕ

pub record TokenBinding : Type 0 where
  pub evidence : Evidence
  pub dpop_key : ℕ

pub record CredentialProof : Type 0 where
  pub evidence : Evidence
  pub nonce : ℕ
  pub holder_key : ℕ
  pub possession_valid : Bool

pub record WalletEvidence : Type 0 where
  pub wia : Evidence
  pub ka : Option Evidence
  pub wallet_not_revoked : Bool
  pub holder_key_approved : Bool

pub record SubjectEvidence : Type 0 where
  pub evidence : Evidence
  pub subject : ℕ
  pub loa_high : Bool
  pub entitled : Bool
  pub claims_current : Bool
  pub dataset : ℕ
  pub pid_binding_verified : Bool

-- A set of powers is a `u64`, one bit to a power.
pub record Delegation : Type 0 where
  pub delegator_evidence : Evidence
  pub delegator : ℕ
  pub delegate_key : ℕ
  pub grant : ℕ
  pub mandate_not_revoked : Bool

pub record ChipLivenessEvidence : Type 0 where
  pub evidence : Evidence
  pub subject : ℕ
  pub sod_passive_auth : Bool
  pub chip_authentic : Bool
  pub liveness_matched : Bool

pub record Request : Type 0 where
  pub id : ℕ
  pub profile : ℕ
  pub subject : ℕ
  pub dataset : ℕ
  pub dpop_key : ℕ
  pub proof : CredentialProof
  pub expiry : ℕ
  pub requested_powers : ℕ

pub record Session : Type 0 where
  pub id : ℕ
  pub profile : CredentialProfile
  pub authorization : Authorization
  pub token : TokenBinding
  pub wallet : WalletEvidence
  pub subject : SubjectEvidence
  pub expected_nonce : ℕ
  pub nonce_unused : Bool
  pub issuer_entitled : Bool
  pub status_reserved : Bool
  pub already_issued : Bool
  pub wia_ka_maintenance_end : ℕ
  pub hybrid_pq_bound : Bool
  pub delegation : Option Delegation
  pub chip_evidence : Option ChipLivenessEvidence

pub record SignCommand : Type 0 where
  pub session : ℕ
  pub request : ℕ
  pub profile : ℕ
  pub subject : ℕ
  pub holder_key : ℕ
  pub on_behalf_of : Option ℕ
  pub granted_powers : ℕ

-- `Err(DecisionError::NotAuthorized)` is the one way to fail.
pub data Decision : Type 0 where
  signed : SignCommand → Decision
  not_authorized : Decision

unfoldable pub subset_of : ℕ → ℕ → Bool
subset_of powers grant = bit_and powers grant == powers

unfoldable pub is_empty : ℕ → Bool
is_empty powers = powers == 0

abbrev pub power_taxonomy : List (ℕ × String)
power_taxonomy =
    (0, "urn:eudi:mandate:power:present-identity")
    ∷ (1, "urn:eudi:mandate:power:sign-document")
    ∷ (2, "urn:eudi:mandate:power:authorise-payment")
    ∷ (3, "urn:eudi:mandate:power:manage-subscription")
    ∷ (4, "urn:eudi:mandate:power:access-records")
    ∷ (5, "urn:eudi:mandate:power:administer-account")
    ∷ []

-- `1u64 << bit`, for a bit below 64.
abbrev pub power_bit : ℕ → ℕ
power_bit bit = 2 ^ bit

abbrev pub taxonomy_mask : ℕ
taxonomy_mask = foldl (λ mask entry. bit_or mask (power_bit entry.0)) 0 power_taxonomy

-- The loop of `powers_to_scope_urns` over a table of powers.
scope_urns_of : List (ℕ × String) → ℕ → List String
scope_urns_of [] powers = []
scope_urns_of ((bit, urn) ∷ entries) powers =
    if not (bit_and powers (power_bit bit) == 0)
    then urn ∷ scope_urns_of entries powers
    else scope_urns_of entries powers

unfoldable pub powers_to_scope_urns : ℕ → List String
unfolding scope_urns_of
powers_to_scope_urns powers = scope_urns_of power_taxonomy powers

unfoldable pub scope_urns_subset : List String → List String → Bool
scope_urns_subset requested granted = all (λ urn. any (str_eq urn) granted) requested

unfoldable pub usable_at : Evidence → ℕ → Bool
usable_at e now =
    e.accepted && leb e.valid_from now && ltb now e.valid_until && leb now e.fresh_until

unfoldable pub role_evidence_ok : IssuerRole → SubjectEvidence → Bool
role_evidence_ok pid subject = subject.loa_high
role_evidence_ok _ subject = true

delegation_ok : Option Delegation → Request → ℕ → Bool
delegation_ok none request now = false
delegation_ok (some d) request now =
    usable_at d.delegator_evidence now
    && d.mandate_not_revoked
    && d.delegate_key == request.proof.holder_key
    && not (is_empty request.requested_powers)
    && subset_of request.requested_powers d.grant

representation_for : IssuerRole → Option Delegation → Request → ℕ → Bool
representation_for representation delegation request now = delegation_ok delegation request now
representation_for _ delegation request now = true

unfoldable pub representation_ok : Session → Request → ℕ → Bool
unfolding representation_for delegation_ok
representation_ok session request now =
    representation_for session.profile.role session.delegation request now

chip_ok : Option ChipLivenessEvidence → Request → ℕ → Bool
chip_ok none request now = false
chip_ok (some e) request now =
    usable_at e.evidence now
    && e.sod_passive_auth
    && e.chip_authentic
    && e.liveness_matched
    && e.subject == request.subject

unfoldable pub chip_liveness_ok : Session → Request → ℕ → Bool
unfolding chip_ok
chip_liveness_ok session request now = chip_ok session.chip_evidence request now

unfoldable pub device_binding_ok : CredentialProfile → WalletEvidence → CredentialProof → Bool
device_binding_ok profile wallet proof =
    if profile.device_binding_required
    then wallet.holder_key_approved && proof.possession_valid && is_some wallet.ka
    else proof.possession_valid

unfoldable pub may_issue : Session → Request → ℕ → Bool
may_issue session request now =
    session.profile.enabled
    && session.profile.id == request.profile
    && session.issuer_entitled
    && usable_at session.authorization.evidence now
    && session.authorization.profile == request.profile
    && session.authorization.subject == request.subject
    && session.authorization.dataset == request.dataset
    && usable_at session.token.evidence now
    && session.token.dpop_key == request.dpop_key
    && usable_at request.proof.evidence now
    && request.proof.nonce == session.expected_nonce
    && session.nonce_unused
    && request.proof.holder_key == request.dpop_key
    && usable_at session.wallet.wia now
    && session.wallet.wallet_not_revoked
    && device_binding_ok session.profile session.wallet request.proof
    && usable_at session.subject.evidence now
    && session.subject.subject == request.subject
    && session.subject.dataset == request.dataset
    && session.subject.entitled
    && session.subject.claims_current
    && (not session.profile.pid_binding_required || session.subject.pid_binding_verified)
    && role_evidence_ok session.profile.role session.subject
    && leb request.expiry session.wia_ka_maintenance_end
    && session.status_reserved
    && not session.already_issued
    && (not session.profile.require_hybrid_pq || session.hybrid_pq_bound)
    && representation_ok session request now
    && (not session.profile.require_chip_liveness || chip_liveness_ok session request now)

-- The delegator and the powers of a signing command.
unfoldable pub command_powers : IssuerRole → Option Delegation → Request → Option ℕ × ℕ
command_powers representation (some d) request = (some d.delegator, request.requested_powers)
command_powers representation none request = (none, 0)
command_powers _ delegation request = (none, 0)

unfoldable pub authorize_sign : Session → Request → ℕ → Decision
unfolding command_powers
authorize_sign session request now =
    let (on_behalf_of, granted_powers) =
      command_powers session.profile.role session.delegation request in
    if may_issue session request now
    then signed (record {
      session = session.id;
      request = request.id;
      profile = request.profile;
      subject = request.subject;
      holder_key = request.proof.holder_key;
      on_behalf_of = on_behalf_of;
      granted_powers = granted_powers;
    })
    else not_authorized
