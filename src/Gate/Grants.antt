-- ===== src/Gate/Grants.antt =====
-- When `authorize_kernel` lets an issuance through.
use Prim.Native.String.{String}
use text.Mathlib.Text.{◌==◌}
use text.Mathlib.TextEquality.{eq_iff}
use vcissuer.Prelude.{
  ℕ, ◌<◌, ◌≡◌, refl, ◌≢◌, ◌↔◌, ◌⊎◌, true, false, Option, none, some, arith, u64_max, Option-cases,
  inl, inr, ◌&&◌, ◌||◌, is_none,
}
use vcissuer.Oauth.{ok}
use vcissuer.Platform.{Platform}
use vcissuer.Profile.{qeaa_pid_bound_sd_jwt, mandate_sd_jwt, is_nfc_pid}
use vcissuer.Proof.Emrtd.{VerifiedChipLiveness}
use vcissuer.Kernel.{
  IssuerRole, representation, Session, Request, SignCommand, signed, authorize_sign, subset_of,
}
use vcissuer.Kernel.Issuance.{
  Usable, Represented, ChipRead, MayIssue, may_issue_iff, may_issue_of_signed, authorize_sign_iff,
}
use vcissuer.Gate.{
  KernelIds, KernelTokens, MandateGrant, evidence_at, chip_passes, chip_subject, or_else,
  subject_of, kernel_session, kernel_request, decided, grant_of, role_of, kernel_ids,
  authorize_kernel,
}

-- All three verdicts on a chip read hold.
abbrev pub ChipVerified : Option VerifiedChipLiveness → Type 0
ChipVerified none = ⊥
ChipVerified (some c) =
    (c.sod_passive_auth ≡ true) × (c.chip_authentic ≡ true) × (c.liveness_matched ≡ true)

evidence_at-Usable : (now : ℕ) → now < u64_max → Usable (evidence_at now) now
evidence_at-Usable now h = ground arith

module _ (name : String) (ids : KernelIds) (pid_subject : Option ℕ) (now : ℕ)
    (h : now < u64_max) where
  mandate-Represented :
      (role : IssuerRole) (chip : Option VerifiedChipLiveness)
      → role ≡ representation
      → Represented
          (kernel_session name role ids pid_subject chip now).delegation
          (kernel_request name role ids pid_subject chip now)
          now
  unfolding kernel_session kernel_request
  mandate-Represented representation chip e =
      (evidence_at-Usable now h, refl, refl, omega arith, unfold subset_of in refl)
  mandate-Represented _ chip e = cc

  verified-ChipRead :
      (role : IssuerRole) (chip : Option VerifiedChipLiveness)
      → ChipVerified chip
      → ChipRead
          (kernel_session name role ids pid_subject chip now).chip_evidence
          (kernel_request name role ids pid_subject chip now)
          now
  unfolding kernel_session kernel_request subject_of chip_subject or_else
  verified-ChipRead role none v = absurd v
  verified-ChipRead role (some c) v = (evidence_at-Usable now h, v.0, v.1, v.2, refl)

  chip_passes_of :
      (chip : Option VerifiedChipLiveness) → ChipVerified chip → chip_passes chip ≡ true
  unfolding chip_passes
  chip_passes_of none v = absurd v
  chip_passes_of (some c) v = ground arith

  kernel-MayIssue :
      (role : IssuerRole) (chip : Option VerifiedChipLiveness)
      → (name ≡ qeaa_pid_bound_sd_jwt → pid_subject ≢ none)
      → (is_nfc_pid name ≡ true → ChipVerified chip)
      → MayIssue
          (kernel_session name role ids pid_subject chip now)
          (kernel_request name role ids pid_subject chip now)
          now
  unfolding kernel_session kernel_request
  kernel-MayIssue role chip bound verified =
      let usable = evidence_at-Usable now h in
      record {
        bound = ground arith;
        cleared = ground (arith, eq_iff name qeaa_pid_bound_sd_jwt, chip_passes_of chip);
        timely = record {
          authorization = usable;
          token = usable;
          proof = usable;
          wia = usable;
          subject = usable;
        };
        represented = mandate-Represented role chip;
        chip_read = λ required. verified-ChipRead role chip (verified required);
      }

-- What the caller must have verified for a configuration.
pub record Grantable (name : String) (pid_subject : Option ℕ) (chip : Option VerifiedChipLiveness)
    : Type 0 where
  pub known : role_of name ≢ none
  pub pid_bound : (name ≡ qeaa_pid_bound_sd_jwt) ⊎ (name ≡ mandate_sd_jwt) → pid_subject ≢ none
  pub chip_read : is_nfc_pid name ≡ true → ChipVerified chip

ChipVerified-of_MayIssue :
    (name : String) (role : IssuerRole) (ids : KernelIds) (pid_subject : Option ℕ)
    (chip : Option VerifiedChipLiveness) (now : ℕ)
    → MayIssue
        (kernel_session name role ids pid_subject chip now)
        (kernel_request name role ids pid_subject chip now)
        now
    → is_nfc_pid name ≡ true
    → ChipVerified chip
unfolding kernel_session
ChipVerified-of_MayIssue name role ids pid_subject none now m required = m.chip_read required
ChipVerified-of_MayIssue name role ids pid_subject (some c) now m required =
    let read = m.chip_read required in (read.1, read.2, read.3)

pub ok_injective {ℓ} : {A : Type ℓ} {a b : A} → ok a ≡ ok b → a ≡ b
ok_injective h = cc

-- The outcome is what the kernel decided on the session and request of the known role.
pub kernel_of_ok :
    {V : Type 0} (p : Platform V) (name holder_jkt nonce : String) (pid_subject : Option ℕ)
    (chip : Option VerifiedChipLiveness) (now : ℕ) (tokens : KernelTokens) {g : Option MandateGrant}
    → authorize_kernel p name holder_jkt nonce pid_subject chip now tokens ≡ ok g
    → (role : IssuerRole) × (role_of name ≡ some role)
      × ((name ≡ qeaa_pid_bound_sd_jwt) ⊎ (name ≡ mandate_sd_jwt) → pid_subject ≢ none)
      × (let ids = kernel_ids p name holder_jkt nonce tokens in
          decided (
            authorize_sign
              (kernel_session name role ids pid_subject chip now)
              (kernel_request name role ids pid_subject chip now)
              now)
          ≡ ok g)
unfolding authorize_kernel
kernel_of_ok p name holder_jkt nonce pid_subject chip now tokens h =
    elim (Option-cases (role_of name)) [
      | inl e ↦ absurd (ground arith)
      | inr (role, e) ↦ (
        role,
        e,
        ground (arith, eq_iff name qeaa_pid_bound_sd_jwt, eq_iff name mandate_sd_jwt),
        ground arith,
      )
    ]

pub signed_of_decided :
    (s : Session) (r : Request) (now : ℕ) {g : Option MandateGrant}
    → decided (authorize_sign s r now) ≡ ok g
    → (c : SignCommand) × (authorize_sign s r now ≡ signed c)
unfolding decided authorize_sign
signed_of_decided s r now h = ground arith

pid_check :
    (name : String) (pid_subject : Option ℕ)
    → ((name ≡ qeaa_pid_bound_sd_jwt) ⊎ (name ≡ mandate_sd_jwt) → pid_subject ≢ none)
    → ((name == qeaa_pid_bound_sd_jwt || name == mandate_sd_jwt) && is_none pid_subject) ≡ false
pid_check name none h =
    ground (arith, eq_iff name qeaa_pid_bound_sd_jwt, eq_iff name mandate_sd_jwt)
pid_check name (some s) h = ground arith

chip_check :
    (name : String) (chip : Option VerifiedChipLiveness)
    → (is_nfc_pid name ≡ true → ChipVerified chip)
    → (is_nfc_pid name && is_none chip) ≡ false
chip_check name none h = ground arith
chip_check name (some c) h = ground arith

granted :
    {V : Type 0} (p : Platform V) (name holder_jkt nonce : String) (pid_subject : Option ℕ)
    (chip : Option VerifiedChipLiveness) (now : ℕ) (tokens : KernelTokens)
    → now < u64_max
    → Grantable name pid_subject chip
    → (g : Option MandateGrant) × (authorize_kernel p name holder_jkt nonce pid_subject chip now
          tokens
        ≡ ok g)
unfolding authorize_kernel decided
granted p name holder_jkt nonce pid_subject chip now tokens small grantable =
    elim (Option-cases (role_of name)) [
      | inl e ↦ absurd (grantable.known e)
      | inr (role, e) ↦
          let ids = kernel_ids p name holder_jkt nonce tokens in
          let m =
            kernel-MayIssue name ids pid_subject now small role chip
              (λ b. grantable.pid_bound (inl b)) grantable.chip_read in
          let (c, sg, _, _, _, _, _) = (authorize_sign_iff _ _ now).1 m in
          (
            grant_of c.on_behalf_of c.granted_powers,
            rw (
              e,
              pid_check name pid_subject grantable.pid_bound,
              chip_check name chip grantable.chip_read,
              sg,
            ),
          )
    ]

-- With a clock below the last second of `u64`, an issuance is let through exactly when its
-- configuration is known, a PID-bound or mandate issuance has a verified PID subject, and an
-- NFC-sourced PID has a chip read with all three verdicts.
pub authorize_kernel_iff :
    {V : Type 0} (p : Platform V) (name holder_jkt nonce : String) (pid_subject : Option ℕ)
    (chip : Option VerifiedChipLiveness) (now : ℕ) (tokens : KernelTokens)
    → now < u64_max
    → ((g : Option MandateGrant) × (authorize_kernel p name holder_jkt nonce pid_subject chip now
            tokens
          ≡ ok g))
      ↔ Grantable name pid_subject chip
authorize_kernel_iff p name holder_jkt nonce pid_subject chip now tokens small = (
  λ (g, h).
      let (role, known, bound, d) =
        kernel_of_ok p name holder_jkt nonce pid_subject chip now tokens h in
      let ids = kernel_ids p name holder_jkt nonce tokens in
      let (c, sg) = signed_of_decided _ _ now d in
      let m = (may_issue_iff _ _ now).0 (may_issue_of_signed _ _ now sg) in
      record {
        known = λ z. cc;
        pid_bound = bound;
        chip_read = ChipVerified-of_MayIssue name role ids pid_subject chip now m;
      },
  λ grantable. granted p name holder_jkt nonce pid_subject chip now tokens small grantable,
)
