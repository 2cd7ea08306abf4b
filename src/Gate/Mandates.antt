-- ===== src/Gate/Mandates.antt =====
-- With which powers `authorize_kernel` lets an issuance through.
use Prim.Native.String.{String}
use text.Mathlib.Text.{◌==◌}
use text.Mathlib.TextEquality.{eq_iff}
use vcissuer.Prelude.{
  ℕ, ◌≡◌, refl, ◌≢◌, false, Option, none, some, arith, inr, sym, ap, ◌∙◌, unwrap_or, if◌then◌else◌,
}
use vcissuer.Oauth.{ok}
use vcissuer.Platform.{Platform}
use vcissuer.Profile.{mandate_sd_jwt}
use vcissuer.Proof.Emrtd.{VerifiedChipLiveness}
use vcissuer.Kernel.{
  IssuerRole, representation, SignCommand, signed, authorize_sign, command_powers,
}
use vcissuer.Kernel.Mandate.{signed_powers}
use vcissuer.Proof.Jws.{hash_u128}
use vcissuer.Gate.{
  KernelIds, KernelTokens, MandateGrant, demo_mandate_powers, chip_subject, or_else, subject_of,
  kernel_session, kernel_request, decided, grant_of, role_of, kernel_ids, authorize_kernel,
}
use vcissuer.Gate.Grants.{kernel_of_ok, signed_of_decided, ok_injective}

mandate_known : (name : String) → name ≡ mandate_sd_jwt → role_of name ≡ some representation
unfolding role_of
mandate_known name h = rw h

mandate_role : (name : String) → role_of name ≡ some representation → name ≡ mandate_sd_jwt
unfolding role_of
mandate_role name h = ground (arith, eq_iff name mandate_sd_jwt)

grant_by : IssuerRole → ℕ → Option MandateGrant
grant_by representation subject =
    some (record { on_behalf_of = subject; granted_powers = demo_mandate_powers })
grant_by _ subject = none

module _ (name : String) (ids : KernelIds) (pid_subject : Option ℕ)
    (chip : Option VerifiedChipLiveness) (now : ℕ) where
  command-grant_by :
      (role : IssuerRole) (c : SignCommand)
      → authorize_sign
          (kernel_session name role ids pid_subject chip now)
          (kernel_request name role ids pid_subject chip now)
          now
        ≡ signed c
      → grant_of c.on_behalf_of c.granted_powers
        ≡ grant_by role (subject_of name role ids pid_subject chip now)
  unfolding kernel_session kernel_request grant_by grant_of command_powers
  command-grant_by representation c h =
      let (acts, powers, _) = signed_powers _ _ now c h in ground arith
  command-grant_by _ c h = let (acts, powers, _) = signed_powers _ _ now c h in rw acts

  decided-grant_by :
      (role : IssuerRole) {g : Option MandateGrant}
      → decided (
          authorize_sign
            (kernel_session name role ids pid_subject chip now)
            (kernel_request name role ids pid_subject chip now)
            now)
        ≡ ok g
      → g ≡ grant_by role (subject_of name role ids pid_subject chip now)
  unfolding decided
  decided-grant_by role h =
      let (c, sg) = signed_of_decided _ _ now h in
      sym (ok_injective (sym (ap decided sg) ∙ h)) ∙ command-grant_by role c sg

  grant_by_name :
      (role : IssuerRole)
      → role_of name ≡ some role
      → grant_by role (subject_of name role ids pid_subject chip now) ≡ (
          if name == mandate_sd_jwt
          then some (record {
            on_behalf_of = unwrap_or (or_else (chip_subject chip) pid_subject) ids.demo_subject;
            granted_powers = demo_mandate_powers;
          })
          else none)
  unfolding grant_by subject_of
  grant_by_name representation h = rw (mandate_role name h) refl
  grant_by_name _ h = ground (arith, mandate_known name, eq_iff name mandate_sd_jwt)

pub grant_of_kernel :
    {V : Type 0} (p : Platform V) (name holder_jkt nonce : String) (pid_subject : Option ℕ)
    (chip : Option VerifiedChipLiveness) (now : ℕ) (tokens : KernelTokens) (g : Option MandateGrant)
    → authorize_kernel p name holder_jkt nonce pid_subject chip now tokens ≡ ok g
    → g ≡ (
        if name == mandate_sd_jwt
        then some (record {
          on_behalf_of =
              unwrap_or
                (or_else (chip_subject chip) pid_subject)
                (hash_u128 p "demo-education-subject");
          granted_powers = demo_mandate_powers;
        })
        else none)
grant_of_kernel p name holder_jkt nonce pid_subject chip now tokens g h =
    let (role, known, bound, d) =
      kernel_of_ok p name holder_jkt nonce pid_subject chip now tokens h in
    let ids = kernel_ids p name holder_jkt nonce tokens in
    decided-grant_by name ids pid_subject chip now role d
    ∙ grant_by_name name ids pid_subject chip now role known

subject_known :
    (chip : Option VerifiedChipLiveness) (pid_subject : Option ℕ) (demo : ℕ)
    → pid_subject ≢ none
    → (x : ℕ) × (pid_subject ≡ some x)
      × (unwrap_or (or_else (chip_subject chip) pid_subject) demo ≡ unwrap_or (chip_subject chip) x)
unfolding or_else chip_subject
subject_known none none demo h = absurd (h refl)
subject_known (some c) none demo h = absurd (h refl)
subject_known none (some x) demo h = (x, refl, refl)
subject_known (some c) (some x) demo h = (x, refl, refl)

-- A mandate is granted only where there is a subject of a verified PID, and acts for that subject, or
-- for the subject of the chip read where the caller has verified one as well; it carries the two
-- development powers. No other configuration yields a grant.
pub authorize_kernel-grant :
    {V : Type 0} (p : Platform V) (name holder_jkt nonce : String) (pid_subject : Option ℕ)
    (chip : Option VerifiedChipLiveness) (now : ℕ) (tokens : KernelTokens) (g : Option MandateGrant)
    → authorize_kernel p name holder_jkt nonce pid_subject chip now tokens ≡ ok g
    → (name ≡ mandate_sd_jwt
        → (x : ℕ) × (pid_subject ≡ some x)
          × (g
              ≡ some (record {
                on_behalf_of = unwrap_or (chip_subject chip) x;
                granted_powers = demo_mandate_powers;
              })))
      × (name ≢ mandate_sd_jwt → g ≡ none)
authorize_kernel-grant p name holder_jkt nonce pid_subject chip now tokens g h =
    let (role, known, bound, d) =
      kernel_of_ok p name holder_jkt nonce pid_subject chip now tokens h in
    let e = grant_of_kernel p name holder_jkt nonce pid_subject chip now tokens g h in
    (
      λ is_mandate.
          let (x, there, same) =
            subject_known chip pid_subject (hash_u128 p "demo-education-subject")
              (bound (inr is_mandate)) in
          (x, there, e ∙ rw (is_mandate, same) refl),
      λ other.
          let not_equal : (name == mandate_sd_jwt) ≡ false =
            ground (arith, eq_iff name mandate_sd_jwt) in
          e ∙ rw not_equal refl,
    )
