-- ===== src/Flow/Granted/Issuance.antt =====
-- What the credential endpoint issues in the states that calls lead to.
use Prim.Native.String.{String}
use text.Mathlib.Text.{◌==◌}
use text.Mathlib.TextEquality.{eq_iff}
use vcissuer.Prelude.{
  ℕ, ◌≡◌, refl, ap, ◌∙◌, ◌≢◌, Bool, true, false, Option, none, some, List, [], ◌∷◌, arith, all, any,
}
use vcissuer.Text.{split_ascii_whitespace}
use vcissuer.Oauth.{ok}
use vcissuer.Platform.{Platform}
use vcissuer.Profile.{tlsn_evidence_sd_jwt, pid_from_emrtd_mdoc, valid_scope, is_allowed}
use vcissuer.Proof.Emrtd.{PidSubjectClaims}
use vcissuer.Table.{Values-lookup}
use vcissuer.Tlsn.{SignedTlsnArtifact, VerifiedTlsnEvidence, verify_tlsn_artifact}
use vcissuer.State.{VolatileState, initial, Config}
use vcissuer.Endpoint.Credential.{CredentialInput, Order, sd_jwt, chip_claims, credential}
use vcissuer.Endpoint.Credential.Issued.{Issued, credential-Issued}
use vcissuer.Endpoint.Credential.Orders.{order-evidence, ordered_of}
use vcissuer.Flow.{Reach}
use vcissuer.Flow.Granted.{Genuine, Granted}
use vcissuer.Flow.Granted.Reached.{Reach-WellFormed}

member_of_all :
    (h : Bool) (id : String) (items : List String)
    → all (is_allowed h) items ≡ true
    → any (◌==◌ id) items ≡ true
    → is_allowed h id ≡ true
member_of_all h id [] a e = absurd (ground arith)
member_of_all h id (x ∷ items) a e =
    ground (arith, member_of_all h id items, eq_iff x id, eq_iff id x)

in_valid_scope :
    (h : Bool) (id scope : String)
    → valid_scope scope h ≡ true
    → any (◌==◌ id) (split_ascii_whitespace scope) ≡ true
    → is_allowed h id ≡ true
unfolding valid_scope
in_valid_scope h id scope v e = member_of_all h id (split_ascii_whitespace scope) (ground arith) e

nfc_mdoc_not_allowed : (h : Bool) → is_allowed h pid_from_emrtd_mdoc ≡ false
unfolding is_allowed
nfc_mdoc_not_allowed true = refl
nfc_mdoc_not_allowed false = refl

module _ {V : Type 0} (p : Platform V) (config : Config V) where
  access-Granted :
      (input : CredentialInput) (s t : VolatileState V) (o : Order V)
      → Reach p config initial s
      → (i : Issued p config input s t o) → Granted p config i.access.scope i.access.tlsn_evidence
  access-Granted input s t o r i =
      let w = Reach-WellFormed p config s r in
      Values-lookup (λ t. Granted p config t.scope t.tlsn_evidence) i.token s.tokens w.tokens
        i.accesses.found

  -- In a state that calls lead to, a credential is issued for configurations of the closed set of
  -- scopes only, so never for the mdoc of a chip read, which that set leaves out.
  pub issued_configuration_allowed :
      (input : CredentialInput) (s t : VolatileState V) (o : Order V)
      → Reach p config initial s
      → credential p config input s ≡ (ok o, t)
      → (is_allowed config.hybrid_pq_enabled input.configuration_id ≡ true)
        × (input.configuration_id ≢ pid_from_emrtd_mdoc)
  issued_configuration_allowed input s t o r h =
      let i = credential-Issued p config input s t o h in
      let g = access-Granted input s t o r i in
      let a =
        in_valid_scope config.hybrid_pq_enabled input.configuration_id i.access.scope g.0
          i.accesses.in_scope in
      (a, λ e. let n = nfc_mdoc_not_allowed config.hybrid_pq_enabled in cc)

  Genuine-present :
      (e : Option (VerifiedTlsnEvidence V))
      → Genuine p config e
      → e ≢ none
      → (v : VerifiedTlsnEvidence V) × (e ≡ some v) × Genuine p config (some v)
  Genuine-present none g n = absurd (n refl)
  Genuine-present (some v) g n = (v, refl, g)

  -- In a state that calls lead to, a TLSNotary evidence credential is issued only with evidence from
  -- an artifact that was verified against the configured keys of the notary.
  pub issued_evidence_genuine :
      (input : CredentialInput) (s t : VolatileState V) (o : Order V)
      → Reach p config initial s
      → credential p config input s ≡ (ok o, t)
      → input.configuration_id ≡ tlsn_evidence_sd_jwt
      → (v : VerifiedTlsnEvidence V) × (artifact : SignedTlsnArtifact V) × (earlier : ℕ)
        × (verify_tlsn_artifact p artifact config.trusted_notary_key config.trusted_notary_pq_key
              earlier
            ≡ ok v)
        × (jwk : V) × (now : ℕ) × (claims : Option PidSubjectClaims) × (o
            ≡ sd_jwt tlsn_evidence_sd_jwt jwk now (some v) claims)
  issued_evidence_genuine input s t o r h e =
      let i = credential-Issued p config input s t o h in
      let g = access-Granted input s t o r i in
      let (v, q, (artifact, earlier, w)) =
        Genuine-present i.access.tlsn_evidence g.1 (i.evidence e) in
      let m = order-evidence p config input i.proof i.access.tlsn_evidence i.chip i.grant i.now e in
      (
        v,
        artifact,
        earlier,
        w,
        i.proof.holder_jwk,
        i.now,
        chip_claims i.chip,
        ordered_of i.ordered m
            ∙ ap (λ x. sd_jwt tlsn_evidence_sd_jwt i.proof.holder_jwk i.now x (chip_claims i.chip))
                q,
      )
