-- ===== src/Endpoint/Credential/Orders.antt =====
-- Which order an encoder is given.
use Prim.Native.String.{String}
use text.Mathlib.TextEquality.{eq_iff}
use vcissuer.Prelude.{
  true, ℕ, ◌≡◌, refl, ap, ◌∙◌, ◌≢◌, true, Option, none, some, arith, List, [], ◌∷◌, unwrap_or,
}
use vcissuer.Oauth.{Result, ok}
use vcissuer.Platform.{Platform}
use vcissuer.Profile.{pid_from_emrtd_sd_jwt, tlsn_evidence_sd_jwt, mandate_sd_jwt}
use vcissuer.Proof.Credential.{VerifiedCredentialProof, verify_credential_proof}
use vcissuer.Proof.Pid.{PidBindingObject, VerifiedPidBinding, verify_pid_binding}
use vcissuer.Proof.Emrtd.{VerifiedChipLiveness, verify_emrtd_evidence}
use vcissuer.Proof.Jws.{hash_u128, unix_time}
use vcissuer.Table.{lookup}
use vcissuer.Gate.{MandateGrant, or_else, chip_subject, demo_mandate_powers}
use vcissuer.Gate.Mandates.{grant_of_kernel}
use vcissuer.Tlsn.{VerifiedTlsnEvidence}
use vcissuer.State.{AccessToken, VolatileState, Config}
use vcissuer.Endpoint.Credential.{
  CredentialInput, Order, sd_jwt, mandate, panicked, order, mandate_order, takes_pid_binding,
  binding_subject, chip_claims, credential, bearer,
}
use vcissuer.Endpoint.Credential.Steps.{PidChecked, PidVerified, ChipChecked, ChipProven}
use vcissuer.Endpoint.Credential.Issued.{Issued, credential-Issued}

paired : {A S : Type 0} (r : A × S) {a : A} → r.0 ≡ a → r ≡ (a, r.1)
paired (b, s) h = ap (λ x. (x, s)) h

pub ordered_of : {A : Type 0} {r : Result A} {a b : A} → r ≡ ok a → r ≡ ok b → a ≡ b
ordered_of h k = cc

mandate_not_chip : (name : String) → name ≡ mandate_sd_jwt → name ≢ pid_from_emrtd_sd_jwt
mandate_not_chip name h e = ground (arith, eq_iff mandate_sd_jwt pid_from_emrtd_sd_jwt)

module _ {V : Type 0} (p : Platform V) (config : Config V) (input : CredentialInput) where
  order-mandate :
      (k : VerifiedCredentialProof V) (e : Option (VerifiedTlsnEvidence V))
      (c : Option VerifiedChipLiveness) (g : Option MandateGrant) (now : ℕ)
      → input.configuration_id ≡ mandate_sd_jwt
      → order p config input k e c g now ≡ ok (mandate_order p config input k.holder_jwk g now)
  unfolding order
  order-mandate k e c g now h = rw h refl

  pub order-evidence :
      (k : VerifiedCredentialProof V) (e : Option (VerifiedTlsnEvidence V))
      (c : Option VerifiedChipLiveness) (g : Option MandateGrant) (now : ℕ)
      → input.configuration_id ≡ tlsn_evidence_sd_jwt
      → order p config input k e c g now
        ≡ ok (sd_jwt tlsn_evidence_sd_jwt k.holder_jwk now e (chip_claims c))
  unfolding order
  order-evidence k e c g now h = rw h refl

  order-panicked :
      (k : VerifiedCredentialProof V) (e : Option (VerifiedTlsnEvidence V))
      (c : Option VerifiedChipLiveness) (g : Option MandateGrant) (now : ℕ)
      → order p config input k e c g now ≡ ok panicked
      → (input.configuration_id ≡ mandate_sd_jwt) × (g ≡ none)
  unfolding order mandate_order
  order-panicked k e c none now h =
      (ground (arith, eq_iff input.configuration_id mandate_sd_jwt), refl)
  order-panicked k e c (some g) now h = ground arith

  grant_of_mandate :
      (s t : VolatileState V) (o : Order V) (i : Issued p config input s t o)
      → input.configuration_id ≡ mandate_sd_jwt
      → i.grant
        ≡ some (record {
          on_behalf_of =
              unwrap_or
                (or_else (chip_subject i.chip) (binding_subject i.pid))
                (hash_u128 p "demo-education-subject");
          granted_powers = demo_mandate_powers;
        })
  grant_of_mandate s t o i e =
      let g =
        grant_of_kernel p input.configuration_id i.proof.holder_jkt i.proof.nonce
          (binding_subject i.pid) i.chip i.now input.kernel_tokens i.grant i.kernel in
      g ∙ rw e refl

  -- No run of the endpoint reaches the `expect` on the kernel's grant.
  pub credential_never_panics :
      (s : VolatileState V) → (credential p config input s).0 ≢ ok panicked
  credential_never_panics s h =
      let t = (credential p config input s).1 in
      let i =
        credential-Issued p config input s t panicked (paired (credential p config input s) h) in
      let (e, n) = order-panicked i.proof i.access.tlsn_evidence i.chip i.grant i.now i.ordered in
      let g = grant_of_mandate s t panicked i e in cc

  no_chip_read :
      (s t : VolatileState V) (k : VerifiedCredentialProof V) (now : ℕ)
      (c : Option VerifiedChipLiveness)
      → input.configuration_id ≢ pid_from_emrtd_sd_jwt
      → ChipChecked p config input s t k now c
      → c ≡ none
  no_chip_read s t k now none n h = refl
  no_chip_read s t k now (some c) n h = absurd (n h.0)

  pid_there :
      (s t : VolatileState V) (k : VerifiedCredentialProof V) (now : ℕ)
      (b : Option VerifiedPidBinding)
      → takes_pid_binding input.configuration_id ≡ true
      → PidChecked p config input s t k now b
      → (x : VerifiedPidBinding) × (b ≡ some x) × PidVerified p config input s t k now x
  pid_there s t k now none e h = absurd (ground arith)
  pid_there s t k now (some x) e h = (x, refl, h.1)

  mandate_order_of :
      (k : VerifiedCredentialProof V) (c : Option VerifiedChipLiveness)
      (pid : Option VerifiedPidBinding) (g : Option MandateGrant) (now : ℕ) (o : Order V)
      (b : VerifiedPidBinding)
      → c ≡ none
      → pid ≡ some b
      → g
        ≡ some (record {
          on_behalf_of =
              unwrap_or
                (or_else (chip_subject c) (binding_subject pid))
                (hash_u128 p "demo-education-subject");
          granted_powers = demo_mandate_powers;
        })
      → ok o ≡ ok (mandate_order p config input k.holder_jwk g now)
      → o ≡ mandate k.holder_jwk b.subject demo_mandate_powers input.mandate_jti now
  unfolding or_else chip_subject mandate_order
  mandate_order_of k none (some b') (some g) now o b n q e h = ground arith
  mandate_order_of k (some c) pid g now o b n q e h = absurd cc
  mandate_order_of k c none g now o b n q e h = absurd cc
  mandate_order_of k c pid none now o b n q e h = absurd cc

  -- A mandate is issued on behalf of the subject of a verified PID, with the two development powers,
  -- to the key of the one credential proof of the request, which verified; the PID binding verified for
  -- that proof's nonce and key, at the time of the request's clock.
  pub mandate_for_pid_subject :
      (s t : VolatileState V) (o : Order V)
      → credential p config input s ≡ (ok o, t)
      → input.configuration_id ≡ mandate_sd_jwt
      → (jwt : String) × (k : VerifiedCredentialProof V) × (x : PidBindingObject)
        × (b : VerifiedPidBinding) × (now : ℕ) × (input.proofs ≡ jwt ∷ [])
        × (verify_credential_proof p jwt config.issuer input.proof_clock ≡ ok k)
        × (unix_time input.clock ≡ ok now)
        × (input.pid_binding ≡ some x)
        × (verify_pid_binding p x config.pid_issuer_jwk config.issuer k.nonce k.holder_jkt now
            ≡ ok b)
        × (o ≡ mandate k.holder_jwk b.subject demo_mandate_powers input.mandate_jti now)
  mandate_for_pid_subject s t o h e =
      let i = credential-Issued p config input s t o h in
      let n =
        no_chip_read _ _ i.proof i.now i.chip (mandate_not_chip input.configuration_id e)
          i.chip_checked in
      let (b, q, v) = pid_there _ _ i.proof i.now i.pid (rw e refl) i.pid_checked in
      let (x, d, f) = v.verified in
      let g = grant_of_mandate s t o i e in
      let m = order-mandate i.proof i.access.tlsn_evidence i.chip i.grant i.now e in
      let r = i.ordered in
      (
        i.jwt,
        i.proof,
        x,
        b,
        i.now,
        i.proves.single,
        i.proves.verified,
        i.time,
        d,
        f,
        mandate_order_of i.proof i.chip i.pid i.grant i.now o b n q g (cc),
      )

  order-chip :
      (k : VerifiedCredentialProof V) (e : Option (VerifiedTlsnEvidence V))
      (c : VerifiedChipLiveness) (g : Option MandateGrant) (now : ℕ)
      → input.configuration_id ≡ pid_from_emrtd_sd_jwt
      → order p config input k e (some c) g now
        ≡ ok (sd_jwt pid_from_emrtd_sd_jwt k.holder_jwk now e (some c.claims))
  unfolding order
  order-chip k e c g now h = rw h refl

  chip_there :
      (s t : VolatileState V) (k : VerifiedCredentialProof V) (now : ℕ)
      (b : Option VerifiedChipLiveness)
      → input.configuration_id ≡ pid_from_emrtd_sd_jwt
      → ChipChecked p config input s t k now b
      → (x : VerifiedChipLiveness) × (b ≡ some x) × ChipProven p config input s t k now x
  chip_there s t k now none e h = absurd (h.0 e)
  chip_there s t k now (some x) e h = (x, refl, h.1)

  -- A PID from a chip read is issued to the key of the one credential proof of the request, which
  -- verified, with the claims of an attestation that verifies against the configured reader's key, for
  -- that proof's nonce and key, at the time of the request's clock; what evidence of a notary session
  -- goes with it is that of the access token.
  pub chip_pid_from_read :
      (s t : VolatileState V) (o : Order V)
      → credential p config input s ≡ (ok o, t)
      → input.configuration_id ≡ pid_from_emrtd_sd_jwt
      → (jwt : String) × (k : VerifiedCredentialProof V) × (x : String) × (key : List ℕ)
        × (c : VerifiedChipLiveness) × (now : ℕ) × (token : String) × (a : AccessToken V)
        × (input.proofs ≡ jwt ∷ [])
        × (verify_credential_proof p jwt config.issuer input.proof_clock ≡ ok k)
        × (unix_time input.clock ≡ ok now)
        × (bearer input.authorization ≡ ok token)
        × (lookup token s.tokens ≡ some a)
        × (input.emrtd_evidence ≡ some x)
        × (config.trusted_emrtd_reader_key ≡ some key)
        × (verify_emrtd_evidence p x key config.issuer k.nonce k.holder_jkt now ≡ ok c)
        × (o ≡ sd_jwt pid_from_emrtd_sd_jwt k.holder_jwk now a.tlsn_evidence (some c.claims))
  chip_pid_from_read s t o h e =
      let i = credential-Issued p config input s t o h in
      let (c, q, v) = chip_there _ _ i.proof i.now i.chip e i.chip_checked in
      let (x, key, a, b, w) = v.verified in
      let m = order-chip i.proof i.access.tlsn_evidence c i.grant i.now e in
      (
        i.jwt,
        i.proof,
        x,
        key,
        c,
        i.now,
        i.token,
        i.access,
        i.proves.single,
        i.proves.verified,
        i.time,
        i.bearer,
        i.accesses.found,
        a,
        b,
        w,
        ordered_of i.ordered (rw q m),
      )
