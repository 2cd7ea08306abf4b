-- ===== src/Endpoint/Credential/Steps.antt =====
-- What a successful `credential` says of each of its steps.
use Prim.Native.String.{String}
use text.Mathlib.Text.{◌==◌}
use text.Mathlib.TextEquality.{eq_iff}
use vcissuer.Prelude.{
  ℕ, ◌≡◌, ◌≢◌, true, false, Option, none, some, List, [], Option-cases, Bool-cases, inl, inr, arith,
  ◌∷◌, any,
}
use vcissuer.Text.{split_ascii_whitespace}
use vcissuer.Oauth.{OauthError, ok, Result-cases}
use vcissuer.Platform.{Platform}
use vcissuer.Profile.{pid_from_emrtd_sd_jwt}
use vcissuer.Proof.Credential.{VerifiedCredentialProof, verify_credential_proof}
use vcissuer.Proof.Pid.{PidBindingObject, VerifiedPidBinding, verify_pid_binding}
use vcissuer.Proof.Emrtd.{VerifiedChipLiveness, verify_emrtd_evidence}
use vcissuer.Table.{lookup, has, add}
use vcissuer.State.{AccessToken, VolatileState, Config, use_dpop_jti, use_binding_jti}
use vcissuer.Endpoint.Credential.{
  CredentialInput, takes_pid_binding, single_credential_proof, access_step, proof_step, pid_step,
  chip_step, check_pid, check_chip, no_pid, no_chip,
}

module _ {V : Type 0} where
  pub use_dpop_jti_ok :
      (jti : String) (e : OauthError) (s t : VolatileState V) {u : Unit {0}}
      → use_dpop_jti jti e s ≡ (ok u, t)
      → (has jti s.dpop_jtis ≡ false) × (t ≡ record s { dpop_jtis = jti ∷ s.dpop_jtis })
  unfolding use_dpop_jti add
  use_dpop_jti_ok jti e s t h = (ground arith, ground arith)

  pub use_binding_jti_ok :
      (jti : String) (e : OauthError) (s t : VolatileState V) {u : Unit {0}}
      → use_binding_jti jti e s ≡ (ok u, t)
      → (has jti s.binding_jtis ≡ false) × (t ≡ record s { binding_jtis = jti ∷ s.binding_jtis })
  unfolding use_binding_jti add
  use_binding_jti_ok jti e s t h = (ground arith, ground arith)

module _ {V : Type 0} (p : Platform V) (config : Config V) (input : CredentialInput) where
  -- The token is known, bound to the key of the DPoP proof, and covers the configuration.
  pub record Accesses (s : VolatileState V) (token jkt : String) (a : AccessToken V) : Type 0 where
    pub found : lookup token s.tokens ≡ some a
    pub bound : a.dpop_jkt ≡ jkt
    pub in_scope : any (◌==◌ input.configuration_id) (split_ascii_whitespace a.scope) ≡ true

  pub access_step-Accesses :
      (token jkt : String) (s t : VolatileState V) (a : AccessToken V)
      → access_step p config input token jkt s ≡ (ok a, t)
      → Accesses s token jkt a × (t ≡ s)
  unfolding access_step
  access_step-Accesses token jkt s t a h = elim (Option-cases (lookup token s.tokens)) [
    | inl e ↦ absurd (ground arith)
    | inr (b, e) ↦ (
      record {
        found = ground arith;
        bound = ground (arith, eq_iff b.dpop_jkt jkt);
        in_scope = ground arith;
      },
      ground arith,
    )
  ]

  -- The one proof verifies, is by the token's key, and its nonce was given out and is not used.
  pub record Proves (s : VolatileState V) (a : AccessToken V) (jwt : String)
      (k : VerifiedCredentialProof V) : Type 0 where
    pub single : input.proofs ≡ jwt ∷ []
    pub verified : verify_credential_proof p jwt config.issuer input.proof_clock ≡ ok k
    pub bound : a.dpop_jkt ≡ k.holder_jkt
    pub unused : lookup k.nonce s.nonces ≡ some false

  one_proof :
      (proofs : List String) {jwt : String}
      → single_credential_proof proofs ≡ some jwt
      → proofs ≡ jwt ∷ []
  unfolding single_credential_proof
  one_proof [] h = cc
  one_proof (x ∷ []) h = cc
  one_proof (x ∷ y ∷ l) h = cc

  nonce_ok :
      (a : AccessToken V) (k : VerifiedCredentialProof V) (s t : VolatileState V) (jwt : String)
      → proof_step p config input a s ≡ (ok k, t)
      → single_credential_proof input.proofs ≡ some jwt
      → verify_credential_proof p jwt config.issuer input.proof_clock ≡ ok k
      → (lookup k.nonce s.nonces ≡ some false) × (a.dpop_jkt ≡ k.holder_jkt)
  unfolding proof_step
  nonce_ok a k s t jwt h e v = elim (Option-cases (lookup k.nonce s.nonces)) [
    | inl l ↦ absurd (ground arith)
    | inr (used, l) ↦ (ground arith, ground (arith, eq_iff a.dpop_jkt k.holder_jkt))
  ]

  pub proof_step-Proves :
      (a : AccessToken V) (s t : VolatileState V) (k : VerifiedCredentialProof V)
      → proof_step p config input a s ≡ (ok k, t)
      → (jwt : String) × Proves s a jwt k × (t ≡ s)
  unfolding proof_step
  proof_step-Proves a s t k h = elim (Option-cases (single_credential_proof input.proofs)) [
    | inl e ↦ absurd (ground arith)
    | inr (jwt, e) ↦
        elim (Result-cases (verify_credential_proof p jwt config.issuer input.proof_clock)) [
          | inr (x, v) ↦ absurd (ground arith)
          | inl (k', v) ↦
              let v' : verify_credential_proof p jwt config.issuer input.proof_clock ≡ ok k =
                ground arith in
              let (n, b) = nonce_ok a k s t jwt h e v' in
              (
                jwt,
                record { single = one_proof input.proofs e; verified = v'; bound = b; unused = n },
                ground arith,
              )
        ]
  ]

  -- The evidence of a PID, where the configuration takes one.
  pub record PidVerified (s t : VolatileState V) (k : VerifiedCredentialProof V) (now : ℕ)
      (b : VerifiedPidBinding) : Type 0 where
    pub verified :
        (o : PidBindingObject) × (input.pid_binding ≡ some o)
        × (verify_pid_binding p o config.pid_issuer_jwk config.issuer k.nonce k.holder_jkt now
            ≡ ok b)
    pub fresh : has b.jti s.binding_jtis ≡ false
    pub used : t ≡ record s { binding_jtis = b.jti ∷ s.binding_jtis }

  check_pid-PidVerified :
      (k : VerifiedCredentialProof V) (now : ℕ) (s t : VolatileState V)
      (o : Option VerifiedPidBinding)
      → check_pid p config input k now s ≡ (ok o, t)
      → (b : VerifiedPidBinding) × (o ≡ some b) × PidVerified s t k now b
  unfolding check_pid use_binding_jti add
  check_pid-PidVerified k now s t o h = elim (Option-cases input.pid_binding) [
    | inl e ↦ absurd (ground arith)
    | inr (supplied, e) ↦
        elim (Result-cases (
          verify_pid_binding p supplied config.pid_issuer_jwk config.issuer k.nonce k.holder_jkt
            now)) [
              | inr (x, v) ↦ absurd (ground arith)
              | inl (b, v) ↦ (
                b,
                ground arith,
                record { verified = (supplied, e, v); fresh = ground arith; used = ground arith },
              )
            ]
  ]

  -- Evidence is verified where it is taken, and refused elsewhere.
  abbrev pub PidChecked :
      VolatileState V
      → VolatileState V
      → VerifiedCredentialProof V
      → ℕ
      → Option VerifiedPidBinding
      → Type 0
  PidChecked s t k now none =
      (takes_pid_binding input.configuration_id ≡ false) × (input.pid_binding ≡ none) × (t ≡ s)
  PidChecked s t k now (some b) =
      (takes_pid_binding input.configuration_id ≡ true) × PidVerified s t k now b

  pub pid_step-PidChecked :
      (k : VerifiedCredentialProof V) (now : ℕ) (s t : VolatileState V)
      (o : Option VerifiedPidBinding)
      → pid_step p config input k now s ≡ (ok o, t)
      → PidChecked s t k now o
  unfolding pid_step no_pid
  pid_step-PidChecked k now s t o h = elim (Bool-cases (takes_pid_binding input.configuration_id)) [
    | inl e ↦ let (b, q, v) = check_pid-PidVerified k now s t o (ground arith) in rw q (e, v)
    | inr e ↦ elim (Option-cases input.pid_binding) [
      | inr (x, q) ↦ absurd (ground arith)
      | inl q ↦ let n : o ≡ none = ground arith in rw n (e, q, ground arith)
    ]
  ]

  -- The evidence of a chip read.
  pub record ChipProven (s t : VolatileState V) (k : VerifiedCredentialProof V) (now : ℕ)
      (b : VerifiedChipLiveness) : Type 0 where
    pub verified :
        (e : String) × (key : List ℕ) × (input.emrtd_evidence ≡ some e)
        × (config.trusted_emrtd_reader_key ≡ some key)
        × (verify_emrtd_evidence p e key config.issuer k.nonce k.holder_jkt now ≡ ok b)
    pub fresh : has b.jti s.binding_jtis ≡ false
    pub used : t ≡ record s { binding_jtis = b.jti ∷ s.binding_jtis }

  check_chip-ChipProven :
      (k : VerifiedCredentialProof V) (now : ℕ) (s t : VolatileState V)
      (o : Option VerifiedChipLiveness)
      → check_chip p config input k now s ≡ (ok o, t)
      → (b : VerifiedChipLiveness) × (o ≡ some b) × ChipProven s t k now b
  unfolding check_chip use_binding_jti add
  check_chip-ChipProven k now s t o h = elim (Option-cases input.emrtd_evidence) [
    | inl e ↦ absurd (ground arith)
    | inr (supplied, e) ↦ elim (Option-cases config.trusted_emrtd_reader_key) [
      | inl n ↦ absurd (ground arith)
      | inr (key, n) ↦
          elim (Result-cases
            (verify_emrtd_evidence p supplied key config.issuer k.nonce k.holder_jkt now)) [
              | inr (x, v) ↦ absurd (ground arith)
              | inl (b, v) ↦ (
                b,
                ground arith,
                record {
                  verified = (supplied, key, e, n, v);
                  fresh = ground arith;
                  used = ground arith;
                },
              )
            ]
    ]
  ]

  abbrev pub ChipChecked :
      VolatileState V
      → VolatileState V
      → VerifiedCredentialProof V
      → ℕ
      → Option VerifiedChipLiveness
      → Type 0
  ChipChecked s t k now none =
      (input.configuration_id ≢ pid_from_emrtd_sd_jwt) × (input.emrtd_evidence ≡ none) × (t ≡ s)
  ChipChecked s t k now (some b) =
      (input.configuration_id ≡ pid_from_emrtd_sd_jwt) × ChipProven s t k now b

  pub chip_step-ChipChecked :
      (k : VerifiedCredentialProof V) (now : ℕ) (s t : VolatileState V)
      (o : Option VerifiedChipLiveness)
      → chip_step p config input k now s ≡ (ok o, t)
      → ChipChecked s t k now o
  unfolding chip_step no_chip
  chip_step-ChipChecked k now s t o h =
      elim (Bool-cases (input.configuration_id == pid_from_emrtd_sd_jwt)) [
        | inl e ↦
            let (b, q, v) = check_chip-ChipProven k now s t o (ground arith) in
            rw q ((eq_iff input.configuration_id pid_from_emrtd_sd_jwt).0 e, v)
        | inr e ↦ elim (Option-cases input.emrtd_evidence) [
          | inr (x, q) ↦ absurd (ground arith)
          | inl q ↦
              let n : o ≡ none = ground arith in
              rw n (
                ground (arith, eq_iff input.configuration_id pid_from_emrtd_sd_jwt),
                q,
                ground arith,
              )
        ]
      ]
