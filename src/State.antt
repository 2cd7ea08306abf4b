-- ===== src/State.antt =====
-- rust/issuer-service/src/main.rs: `VolatileState` with the records that it holds, the configuration
-- in `AppState`, and what an endpoint is: a function of the state that returns its answer and the
-- state that it leaves, also where the answer is an error.
use Prim.Native.String.{String}
use vcissuer.Prelude.{ℕ, ◌≡◌, refl, Bool, true, false, Option, List, []}
use vcissuer.Oauth.{OauthError, Result, ok, err}
use vcissuer.Table.{Table, add}
use vcissuer.Tlsn.{VerifiedTlsnEvidence}

module _ (V : Type 0) where
  pub record PushedAuthorization : Type 0 where
    pub client_id : String
    pub redirect_uri : String
    pub scope : String
    pub state : Option String
    pub code_challenge : String
    pub tlsn_evidence : Option (VerifiedTlsnEvidence V)

  pub record AuthorizationCode : Type 0 where
    pub client_id : String
    pub redirect_uri : String
    pub scope : String
    pub code_challenge : String
    pub consumed : Bool
    pub tlsn_evidence : Option (VerifiedTlsnEvidence V)

  pub record AccessToken : Type 0 where
    pub scope : String
    pub dpop_jkt : String
    pub tlsn_evidence : Option (VerifiedTlsnEvidence V)

  pub record CredentialOffer : Type 0 where
    pub profile : String
    pub issuer_state : String
    pub expires_at : ℕ
    pub tlsn_evidence : Option (VerifiedTlsnEvidence V)

-- rust/issuer-service/src/capture.rs
pub data CaptureStatus : Type 0 where
  awaiting_evidence issued failed : CaptureStatus

pub record CaptureSession (V : Type 0) : Type 0 where
  pub holder_jkt : String
  pub holder_jwk : V
  pub nonce : String
  pub iproov_user_id : String
  pub iproov_token : Option String
  pub status : CaptureStatus
  pub credential : Option String
  pub credential_mdoc : Option String
  pub expires_at : ℕ
  pub device_token : Option String

-- rust/issuer-service/src/app_attest.rs
pub record RegisteredInstance : Type 0 where
  pub app_id : String
  pub public_key : List ℕ
  pub sign_count : ℕ

pub record VolatileState (V : Type 0) : Type 0 where
  pub pushed : Table (PushedAuthorization V)
  pub codes : Table (AuthorizationCode V)
  pub tokens : Table (AccessToken V)
  pub nonces : Table Bool
  pub dpop_jtis : List String
  pub binding_jtis : List String
  pub offers : Table (CredentialOffer V)
  pub tlsn_sessions : List String
  pub capture_sessions : Table (CaptureSession V)
  pub app_attest_challenges : Table ℕ
  pub app_attest_instances : Table RegisteredInstance
  pub apns_tokens : Table String

-- `VolatileState::default()`.
unfoldable pub initial : {V : Type 0} → VolatileState V
initial = record {
  pushed = [];
  codes = [];
  tokens = [];
  nonces = [];
  dpop_jtis = [];
  binding_jtis = [];
  offers = [];
  tlsn_sessions = [];
  capture_sessions = [];
  app_attest_challenges = [];
  app_attest_instances = [];
  apns_tokens = [];
}

-- The part of `AppState` that the authorization endpoints read. The key of the PID signer stands
-- for `credential_signers`.
pub record Config (V : Type 0) : Type 0 where
  pub issuer : String
  pub trusted_notary_key : List ℕ
  pub trusted_notary_pq_key : Option (List ℕ)
  pub trusted_emrtd_reader_key : Option (List ℕ)
  pub hybrid_pq_enabled : Bool
  pub hybrid_signer_present : Bool
  pub pid_issuer_jwk : V

abbrev pub Handler : Type 0 → Type 0 → Type 0
Handler V A = VolatileState V → Result A × VolatileState V

module _ {V A B : Type 0} where
  abbrev pub continue : Result A × VolatileState V → (A → Handler V B) → Result B × VolatileState V
  continue (ok a, s) f = f a s
  continue (err e, s) f = (err e, s)

  infixl 5 ◌>>=◌ ◌>>◌
  abbrev pub ◌>>=◌ : Handler V A → (A → Handler V B) → Handler V B
  ◌>>=◌ m f s = continue (m s) f

  abbrev pub ◌>>◌ : Handler V A → Handler V B → Handler V B
  ◌>>◌ m k = m >>= λ _. k

  eq_ok_of :
      (r : Result A × VolatileState V) (f : A → Handler V B) {b : B} {u : VolatileState V}
      → continue r f ≡ (ok b, u)
      → {q : Result A × VolatileState V} → q ≡ r
      → (a : A) × (t : VolatileState V) × (q ≡ (ok a, t)) × (f a t ≡ (ok b, u))
  eq_ok_of (ok a, t) f h e = (a, t, e, h)
  eq_ok_of (err x, t) f h e = absurd cc

  -- What a successful run says of its first step.
  pub >>=-eq-ok :
      (m : Handler V A) (f : A → Handler V B) (s : VolatileState V) {b : B} {u : VolatileState V}
      → (m >>= f) s ≡ (ok b, u)
      → (a : A) × (t : VolatileState V) × (m s ≡ (ok a, t)) × (f a t ≡ (ok b, u))
  >>=-eq-ok m f s h = eq_ok_of (m s) f h refl

module _ {V A : Type 0} where
  abbrev pub pure : A → Handler V A
  pure a s = (ok a, s)

  -- A check that leaves the state alone.
  abbrev pub lift : Result A → Handler V A
  lift r s = (r, s)

  -- A successful run that begins with a check: the check passes, and the rest runs in the same state.
  pub lift_then {ℓ} :
      {B : Type 0} {G : Type ℓ} (r : Result A) (f : A → Handler V B) (s : VolatileState V) {b : B}
      {u : VolatileState V}
      → (lift r >>= f) s ≡ (ok b, u)
      → ((a : A) → r ≡ ok a → f a s ≡ (ok b, u) → G)
      → G
  lift_then (ok a) f s h g = g a refl h
  lift_then (err e) f s h g = absurd cc

  abbrev pub read : (VolatileState V → A) → Handler V A
  read f s = (ok (f s), s)

module _ {V : Type 0} where
  abbrev pub change : (VolatileState V → VolatileState V) → Handler V (Unit {0})
  change f s = (ok tt, f s)

  -- `if !inner.dpop_jtis.insert(jti) { return Err(e) }`, and the same for `binding_jtis`.
  unfoldable pub use_dpop_jti : String → OauthError → Handler V (Unit {0})
  use_dpop_jti jti e s =
      let (fresh, jtis) = add jti s.dpop_jtis in
      elim fresh [
        | true ↦ (ok tt, record s { dpop_jtis = jtis })
        | false ↦ (err e, record s { dpop_jtis = jtis })
      ]

  unfoldable pub use_binding_jti : String → OauthError → Handler V (Unit {0})
  use_binding_jti jti e s =
      let (fresh, jtis) = add jti s.binding_jtis in
      elim fresh [
        | true ↦ (ok tt, record s { binding_jtis = jtis })
        | false ↦ (err e, record s { binding_jtis = jtis })
      ]
