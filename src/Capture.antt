-- ===== src/Capture.antt =====
-- rust/issuer-service/src/capture.rs and the capture handlers of rust/issuer-service/src/main.rs.
pub mod Proven
pub mod Captured
pub mod Poll
use Prim.Native.String.{String, ◌++◌}
use text.Mathlib.Text.{◌==◌}
use vcissuer.Prelude.{
  ℕ, Bool, true, false, not, ◌&&◌, Option, none, some, List, [], ◌∷◌, ltb, saturating_add, and_then,
  unwrap_or, if◌then◌else◌,
}
use vcissuer.Text.{trim_end_slashes}
use vcissuer.Oauth.{OauthError, oauth_error, Result, ok, err, deny_if, ok_or}
use vcissuer.Platform.{Platform}
use vcissuer.Profile.{pid_from_emrtd_sd_jwt, pid_from_emrtd_mdoc}
use vcissuer.Proof.Jws.{unix_time, verifying_key_and_jwk}
use vcissuer.Proof.Emrtd.{VerifiedChipLiveness, PidSubjectClaims, verify_emrtd_evidence}
use vcissuer.Gate.{KernelTokens, authorize_kernel}
use vcissuer.Table.{insert, lookup}
use vcissuer.State.{
  CaptureStatus, awaiting_evidence, issued, failed, CaptureSession, VolatileState, Config, Handler,
  ◌>>=◌, ◌>>◌, lift, pure, change, read, use_binding_jti,
}
use vcissuer.Hybrid.Cbor.{Cbor}
use vcissuer.Attest.{AppAttestConfig, Certificates}
use vcissuer.Attest.Endpoints.{enforce_app_attest}
use vcissuer.Liveness.{IproovConfig, Provider, create_token, validate, streaming_url}

abbrev pub capture_session_ttl_seconds : ℕ
capture_session_ttl_seconds = 900

pub record CreateCaptureSessionRequest (V : Type 0) : Type 0 where
  pub holder_jwk : V
  pub device_token : Option String

pub record CreateCaptureSessionResponse : Type 0 where
  pub session_id : String
  pub nonce : String
  pub invocation_url : String
  pub iproov_token : Option String
  pub iproov_streaming_url : Option String
  pub iproov_assurance_type : Option String
  pub expires_in : ℕ

pub record CaptureEvidenceRequest : Type 0 where
  pub attestation : String
  pub client_ip : Option String

unfoldable pub iproov_user_id : String → String
iproov_user_id session_id = "pid-capture-" ++ session_id

unfoldable pub iproov_resource : String → String
iproov_resource session_id = "pid-capture:" ++ session_id

unfoldable pub invocation_url : String → String → String
invocation_url origin session_id =
    trim_end_slashes origin ++ ("/pid-capture?session=" ++ session_id)

unfoldable pub portrait_matched_liveness : Bool → Bool → Bool
portrait_matched_liveness iproov_liveness_ok reader_attested_portrait_match =
    iproov_liveness_ok && reader_attested_portrait_match

-- The two halves of an issued document.
pub record CaptureAnswer : Type 0 where
  pub credential : String
  pub credential_mdoc : String

-- A session that was found awaiting evidence, with the chip evidence that was verified for it.
pub record PendingCapture (V : Type 0) : Type 0 where
  pub session : CaptureSession V
  pub now : ℕ
  pub verified : VerifiedChipLiveness

unfoldable pub is_awaiting : CaptureStatus → Bool
is_awaiting awaiting_evidence = true
is_awaiting _ = false

module _ {V : Type 0} (p : Platform V) (provider : Provider) (config : Config V)
    (iproov : Option IproovConfig) where
  -- The token, the streaming URL and the level that the companion is launched with.
  launch : String → Result (Option String × Option String × Option String)
  launch session_id = elim iproov [
    | none ↦ ok (none, none, none)
    | some cfg ↦
        elim (create_token provider cfg (iproov_user_id session_id) (iproov_resource session_id)) [
          | none ↦ err (oauth_error 502 "server_error" "liveness provider is unavailable")
          | some token ↦ ok (some token, some (streaming_url cfg), some cfg.assurance_type)
        ]
  ]

  -- The invocation origin is read from the environment and trimmed before.
  unfoldable pub create_pid_capture_session :
      CreateCaptureSessionRequest V
      → Option ℕ
      → String
      → String
      → String
      → Handler V CreateCaptureSessionResponse
  unfolding launch
  create_pid_capture_session request clock session_id nonce invocation_origin = do
    ec_jwk ← lift (
        ok_or (p.ec_jwk_from_value request.holder_jwk)
          (oauth_error 400 "invalid_request" "holder_jwk must be an EC P-256 public JWK"))
    (key, holder_jkt, holder_jwk) ← lift (verifying_key_and_jwk p ec_jwk "invalid_request")
    now ← lift (unix_time clock)
    (iproov_token, iproov_streaming_url, iproov_assurance_type) ← lift (launch session_id)
    change λ s. record s {
      capture_sessions =
          insert session_id
            (record {
              holder_jkt = holder_jkt;
              holder_jwk = holder_jwk;
              nonce = nonce;
              iproov_user_id = iproov_user_id session_id;
              iproov_token = iproov_token;
              status = awaiting_evidence;
              credential = none;
              credential_mdoc = none;
              expires_at = saturating_add now capture_session_ttl_seconds;
              device_token = request.device_token;
            })
            s.capture_sessions;
    }
    pure (record {
      session_id = session_id;
      nonce = nonce;
      invocation_url = invocation_url invocation_origin session_id;
      iproov_token = iproov_token;
      iproov_streaming_url = iproov_streaming_url;
      iproov_assurance_type = iproov_assurance_type;
      expires_in = capture_session_ttl_seconds;
    })

  -- The session as it stands when the evidence comes in.
  unfoldable pub awaiting_session : String → ℕ → Handler V (CaptureSession V)
  unfolding is_awaiting
  awaiting_session id now = do
    sessions ← read (λ s. s.capture_sessions)
    session ← lift (
        ok_or (lookup id sessions) (oauth_error 404 "invalid_request" "capture session is unknown"))
    lift (
        deny_if (ltb session.expires_at now)
          (oauth_error 410 "invalid_request" "capture session has expired"))
    lift (
        deny_if (not (is_awaiting session.status))
          (oauth_error 409 "invalid_request" "capture session is already resolved"))
    pure session

  -- No provider or no token is no live person.
  unfoldable pub liveness : CaptureSession V → Option String → Result Bool
  liveness session client_ip = elim iproov [
    | none ↦ ok false
    | some cfg ↦ elim session.iproov_token [
      | none ↦ ok false
      | some token ↦
          ok_or (validate provider cfg token session.iproov_user_id (unwrap_or client_ip "0.0.0.0"))
            (oauth_error 502 "server_error" "liveness provider is unavailable")
    ]
  ]

  -- The first part of `submit_pid_capture_evidence`, up to where the lock is taken again: the answer
  -- of the provider is awaited in it with the lock released. The state is only read.
  unfoldable pub begin_capture : String → CaptureEvidenceRequest → ℕ → Handler V (PendingCapture V)
  unfolding awaiting_session liveness
  begin_capture id request now = do
    session ← awaiting_session id now
    liveness_ok ← lift (liveness session request.client_ip)
    reader_key ← lift (
        ok_or config.trusted_emrtd_reader_key (
          oauth_error 501 "credential_request_denied"
            "NFC-sourced PID issuance is not configured on this issuer"))
    verified ← lift (
        verify_emrtd_evidence p request.attestation reader_key config.issuer session.nonce
          session.holder_jkt now)
    pure (record {
      session = session;
      now = now;
      verified = record verified {
        liveness_matched = portrait_matched_liveness liveness_ok verified.liveness_matched;
      };
    })

-- The encoders with their signers, which are not modelled: the holder's key, the time and the claims
-- give a credential, or an error.
pub record Encoders (V : Type 0) : Type 0 where
  pub issue_sd_jwt : String → V → ℕ → PidSubjectClaims → Result String
  pub issue_mdoc : String → V → ℕ → PidSubjectClaims → Result String

-- A change of the session, where there is one: sessions are never removed, so that the `expect` on it
-- when the documents are delivered is never reached.
unfoldable pub set_session :
    {V : Type 0}
    → String
    → (CaptureSession V → CaptureSession V)
    → VolatileState V
    → VolatileState V
set_session id f s = elim (lookup id s.capture_sessions) [
  | none ↦ s
  | some session ↦ record s { capture_sessions = insert id (f session) s.capture_sessions }
]

module _ {V : Type 0} (p : Platform V) (encoders : Encoders V) where
  -- The kernel's decision for one of the two formats: a refusal fails the session.
  unfoldable pub capture_gate :
      String → String → PendingCapture V → KernelTokens → Handler V (Unit {0})
  unfolding set_session
  capture_gate id name pending tokens s =
      elim (authorize_kernel p name pending.session.holder_jkt pending.session.nonce none
        (some pending.verified) pending.now tokens) [
          | ok grant ↦ (ok tt, s)
          | err e ↦ (err e, set_session id (λ session. record session { status = failed }) s)
        ]

  -- The rest of it, in the state that is found when the lock is taken again.
  unfoldable pub finish_capture :
      String → PendingCapture V → KernelTokens → KernelTokens → Handler V CaptureAnswer
  unfolding set_session capture_gate
  finish_capture id pending sd_jwt_tokens mdoc_tokens = do
    use_binding_jti pending.verified.jti
        (oauth_error 400 "invalid_proof" "`eMRTD` evidence attestation jti has already been used")
    capture_gate id pid_from_emrtd_sd_jwt pending sd_jwt_tokens
    credential ← lift (
        encoders.issue_sd_jwt pid_from_emrtd_sd_jwt pending.session.holder_jwk pending.now
          pending.verified.claims)
    capture_gate id pid_from_emrtd_mdoc pending mdoc_tokens
    credential_mdoc ← lift (
        encoders.issue_mdoc pid_from_emrtd_mdoc pending.session.holder_jwk pending.now
          pending.verified.claims)
    change (
        set_session id λ session. record session {
          status = issued;
          credential = some credential;
          credential_mdoc = some credential_mdoc;
          iproov_token = none;
        })
    pure (record { credential = credential; credential_mdoc = credential_mdoc })

-- The whole of `submit_pid_capture_evidence` where no other call comes in between. The body is read as
-- JSON by a parameter.
module _ {V : Type 0} (p : Platform V) (x : Certificates p) (c : Cbor) (provider : Provider)
    (encoders : Encoders V) (config : Config V) (iproov : Option IproovConfig)
    (attest : Option AppAttestConfig) where
  unfoldable pub submit_pid_capture_evidence :
      (List ℕ → Option CaptureEvidenceRequest)
      → String
      → Option String
      → Option String
      → List ℕ
      → Option ℕ
      → KernelTokens
      → KernelTokens
      → Handler V CaptureAnswer
  submit_pid_capture_evidence evidence_from_slice id key_header assertion_header body clock sd
        mdoc =
      do
        enforce_app_attest p x c attest key_header assertion_header body
        request ← lift (
            ok_or (evidence_from_slice body)
              (oauth_error 400 "invalid_request" "evidence body is not valid JSON"))
        now ← lift (unix_time clock)
        pending ← begin_capture p provider config iproov id request now
        finish_capture p encoders id pending sd mdoc
