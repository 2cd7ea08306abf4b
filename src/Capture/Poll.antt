-- ===== src/Capture/Poll.antt =====
-- rust/issuer-service/src/main.rs: `get_pid_capture_session`, and what a poll finds.
use Prim.Native.String.{String}
use vcissuer.Prelude.{
  ℕ, ◌≡◌, refl, Bool, true, false, not, ◌&&◌, Option, none, some, ltb, and_then, if◌then◌else◌,
  Bool-cases, inl, inr,
}
use vcissuer.Text.{trim_end_slashes}
use vcissuer.Oauth.{oauth_error, ok, deny_if, ok_or}
use vcissuer.Proof.Jws.{unix_time}
use vcissuer.Table.{lookup}
use vcissuer.State.{
  CaptureStatus, issued, CaptureSession, VolatileState, Config, Handler, ◌>>=◌, ◌>>◌, lift, pure,
  read,
}
use vcissuer.Liveness.{IproovConfig, streaming_url}
use vcissuer.Capture.{is_awaiting}

-- What the companion is launched with, while the session awaits evidence.
pub record CaptureLaunch : Type 0 where
  pub nonce : String
  pub holder_jkt : String
  pub audience : String
  pub iproov_token : Option String
  pub iproov_streaming_url : Option String
  pub iproov_assurance_type : Option String

-- The answer to a poll: the credentials stand in it with their offer.
pub record CaptureView : Type 0 where
  pub status : CaptureStatus
  pub launch_with : Option CaptureLaunch
  pub credential : Option String
  pub credential_mdoc : Option String

is_issued : CaptureStatus → Bool
is_issued issued = true
is_issued _ = false

module _ {V : Type 0} (config : Config V) (iproov : Option IproovConfig) where
  launch_of : CaptureSession V → CaptureLaunch
  launch_of session = record {
    nonce = session.nonce;
    holder_jkt = session.holder_jkt;
    audience = trim_end_slashes config.issuer;
    iproov_token = session.iproov_token;
    iproov_streaming_url = and_then iproov λ cfg. some (streaming_url cfg);
    iproov_assurance_type = and_then iproov λ cfg. some cfg.assurance_type;
  }

  unfoldable pub get_pid_capture_session : String → Option ℕ → Handler V CaptureView
  unfolding is_awaiting is_issued launch_of
  get_pid_capture_session id clock = do
    now ← lift (unix_time clock)
    sessions ← read (λ s. s.capture_sessions)
    session ← lift (
        ok_or (lookup id sessions) (oauth_error 404 "invalid_request" "capture session is unknown"))
    lift (
        deny_if (ltb session.expires_at now && not (is_issued session.status))
          (oauth_error 410 "invalid_request" "capture session has expired"))
    pure (record {
      status = session.status;
      launch_with = if is_awaiting session.status then some (launch_of session) else none;
      credential = session.credential;
      credential_mdoc = and_then session.credential λ credential. session.credential_mdoc;
    })

  -- An issued session that holds both documents answers every later poll with them, also after its
  -- end, and with nothing to launch the companion with. The poll leaves the state.
  pub issued_polled :
      (id : String) (now : ℕ) (t : VolatileState V) (session : CaptureSession V)
      (credential credential_mdoc : String)
      → lookup id t.capture_sessions ≡ some session
      → session.status ≡ issued
      → session.credential ≡ some credential
      → session.credential_mdoc ≡ some credential_mdoc
      → get_pid_capture_session id (some now) t ≡ (
        ok (record {
          status = issued;
          launch_with = none;
          credential = some credential;
          credential_mdoc = some credential_mdoc;
        }),
        t,
      )
  unfolding get_pid_capture_session unix_time is_awaiting is_issued
  issued_polled id now t session credential credential_mdoc found status cred doc =
      elim (Bool-cases (ltb session.expires_at now)) [
        | inl e ↦ rw (found, status, cred, doc, e) refl
        | inr e ↦ rw (found, status, cred, doc, e) refl
      ]
