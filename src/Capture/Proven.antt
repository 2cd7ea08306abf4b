-- ===== src/Capture/Proven.antt =====
-- What a captured document rests on.
use Prim.Native.String.{String}
use mathlib.Core.Path.{subst}
use vcissuer.Prelude.{
  ℕ, ◌≡◌, refl, sym, ap, ◌∙◌, ◌≤◌, Bool, true, false, not, Option, some, List, ltb, unwrap_or,
  arith, Option-cases, inl, inr,
}
use vcissuer.Oauth.{oauth_error, ok, ok_or, deny_if, ok_or-eq-ok, deny_if-eq-ok}
use vcissuer.Platform.{Platform}
use vcissuer.Proof.Emrtd.{VerifiedChipLiveness, verify_emrtd_evidence}
use vcissuer.Proof.Emrtd.Sound.{ChipReadProven, verify_emrtd_evidence-ChipReadProven}
use vcissuer.Table.{lookup}
use vcissuer.State.{
  CaptureStatus, awaiting_evidence, issued, failed, CaptureSession, VolatileState, Config,
  lift_then, >>=-eq-ok,
}
use vcissuer.Liveness.{IproovConfig, Provider, validate}
use vcissuer.Liveness.Verdict.{Live, validate-Live}
use vcissuer.Capture.{
  CaptureEvidenceRequest, PendingCapture, is_awaiting, awaiting_session, liveness,
  portrait_matched_liveness, begin_capture,
}

module _ {V : Type 0} (p : Platform V) (provider : Provider) (config : Config V)
    (iproov : Option IproovConfig) where
  -- The chip evidence as the reader attested it, before the verdict of the provider is added.
  pub record Pending (id : String) (request : CaptureEvidenceRequest) (now : ℕ)
      (s : VolatileState V) (pending : PendingCapture V) : Type 0 where
    pub found : lookup id s.capture_sessions ≡ some pending.session
    pub awaiting : pending.session.status ≡ awaiting_evidence
    pub not_expired : now ≤ pending.session.expires_at
    pub time : pending.now ≡ now
    pub reader_key : List ℕ
    pub reader_configured : config.trusted_emrtd_reader_key ≡ some reader_key
    pub attested : VerifiedChipLiveness
    pub read :
        ChipReadProven p request.attestation reader_key config.issuer pending.session.nonce
          pending.session.holder_jkt now attested
    pub live : Bool
    pub verdict : liveness p provider config iproov pending.session request.client_ip ≡ ok live
    pub combined : pending.verified ≡ record attested {
      liveness_matched = portrait_matched_liveness live attested.liveness_matched;
    }

  awaiting_of :
      (status : CaptureStatus) → not (is_awaiting status) ≡ false → status ≡ awaiting_evidence
  unfolding is_awaiting
  awaiting_of awaiting_evidence h = refl
  awaiting_of issued h = absurd cc
  awaiting_of failed h = absurd cc

  awaiting_session_then :
      {G : Type 0} (id : String) (now : ℕ) (s t : VolatileState V) (session : CaptureSession V)
      → awaiting_session p provider config iproov id now s ≡ (ok session, t)
      → (lookup id s.capture_sessions ≡ some session
          → session.status ≡ awaiting_evidence
          → now ≤ session.expires_at
          → G)
      → G
  unfolding awaiting_session
  awaiting_session_then id now s t session h g =
      lift_then (ok_or (lookup id s.capture_sessions) _) _ s h λ found q h0.
        lift_then (deny_if (ltb found.expires_at now) _) _ s h0 λ _ q1 h1.
          lift_then (deny_if (not (is_awaiting found.status)) _) _ s h1 λ _ q2 h2.
            let same : found ≡ session = cc in
            let early : ltb found.expires_at now ≡ false = deny_if-eq-ok _ _ q1 in
            let waits : found.status ≡ awaiting_evidence = awaiting_of _ (deny_if-eq-ok _ _ q2) in
            let soon : now ≤ found.expires_at = ground arith in
            g (ok_or-eq-ok _ _ q ∙ ap some same) (ap (λ x. x.status) (sym same) ∙ waits)
              (subst (λ x. now ≤ x.expires_at) same soon)

  pub begin_capture-Pending :
      (id : String) (request : CaptureEvidenceRequest) (now : ℕ) (s t : VolatileState V)
      (pending : PendingCapture V)
      → begin_capture p provider config iproov id request now s ≡ (ok pending, t)
      → Pending id request now s pending
  unfolding begin_capture
  begin_capture-Pending id request now s t pending h =
      let (session, s1, q, h0) =
        >>=-eq-ok (awaiting_session p provider config iproov id now) _ s h in
      awaiting_session_then id now s s1 session q λ is_found waits soon.
        lift_then (liveness p provider config iproov session request.client_ip) _ s1 h0
          λ live_ok q1 h1. lift_then (ok_or config.trusted_emrtd_reader_key _) _ s1 h1 λ key q2 h2.
            lift_then
              (verify_emrtd_evidence p request.attestation key config.issuer session.nonce
                session.holder_jkt now)
              _ s1 h2
              λ chip q3 h3.
                let built : PendingCapture V = record {
                  session = session;
                  now = now;
                  verified = record chip {
                    liveness_matched = portrait_matched_liveness live_ok chip.liveness_matched;
                  };
                } in
                let same : built ≡ pending = cc in
                let holds : Pending id request now s built = record {
                  found = is_found;
                  awaiting = waits;
                  not_expired = soon;
                  time = refl;
                  reader_key = key;
                  reader_configured = ok_or-eq-ok _ _ q2;
                  attested = chip;
                  read =
                      verify_emrtd_evidence-ChipReadProven p request.attestation key config.issuer
                        session.nonce session.holder_jkt now chip q3;
                  live = live_ok;
                  verdict = q1;
                  combined = refl;
                } in
                subst (Pending id request now s) same holds

  -- A verdict of a live person is the provider's, for the token of the session.
  pub liveness_then :
      {G : Type 0} (session : CaptureSession V) (client_ip : Option String)
      → liveness p provider config iproov session client_ip ≡ ok true
      → ((cfg : IproovConfig)
          → (token : String) → iproov ≡ some cfg
          → session.iproov_token ≡ some token
          → Live provider cfg token session.iproov_user_id (unwrap_or client_ip "0.0.0.0")
          → G)
      → G
  unfolding liveness
  liveness_then session client_ip h g = elim (Option-cases iproov) [
    | inl e ↦ absurd (ground arith)
    | inr (cfg, e) ↦ elim (Option-cases session.iproov_token) [
      | inl q ↦ absurd (ground arith)
      | inr (token, q) ↦ g cfg token e q (
          validate-Live provider cfg token session.iproov_user_id (unwrap_or client_ip "0.0.0.0") (
            ok_or-eq-ok _ _ (
              let r : ok_or
                    (validate provider cfg token session.iproov_user_id
                      (unwrap_or client_ip "0.0.0.0"))
                    (oauth_error 502 "server_error" "liveness provider is unavailable")
                  ≡ ok true =
                ground arith in
              r)))
    ]
  ]
