-- ===== src/Capture/Captured.antt =====
-- A captured document, from the evidence to the session that it is delivered in.
use Prim.Native.String.{String}
use text.Mathlib.TextEquality.{eq_iff}
use vcissuer.Prelude.{
  ℕ, ◌≡◌, refl, sym, ap, ◌∙◌, ◌<◌, true, false, ◌&&◌, ◌∷◌, Option, none, some, unwrap_or, u64_max,
  arith,
}
use vcissuer.Oauth.{Result, ok, err}
use vcissuer.Platform.{Platform}
use vcissuer.Profile.{pid_from_emrtd_sd_jwt, pid_from_emrtd_mdoc, is_nfc_pid}
use vcissuer.Gate.{KernelTokens, authorize_kernel, MandateGrant}
use vcissuer.Gate.Grants.{ChipVerified, authorize_kernel_iff}
use vcissuer.Table.{lookup, has, lookup-insert}
use vcissuer.State.{
  issued, CaptureSession, VolatileState, Config, Handler, continue, ◌>>◌, lift_then,
  use_binding_jti, >>=-eq-ok,
}
use vcissuer.Endpoint.Credential.Steps.{use_binding_jti_ok}
use vcissuer.Liveness.{IproovConfig, Provider}
use vcissuer.Liveness.Verdict.{Live}
use vcissuer.Capture.{
  CaptureEvidenceRequest, PendingCapture, CaptureAnswer, Encoders, portrait_matched_liveness,
  begin_capture, capture_gate, set_session, finish_capture,
}
use vcissuer.Capture.Proven.{Pending, begin_capture-Pending, liveness_then}

decided_then :
    {V A : Type 0} {G : Type 0} (r : Result (Option MandateGrant)) (other : VolatileState V)
    (k : Handler V A) (u : VolatileState V) {a : A} {t : VolatileState V}
    → continue {A = Unit {0}} (elim r [ ok grant ↦ (ok tt, u) | err e ↦ (err e, other) ]) (λ _. k)
      ≡ (ok a, t)
    → ((g : Option MandateGrant) → r ≡ ok g → k u ≡ (ok a, t) → G)
    → G
decided_then (ok grant) other k u h g = g grant refl h
decided_then (err e) other k u h g = absurd cc

module _ {V : Type 0} (p : Platform V) (encoders : Encoders V) where
  gate_then :
      {A : Type 0} {G : Type 0} (id name : String) (pending : PendingCapture V)
      (tokens : KernelTokens) (k : Handler V A) (u : VolatileState V) {a : A} {t : VolatileState V}
      → (capture_gate p encoders id name pending tokens >> k) u ≡ (ok a, t)
      → ((g : Option MandateGrant)
          → authorize_kernel p name pending.session.holder_jkt pending.session.nonce none
              (some pending.verified)
              pending.now
              tokens
            ≡ ok g
          → k u ≡ (ok a, t)
          → G)
      → G
  unfolding capture_gate
  gate_then id name pending tokens k u h g =
      decided_then
        (authorize_kernel p name pending.session.holder_jkt pending.session.nonce none
          (some pending.verified) pending.now tokens)
        _ k u h g

  -- The session that the documents are delivered in.
  abbrev Delivered : PendingCapture V → CaptureAnswer → CaptureSession V → CaptureSession V
  Delivered pending answer session = record session {
    status = issued;
    credential = some answer.credential;
    credential_mdoc = some answer.credential_mdoc;
    iproov_token = none;
  }

  lookup-set_session :
      (id : String) (f : CaptureSession V → CaptureSession V) (u : VolatileState V)
      {session : CaptureSession V}
      → lookup id u.capture_sessions ≡ some session
      → lookup id (set_session id f u).capture_sessions ≡ some (f session)
  unfolding set_session
  lookup-set_session id f u {session} e =
      rw (e, set_session)
        (lookup-insert id id (f session) u.capture_sessions ∙ rw ((eq_iff id id).1 refl) refl)

  -- The kernel lets the configuration through for the session's holder and nonce, on the evidence.
  abbrev pub Allows : String → PendingCapture V → KernelTokens → Type 0
  Allows name pending tokens =
      (grant : Option MandateGrant) × (authorize_kernel p name pending.session.holder_jkt
          pending.session.nonce none (some pending.verified) pending.now tokens
        ≡ ok grant)

  pub record Finished (id : String) (pending : PendingCapture V)
      (sd_tokens mdoc_tokens : KernelTokens) (u t : VolatileState V) (answer : CaptureAnswer)
      : Type 0 where
    pub fresh : has pending.verified.jti u.binding_jtis ≡ false
    pub sd_jwt_allowed : Allows pid_from_emrtd_sd_jwt pending sd_tokens
    pub mdoc_allowed : Allows pid_from_emrtd_mdoc pending mdoc_tokens
    pub chip_verified : ChipVerified (some pending.verified)
    pub sd_jwt :
        encoders.issue_sd_jwt pid_from_emrtd_sd_jwt pending.session.holder_jwk pending.now
          pending.verified.claims
        ≡ ok answer.credential
    pub mdoc :
        encoders.issue_mdoc pid_from_emrtd_mdoc pending.session.holder_jwk pending.now
          pending.verified.claims
        ≡ ok answer.credential_mdoc
    pub left :
        t
        ≡ set_session id
            (Delivered pending answer)
            (record u { binding_jtis = pending.verified.jti ∷ u.binding_jtis })
    pub delivered :
        (session : CaptureSession V)
        → lookup id u.capture_sessions ≡ some session
        → lookup id t.capture_sessions ≡ some (Delivered pending answer session)

  finish_capture-Finished :
      (id : String) (pending : PendingCapture V) (sd_tokens mdoc_tokens : KernelTokens)
      (u t : VolatileState V) (answer : CaptureAnswer)
      → pending.now < u64_max
      → finish_capture p encoders id pending sd_tokens mdoc_tokens u ≡ (ok answer, t)
      → Finished id pending sd_tokens mdoc_tokens u t answer
  unfolding finish_capture is_nfc_pid
  finish_capture-Finished id pending sd_tokens mdoc_tokens u t answer small h =
      let (_, u1, q, h0) = >>=-eq-ok (use_binding_jti pending.verified.jti _) _ u h in
      let (is_fresh, state) = use_binding_jti_ok pending.verified.jti _ u u1 q in
      gate_then id pid_from_emrtd_sd_jwt pending sd_tokens _ u1 h0 λ g q1 h1.
        lift_then
          (encoders.issue_sd_jwt pid_from_emrtd_sd_jwt pending.session.holder_jwk pending.now
            pending.verified.claims)
          _ u1 h1
          λ cred q2 h2. gate_then id pid_from_emrtd_mdoc pending mdoc_tokens _ u1 h2 λ g' q3 h3.
            lift_then
              (encoders.issue_mdoc pid_from_emrtd_mdoc pending.session.holder_jwk pending.now
                pending.verified.claims)
              _ u1 h3
              λ doc q4 h4.
                let grantable =
                  (authorize_kernel_iff p pid_from_emrtd_sd_jwt pending.session.holder_jkt
                      pending.session.nonce none (some pending.verified) pending.now sd_tokens
                      small).0
                    (g, q1) in
                let e1 : cred ≡ answer.credential = cc in
                let e2 : doc ≡ answer.credential_mdoc = cc in
                let left : t ≡ set_session id (Delivered pending answer) u1 =
                  sym (ap (λ r. r.1) h4) ∙ rw (e1, e2) refl in
                let moved : (session : CaptureSession V)
                    → lookup id u1.capture_sessions ≡ some session
                    → lookup id t.capture_sessions ≡ some (Delivered pending answer session) =
                  λ session found.
                    rw left (lookup-set_session id (Delivered pending answer) u1 found) in
                record {
                  fresh = is_fresh;
                  sd_jwt_allowed = (g, q1);
                  mdoc_allowed = (g', q3);
                  left = left ∙ ap (set_session id (Delivered pending answer)) state;
                  chip_verified = grantable.chip_read refl;
                  sd_jwt = q2 ∙ ap ok e1;
                  mdoc = q4 ∙ ap ok e2;
                  delivered = λ session found.
                      moved session (ap (λ x. lookup id x.capture_sessions) state ∙ found);
                }

-- A document is captured for the holder of a session that was found awaiting evidence before its end;
-- with the provider's verdict of a live person for the session's own token; with a chip attestation
-- for the session's nonce and holder that was not used before, whose chip read, chip and portrait all
-- passed; and after the kernel has agreed for both formats. The attestation is used in the state that is
-- left, and the session holds the documents; nothing else is changed.
pub record Captured {V : Type 0} (p : Platform V) (provider : Provider) (config : Config V)
    (iproov : Option IproovConfig) (encoders : Encoders V) (id : String)
    (request : CaptureEvidenceRequest) (now : ℕ) (sd_tokens mdoc_tokens : KernelTokens)
    (s u t : VolatileState V) (answer : CaptureAnswer) : Type 0 where
  pub pending : PendingCapture V
  pub evidence : Pending p provider config iproov id request now s pending
  pub cfg : IproovConfig
  pub enabled : iproov ≡ some cfg
  pub token : String
  pub session_token : pending.session.iproov_token ≡ some token
  pub live :
      Live provider cfg token pending.session.iproov_user_id (unwrap_or request.client_ip "0.0.0.0")
  pub passive : evidence.attested.sod_passive_auth ≡ true
  pub chip : evidence.attested.chip_authentic ≡ true
  pub portrait : evidence.attested.liveness_matched ≡ true
  pub finished : Finished p encoders id pending sd_tokens mdoc_tokens u t answer

-- A captured document rests on all of its evidence, from a live person to the kernel's decision for
-- each of the two formats, also where other calls changed the state between the two parts of the
-- handler: the attestation was new in the state that the second part finds. The state that is left
-- differs from it in that the attestation is used and that the session, where there is one, is issued
-- with the two documents and without its liveness token. The clock is below the last second of `u64`.
pub finish_capture-Captured :
    {V : Type 0} (p : Platform V) (provider : Provider) (config : Config V)
    (iproov : Option IproovConfig) (encoders : Encoders V) (id : String)
    (request : CaptureEvidenceRequest) (now : ℕ) (sd_tokens mdoc_tokens : KernelTokens)
    (pending : PendingCapture V) (s s' u t : VolatileState V) (answer : CaptureAnswer)
    → now < u64_max
    → begin_capture p provider config iproov id request now s ≡ (ok pending, s')
    → finish_capture p encoders id pending sd_tokens mdoc_tokens u ≡ (ok answer, t)
    → Captured p provider config iproov encoders id request now sd_tokens mdoc_tokens s u t answer
unfolding portrait_matched_liveness
finish_capture-Captured p provider config iproov encoders id request now sd_tokens mdoc_tokens
      pending s s' u t answer small h k =
    let e = begin_capture-Pending p provider config iproov id request now s s' pending h in
    let time = e.time in
    let f =
      finish_capture-Finished p encoders id pending sd_tokens mdoc_tokens u t answer (omega arith)
        k in
    let (passive_ok, chip_ok, matched) = f.chip_verified in
    let combined = e.combined in
    let both : (e.live && e.attested.liveness_matched) ≡ true =
      sym (ap (λ c. c.liveness_matched) combined) ∙ matched in
    let live_ok : e.live ≡ true = ground arith in
    liveness_then p provider config iproov pending.session request.client_ip
      (e.verdict ∙ ap ok live_ok)
      λ settings session_tok on has_token lives. record {
        pending = pending;
        evidence = e;
        cfg = settings;
        enabled = on;
        token = session_tok;
        session_token = has_token;
        live = lives;
        passive = sym (ap (λ c. c.sod_passive_auth) combined) ∙ passive_ok;
        chip = sym (ap (λ c. c.chip_authentic) combined) ∙ chip_ok;
        portrait = ground arith;
        finished = f;
      }
