-- ===== src/Endpoint/Credential/Issued.antt =====
-- What an issued credential rests on.
use Prim.Native.String.{String}
use text.Mathlib.Text.{◌==◌}
use text.Mathlib.TextEquality.{eq_iff}
use vcissuer.Prelude.{
  ℕ, ◌≡◌, ap, sym, ◌∙◌, ◌≢◌, true, false, Option, none, some, arith, ◌∷◌, is_none, ◌&&◌,
}
use vcissuer.Oauth.{OauthError, oauth_error, ok, deny_if-eq-ok, deny_if, ok_or, ok_or-eq-ok}
use vcissuer.Platform.{Platform}
use vcissuer.Profile.{tlsn_evidence_sd_jwt}
use vcissuer.Proof.Dpop.{VerifiedDpop, verify_dpop}
use vcissuer.Proof.Credential.{VerifiedCredentialProof}
use vcissuer.Proof.Pid.{VerifiedPidBinding}
use vcissuer.Proof.Emrtd.{VerifiedChipLiveness}
use vcissuer.Proof.Jws.{unix_time}
use vcissuer.Gate.{MandateGrant, authorize_kernel}
use vcissuer.Table.{insert, has}
use vcissuer.State.{
  AccessToken, VolatileState, Config, Handler, >>=-eq-ok, use_dpop_jti, ◌>>=◌, lift_then,
}
use vcissuer.Endpoint.Credential.{
  CredentialInput, Order, bearer, order, binding_subject, credential, access_step, proof_step,
  pid_step, chip_step,
}
use vcissuer.Endpoint.Credential.Steps.{
  use_dpop_jti_ok, Accesses, access_step-Accesses, Proves, proof_step-Proves, PidChecked,
  pid_step-PidChecked, ChipChecked, chip_step-ChipChecked,
}

module _ {V : Type 0} {G : Type 0} where
  use_dpop_jti_then :
      (jti : String) (e : OauthError) (f : Unit {0} → Handler V (Order V)) (s : VolatileState V)
      {o : Order V} {t : VolatileState V}
      → (use_dpop_jti jti e >>= f) s ≡ (ok o, t)
      → (has jti s.dpop_jtis ≡ false
          → f tt (record s { dpop_jtis = jti ∷ s.dpop_jtis }) ≡ (ok o, t)
          → G)
      → G
  use_dpop_jti_then jti e f s h g =
      let (x, u, a, b) = >>=-eq-ok (use_dpop_jti jti e) f s h in
      let (n, q) = use_dpop_jti_ok jti e s u a in g n (ap (f tt) (sym q) ∙ b)

module _ {V : Type 0} (p : Platform V) (config : Config V) (input : CredentialInput) where
  open p use {url_join}

  access_step_then :
      {G : Type 0} (token jkt : String) (f : AccessToken V → Handler V (Order V))
      (s : VolatileState V) {o : Order V} {t : VolatileState V}
      → (access_step p config input token jkt >>= f) s ≡ (ok o, t)
      → ((a : AccessToken V) → Accesses p config input s token jkt a → f a s ≡ (ok o, t) → G)
      → G
  access_step_then token jkt f s h g =
      let (a, u, e, r) = >>=-eq-ok (access_step p config input token jkt) f s h in
      let (x, q) = access_step-Accesses p config input token jkt s u a e in
      g a x (ap (f a) (sym q) ∙ r)

  proof_step_then :
      {G : Type 0} (a : AccessToken V) (f : VerifiedCredentialProof V → Handler V (Order V))
      (s : VolatileState V) {o : Order V} {t : VolatileState V}
      → (proof_step p config input a >>= f) s ≡ (ok o, t)
      → ((k : VerifiedCredentialProof V) (jwt : String)
          → Proves p config input s a jwt k
          → f k s ≡ (ok o, t)
          → G)
      → G
  proof_step_then a f s h g =
      let (k, u, e, r) = >>=-eq-ok (proof_step p config input a) f s h in
      let (jwt, x, q) = proof_step-Proves p config input a s u k e in
      g k jwt x (ap (f k) (sym q) ∙ r)

  abbrev pub entered : VolatileState V → VerifiedDpop → VolatileState V
  entered s d = record s { dpop_jtis = d.jti ∷ s.dpop_jtis }

  pub record Issued (s t : VolatileState V) (o : Order V) : Type 0 where
    pub token : String
    pub dpop : String
    pub jwt : String
    pub d : VerifiedDpop
    pub access : AccessToken V
    pub proof : VerifiedCredentialProof V
    pub pid : Option VerifiedPidBinding
    pub chip : Option VerifiedChipLiveness
    pub grant : Option MandateGrant
    pub now : ℕ
    pub bearer : bearer input.authorization ≡ ok token
    pub header : input.dpop ≡ some dpop
    pub verified :
        verify_dpop p dpop "POST" (url_join config.issuer "credential") input.dpop_clock ≡ ok d
    pub fresh : has d.jti s.dpop_jtis ≡ false
    pub accesses : Accesses p config input s token d.jkt access
    pub proves : Proves p config input s access jwt proof
    pub time : unix_time input.clock ≡ ok now
    pub evidence : input.configuration_id ≡ tlsn_evidence_sd_jwt → access.tlsn_evidence ≢ none
    pub middle : VolatileState V
    pub last : VolatileState V
    pub pid_checked : PidChecked p config input (entered s d) middle proof now pid
    pub chip_checked : ChipChecked p config input middle last proof now chip
    pub kernel :
        authorize_kernel p input.configuration_id proof.holder_jkt proof.nonce
          (binding_subject pid)
          chip
          now
          input.kernel_tokens
        ≡ ok grant
    pub ordered : order p config input proof access.tlsn_evidence chip grant now ≡ ok o
    pub after : t ≡ record last { nonces = insert proof.nonce true last.nonces }

  any_then :
      {A G : Type 0} (m : Handler V A) (f : A → Handler V (Order V)) (s : VolatileState V)
      {o : Order V} {t : VolatileState V}
      → (m >>= f) s ≡ (ok o, t)
      → ((a : A) (u : VolatileState V) → m s ≡ (ok a, u) → f a u ≡ (ok o, t) → G)
      → G
  any_then m f s h g = let (a, u, e, r) = >>=-eq-ok m f s h in g a u e r

  evidence_bound :
      (a : AccessToken V)
      → (input.configuration_id == tlsn_evidence_sd_jwt && is_none a.tlsn_evidence) ≡ false
      → input.configuration_id ≡ tlsn_evidence_sd_jwt
      → a.tlsn_evidence ≢ none
  evidence_bound a h e z = ground (arith, eq_iff input.configuration_id tlsn_evidence_sd_jwt)

  -- A credential is ordered only for a known token, which is bound to the key of a DPoP proof that
  -- verified with a new identifier and which covers the configuration; on one proof of the same key
  -- whose nonce was given out and was not used; with the evidence that the configuration needs,
  -- verified; and after the kernel has agreed. What is ordered is the configuration's order, and the
  -- nonce is used in the state that is left.
  pub credential-Issued :
      (s t : VolatileState V) (o : Order V) → credential p config input s ≡ (ok o, t) → Issued s t o
  unfolding credential
  credential-Issued s t o h = lift_then (bearer input.authorization) _ s h λ token e1 r1.
      lift_then (ok_or input.dpop (oauth_error 401 "invalid_token" "DPoP proof is required")) _ s r1
        λ dpop e2 r2.
          lift_then
            (verify_dpop p dpop "POST" (url_join config.issuer "credential") input.dpop_clock) _ s
            r2
            λ d e3 r3.
              use_dpop_jti_then d.jti
                (oauth_error 401 "invalid_dpop_proof" "DPoP jti has already been used") _ s r3
                λ e4 r4. access_step_then token d.jkt _ (entered s d) r4 λ access e5 r5.
                  proof_step_then access _ (entered s d) r5 λ proof jwt e6 r6.
                    lift_then (unix_time input.clock) _ (entered s d) r6 λ now e7 r7.
                      lift_then
                        (deny_if
                          (input.configuration_id == tlsn_evidence_sd_jwt
                            && is_none access.tlsn_evidence)
                          (oauth_error 403 "credential_request_denied"
                            "TLSNotary evidence was not bound to this authorization"))
                        _ (entered s d) r7
                        λ z e8 r8.
                          any_then (pid_step p config input proof now) _ (entered s d) r8
                            λ pid s9 e9 r9.
                              any_then (chip_step p config input proof now) _ s9 r9
                                λ chip s10 e10 r10.
                                  lift_then
                                    (authorize_kernel p input.configuration_id proof.holder_jkt
                                      proof.nonce (binding_subject pid) chip now
                                      input.kernel_tokens)
                                    _ s10 r10
                                    λ grant e11 r11. record {
                                      token = token;
                                      dpop = dpop;
                                      jwt = jwt;
                                      d = d;
                                      access = access;
                                      proof = proof;
                                      pid = pid;
                                      chip = chip;
                                      grant = grant;
                                      now = now;
                                      bearer = e1;
                                      header = ok_or-eq-ok _ _ e2;
                                      verified = e3;
                                      fresh = e4;
                                      accesses = record {
                                        found = e5.found;
                                        bound = e5.bound;
                                        in_scope = e5.in_scope;
                                      };
                                      proves = record {
                                        single = e6.single;
                                        verified = e6.verified;
                                        bound = e6.bound;
                                        unused = e6.unused;
                                      };
                                      time = e7;
                                      evidence = evidence_bound access (deny_if-eq-ok _ _ e8);
                                      middle = s9;
                                      last = s10;
                                      pid_checked =
                                          pid_step-PidChecked p config input proof now (entered s d)
                                            s9 pid e9;
                                      chip_checked =
                                          chip_step-ChipChecked p config input proof now s9 s10 chip
                                            e10;
                                      kernel = e11;
                                      ordered = cc;
                                      after = cc;
                                    }
