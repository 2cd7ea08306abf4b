-- ===== src/Flow/Granted/Reached.antt =====
-- Every call keeps the states well formed, so every reachable state is.
use Prim.Native.String.{String}
use text.Mathlib.Text.{◌==◌}
use vcissuer.Prelude.{
  ℕ, ◌≡◌, ◌||◌, true, not, Option, none, some, Option-cases, inl, inr, arith, saturating_add,
}
use vcissuer.Text.{has_char}
use vcissuer.Oauth.{oauth_error, deny_if, ok_or, ok_or-eq-ok, ok}
use vcissuer.Platform.{Platform}
use vcissuer.Profile.{tlsn_evidence_sd_jwt, valid_scope}
use vcissuer.Proof.Dpop.{verify_dpop}
use vcissuer.Proof.Jws.{unix_time}
use vcissuer.Table.{
  lookup, insert, remove, find_value, Values-lookup, Values-remove, Values-find_value,
}
use vcissuer.Tlsn.{
  SignedTlsnArtifact, VerifiedTlsnEvidence, verify_tlsn_artifact, tlsn_evidence_lifetime_seconds,
  reserve_tlsn_session,
}
use vcissuer.State.{VolatileState, initial, Config, use_dpop_jti}
use vcissuer.Endpoint.Par.{ParRequest, request_uri_of, offered_evidence, par}
use vcissuer.Endpoint.Offer.{create_credential_offer, build_tlsn_offer, reserve}
use vcissuer.Endpoint.Authorize.{AuthorizationRequest, issued_code, authorize}
use vcissuer.Endpoint.Token.{TokenRequest, binding_fails, token, nonce}
use vcissuer.Flow.{
  Call, to_par, to_create_offer, to_tlsn_offer, to_get_offer, to_authorize, to_token, to_nonce,
  to_credential, step, Reach, start, next,
}
use vcissuer.Flow.Granted.{
  Genuine, Granted, WellFormed, initial-WellFormed, Keeps-use_dpop_jti, credential-Keeps,
  get_credential_offer-Keeps,
}
use vcissuer.Flow.Granted.Tables.{
  checked, followed, pushed-WellFormed, offers-WellFormed, codes-WellFormed, tokens-WellFormed,
}

module _ {V : Type 0} (p : Platform V) (config : Config V) where
  open p use {url_join}

  offered-Genuine :
      (issuer_state : Option String) (scope : String) (clock : Option ℕ) (s : VolatileState V)
      {e : Option (VerifiedTlsnEvidence V)}
      → WellFormed p config s
      → offered_evidence issuer_state scope clock s ≡ ok e
      → Genuine p config e
  unfolding offered_evidence
  offered-Genuine none scope clock s {e} w h = let q : e ≡ none = cc in rw q tt
  offered-Genuine (some i) scope clock s {e} w h =
      elim (Option-cases (find_value (λ o. o.issuer_state == i) s.offers)) [
        | inl n ↦ absurd (ground arith)
        | inr (o, n) ↦
            let g =
              Values-find_value (λ o. Genuine p config o.tlsn_evidence) (λ o. o.issuer_state == i)
                s.offers w.offers n in
            let q : e ≡ o.tlsn_evidence = ground arith in rw q g
      ]

  par-WellFormed :
      (request : ParRequest) (clock : Option ℕ) (uuid : String) (s : VolatileState V)
      → WellFormed p config s
      → WellFormed p config (par config request clock uuid s).1
  unfolding par
  par-WellFormed request clock uuid s w =
      checked p config
        (deny_if
          (not (request.response_type == "code") || not (request.code_challenge_method == "S256"))
          (oauth_error 400 "invalid_request" "response_type=code and PKCE S256 are required"))
        _ s w
        λ a _.
          checked p config
            (deny_if (not (valid_scope request.scope config.hybrid_pq_enabled))
              (oauth_error 400 "invalid_scope" "scope contains an unsupported credential"))
            _ s w
            λ b v.
              checked p config (offered_evidence request.issuer_state request.scope clock s) _ s w
                λ e g.
                  pushed-WellFormed p config (request_uri_of uuid)
                    (record {
                      client_id = request.client_id;
                      redirect_uri = request.redirect_uri;
                      scope = request.scope;
                      state = request.state;
                      code_challenge = request.code_challenge;
                      tlsn_evidence = e;
                    })
                    s (ground arith, offered-Genuine request.issuer_state request.scope clock s w g)
                    w

  create_credential_offer-WellFormed :
      (id uuid issuer_state : String) (clock : Option ℕ) (s : VolatileState V)
      → WellFormed p config s
      → WellFormed p config (create_credential_offer p config id uuid issuer_state clock s).1
  unfolding create_credential_offer
  create_credential_offer-WellFormed id uuid issuer_state clock s w =
      checked p config
        (deny_if (id == tlsn_evidence_sd_jwt)
          (oauth_error 400 "invalid_request" "TLSNotary evidence offers require verified evidence"))
        _ s w
        λ _ _.
          checked p config
            (deny_if (not (valid_scope id config.hybrid_pq_enabled) || has_char b' ' id)
              (oauth_error 400 "invalid_request" "credential configuration is unknown"))
            _ s w
            λ _ _. checked p config (unix_time clock) _ s w λ now _.
              offers-WellFormed p config uuid
                (record {
                  profile = id;
                  issuer_state = issuer_state;
                  expires_at = saturating_add now 300;
                  tlsn_evidence = none;
                })
                s tt w

  reserve-WellFormed :
      (i : String) (s : VolatileState V)
      → WellFormed p config s
      → WellFormed p config (reserve i s).1
  unfolding reserve reserve_tlsn_session
  reserve-WellFormed i s w = record {
    pushed = ground (arith, w.pushed);
    codes = ground (arith, w.codes);
    tokens = ground (arith, w.tokens);
    offers = ground (arith, w.offers);
  }

  build_tlsn_offer-WellFormed :
      (artifact : SignedTlsnArtifact V) (uuid issuer_state : String) (clock : Option ℕ)
      (s : VolatileState V)
      → WellFormed p config s
      → WellFormed p config (build_tlsn_offer p config artifact uuid issuer_state clock s).1
  unfolding build_tlsn_offer
  build_tlsn_offer-WellFormed artifact uuid issuer_state clock s w =
      checked p config (unix_time clock) _ s w λ now _.
        checked p config
          (verify_tlsn_artifact p artifact config.trusted_notary_key config.trusted_notary_pq_key
            now)
          _ s w
          λ evidence v.
            followed p config (reserve evidence.session_id s) _
              (reserve-WellFormed evidence.session_id s w)
              λ _ t k.
                offers-WellFormed p config uuid
                  (record {
                    profile = tlsn_evidence_sd_jwt;
                    issuer_state = issuer_state;
                    expires_at = saturating_add now tlsn_evidence_lifetime_seconds;
                    tlsn_evidence = some evidence;
                  })
                  t (artifact, now, v) k

  taken-WellFormed :
      (k : String) (s : VolatileState V)
      → WellFormed p config s
      → WellFormed p config (record s { pushed = remove k s.pushed })
  taken-WellFormed k s w = record {
    pushed = Values-remove (λ a. Granted p config a.scope a.tlsn_evidence) k s.pushed w.pushed;
    codes = w.codes;
    tokens = w.tokens;
    offers = w.offers;
  }

  authorize-WellFormed :
      (request : AuthorizationRequest) (code : String) (s : VolatileState V)
      → WellFormed p config s
      → WellFormed p config (authorize p request code s).1
  unfolding authorize
  authorize-WellFormed request code s w =
      let t = record s { pushed = remove request.request_uri s.pushed } in
      let k = taken-WellFormed request.request_uri s w in
      checked p config
        (ok_or (lookup request.request_uri s.pushed)
          (oauth_error 400 "invalid_request_uri" "unknown or consumed request_uri"))
        _ t k
        λ a l.
          let g =
            Values-lookup (λ a. Granted p config a.scope a.tlsn_evidence) request.request_uri
              s.pushed w.pushed (ok_or-eq-ok _ _ l) in
          checked p config
            (deny_if (not (a.client_id == request.client_id))
              (oauth_error 400 "invalid_request" "client_id does not match PAR"))
            _ t k λ _ _. codes-WellFormed p config code (issued_code a) t g k

  token-WellFormed :
      (dpop : Option String) (request : TokenRequest) (clock : Option ℕ) (w : String)
      (s : VolatileState V)
      → WellFormed p config s
      → WellFormed p config (token p config dpop request clock w s).1
  unfolding token
  token-WellFormed dpop request clock access s w =
      checked p config
        (deny_if (not (request.grant_type == "authorization_code"))
          (oauth_error 400 "unsupported_grant_type" "only authorization_code is enabled"))
        _ s w
        λ _ _.
          checked p config
            (ok_or dpop (oauth_error 400 "invalid_dpop_proof" "DPoP proof is required")) _ s w
            λ proof _.
              checked p config (verify_dpop p proof "POST" (url_join config.issuer "token") clock) _
                s w
                λ d _.
                  let used =
                    oauth_error 400 "invalid_dpop_proof" "DPoP jti has already been used" in
                  followed p config (use_dpop_jti d.jti used s) _
                    ((Keeps-use_dpop_jti p config d.jti used).at s w)
                    λ _ t k.
                      checked p config
                        (ok_or (lookup request.code t.codes)
                          (oauth_error 400 "invalid_grant" "unknown authorization code"))
                        _ t k
                        λ c l.
                          let g =
                            Values-lookup (λ c. Granted p config c.scope c.tlsn_evidence)
                              request.code t.codes k.codes (ok_or-eq-ok _ _ l) in
                          checked p config
                            (deny_if (binding_fails p c request)
                              (oauth_error 400 "invalid_grant" "authorization code binding failed"))
                            _ t k
                            λ _ _.
                              tokens-WellFormed p config access
                                (record {
                                  scope = c.scope;
                                  dpop_jkt = d.jkt;
                                  tlsn_evidence = c.tlsn_evidence;
                                })
                                (record t {
                                  codes =
                                      insert request.code (record c { consumed = true }) t.codes;
                                })
                                g
                                (codes-WellFormed p config request.code
                                  (record c { consumed = true }) t g k)

  nonce-WellFormed :
      (n : String) (s : VolatileState V) → WellFormed p config s → WellFormed p config (nonce n s).1
  unfolding nonce
  nonce-WellFormed n s w = record {
    pushed = w.pushed;
    codes = w.codes;
    tokens = w.tokens;
    offers = w.offers;
  }

  pub step-WellFormed :
      (s : VolatileState V) (c : Call V)
      → WellFormed p config s
      → WellFormed p config (step p config s c)
  unfolding step
  step-WellFormed s (to_par request clock uuid) w = par-WellFormed request clock uuid s w
  step-WellFormed s (to_create_offer id uuid state clock) w =
      create_credential_offer-WellFormed id uuid state clock s w
  step-WellFormed s (to_tlsn_offer artifact uuid state clock) w =
      build_tlsn_offer-WellFormed artifact uuid state clock s w
  step-WellFormed s (to_get_offer id clock) w =
      (get_credential_offer-Keeps p config id clock).at s w
  step-WellFormed s (to_authorize request code) w = authorize-WellFormed request code s w
  step-WellFormed s (to_token dpop request clock access) w =
      token-WellFormed dpop request clock access s w
  step-WellFormed s (to_nonce n) w = nonce-WellFormed n s w
  step-WellFormed s (to_credential input) w = (credential-Keeps p config input).at s w

  -- In every state that calls lead to from the empty one, each pushed request, code and token has a
  -- scope of known configurations, and all evidence that is stored was once verified against the
  -- configured keys of the notary.
  pub Reach-WellFormed : (s : VolatileState V) → Reach p config initial s → WellFormed p config s
  Reach-WellFormed s start = initial-WellFormed p config
  Reach-WellFormed s (next {t = t} r c f e) = rw e (step-WellFormed t c (Reach-WellFormed t r))
