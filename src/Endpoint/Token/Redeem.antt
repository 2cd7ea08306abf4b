-- ===== src/Endpoint/Token/Redeem.antt =====
-- What a token costs: the conditions under which `token` grants one, and the state that it leaves.
use Prim.Native.String.{String}
use text.Mathlib.TextEquality.{eq_iff}
use vcissuer.Prelude.{ℕ, ◌≡◌, ◌↔◌, true, false, Option, some, Option-cases, inl, inr, arith, ◌∷◌}
use vcissuer.Oauth.{ok, Result-cases}
use vcissuer.Platform.{Platform}
use vcissuer.Proof.Dpop.{VerifiedDpop, verify_dpop}
use vcissuer.Table.{insert, lookup, has, add}
use vcissuer.State.{AuthorizationCode, VolatileState, Config, use_dpop_jti}
use vcissuer.Endpoint.Token.{TokenRequest, TokenResponse, pkce_matches, token}

module _ {V : Type 0} (p : Platform V) (config : Config V) (dpop : Option String)
    (request : TokenRequest) (clock : Option ℕ) (w : String) where
  open p use {url_join}

  -- The proof, what it proves and the code that is redeemed.
  pub record Redeems (s : VolatileState V) (proof : String) (d : VerifiedDpop)
      (c : AuthorizationCode V) : Type 0 where
    pub grant : request.grant_type ≡ "authorization_code"
    pub header : dpop ≡ some proof
    pub verified : verify_dpop p proof "POST" (url_join config.issuer "token") clock ≡ ok d
    pub fresh : has d.jti s.dpop_jtis ≡ false
    pub found : lookup request.code s.codes ≡ some c
    pub unused : c.consumed ≡ false
    pub client : c.client_id ≡ request.client_id
    pub redirect : c.redirect_uri ≡ request.redirect_uri
    pub pkce : pkce_matches p request.code_verifier c.code_challenge ≡ true

  -- The state after it: the identifier and the code are used, and the token holds what the code was
  -- granted and the key of the proof.
  abbrev pub redeemed : VolatileState V → VerifiedDpop → AuthorizationCode V → VolatileState V
  redeemed s d c = record s {
    dpop_jtis = d.jti ∷ s.dpop_jtis;
    codes = insert request.code (record c { consumed = true }) s.codes;
    tokens =
        insert w (record { scope = c.scope; dpop_jkt = d.jkt; tlsn_evidence = c.tlsn_evidence })
          s.tokens;
  }

  abbrev pub Redeemed : VolatileState V → TokenResponse → VolatileState V → Type 0
  Redeemed s a t =
      (proof : String) × (d : VerifiedDpop) × (c : AuthorizationCode V) × Redeems s proof d c
      × (a ≡ record { access_token = w; scope = c.scope })
      × (t ≡ redeemed s d c)

  Redeems_of_token :
      (s t : VolatileState V) (a : TokenResponse) (proof : String) (d : VerifiedDpop)
      (c : AuthorizationCode V)
      → token p config dpop request clock w s ≡ (ok a, t)
      → dpop ≡ some proof
      → verify_dpop p proof "POST" (url_join config.issuer "token") clock ≡ ok d
      → lookup request.code s.codes ≡ some c
      → Redeems s proof d c
  unfolding token use_dpop_jti add
  Redeems_of_token s t a proof d c h e v l = record {
    grant = ground (arith, eq_iff request.grant_type "authorization_code");
    header = e;
    verified = v;
    fresh = ground arith;
    found = l;
    unused = ground arith;
    client = ground (arith, eq_iff c.client_id request.client_id);
    redirect = ground (arith, eq_iff c.redirect_uri request.redirect_uri);
    pkce = ground arith;
  }

  token_of_Redeems :
      (s : VolatileState V) (proof : String) (d : VerifiedDpop) (c : AuthorizationCode V)
      → Redeems s proof d c
      → token p config dpop request clock w s
        ≡ (ok (record { access_token = w; scope = c.scope }), redeemed s d c)
  unfolding token use_dpop_jti add
  token_of_Redeems s proof d c r = ground (
    arith,
    r.grant,
    r.header,
    r.verified,
    r.fresh,
    r.found,
    r.unused,
    r.client,
    r.redirect,
    r.pkce,
    eq_iff request.grant_type "authorization_code",
    eq_iff c.client_id request.client_id,
    eq_iff c.redirect_uri request.redirect_uri,
  )

  found :
      (s t : VolatileState V) (a : TokenResponse)
      → token p config dpop request clock w s ≡ (ok a, t)
      → (proof : String) × (d : VerifiedDpop) × (c : AuthorizationCode V) × Redeems s proof d c
  unfolding token use_dpop_jti add
  found s t a h = elim (Option-cases dpop) [
    | inl e ↦ absurd (ground arith)
    | inr (proof, e) ↦
        elim (Result-cases (verify_dpop p proof "POST" (url_join config.issuer "token") clock)) [
          | inr (x, v) ↦ absurd (ground arith)
          | inl (d, v) ↦ elim (Option-cases (lookup request.code s.codes)) [
            | inl l ↦ absurd (ground arith)
            | inr (c, l) ↦ (proof, d, c, Redeems_of_token s t a proof d c h e v l)
          ]
        ]
  ]

  -- A token is granted exactly when the grant type is right, the DPoP proof verifies for this endpoint
  -- with an identifier that is new, and the code is known, unused and was granted to this client and
  -- redirect URI with the challenge that the verifier answers; then the answer carries the code's
  -- scope, and only the identifier, the code and the new token change in the state.
  pub token_iff :
      (s t : VolatileState V) (a : TokenResponse)
      → (token p config dpop request clock w s ≡ (ok a, t)) ↔ Redeemed s a t
  token_iff s t a = (
    λ h.
        let (proof, d, c, r) = found s t a h in
        let g = token_of_Redeems s proof d c r in (proof, d, c, r, cc, cc),
    λ (proof, d, c, r, e, u). let g = token_of_Redeems s proof d c r in cc,
  )
