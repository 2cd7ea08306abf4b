-- ===== src/Endpoint/Par.antt =====
-- rust/issuer-service/src/main.rs: `par`, the pushed authorization request.
use Prim.Native.String.{String, ◌++◌}
use text.Mathlib.Text.{◌==◌}
use vcissuer.Prelude.{ℕ, Bool, not, ◌||◌, Option, none, some, any, ltb}
use vcissuer.Text.{split_ascii_whitespace}
use vcissuer.Oauth
use vcissuer.Oauth.{OauthError, oauth_error, Result, ok, deny_if, ok_or}
use vcissuer.Profile.{valid_scope}
use vcissuer.Proof.Jws.{unix_time}
use vcissuer.Table.{insert, find_value}
use vcissuer.Tlsn.{VerifiedTlsnEvidence}
use vcissuer.State.{
  CredentialOffer, VolatileState, Config, Handler, ◌>>=◌, ◌>>◌, pure, lift, change,
}

pub record ParRequest : Type 0 where
  pub client_id : String
  pub redirect_uri : String
  pub response_type : String
  pub scope : String
  pub state : Option String
  pub code_challenge : String
  pub code_challenge_method : String
  pub issuer_state : Option String

pub record ParResponse : Type 0 where
  pub request_uri : String
  pub expires_in : ℕ

abbrev pub request_uri_of : String → String
request_uri_of uuid = "urn:ietf:params:oauth:request_uri:" ++ uuid

module _ {V : Type 0} where
  -- The offer is current, and its profile is one of the requested scopes.
  abbrev offer_mismatch : CredentialOffer V → String → ℕ → Bool
  offer_mismatch offer scope now =
      ltb offer.expires_at now || not (any (◌==◌ offer.profile) (split_ascii_whitespace scope))

  unfoldable pub offered_evidence :
      Option String → String → Option ℕ → VolatileState V → Result (Option (VerifiedTlsnEvidence V))
  offered_evidence none scope clock s = ok none
  offered_evidence (some issuer_state) scope clock s = Oauth.◌>>=◌ (unix_time clock) λ now.
      Oauth.◌>>=◌
        (ok_or (find_value (λ offer. offer.issuer_state == issuer_state) s.offers)
          (oauth_error 400 "invalid_request" "issuer_state is unknown"))
        λ offer.
          Oauth.◌>>◌
            (deny_if (offer_mismatch offer scope now) (
              oauth_error 400 "invalid_request"
                "credential offer is expired or does not match the requested scope"))
            (ok offer.tlsn_evidence)

  -- The request, the clock and a new UUID.
  unfoldable pub par : Config V → ParRequest → Option ℕ → String → Handler V ParResponse
  par config request clock uuid = do
    lift (
        deny_if
          (not (request.response_type == "code") || not (request.code_challenge_method == "S256"))
          (oauth_error 400 "invalid_request" "response_type=code and PKCE S256 are required"))
    lift (
        deny_if (not (valid_scope request.scope config.hybrid_pq_enabled))
          (oauth_error 400 "invalid_scope" "scope contains an unsupported credential"))
    tlsn_evidence ← λ s. (offered_evidence request.issuer_state request.scope clock s, s)
    change λ s. record s {
      pushed =
          insert (request_uri_of uuid)
            (record {
              client_id = request.client_id;
              redirect_uri = request.redirect_uri;
              scope = request.scope;
              state = request.state;
              code_challenge = request.code_challenge;
              tlsn_evidence = tlsn_evidence;
            })
            s.pushed;
    }
    pure (record { request_uri = request_uri_of uuid; expires_in = 60 })
