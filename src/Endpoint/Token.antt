-- ===== src/Endpoint/Token.antt =====
-- rust/issuer-service/src/main.rs: `token`, `pkce_matches` and `nonce`.
pub mod Redeem
use Prim.Native.String.{String}
use text.Mathlib.Text.{◌==◌}
use vcissuer.Prelude.{ℕ, Bool, true, false, not, ◌||◌, Option, none, some}
use vcissuer.Text.{as_bytes}
use vcissuer.Oauth.{OauthError, oauth_error, Result, ok, deny_if, ok_or}
use vcissuer.Platform.{Platform}
use vcissuer.Proof.Dpop.{VerifiedDpop, verify_dpop}
use vcissuer.Table.{insert, lookup}
use vcissuer.State.{
  AuthorizationCode, VolatileState, Config, Handler, continue, ◌>>=◌, ◌>>◌, pure, lift, change,
  use_dpop_jti,
}

pub record TokenRequest : Type 0 where
  pub grant_type : String
  pub code : String
  pub redirect_uri : String
  pub client_id : String
  pub code_verifier : String

-- The answer's `token_type` is DPoP and its `expires_in` 300.
pub record TokenResponse : Type 0 where
  pub access_token : String
  pub scope : String

module _ {V : Type 0} (p : Platform V) where
  open p use {base64url_encode, sha256, url_join}

  unfoldable pub pkce_matches : String → String → Bool
  pkce_matches verifier challenge = base64url_encode (sha256 (as_bytes verifier)) == challenge

  abbrev pub binding_fails : AuthorizationCode V → TokenRequest → Bool
  binding_fails code request =
      code.consumed
      || not (code.client_id == request.client_id)
      || not (code.redirect_uri == request.redirect_uri)
      || not (pkce_matches request.code_verifier code.code_challenge)

  find_code : String → VolatileState V → Result (AuthorizationCode V)
  find_code code s =
      ok_or (lookup code s.codes) (oauth_error 400 "invalid_grant" "unknown authorization code")

  -- The DPoP header, the request, the clock and a new random token.
  unfoldable pub token :
      Config V → Option String → TokenRequest → Option ℕ → String → Handler V TokenResponse
  unfolding find_code
  token config dpop_header request clock access_token = do
    lift (
        deny_if (not (request.grant_type == "authorization_code"))
          (oauth_error 400 "unsupported_grant_type" "only authorization_code is enabled"))
    dpop ← lift (ok_or dpop_header (oauth_error 400 "invalid_dpop_proof" "DPoP proof is required"))
    verified ← lift (verify_dpop p dpop "POST" (url_join config.issuer "token") clock)
    use_dpop_jti verified.jti
        (oauth_error 400 "invalid_dpop_proof" "DPoP jti has already been used")
    code ← λ s. (find_code request.code s, s)
    lift (
        deny_if (binding_fails code request)
          (oauth_error 400 "invalid_grant" "authorization code binding failed"))
    change λ s. record s {
      codes = insert request.code (record code { consumed = true }) s.codes;
      tokens =
          insert access_token
            (record {
              scope = code.scope;
              dpop_jkt = verified.jkt;
              tlsn_evidence = code.tlsn_evidence;
            })
            s.tokens;
    }
    pure (record { access_token = access_token; scope = code.scope })

-- The new nonce is the answer's `c_nonce`; its `c_nonce_expires_in` is 300.
unfoldable pub nonce : {V : Type 0} → String → Handler V String
nonce c_nonce = do change λ s. record s { nonces = insert c_nonce false s.nonces }; pure c_nonce
