-- ===== src/Endpoint/Authorize.antt =====
-- rust/issuer-service/src/main.rs: `authorize`.
use Prim.Native.String.{String}
use text.Mathlib.Text.{◌==◌}
use vcissuer.Prelude.{false, not, Option, none, some}
use vcissuer.Oauth.{oauth_error, deny_if, ok_or}
use vcissuer.Platform.{Platform}
use vcissuer.Table.{insert, lookup, remove}
use vcissuer.State.{
  PushedAuthorization, AuthorizationCode, Handler, ◌>>=◌, ◌>>◌, pure, lift, change,
}

pub record AuthorizationRequest : Type 0 where
  pub client_id : String
  pub request_uri : String

module _ {V : Type 0} where
  abbrev pub issued_code : PushedAuthorization V → AuthorizationCode V
  issued_code pushed = record {
    client_id = pushed.client_id;
    redirect_uri = pushed.redirect_uri;
    scope = pushed.scope;
    code_challenge = pushed.code_challenge;
    consumed = false;
    tlsn_evidence = pushed.tlsn_evidence;
  }

module _ {V : Type 0} (p : Platform V) where
  open p use {url_append_pair}

  -- `pushed.remove`: what stood there is taken out.
  take_pushed : String → Handler V (PushedAuthorization V)
  take_pushed request_uri s = (
    ok_or (lookup request_uri s.pushed)
        (oauth_error 400 "invalid_request_uri" "unknown or consumed request_uri"),
    record s { pushed = remove request_uri s.pushed },
  )

  with_state : Option String → String → String
  with_state none redirect = redirect
  with_state (some value) redirect = url_append_pair redirect "state" value

  -- The request and a new random token; the answer is the URL of the redirect.
  unfoldable pub authorize : AuthorizationRequest → String → Handler V String
  unfolding take_pushed with_state
  authorize request code = do
    pushed ← take_pushed request.request_uri
    lift (
        deny_if (not (pushed.client_id == request.client_id))
          (oauth_error 400 "invalid_request" "client_id does not match PAR"))
    change λ s. record s { codes = insert code (issued_code pushed) s.codes }
    pure (with_state pushed.state (url_append_pair pushed.redirect_uri "code" code))
