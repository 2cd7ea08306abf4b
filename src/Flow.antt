-- ===== src/Flow.antt =====
-- The endpoints as steps of one system: every answered call of rust/issuer-service/src/main.rs is a
-- step of the state behind its one lock, in the order in which the calls take effect.
pub mod Advance
pub mod Endpoints
pub mod Once
pub mod Replay
pub mod Granted
use Prim.Native.String.{String}
use vcissuer.Prelude.{ℕ, ◌≡◌, Option, none}
use vcissuer.Oauth.{Result}
use vcissuer.Platform.{Platform}
use vcissuer.Table.{lookup}
use vcissuer.Tlsn.{SignedTlsnArtifact}
use vcissuer.State.{VolatileState, Config}
use vcissuer.Endpoint.Par.{ParRequest, par}
use vcissuer.Endpoint.Offer.{create_credential_offer, build_tlsn_offer, get_credential_offer}
use vcissuer.Endpoint.Authorize.{AuthorizationRequest, authorize}
use vcissuer.Endpoint.Token.{TokenRequest, token, nonce}
use vcissuer.Endpoint.Credential.{CredentialInput, credential}

-- A call with its request, the clock that it reads and the random values that it draws.
pub data Call (V : Type 0) : Type 0 where
  to_par : ParRequest → Option ℕ → String → Call V
  to_create_offer : String → String → String → Option ℕ → Call V
  to_tlsn_offer : SignedTlsnArtifact V → String → String → Option ℕ → Call V
  to_get_offer : String → Option ℕ → Call V
  to_authorize : AuthorizationRequest → String → Call V
  to_token : Option String → TokenRequest → Option ℕ → String → Call V
  to_nonce : String → Call V
  to_credential : CredentialInput → Call V

module _ {V : Type 0} (p : Platform V) (config : Config V) where
  unfoldable pub step : VolatileState V → Call V → VolatileState V
  step s (to_par request clock uuid) = (par config request clock uuid s).1
  step s (to_create_offer id uuid state clock) =
      (create_credential_offer p config id uuid state clock s).1
  step s (to_tlsn_offer artifact uuid state clock) =
      (build_tlsn_offer p config artifact uuid state clock s).1
  step s (to_get_offer id clock) = (get_credential_offer config id clock s).1
  step s (to_authorize request code) = (authorize p request code s).1
  step s (to_token dpop request clock w) = (token p config dpop request clock w s).1
  step s (to_nonce n) = (nonce n s).1
  step s (to_credential input) = (credential p config input s).1

-- A random token that becomes a code or a nonce has not been drawn before.
abbrev pub Fresh : {V : Type 0} → VolatileState V → Call V → Type 0
Fresh s (to_authorize request code) = lookup code s.codes ≡ none
Fresh s (to_nonce n) = lookup n s.nonces ≡ none
Fresh s _ = Unit {0}

-- The states that calls lead to, from the first one on.
pub data Reach {V : Type 0} (p : Platform V) (config : Config V) (s : VolatileState V)
    : VolatileState V → Type 0 where
  start : Reach p config s s
  next :
      {t u : VolatileState V}
      → Reach p config s t
      → (c : Call V) → Fresh t c
      → u ≡ step p config t c
      → Reach p config s u
