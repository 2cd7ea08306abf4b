-- ===== src/Flow/Endpoints.antt =====
-- Every endpoint but `authorize` and `nonce`, which take a new random token, only moves forward.
use Prim.Native.String.{String}
use vcissuer.Prelude.{ℕ, Option}
use vcissuer.Platform.{Platform}
use vcissuer.Tlsn.{SignedTlsnArtifact}
use vcissuer.State.{Config}
use vcissuer.Endpoint.Par.{ParRequest, par}
use vcissuer.Endpoint.Offer.{create_credential_offer, build_tlsn_offer, get_credential_offer}
use vcissuer.Endpoint.Token.{TokenRequest, token}
use vcissuer.Endpoint.Credential.{CredentialInput, credential}
use vcissuer.Flow.Advance.{Forward, forward_rules}

module _ {V : Type 0} where
  pub par-Forward :
      (config : Config V) (request : ParRequest) (clock : Option ℕ) (uuid : String)
      → Forward (par config request clock uuid)
  unfolding par
  par-Forward config request clock uuid = search forward_rules depth 40

  pub get_credential_offer-Forward :
      (config : Config V) (id : String) (clock : Option ℕ)
      → Forward (get_credential_offer config id clock)
  unfolding get_credential_offer
  get_credential_offer-Forward config id clock = search forward_rules depth 40

module _ {V : Type 0} (p : Platform V) (config : Config V) where
  pub create_credential_offer-Forward :
      (id uuid issuer_state : String) (clock : Option ℕ)
      → Forward (create_credential_offer p config id uuid issuer_state clock)
  unfolding create_credential_offer
  create_credential_offer-Forward id uuid issuer_state clock = search forward_rules depth 40

  pub build_tlsn_offer-Forward :
      (artifact : SignedTlsnArtifact V) (uuid issuer_state : String) (clock : Option ℕ)
      → Forward (build_tlsn_offer p config artifact uuid issuer_state clock)
  unfolding build_tlsn_offer
  build_tlsn_offer-Forward artifact uuid issuer_state clock = search forward_rules depth 40

  pub token-Forward :
      (dpop : Option String) (request : TokenRequest) (clock : Option ℕ) (w : String)
      → Forward (token p config dpop request clock w)
  unfolding token
  token-Forward dpop request clock w = search forward_rules depth 40

  pub credential-Forward : (input : CredentialInput) → Forward (credential p config input)
  unfolding credential
  credential-Forward input = search forward_rules depth 40
