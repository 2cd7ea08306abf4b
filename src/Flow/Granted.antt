-- ===== src/Flow/Granted.antt =====
-- Where scopes and evidence come from: what every reachable state holds.
pub mod Tables
pub mod Reached
pub mod Issuance
use Prim.Native.String.{String}
use text.Mathlib.Text.{◌==◌}
use vcissuer.Prelude.{
  ℕ, ◌≡◌, refl, Bool, true, false, not, Option, none, some, Option-cases, Bool-cases, inl, inr,
  List, arith, if◌then◌else◌,
}
use vcissuer.Oauth.{OauthError, Result, ok, err, Result-cases}
use vcissuer.Platform.{Platform}
use vcissuer.Profile.{valid_scope}
use vcissuer.Proof.Dpop.{VerifiedDpop, verify_dpop}
use vcissuer.Proof.Jws.{unix_time}
use vcissuer.Table.{
  Table, lookup, insert, remove, add, find_value, Values, Values-lookup, Values-insert,
  Values-remove, Values-find_value,
}
use vcissuer.Tlsn.{
  SignedTlsnArtifact, VerifiedTlsnEvidence, verify_tlsn_artifact, reserve_tlsn_session,
}
use vcissuer.State.{
  PushedAuthorization, AuthorizationCode, AccessToken, CredentialOffer, VolatileState, initial,
  Config, Handler, continue, ◌>>=◌, change, use_dpop_jti, use_binding_jti,
}
use vcissuer.Endpoint.Par.{ParRequest, request_uri_of, offered_evidence, par}
use vcissuer.Endpoint.Offer.{
  create_credential_offer, build_tlsn_offer, get_credential_offer, reserve,
}
use vcissuer.Endpoint.Authorize.{AuthorizationRequest, issued_code, authorize}
use vcissuer.Endpoint.Token.{TokenRequest, token, nonce}
use vcissuer.Endpoint.Credential.{CredentialInput, credential}
use vcissuer.Flow.{
  Call, to_par, to_create_offer, to_tlsn_offer, to_get_offer, to_authorize, to_token, to_nonce,
  to_credential, step, Fresh, Reach, start, next,
}

module _ {V : Type 0} (p : Platform V) (config : Config V) where
  open p use {url_join}

  -- Evidence that is there was once verified against the configured keys of the notary.
  abbrev pub Genuine : Option (VerifiedTlsnEvidence V) → Type 0
  Genuine none = Unit
  Genuine (some v) =
      (artifact : SignedTlsnArtifact V) × (now : ℕ) × (verify_tlsn_artifact p artifact
          config.trusted_notary_key config.trusted_notary_pq_key now
        ≡ ok v)

  abbrev pub Granted : String → Option (VerifiedTlsnEvidence V) → Type 0
  Granted scope evidence = (valid_scope scope config.hybrid_pq_enabled ≡ true) × Genuine evidence

  pub record WellFormed (s : VolatileState V) : Type 0 where
    pub pushed : Values (λ a. Granted a.scope a.tlsn_evidence) s.pushed
    pub codes : Values (λ c. Granted c.scope c.tlsn_evidence) s.codes
    pub tokens : Values (λ t. Granted t.scope t.tlsn_evidence) s.tokens
    pub offers : Values (λ o. Genuine o.tlsn_evidence) s.offers

  pub initial-WellFormed : WellFormed initial
  unfolding initial
  initial-WellFormed = record { pushed = tt; codes = tt; tokens = tt; offers = tt }

  pub record Keeps {A : Type 0} (m : Handler V A) : Type 0 where
    pub at : (s : VolatileState V) → WellFormed s → WellFormed (m s).1

  module _ {A : Type 0} where
    Keeps-read : (f : VolatileState V → Result A) → Keeps {A = A} (λ s. (f s, s))
    Keeps-read f = record { at = λ s w. w }

    Keeps-if : (b : Bool) (m n : Handler V A) → Keeps m → Keeps n → Keeps (if b then m else n)
    Keeps-if true m n h k = h
    Keeps-if false m n h k = k

    module _ {B : Type 0} where
      continue-WellFormed :
          (r : Result A × VolatileState V) (f : A → Handler V B)
          → WellFormed r.1
          → ((a : A) → Keeps (f a))
          → WellFormed (continue r f).1
      continue-WellFormed (ok a, t) f h k = (k a).at t h
      continue-WellFormed (err e, t) f h k = h

      Keeps-bind :
          (m : Handler V A) (f : A → Handler V B)
          → Keeps m
          → ((a : A) → Keeps (f a))
          → Keeps (m >>= f)
      Keeps-bind m f h k = record { at = λ s w. continue-WellFormed (m s) f (h.at s w) k }

  pub Keeps-use_dpop_jti : (jti : String) (e : OauthError) → Keeps (use_dpop_jti jti e)
  unfolding use_dpop_jti
  Keeps-use_dpop_jti jti e = record {
    at = λ s w. record {
      pushed = ground (arith, w.pushed);
      codes = ground (arith, w.codes);
      tokens = ground (arith, w.tokens);
      offers = ground (arith, w.offers);
    };
  }

  Keeps-use_binding_jti : (jti : String) (e : OauthError) → Keeps (use_binding_jti jti e)
  unfolding use_binding_jti
  Keeps-use_binding_jti jti e = record {
    at = λ s w. record {
      pushed = ground (arith, w.pushed);
      codes = ground (arith, w.codes);
      tokens = ground (arith, w.tokens);
      offers = ground (arith, w.offers);
    };
  }

  Keeps-use_nonce :
      (n : String) (used : Bool) → Keeps (change λ s. record s { nonces = insert n used s.nonces })
  Keeps-use_nonce n used = record {
    at = λ s w. record { pushed = w.pushed; codes = w.codes; tokens = w.tokens; offers = w.offers };
  }

  ruleset keep_rules =
      (Keeps-read, Keeps-bind, Keeps-if, Keeps-use_dpop_jti, Keeps-use_binding_jti, Keeps-use_nonce)

  pub credential-Keeps : (input : CredentialInput) → Keeps (credential p config input)
  unfolding credential
  credential-Keeps input = search keep_rules depth 40

  pub get_credential_offer-Keeps :
      (id : String) (clock : Option ℕ) → Keeps (get_credential_offer config id clock)
  unfolding get_credential_offer
  get_credential_offer-Keeps id clock = search keep_rules depth 40
