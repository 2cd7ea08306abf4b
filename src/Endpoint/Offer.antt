-- ===== src/Endpoint/Offer.antt =====
-- rust/issuer-service/src/main.rs: `create_credential_offer`, `build_tlsn_offer`,
-- `create_tlsn_evidence_offer` and `get_credential_offer`.
use Prim.Native.String.{String, ◌++◌}
use text.Mathlib.Text.{◌==◌}
use vcissuer.Prelude.{ℕ, not, ◌||◌, Option, none, some, ltb, saturating_add}
use vcissuer.Text.{has_char, trim_end_slashes}
use vcissuer.Oauth.{oauth_error, Result, deny_if, ok_or}
use vcissuer.Platform.{Platform}
use vcissuer.Profile.{tlsn_evidence_sd_jwt, valid_scope}
use vcissuer.Proof.Jws.{unix_time}
use vcissuer.Table.{insert, lookup}
use vcissuer.Tlsn.{
  SignedTlsnArtifact, tlsn_evidence_lifetime_seconds, verify_tlsn_artifact, reserve_tlsn_session,
}
use vcissuer.State.{
  CredentialOffer, VolatileState, Config, Handler, ◌>>=◌, ◌>>◌, pure, lift, change,
}

pub record CreateOfferResponse : Type 0 where
  pub credential_offer_uri : String
  pub deep_link : String
  pub expires_in : ℕ

-- The JSON that a wallet fetches.
pub record OfferDocument : Type 0 where
  pub credential_issuer : String
  pub credential_configuration_id : String
  pub issuer_state : String

module _ {V : Type 0} where
  unfoldable pub reserve : String → Handler V (Unit {0})
  reserve session_id s =
      let (r, sessions) = reserve_tlsn_session s.tlsn_sessions session_id in
      (r, record s { tlsn_sessions = sessions })

module _ {V : Type 0} (p : Platform V) where
  open p use {url_join, url_append_pair}

  abbrev offer_response : Config V → String → ℕ → CreateOfferResponse
  offer_response config id expires_in =
      let credential_offer_uri = url_join config.issuer ("credential-offer/" ++ id) in
      record {
        credential_offer_uri = credential_offer_uri;
        deep_link =
            url_append_pair "openid-credential-offer://" "credential_offer_uri"
              credential_offer_uri;
        expires_in = expires_in;
      }

  -- The configuration asked for, a new UUID, a new random token and the clock.
  unfoldable pub create_credential_offer :
      Config V → String → String → String → Option ℕ → Handler V CreateOfferResponse
  create_credential_offer config configuration_id uuid issuer_state clock = do
    lift (
        deny_if (configuration_id == tlsn_evidence_sd_jwt)
          (oauth_error 400 "invalid_request" "TLSNotary evidence offers require verified evidence"))
    lift (
        deny_if
          (not (valid_scope configuration_id config.hybrid_pq_enabled)
            || has_char b' ' configuration_id)
          (oauth_error 400 "invalid_request" "credential configuration is unknown"))
    now ← lift (unix_time clock)
    change λ s. record s {
      offers =
          insert uuid
            (record {
              profile = configuration_id;
              issuer_state = issuer_state;
              expires_at = saturating_add now 300;
              tlsn_evidence = none;
            })
            s.offers;
    }
    pure (offer_response config uuid 300)

  -- `create_tlsn_evidence_offer` is this with the artifact of its request.
  unfoldable pub build_tlsn_offer :
      Config V → SignedTlsnArtifact V → String → String → Option ℕ → Handler V CreateOfferResponse
  build_tlsn_offer config artifact uuid issuer_state clock = do
    now ← lift (unix_time clock)
    evidence ←
        lift (
          verify_tlsn_artifact p artifact config.trusted_notary_key config.trusted_notary_pq_key
            now)
    reserve evidence.session_id
    change λ s. record s {
      offers =
          insert uuid
            (record {
              profile = tlsn_evidence_sd_jwt;
              issuer_state = issuer_state;
              expires_at = saturating_add now tlsn_evidence_lifetime_seconds;
              tlsn_evidence = some evidence;
            })
            s.offers;
    }
    pure (offer_response config uuid tlsn_evidence_lifetime_seconds)

module _ {V : Type 0} where
  found_offer : Config V → String → ℕ → VolatileState V → Result (CredentialOffer V)
  found_offer config id now s =
      ok_or (lookup id s.offers) (oauth_error 404 "invalid_request" "credential offer is unknown")

  unfoldable pub get_credential_offer : Config V → String → Option ℕ → Handler V OfferDocument
  unfolding found_offer
  get_credential_offer config id clock = do
    now ← lift (unix_time clock)
    offer ← λ s. (found_offer config id now s, s)
    lift (
        deny_if (ltb offer.expires_at now)
          (oauth_error 410 "invalid_request" "credential offer has expired"))
    pure (record {
      credential_issuer = trim_end_slashes config.issuer;
      credential_configuration_id = offer.profile;
      issuer_state = offer.issuer_state;
    })
