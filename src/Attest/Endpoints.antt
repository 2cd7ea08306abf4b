-- ===== src/Attest/Endpoints.antt =====
-- rust/issuer-service/src/main.rs: the App Attest endpoints, and the gate that a protected call passes.
-- The file that the instances are saved to is not modelled: the table in memory is what is read.
use Prim.Native.String.{String}
use vcissuer.Prelude.{
  ℕ, Bool, false, Option, none, some, List, length, ltb, is_none, if◌then◌else◌, saturating_add,
}
use vcissuer.Text.{as_bytes}
use vcissuer.Oauth.{OauthError, oauth_error, Result, ok, err, deny_if, ok_or}
use vcissuer.Outcome.{Outcome}
use vcissuer.Platform.{Platform}
use vcissuer.Proof.Jws.{unix_time}
use vcissuer.Table.{insert, lookup, remove, retain}
use vcissuer.State.{
  RegisteredInstance, VolatileState, Handler, ◌>>=◌, ◌>>◌, lift, pure, change, read,
}
use vcissuer.Hybrid.Cbor.{Cbor}
use vcissuer.Attest.{AppAttestConfig, Certificates}
use vcissuer.Attest.Verify.{verify_attestation, verify_assertion}

abbrev pub max_app_attest_bytes : ℕ
max_app_attest_bytes = 8192

pub record AppAttestChallengeResponse : Type 0 where
  pub challenge : String
  pub expires_in : ℕ

pub record AppAttestRegisterRequest : Type 0 where
  pub key_id : String
  pub attestation : String
  pub challenge : String

pub record AppAttestAssertRequest : Type 0 where
  pub key_id : String
  pub assertion : String
  pub client_data : String

-- `map_err`, which forgets the reason.
abbrev pub rejected : {A : Type 0} → Outcome String A → OauthError → Result A
rejected (Outcome.ok a) e = ok a
rejected (Outcome.err reason) e = err e

unfoldable pub not_enabled : OauthError
not_enabled = oauth_error 501 "not_enabled" "App Attest is not configured on this issuer"

unfoldable pub bad_request : String → OauthError
bad_request what = oauth_error 400 "invalid_request" what

unfoldable pub assertion_required : OauthError
assertion_required =
    oauth_error 401 "app_attest_required" "this request requires an App Attest assertion"

abbrev pub unknown_instance : OauthError
unknown_instance = oauth_error 401 "unknown_instance" "App Attest instance is not registered"

abbrev pub invalid_assertion : OauthError
invalid_assertion = oauth_error 401 "invalid_assertion" "App Attest assertion was rejected"

-- A challenge that was issued and has not expired.
abbrev pub is_live : Option ℕ → ℕ → Bool
is_live none now = false
is_live (some exp) now = ltb now exp

module _ {V : Type 0} where
  -- The clock and the random challenge are arguments.
  unfoldable pub app_attest_challenge :
      Option AppAttestConfig → Option ℕ → String → Handler V AppAttestChallengeResponse
  unfolding not_enabled
  app_attest_challenge config clock challenge = do
    lift (deny_if (is_none config) not_enabled)
    now ← lift (unix_time clock)
    change λ s. record s {
      app_attest_challenges =
          insert challenge (saturating_add now 300)
            (retain (λ exp. ltb now exp) s.app_attest_challenges);
    }
    pure (record { challenge = challenge; expires_in = 300 })

  -- The challenge is taken away, also where it has expired.
  unfoldable pub take_challenge : String → ℕ → Handler V (Unit {0})
  unfolding bad_request
  take_challenge challenge now s = (
    if is_live (lookup challenge s.app_attest_challenges) now
        then ok tt
        else err (bad_request "unknown or expired App Attest challenge"),
    record s { app_attest_challenges = remove challenge s.app_attest_challenges },
  )

module _ {V : Type 0} (p : Platform V) (x : Certificates p) (c : Cbor) where
  unfoldable pub app_attest_register :
      Option AppAttestConfig → AppAttestRegisterRequest → Option ℕ → Handler V (Unit {0})
  unfolding not_enabled bad_request
  app_attest_register config request clock = do
    settings ← lift (ok_or config not_enabled)
    now ← lift (unix_time clock)
    take_challenge request.challenge now
    key_id ← lift (ok_or (x.base64_decode request.key_id) (bad_request "keyId is not base64"))
    attestation ←
        lift (ok_or (x.base64_decode request.attestation) (bad_request "attestation is not base64"))
    lift (
        deny_if (ltb max_app_attest_bytes (length attestation))
          (oauth_error 413 "invalid_request" "attestation exceeds the accepted size"))
    (app_id, public_key) ← lift (
        rejected
          (verify_attestation p x c attestation (as_bytes request.challenge) key_id settings now)
          (oauth_error 400 "invalid_attestation" "App Attest attestation was rejected"))
    change λ s. record s {
      app_attest_instances =
          insert request.key_id
            (record { app_id = app_id; public_key = public_key; sign_count = 0 })
            s.app_attest_instances;
    }

  -- The counter of an instance that is there.
  unfoldable pub count_up : String → ℕ → VolatileState V → VolatileState V
  count_up key_id new_count s = elim (lookup key_id s.app_attest_instances) [
    | none ↦ s
    | some entry ↦ record s {
      app_attest_instances =
          insert key_id (record entry { sign_count = new_count }) s.app_attest_instances;
    }
  ]

  -- The assertion is of the instance that was found, whose counter goes up.
  unfoldable pub count_assertion :
      String → List ℕ → List ℕ → RegisteredInstance → Handler V (Unit {0})
  count_assertion key_id assertion client_data found = do
    new_count ←
        lift (rejected (verify_assertion p x c assertion client_data found) invalid_assertion)
    change (count_up key_id new_count)

  unfoldable pub verify_app_attest_assertion : String → List ℕ → List ℕ → Handler V (Unit {0})
  unfolding count_up count_assertion
  verify_app_attest_assertion key_id assertion client_data = do
    instances ← read (λ s. s.app_attest_instances)
    found ← lift (ok_or (lookup key_id instances) unknown_instance)
    count_assertion key_id assertion client_data found

  unfoldable pub app_attest_assert :
      Option AppAttestConfig → AppAttestAssertRequest → Handler V (Unit {0})
  unfolding not_enabled bad_request
  app_attest_assert config request = do
    lift (deny_if (is_none config) not_enabled)
    assertion ←
        lift (ok_or (x.base64_decode request.assertion) (bad_request "assertion is not base64"))
    client_data ←
        lift (ok_or (x.base64_decode request.client_data) (bad_request "client_data is not base64"))
    verify_app_attest_assertion request.key_id assertion client_data

  -- The two headers, and the exact bytes of the body.
  unfoldable pub enforce_app_attest :
      Option AppAttestConfig → Option String → Option String → List ℕ → Handler V (Unit {0})
  unfolding bad_request assertion_required
  enforce_app_attest none key_header assertion_header body = pure tt
  enforce_app_attest (some config) key_header assertion_header body = do
    key_id ← lift (ok_or key_header assertion_required)
    assertion_b64 ← lift (ok_or assertion_header assertion_required)
    assertion ←
        lift (
          ok_or (x.base64_decode assertion_b64)
            (bad_request "x-app-attest-assertion is not base64"))
    verify_app_attest_assertion key_id assertion body
