-- ===== src/Attest/Registered.antt =====
-- What the registration of an app instance rests on.
use Prim.Native.String.{String}
use vcissuer.Prelude.{
  ℕ, ◌≡◌, refl, sym, ap, ◌≤◌, ◌<◌, Bool, true, false, Option, none, some, List, length, ltb, arith,
  if◌then◌else◌,
}
use vcissuer.Text.{as_bytes}
use vcissuer.Oauth.{OauthError, ok, err, ok_or, deny_if, ok_or-eq-ok, deny_if-eq-ok}
use vcissuer.Platform.{Platform}
use vcissuer.Proof.Jws.{unix_time}
use vcissuer.Table.{lookup, insert, remove}
use vcissuer.State.{VolatileState, Handler, lift_then, continue}
use vcissuer.Hybrid.Cbor.{Cbor}
use vcissuer.Attest.{AppAttestConfig, Certificates}
use vcissuer.Attest.Verify.{verify_attestation}
use vcissuer.Attest.Sound.{AttestationProven, verify_attestation-AttestationProven}
use vcissuer.Attest.Endpoints.{
  AppAttestRegisterRequest, rejected, is_live, take_challenge, app_attest_register,
  max_app_attest_bytes,
}
use vcissuer.Attest.Counts.{accepted_of}

module _ {V : Type 0} (p : Platform V) (x : Certificates p) (c : Cbor) where
  pub record Registered (config : Option AppAttestConfig) (request : AppAttestRegisterRequest)
      (clock : Option ℕ) (s t : VolatileState V) : Type 0 where
    pub settings : AppAttestConfig
    pub enabled : config ≡ some settings
    pub now : ℕ
    pub time : unix_time clock ≡ ok now
    pub expires : ℕ
    pub issued : lookup request.challenge s.app_attest_challenges ≡ some expires
    pub live : now < expires
    pub key_id : List ℕ
    pub key_id_decodes : x.base64_decode request.key_id ≡ some key_id
    pub attestation : List ℕ
    pub attestation_decodes : x.base64_decode request.attestation ≡ some attestation
    pub bounded : length attestation ≤ max_app_attest_bytes
    pub app_id : String
    pub public_key : List ℕ
    pub proven :
        AttestationProven p x c attestation
          (as_bytes request.challenge)
          key_id
          settings
          now
          app_id
          public_key
    pub leaves : t ≡ record s {
      app_attest_challenges = remove request.challenge s.app_attest_challenges;
      app_attest_instances =
          insert request.key_id
            (record { app_id = app_id; public_key = public_key; sign_count = 0 })
            s.app_attest_instances;
    }

  pass_if :
      {A : Type 0} {G : Type 0} (test : Bool) (e : OauthError) (s : VolatileState V)
      (k : Handler V A) {a : A} {t : VolatileState V}
      → continue (if test then ok tt else err e, s) (λ _. k) ≡ (ok a, t)
      → (test ≡ true → k s ≡ (ok a, t) → G)
      → G
  pass_if true e s k h g = g refl h
  pass_if false e s k h g = absurd cc

  live_then :
      {G : Type 0} (found : Option ℕ) (now : ℕ)
      → is_live found now ≡ true
      → ((expires : ℕ) → found ≡ some expires → now < expires → G)
      → G
  live_then none now h g = absurd cc
  live_then (some expires) now h g = g expires refl (ground arith)

  -- An app instance is registered only where App Attest is configured, with a challenge that was issued
  -- and has not expired, and with an attestation of bounded size that proves the key for that very
  -- challenge. The challenge is used up, and the instance begins with a counter of zero.
  pub app_attest_register-Registered :
      (config : Option AppAttestConfig) (request : AppAttestRegisterRequest) (clock : Option ℕ)
      (s t : VolatileState V)
      → app_attest_register p x c config request clock s ≡ (ok tt, t)
      → Registered config request clock s t
  unfolding app_attest_register take_challenge
  app_attest_register-Registered config request clock s t h =
      lift_then (ok_or config _) _ s h λ settings q0 h0.
        lift_then (unix_time clock) _ s h0 λ now q1 h1.
          pass_if (is_live (lookup request.challenge s.app_attest_challenges) now) _ _ _ h1
            λ live h2.
              let s' : VolatileState V = record s {
                app_attest_challenges = remove request.challenge s.app_attest_challenges;
              } in
              live_then (lookup request.challenge s.app_attest_challenges) now live
                λ expires found soon.
                  lift_then (ok_or (x.base64_decode request.key_id) _) _ s' h2 λ key_id q3 h3.
                    lift_then (ok_or (x.base64_decode request.attestation) _) _ s' h3
                      λ attestation q4 h4.
                        lift_then (deny_if (ltb max_app_attest_bytes (length attestation)) _) _ s'
                          h4
                          λ _ q5 h5.
                            lift_then
                              (rejected
                                (verify_attestation p x c attestation (as_bytes request.challenge)
                                  key_id settings now)
                                _)
                              _ s' h5
                              λ proven q6 h6.
                                let (app_id, public_key) = proven in
                                let small = deny_if-eq-ok _ _ q5 in
                                record {
                                  settings = settings;
                                  enabled = ok_or-eq-ok _ _ q0;
                                  now = now;
                                  time = q1;
                                  expires = expires;
                                  issued = found;
                                  live = soon;
                                  key_id = key_id;
                                  key_id_decodes = ok_or-eq-ok _ _ q3;
                                  attestation = attestation;
                                  attestation_decodes = ok_or-eq-ok _ _ q4;
                                  bounded = ground arith;
                                  app_id = app_id;
                                  public_key = public_key;
                                  proven =
                                      verify_attestation-AttestationProven p x c attestation
                                        (as_bytes request.challenge) key_id settings now app_id
                                        public_key (accepted_of _ _ q6);
                                  leaves = ap (λ r. r.1) (sym h6);
                                }
