-- ===== src/Proof/Pid/Sound.antt =====
-- What the binding of a presented PID to a new holder key has shown.
use Prim.Native.String.{String, len}
use text.Mathlib.Text.{◌==◌}
use text.Mathlib.TextEquality.{eq_iff}
use vcissuer.Prelude.{
  ℕ, ◌≤◌, ◌+◌, ◌-◌, ◌≡◌, refl, not, ◌||◌, none, some, true, arith, ltb, saturating_add, and_then,
}
use vcissuer.Text.{is_empty, split, trim_end_slashes}
use vcissuer.Oauth.{ok, some_then, pass_then, >>=-eq-ok}
use vcissuer.Platform.{Platform, EcJwk, BindingProofClaims}
use vcissuer.Profile.{pid_vct}
use vcissuer.Proof.Jws.{verify_jws_payload, verifying_key_and_jwk}
use vcissuer.Proof.Credential.Sound.{KeyRead, verifying_key_and_jwk-KeyRead}
use vcissuer.Proof.Emrtd.Sound.{JwsSigned, verify_jws_payload-JwsSigned}
use vcissuer.Proof.Pid.{
  PidBindingObject, VerifiedPidBinding, is_text, last_is, all_but_last, presented_parts,
  text_digest, text_values, read_disclosures, not_begun, has_ended, issued_by, verify_pid_binding,
}
use vcissuer.Proof.Pid.Person.{
  text_is, InForce, payload-InForce, Identified, disclosures-Identified,
}

module _ {V : Type 0} (p : Platform V) where
  open p use {
    VerifyingKey, ec_jwk_from_value, binding_claims_from_value, get, pointer, as_str, as_u64,
    as_array,
  }

  -- A key of the platform that a JWK names.
  abbrev pub Names : EcJwk → VerifyingKey → Type 0
  Names jwk key = (jkt : String) × (value : V) × KeyRead p jwk key jkt value

  pub record PidShown (binding : PidBindingObject) (trusted : V) (issuer nonce jkt : String)
      (now : ℕ) (b : VerifiedPidBinding) : Type 0 where
    pub issuer_jwt : String
    pub issuer_jwk : EcJwk
    pub issuer_key : VerifyingKey
    pub payload : V
    pub presented : (presented_parts (split b'~' binding.pid_vp)).0 ≡ issuer_jwt
    pub trusted_read : ec_jwk_from_value trusted ≡ some issuer_jwk
    pub trusted_key : Names issuer_jwk issuer_key
    pub pid_signed : JwsSigned p issuer_jwt issuer_key payload
    pub pid_type : and_then (get payload "vct") as_str ≡ some pid_vct
    pub holder_jwk : EcJwk
    pub holder_value : V
    pub holder_key : VerifyingKey
    pub holder_named : pointer payload "/cnf/jwk" ≡ some holder_value
    pub holder_read : ec_jwk_from_value holder_value ≡ some holder_jwk
    pub holder_point : Names holder_jwk holder_key
    pub proof_payload : V
    pub proof_signed : JwsSigned p binding.proof_jwt holder_key proof_payload
    pub claims : BindingProofClaims
    pub claims_read : binding_claims_from_value proof_payload ≡ some claims
    pub audience : trim_end_slashes claims.aud ≡ trim_end_slashes issuer
    pub for_nonce : claims.nonce ≡ nonce
    pub for_holder : claims.new_holder_jkt ≡ jkt
    pub for_pid : claims.pid_sd_hash ≡ text_digest p issuer_jwt
    pub not_old : now ≤ claims.iat + 300
    pub not_early : claims.iat ≤ now + 5
    pub jti : b.jti ≡ claims.jti
    pub ends : last_is binding.proof_jwt (presented_parts (split b'~' binding.pid_vp)).1 ≡ true
    pub in_force : InForce p payload issuer now
    pub person :
        Identified p payload
          (all_but_last (presented_parts (split b'~' binding.pid_vp)).1)
          b.subject

  -- A PID binding that verifies presents a credential of the PID type, signed with the configured PID
  -- issuer's key, by this issuer and in force now, with disclosures to each of which the credential
  -- has committed and which name the person of the education record; and it ends in a proof signed with
  -- the key that this credential names as its holder's. The proof is for this issuer, nonce, new holder
  -- key and credential, issued at most 300 seconds ago and at most 5 seconds ahead. What is returned is
  -- the identifier of the proof and the subject of the person's names and birth date.
  pub verify_pid_binding-PidShown :
      (binding : PidBindingObject) (trusted : V) (issuer nonce jkt : String) (now : ℕ)
      (b : VerifiedPidBinding)
      → verify_pid_binding p binding trusted issuer nonce jkt now ≡ ok b
      → PidShown binding trusted issuer nonce jkt now b
  unfolding verify_pid_binding
  verify_pid_binding-PidShown binding trusted issuer nonce jkt now b h =
      let presented = presented_parts (split b'~' binding.pid_vp) in
      pass_then (ltb 32768 (len binding.pid_vp) || ltb 8192 (len binding.proof_jwt)) _ _ h
        λ small h1.
          pass_then (is_empty presented.0 || not (last_is binding.proof_jwt presented.1)) _ _ h1
            λ ends h2. some_then (ec_jwk_from_value trusted) _ _ h2 λ issuer_jwk ir h3.
              let ((issuer_key, it, iv), ik, h4) =
                >>=-eq-ok (verifying_key_and_jwk p issuer_jwk "invalid_proof") _ h3 in
              let (payload, ps, h5) =
                >>=-eq-ok (verify_jws_payload p presented.0 issuer_key "PID credential") _ h4 in
              pass_then (not (is_text (and_then (get payload "vct") as_str) pid_vct)) _ _ h5
                λ vct h6.
                  pass_then
                    (not (issued_by p (and_then (get payload "iss") as_str) issuer)
                      || not_begun p (and_then (get payload "nbf") as_u64) now
                      || has_ended p (and_then (get payload "exp") as_u64) now)
                    _ _ h6
                    λ valid h7.
                      some_then (and_then (get payload "_sd") as_array) _ _ h7 λ digests sd h8.
                        some_then (pointer payload "/cnf/jwk") _ _ h8 λ holder_value hv h9.
                          some_then (ec_jwk_from_value holder_value) _ _ h9 λ holder_jwk hr h10.
                            let ((holder_key, ht, hw), hk, h11) =
                              >>=-eq-ok (verifying_key_and_jwk p holder_jwk "invalid_proof") _
                                h10 in
                            let (proof_payload, qs, h12) =
                              >>=-eq-ok
                                (verify_jws_payload p binding.proof_jwt holder_key
                                  "PID binding proof")
                                _ h11 in
                            some_then (binding_claims_from_value proof_payload) _ _ h12
                              λ claims cr h13.
                                pass_then
                                  (not (trim_end_slashes claims.aud == trim_end_slashes issuer)
                                    || not (claims.nonce == nonce)
                                    || not (claims.new_holder_jkt == jkt)
                                    || not (claims.pid_sd_hash == text_digest p presented.0)
                                    || is_empty claims.jti
                                    || ltb 256 (len claims.jti)
                                    || ltb (saturating_add now 5) claims.iat
                                    || ltb 300 (now - claims.iat))
                                  _ _ h13
                                  λ bound h14.
                                    let (disclosed, dr, h15) =
                                      >>=-eq-ok
                                        (read_disclosures p (text_values p digests)
                                          (all_but_last presented.1)
                                          (record {
                                            family_name = none;
                                            given_name = none;
                                            birthdate = none;
                                          }))
                                        _ h14 in
                                    pass_then
                                      (not (is_text disclosed.family_name "Mustermann")
                                        || not (is_text disclosed.given_name "Erika")
                                        || not (is_text disclosed.birthdate "1990-01-01"))
                                      _ _ h15
                                      λ subject h16. record {
                                        issuer_jwt = presented.0;
                                        issuer_jwk = issuer_jwk;
                                        issuer_key = issuer_key;
                                        payload = payload;
                                        presented = refl;
                                        trusted_read = ir;
                                        trusted_key = (
                                          it,
                                          iv,
                                          verifying_key_and_jwk-KeyRead p issuer_jwk "invalid_proof"
                                              issuer_key it iv ik,
                                        );
                                        pid_signed =
                                            verify_jws_payload-JwsSigned p presented.0 issuer_key
                                              "PID credential" payload ps;
                                        pid_type =
                                            text_is (and_then (get payload "vct") as_str) pid_vct
                                              (ground arith);
                                        holder_jwk = holder_jwk;
                                        holder_value = holder_value;
                                        holder_key = holder_key;
                                        holder_named = hv;
                                        holder_read = hr;
                                        holder_point = (
                                          ht,
                                          hw,
                                          verifying_key_and_jwk-KeyRead p holder_jwk "invalid_proof"
                                              holder_key ht hw hk,
                                        );
                                        proof_payload = proof_payload;
                                        proof_signed =
                                            verify_jws_payload-JwsSigned p binding.proof_jwt
                                              holder_key "PID binding proof" proof_payload qs;
                                        claims = claims;
                                        claims_read = cr;
                                        audience = ground (
                                          arith,
                                          eq_iff (trim_end_slashes claims.aud)
                                              (trim_end_slashes issuer),
                                        );
                                        for_nonce = ground (arith, eq_iff claims.nonce nonce);
                                        for_holder =
                                            ground (arith, eq_iff claims.new_holder_jkt jkt);
                                        for_pid = ground (
                                          arith,
                                          eq_iff claims.pid_sd_hash (text_digest p presented.0),
                                        );
                                        not_old = ground arith;
                                        not_early = ground arith;
                                        jti = cc;
                                        ends = ground arith;
                                        in_force = payload-InForce p payload issuer now valid;
                                        person =
                                            disclosures-Identified p payload
                                              (all_but_last presented.1) digests disclosed b.subject
                                              sd dr subject cc;
                                      }
