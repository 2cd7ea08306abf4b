-- ===== src/Proof/Credential/Sound.antt =====
-- What a credential proof that verifies has shown.
use Prim.Native.String.{String, len}
use text.Mathlib.Text.{◌==◌}
use text.Mathlib.TextEquality.{eq_iff}
use vcissuer.Prelude.{
  ℕ, ◌≤◌, ◌+◌, ◌-◌, ◌≡◌, ◌≢◌, not, ◌||◌, List, Option, some, true, false, arith, length, ltb,
  saturating_add, ◌==◌ as nat_eq, ==_iff,
}
use vcissuer.Text.{is_empty, trim_end_slashes}
use vcissuer.Oauth.{ok, some_then, pass_then, >>=-eq-ok}
use vcissuer.Platform.{Platform, DpopHeader, EcJwk, CredentialProofClaims}
use vcissuer.Proof.Jws.{compact_parts, signing_input, thumbprint, verifying_key_and_jwk, unix_time}
use vcissuer.Proof.Credential.{VerifiedCredentialProof, verify_credential_proof}

module _ {V : Type 0} (p : Platform V) where
  open p use {
    VerifyingKey, Signature, base64url_decode, dpop_header_from_slice, key_from_coordinates,
    signature_from_slice, verify, proof_claims_from_slice, ec_jwk_value,
  }

  -- A P-256 key is the point of its coordinates, and comes with its thumbprint and its canonical value.
  pub record KeyRead (jwk : EcJwk) (key : VerifyingKey) (jkt : String) (value : V) : Type 0 where
    pub curve : (jwk.kty ≡ "EC") × (jwk.crv ≡ "P-256")
    pub point :
        (x : List ℕ) × (y : List ℕ) × (base64url_decode jwk.x ≡ some x)
        × (base64url_decode jwk.y ≡ some y)
        × (length x ≡ 32)
        × (length y ≡ 32)
        × (key_from_coordinates x y ≡ some key)
    pub thumb : jkt ≡ thumbprint p jwk
    pub canonical : value ≡ ec_jwk_value jwk.x jwk.y

  pub verifying_key_and_jwk-KeyRead :
      (jwk : EcJwk) (code : String) (key : VerifyingKey) (jkt : String) (value : V)
      → verifying_key_and_jwk p jwk code ≡ ok (key, jkt, value)
      → KeyRead jwk key jkt value
  unfolding verifying_key_and_jwk
  verifying_key_and_jwk-KeyRead jwk code key jkt value h =
      pass_then (not (jwk.kty == "EC") || not (jwk.crv == "P-256")) _ _ h λ curve h1.
        some_then (base64url_decode jwk.x) _ _ h1 λ x xd h2.
          some_then (base64url_decode jwk.y) _ _ h2 λ y yd h3.
            pass_then (not (nat_eq (length x) 32) || not (nat_eq (length y) 32)) _ _ h3
              λ lengths h4. some_then (key_from_coordinates x y) _ _ h4 λ k kd h5.
                let same : k ≡ key = cc in
                record {
                  curve =
                      (ground (arith, eq_iff jwk.kty "EC"), ground (arith, eq_iff jwk.crv "P-256"));
                  point = (
                    x,
                    y,
                    xd,
                    yd,
                    ground (arith, ==_iff (length x) 32),
                    ground (arith, ==_iff (length y) 32),
                    rw (← same) kd,
                  );
                  thumb = cc;
                  canonical = cc;
                }

  pub record ProofShown (proof issuer : String) (now : ℕ) (k : VerifiedCredentialProof V)
      : Type 0 where
    pub parts : String × String × String
    pub split : compact_parts proof ≡ some parts
    pub header : DpopHeader
    pub claims : CredentialProofClaims
    pub key : VerifyingKey
    pub signature : Signature
    pub header_read :
        (b : List ℕ) × (base64url_decode parts.0 ≡ some b)
        × (dpop_header_from_slice b ≡ some header)
    pub claims_read :
        (b : List ℕ) × (base64url_decode parts.1 ≡ some b)
        × (proof_claims_from_slice b ≡ some claims)
    pub signature_read :
        (b : List ℕ) × (base64url_decode parts.2 ≡ some b)
        × (signature_from_slice b ≡ some signature)
    pub typ : header.typ ≡ "openid4vci-proof+jwt"
    pub alg : header.alg ≡ "ES256"
    pub own_key : KeyRead header.jwk key k.holder_jkt k.holder_jwk
    pub signed : verify key (signing_input parts.0 parts.1) signature ≡ true
    pub audience : trim_end_slashes claims.aud ≡ trim_end_slashes issuer
    pub not_old : now ≤ claims.iat + 300
    pub not_early : claims.iat ≤ now + 5
    pub nonce : k.nonce ≡ claims.nonce
    pub nonce_bounds : (k.nonce ≢ "") × (len k.nonce ≤ 256)

  nonce_ok :
      (c n : String) → (is_empty c || ltb 256 (len c)) ≡ false → n ≡ c → (n ≢ "") × (len n ≤ 256)
  unfolding is_empty
  nonce_ok c n h e = rw e (λ z. ground (arith, eq_iff c ""), ground arith)

  -- A credential proof that verifies is a compact JWS of type openid4vci-proof+jwt, signed with ES256
  -- by the P-256 key that it carries, for this issuer, issued at most 300 seconds ago and at most 5
  -- seconds ahead; the thumbprint and value of that key and the nonce, which is not empty, are what is
  -- returned.
  pub verify_credential_proof-ProofShown :
      (proof issuer : String) (clock : Option ℕ) (k : VerifiedCredentialProof V)
      → verify_credential_proof p proof issuer clock ≡ ok k
      → (now : ℕ) × (clock ≡ some now) × ProofShown proof issuer now k
  unfolding verify_credential_proof unix_time
  verify_credential_proof-ProofShown proof issuer clock k h =
      some_then (compact_parts proof) _ _ h λ parts split h1.
        some_then (base64url_decode parts.0) _ _ h1 λ hb hd h2.
          some_then (dpop_header_from_slice hb) _ _ h2 λ header hp h3.
            pass_then (not (header.alg == "ES256") || not (header.typ == "openid4vci-proof+jwt")) _
              _ h3
              λ typ h4.
                let ((key, jkt, jwk), kr, h5) =
                  >>=-eq-ok (verifying_key_and_jwk p header.jwk "invalid_proof") _ h4 in
                some_then (base64url_decode parts.2) _ _ h5 λ sb sd h6.
                  some_then (signature_from_slice sb) _ _ h6 λ signature sp h7.
                    pass_then (not (verify key (signing_input parts.0 parts.1) signature)) _ _ h7
                      λ signed h8. some_then (base64url_decode parts.1) _ _ h8 λ cb cd h9.
                        some_then (proof_claims_from_slice cb) _ _ h9 λ claims cp h10.
                          pass_then (not (trim_end_slashes claims.aud == trim_end_slashes issuer)) _
                            _ h10
                            λ audience h11. some_then clock _ _ h11 λ now time h12.
                              pass_then
                                (ltb (saturating_add now 5) claims.iat
                                  || ltb 300 (now - claims.iat))
                                _ _ h12
                                λ fresh h13.
                                  pass_then (is_empty claims.nonce || ltb 256 (len claims.nonce)) _
                                    _ h13
                                    λ there h14.
                                      let jkt_same : k.holder_jkt ≡ jkt = cc in
                                      let jwk_same : k.holder_jwk ≡ jwk = cc in
                                      (
                                        now,
                                        time,
                                        record {
                                          parts = parts;
                                          split = split;
                                          header = header;
                                          claims = claims;
                                          key = key;
                                          signature = signature;
                                          header_read = (hb, hd, hp);
                                          claims_read = (cb, cd, cp);
                                          signature_read = (sb, sd, sp);
                                          typ =
                                              ground
                                                (arith, eq_iff header.typ "openid4vci-proof+jwt");
                                          alg = ground (arith, eq_iff header.alg "ES256");
                                          own_key =
                                              rw (jkt_same, jwk_same)
                                                (verifying_key_and_jwk-KeyRead header.jwk
                                                  "invalid_proof" key jkt jwk kr);
                                          signed = ground arith;
                                          audience = ground (
                                            arith,
                                            eq_iff (trim_end_slashes claims.aud)
                                                (trim_end_slashes issuer),
                                          );
                                          not_old = ground arith;
                                          not_early = ground arith;
                                          nonce = cc;
                                          nonce_bounds = nonce_ok claims.nonce k.nonce there cc;
                                        },
                                      )
