-- ===== src/Proof/Dpop/Sound.antt =====
-- What a DPoP proof that verifies has shown.
use Prim.Native.String.{String, len}
use text.Mathlib.Text.{◌==◌}
use text.Mathlib.TextEquality.{eq_iff}
use vcissuer.Prelude.{
  ℕ, ◌≤◌, ◌+◌, ◌-◌, ◌≡◌, ◌≢◌, true, false, not, ◌||◌, List, Option, some, arith, length, ltb,
  saturating_add, ◌==◌ as nat_eq,
}
use vcissuer.Text.{is_empty, trim_end_slashes}
use vcissuer.Oauth.{ok, some_then, pass_then}
use vcissuer.Platform.{Platform, DpopHeader, DpopClaims}
use vcissuer.Proof.Jws.{compact_parts, signing_input, thumbprint, unix_time}
use vcissuer.Proof.Dpop.{VerifiedDpop, verify_dpop}

module _ {V : Type 0} (p : Platform V) where
  open p use {
    VerifyingKey, Signature, base64url_decode, dpop_header_from_slice, key_from_coordinates,
    signature_from_slice, verify, dpop_claims_from_slice,
  }

  -- The part `part` decodes to bytes that `parse` reads as `value`.
  abbrev pub Decodes : {A : Type 0} → (List ℕ → Option A) → String → A → Type 0
  Decodes parse part value =
      (bytes : List ℕ) × (base64url_decode part ≡ some bytes) × (parse bytes ≡ some value)

  -- The public key whose coordinates the proof carries.
  abbrev pub KeyOf : DpopHeader → VerifyingKey → Type 0
  KeyOf header key =
      (x : List ℕ) × (y : List ℕ) × (base64url_decode header.jwk.x ≡ some x)
      × (base64url_decode header.jwk.y ≡ some y)
      × (key_from_coordinates x y ≡ some key)

  pub record DpopProven (proof method uri : String) (now : ℕ) (d : VerifiedDpop) : Type 0 where
    pub parts : String × String × String
    pub split : compact_parts proof ≡ some parts
    pub header : DpopHeader
    pub claims : DpopClaims
    pub key : VerifyingKey
    pub signature : Signature
    pub header_read : Decodes dpop_header_from_slice parts.0 header
    pub claims_read : Decodes dpop_claims_from_slice parts.1 claims
    pub signature_read : Decodes signature_from_slice parts.2 signature
    pub typ : header.typ ≡ "dpop+jwt"
    pub alg : header.alg ≡ "ES256"
    pub own_key : KeyOf header key
    pub signed : verify key (signing_input parts.0 parts.1) signature ≡ true
    pub for_method : claims.htm ≡ method
    pub for_uri : trim_end_slashes claims.htu ≡ trim_end_slashes uri
    pub not_old : now ≤ claims.iat + 60
    pub not_early : claims.iat ≤ now + 5
    pub jti_bounds : (d.jti ≢ "") × (len d.jti ≤ 256)
    pub jti : d.jti ≡ claims.jti
    pub jkt : d.jkt ≡ thumbprint p header.jwk

  not_empty : (s : String) → is_empty s ≡ false → s ≢ ""
  unfolding is_empty
  not_empty s h e = ground (arith, eq_iff s "")

  jti_ok :
      (c j : String) → (is_empty c || ltb 256 (len c)) ≡ false → j ≡ c → (j ≢ "") × (len j ≤ 256)
  jti_ok c j h e = rw e (not_empty c (ground arith), ground arith)

  -- A DPoP proof that verifies is a compact JWS of type dpop+jwt, signed with ES256 by the key that it
  -- carries, for this method and URL, issued at most 60 seconds ago and at most 5 seconds ahead; the
  -- key's thumbprint and the proof's identifier, which is not empty, are what is returned.
  pub verify_dpop-DpopProven :
      (proof method uri : String) (clock : Option ℕ) (d : VerifiedDpop)
      → verify_dpop p proof method uri clock ≡ ok d
      → (now : ℕ) × (clock ≡ some now) × DpopProven proof method uri now d
  unfolding verify_dpop unix_time
  verify_dpop-DpopProven proof method uri clock d h =
      some_then (compact_parts proof) _ _ h λ parts split h1.
        some_then (base64url_decode parts.0) _ _ h1 λ hb hd h2.
          some_then (dpop_header_from_slice hb) _ _ h2 λ header hp h3.
            pass_then (not (header.alg == "ES256") || not (header.typ == "dpop+jwt")) _ _ h3
              λ typ h4.
                pass_then (not (header.jwk.kty == "EC") || not (header.jwk.crv == "P-256")) _ _ h4
                  λ kty h5. some_then (base64url_decode header.jwk.x) _ _ h5 λ x xd h6.
                    some_then (base64url_decode header.jwk.y) _ _ h6 λ y yd h7.
                      pass_then (not (nat_eq (length x) 32) || not (nat_eq (length y) 32)) _ _ h7
                        λ lengths h8. some_then (key_from_coordinates x y) _ _ h8 λ key kd h9.
                          some_then (base64url_decode parts.2) _ _ h9 λ sb sd h10.
                            some_then (signature_from_slice sb) _ _ h10 λ signature sp h11.
                              pass_then (not (verify key (signing_input parts.0 parts.1) signature))
                                _ _ h11
                                λ signed h12.
                                  some_then (base64url_decode parts.1) _ _ h12 λ cb cd h13.
                                    some_then (dpop_claims_from_slice cb) _ _ h13 λ claims cp h14.
                                      pass_then
                                        (not (claims.htm == method)
                                          || not
                                              (trim_end_slashes claims.htu == trim_end_slashes uri))
                                        _ _ h14
                                        λ target h15.
                                          pass_then
                                            (is_empty claims.jti || ltb 256 (len claims.jti)) _ _
                                            h15
                                            λ jti h16. some_then clock _ _ h16 λ now time h17.
                                              pass_then
                                                (ltb (saturating_add now 5) claims.iat
                                                  || ltb 60 (now - claims.iat))
                                                _ _ h17
                                                λ fresh h18. (
                                                  now,
                                                  time,
                                                  record {
                                                    parts = parts;
                                                    split = split;
                                                    header = header;
                                                    claims = claims;
                                                    key = key;
                                                    signature = signature;
                                                    header_read = (hb, hd, hp);
                                                    claims_read = (cb, cd, cp);
                                                    signature_read = (sb, sd, sp);
                                                    typ =
                                                        ground
                                                          (arith, eq_iff header.typ "dpop+jwt");
                                                    alg = ground (arith, eq_iff header.alg "ES256");
                                                    own_key = (x, y, xd, yd, kd);
                                                    signed = ground arith;
                                                    for_method =
                                                        ground (arith, eq_iff claims.htm method);
                                                    for_uri = ground (
                                                      arith,
                                                      eq_iff (trim_end_slashes claims.htu)
                                                          (trim_end_slashes uri),
                                                    );
                                                    not_old = ground arith;
                                                    not_early = ground arith;
                                                    jti_bounds = jti_ok claims.jti d.jti jti cc;
                                                    jti = cc;
                                                    jkt = cc;
                                                  },
                                                )
