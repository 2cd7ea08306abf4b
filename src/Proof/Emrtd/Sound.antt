-- ===== src/Proof/Emrtd/Sound.antt =====
-- What the attestation of a chip read has shown, and when a holder counts as of age.
use Prim.Native.String.{String, len, ◌++◌}
use text.Mathlib.Text.{◌==◌, find?}
use text.Mathlib.TextEquality.{eq_iff}
use vcissuer.Prelude.{
  ℕ, ◌-◌, ◌&&◌, Bool-cases, if◌then◌else◌, ◌==◌ as nat_eq, ◌≤◌, ◌<◌, ◌+◌, ◌≡◌, ◌↔◌, ◌⊎◌, inl, inr,
  true, false, not, ◌||◌, List, [], ◌∷◌, some, Option-cases, arith, any, ltb, leb, is_some,
  and_then,
}
use vcissuer.Text.{trim_end_slashes}
use vcissuer.Oauth.{ok, ok_or-eq-ok, some_then, pass_then, >>=-eq-ok}
use vcissuer.Platform.{Platform, EmrtdEvidenceClaims}
use vcissuer.Proof.Jws.{compact_parts, signing_input, verify_jws_payload, hash_u128}
use vcissuer.Proof.Emrtd.{
  VerifiedChipLiveness, parse_date, today_at, reached_18, i32_max, age_over_18, is_expired_document,
  verify_emrtd_evidence, max_emrtd_evidence_bytes, accept_portrait, identity_missing,
}

-- The years that are complete between a birth date and a later day: the difference of the years, less
-- one before the birthday in the year of the day.
abbrev pub completed_years : ℕ × ℕ × ℕ → ℕ × ℕ × ℕ → ℕ
completed_years (y, m, d) (y', m', d') =
    if ltb m m' || nat_eq m m' && ltb d d' then y - y' - 1 else y - y'

reached_18_iff :
    (today birth : ℕ × ℕ × ℕ)
    → birth.0 + 18 ≤ i32_max
    → (reached_18 today birth ≡ true) ↔ 18 ≤ completed_years today birth
reached_18_iff (y, m, d) (y', m', d') small = (λ h. ground arith, λ h. ground arith)

-- A year whose eighteenth following is beyond an `i32`.
abbrev pub Overflows : ℕ × ℕ × ℕ → Type 0
Overflows birth = i32_max < birth.0 + 18

reached_18_cases :
    (today birth : ℕ × ℕ × ℕ)
    → (reached_18 today birth ≡ true) ↔ (Overflows birth ⊎ 18 ≤ completed_years today birth)
reached_18_cases today birth = elim (Bool-cases (ltb i32_max (birth.0 + 18))) [
  | inl over ↦ (λ h. inl (ground arith), λ h. ground arith)
  | inr fits ↦
      let small : birth.0 + 18 ≤ i32_max = ground arith in
      let (there, back) = reached_18_iff today birth small in
      (
        λ h. inr (there h),
        λ h. elim h [ inl over ↦ absurd (ground arith) | inr years ↦ back years ],
      )
]

module _ {V : Type 0} (p : Platform V) where
  open p use {
    VerifyingKey, Signature, base64url_decode, signature_from_slice, verify, value_from_slice,
    key_from_sec1_bytes, emrtd_claims_from_value,
  }

  -- A compact JWS under the key, with the payload.
  pub record JwsSigned (compact : String) (key : VerifyingKey) (payload : V) : Type 0 where
    pub parts : String × String × String
    pub split : compact_parts compact ≡ some parts
    pub signature : Signature
    pub signature_read : and_then (base64url_decode parts.2) signature_from_slice ≡ some signature
    pub signed : verify key (signing_input parts.0 parts.1) signature ≡ true
    pub bytes : List ℕ
    pub decoded : base64url_decode parts.1 ≡ some bytes
    pub read : value_from_slice bytes ≡ some payload

  pub verify_jws_payload-JwsSigned :
      (compact : String) (key : VerifyingKey) (label : String) (v : V)
      → verify_jws_payload p compact key label ≡ ok v
      → JwsSigned compact key v
  unfolding verify_jws_payload
  verify_jws_payload-JwsSigned compact key label v h =
      some_then (compact_parts compact) _ _ h λ parts split h1.
        some_then (and_then (base64url_decode parts.2) signature_from_slice) _ _ h1
          λ signature sr h2.
            pass_then (not (verify key (signing_input parts.0 parts.1) signature)) _ _ h2
              λ signed h3. some_then (base64url_decode parts.1) _ _ h3 λ bytes decoded h4. record {
                parts = parts;
                split = split;
                signature = signature;
                signature_read = sr;
                signed = ground arith;
                bytes = bytes;
                decoded = decoded;
                read = ok_or-eq-ok _ _ h4;
              }

  pub record ChipReadProven (attestation : String) (reader : List ℕ) (issuer nonce jkt : String)
      (now : ℕ) (c : VerifiedChipLiveness) : Type 0 where
    pub key : VerifyingKey
    pub key_read : key_from_sec1_bytes reader ≡ some key
    pub payload : V
    pub signed : JwsSigned attestation key payload
    pub claims : EmrtdEvidenceClaims
    pub claims_read : emrtd_claims_from_value payload ≡ some claims
    pub audience : trim_end_slashes claims.aud ≡ trim_end_slashes issuer
    pub begun : claims.iat ≤ now
    pub not_ended : now < claims.exp
    pub for_nonce : claims.nonce ≡ nonce
    pub for_holder : claims.new_holder_jkt ≡ jkt
    pub live_person : is_some (find? claims.liveness.assurance "iproov:gpa") ≡ true
    pub document_valid : is_expired_document p claims.mrz.date_of_expiry now ≡ false
    pub verdicts :
        (c.sod_passive_auth ≡ claims.passive_authentication)
        × (c.chip_authentic ≡ claims.chip_authentic)
        × (c.liveness_matched ≡ claims.liveness.matched_portrait)
    pub names :
        (c.claims.family_name ≡ claims.mrz.family_name)
        × (c.claims.given_name ≡ claims.mrz.given_name)
        × (c.claims.birthdate ≡ claims.mrz.birthdate)
        × (c.claims.nationality ≡ claims.mrz.nationality)
        × (c.claims.issuing_country ≡ claims.mrz.issuing_country)
    pub age : c.claims.age_over_18 ≡ age_over_18 p claims.mrz.birthdate now
    pub subject :
        c.subject
        ≡ hash_u128 p
            ("emrtd:" ++ (claims.mrz.issuing_country ++ (":" ++ claims.mrz.document_number)))
    pub jti : c.jti ≡ claims.jti

  -- An attestation of a chip read that verifies is signed with the trusted reader's key, for this
  -- issuer, nonce and holder key, is current, states a genuine-presence check, and is of a document
  -- that has not expired; the three verdicts, the identity claims, the age and the subject are those
  -- that it states.
  pub verify_emrtd_evidence-ChipReadProven :
      (attestation : String) (reader : List ℕ) (issuer nonce jkt : String) (now : ℕ)
      (c : VerifiedChipLiveness)
      → verify_emrtd_evidence p attestation reader issuer nonce jkt now ≡ ok c
      → ChipReadProven attestation reader issuer nonce jkt now c
  unfolding verify_emrtd_evidence
  verify_emrtd_evidence-ChipReadProven attestation reader issuer nonce jkt now c h =
      pass_then (ltb max_emrtd_evidence_bytes (len attestation)) _ _ h λ small h1.
        some_then (key_from_sec1_bytes reader) _ _ h1 λ key kr h2.
          let (payload, signed, h3) =
            >>=-eq-ok (verify_jws_payload p attestation key "`eMRTD` evidence") _ h2 in
          some_then (emrtd_claims_from_value payload) _ _ h3 λ claims cr h4.
            pass_then
              (not (trim_end_slashes claims.aud == trim_end_slashes issuer)
                || ltb now claims.iat
                || leb claims.exp now)
              _ _ h4
              λ interval h5.
                pass_then (not (claims.nonce == nonce) || not (claims.new_holder_jkt == jkt)) _ _ h5
                  λ bound h6.
                    pass_then (not (is_some (find? claims.liveness.assurance "iproov:gpa"))) _ _ h6
                      λ live h7.
                        pass_then (is_expired_document p claims.mrz.date_of_expiry now) _ _ h7
                          λ valid h8.
                            pass_then
                              (any identity_missing (
                                claims.mrz.family_name ∷ claims.mrz.given_name
                                ∷ claims.mrz.birthdate ∷ claims.mrz.nationality
                                ∷ claims.mrz.issuing_country ∷ claims.mrz.document_number ∷ []))
                              _ _ h8
                              λ complete h9.
                                let (portrait, accepted, h10) =
                                  >>=-eq-ok (accept_portrait claims.portrait) _ h9 in
                                record {
                                  key = key;
                                  key_read = kr;
                                  payload = payload;
                                  signed =
                                      verify_jws_payload-JwsSigned attestation key
                                        "`eMRTD` evidence" payload signed;
                                  claims = claims;
                                  claims_read = cr;
                                  audience = ground (
                                    arith,
                                    eq_iff (trim_end_slashes claims.aud) (trim_end_slashes issuer),
                                  );
                                  begun = ground arith;
                                  not_ended = ground arith;
                                  for_nonce = ground (arith, eq_iff claims.nonce nonce);
                                  for_holder = ground (arith, eq_iff claims.new_holder_jkt jkt);
                                  live_person = ground arith;
                                  document_valid = valid;
                                  verdicts = (cc, cc, cc);
                                  names = (cc, cc, cc, cc, cc);
                                  age = cc;
                                  subject = cc;
                                  jti = cc;
                                }

  -- A holder counts as of age exactly when the birth date and the clock can both be read and eighteen
  -- years are complete between them: a date or a clock that cannot be read is never of age. Where the
  -- year of birth is so late that the eighteenth year after it is beyond an `i32`, the holder counts as
  -- of age, too.
  pub age_over_18_iff :
      (birth : String) (now : ℕ)
      → (age_over_18 p birth now ≡ true) ↔ (
          (date : ℕ × ℕ × ℕ) × (today : ℕ × ℕ × ℕ) × (parse_date birth ≡ some date)
          × (today_at p now ≡ some today)
          × (Overflows date ⊎ 18 ≤ completed_years today date))
  unfolding age_over_18
  age_over_18_iff birth now = (
    λ h. elim (Option-cases (parse_date birth)) [
      | inl n ↦ absurd (ground arith)
      | inr (date, e) ↦ elim (Option-cases (today_at p now)) [
        | inl n ↦ absurd (ground arith)
        | inr (today, q) ↦ (date, today, e, q, (reached_18_cases today date).0 (ground arith))
      ]
    ],
    λ (date, today, e, q, years). let r = (reached_18_cases today date).1 years in ground arith,
  )
