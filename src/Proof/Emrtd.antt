-- ===== src/Proof/Emrtd.antt =====
-- rust/issuer-service/src/main.rs: `verify_emrtd_evidence`, `age_over_18` and
-- `is_expired_document`.
pub mod Sound
use Prim.Native.String.{String, len, ◌++◌}
use text.Mathlib.Text.{◌==◌, find?}
use vcissuer.Prelude.{
  ℕ, ◌+◌, Bool, true, false, not, ◌&&◌, ◌||◌, Option, none, some, List, [], ◌∷◌, any, ltb, leb,
  is_some, if◌then◌else◌, ◌==◌ as nat_eq,
}
use vcissuer.Text.{is_blank, split, trim_end_slashes, parse_number}
use vcissuer.Oauth.{OauthError, oauth_error, Result, ok, err, ◌>>=◌, ◌>>◌, deny_if, ok_or}
use vcissuer.Platform.{Platform, EmrtdMrzClaim}
use vcissuer.Proof.Jws.{verify_jws_payload, hash_u128}

pub record PidSubjectClaims : Type 0 where
  pub family_name : String
  pub given_name : String
  pub birthdate : String
  pub nationality : String
  pub issuing_country : String
  pub age_over_18 : Bool
  pub portrait : Option String

pub record VerifiedChipLiveness : Type 0 where
  pub subject : ℕ
  pub jti : String
  pub sod_passive_auth : Bool
  pub chip_authentic : Bool
  pub liveness_matched : Bool
  pub claims : PidSubjectClaims

abbrev pub max_emrtd_evidence_bytes : ℕ
max_emrtd_evidence_bytes = 262144

abbrev pub i32_max : ℕ
i32_max = 2147483647

-- The lexicographic order of a date.
abbrev pub date_ltb : ℕ × ℕ × ℕ → ℕ × ℕ × ℕ → Bool
date_ltb (y, m, d) (y', m', d') = ltb y y' || nat_eq y y' && (ltb m m' || nat_eq m m' && ltb d d')

-- `parts.first()`, `parts.get(1)` and `parts.get(2)`, or the empty text; further parts are ignored.
abbrev pub date_parts : List String → String × String × String
date_parts [] = ("", "", "")
date_parts (y ∷ []) = (y, "", "")
date_parts (y ∷ m ∷ []) = (y, m, "")
date_parts (y ∷ m ∷ d ∷ rest) = (y, m, d)

-- A part holds no minus sign, so the year is parsed as a number up to `i32::MAX`.
unfoldable pub parse_date : String → Option (ℕ × ℕ × ℕ)
parse_date iso =
    let (y, m, d) = date_parts (split b'-' iso) in
    elim (parse_number i32_max y) [
      | none ↦ none
      | some year ↦ elim (parse_number 255 m) [
        | none ↦ none
        | some month ↦ elim (parse_number 255 d) [
          | none ↦ none
          | some day ↦ some (year, month, day)
        ]
      ]
    ]

-- `birth_year + 18` in an `i32` of a build without overflow checks: past the greatest year it is
-- negative, and every date is later.
abbrev pub reached_18 : ℕ × ℕ × ℕ → ℕ × ℕ × ℕ → Bool
reached_18 today (year, month, day) =
    if ltb i32_max (year + 18) then true else not (date_ltb today (year + 18, month, day))

abbrev expired_before : ℕ × ℕ × ℕ → ℕ × ℕ × ℕ → Bool
expired_before today date = date_ltb date today

identity_missing : String → Bool
identity_missing value = is_blank value || ltb 512 (len value)

-- A blank portrait is dropped.
accept_portrait : Option String → Result (Option String)
accept_portrait none = ok none
accept_portrait (some portrait) =
    if ltb max_emrtd_evidence_bytes (len portrait)
    then err (oauth_error 400 "invalid_proof" "`eMRTD` portrait exceeds the accepted size")
    else if is_blank portrait
    then ok none
    else ok (some portrait)

module _ {V : Type 0} (p : Platform V) where
  open p use {date_from_unix_timestamp, key_from_sec1_bytes, emrtd_claims_from_value}

  -- `i64::try_from` and `OffsetDateTime::from_unix_timestamp`.
  unfoldable pub today_at : ℕ → Option (ℕ × ℕ × ℕ)
  today_at now = if ltb now 9223372036854775808 then date_from_unix_timestamp now else none

  unfoldable pub age_over_18 : String → ℕ → Bool
  age_over_18 birthdate_iso now = elim (parse_date birthdate_iso) [
    | none ↦ false
    | some birthdate ↦ elim (today_at now) [
      | none ↦ false
      | some today ↦ reached_18 today birthdate
    ]
  ]

  unfoldable pub is_expired_document : String → ℕ → Bool
  is_expired_document expiry_iso now = elim (parse_date expiry_iso) [
    | none ↦ true
    | some expiry ↦ elim (today_at now) [ none ↦ true | some today ↦ expired_before today expiry ]
  ]

  -- The attestation, the key of the trusted reader, the issuer, the nonce and the key that are
  -- expected, and the time.
  unfoldable pub verify_emrtd_evidence :
      String → List ℕ → String → String → String → ℕ → Result VerifiedChipLiveness
  unfolding identity_missing accept_portrait
  verify_emrtd_evidence attestation trusted_reader_key issuer expected_nonce expected_jkt now = do
    deny_if (ltb max_emrtd_evidence_bytes (len attestation))
        (oauth_error 400 "invalid_proof" "`eMRTD` evidence attestation exceeds the accepted size")
    key ←
        ok_or (key_from_sec1_bytes trusted_reader_key)
          (oauth_error 500 "server_error" "configured `eMRTD` reader key is malformed")
    payload ← verify_jws_payload p attestation key "`eMRTD` evidence"
    claims ←
        ok_or (emrtd_claims_from_value payload) (
          oauth_error 400 "invalid_proof" "`eMRTD` evidence attestation is missing required claims")
    deny_if
        (not (trim_end_slashes claims.aud == trim_end_slashes issuer)
          || ltb now claims.iat
          || leb claims.exp now)
        (oauth_error 400 "invalid_proof"
          "`eMRTD` evidence audience or validity interval is not accepted")
    deny_if (not (claims.nonce == expected_nonce) || not (claims.new_holder_jkt == expected_jkt)) (
        oauth_error 400 "invalid_proof"
          "`eMRTD` evidence is not bound to this session and holder key")
    deny_if (not (is_some (find? claims.liveness.assurance "iproov:gpa"))) (
        oauth_error 400 "invalid_proof"
          "`eMRTD` evidence lacks the required genuine-presence liveness assurance")
    deny_if (is_expired_document claims.mrz.date_of_expiry now)
        (oauth_error 400 "invalid_proof" "the read travel document is expired")
    deny_if
        (any identity_missing (
          claims.mrz.family_name ∷ claims.mrz.given_name ∷ claims.mrz.birthdate
          ∷ claims.mrz.nationality ∷ claims.mrz.issuing_country ∷ claims.mrz.document_number ∷ []))
        (oauth_error 400 "invalid_proof" "`eMRTD` evidence identity claim is missing or oversized")
    portrait ← accept_portrait claims.portrait
    ok (record {
      subject =
          hash_u128 p
            ("emrtd:" ++ (claims.mrz.issuing_country ++ (":" ++ claims.mrz.document_number)));
      jti = claims.jti;
      sod_passive_auth = claims.passive_authentication;
      chip_authentic = claims.chip_authentic;
      liveness_matched = claims.liveness.matched_portrait;
      claims = record {
        family_name = claims.mrz.family_name;
        given_name = claims.mrz.given_name;
        birthdate = claims.mrz.birthdate;
        nationality = claims.mrz.nationality;
        issuing_country = claims.mrz.issuing_country;
        age_over_18 = age_over_18 claims.mrz.birthdate now;
        portrait = portrait;
      };
    })
