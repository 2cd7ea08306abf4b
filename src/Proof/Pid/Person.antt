-- ===== src/Proof/Pid/Person.antt =====
-- What a presented PID says of its issuer, its validity and the person.
use Prim.Native.String.{String}
use text.Mathlib.TextEquality.{eq_iff}
use vcissuer.Prelude.{
  ℕ, ◌≡◌, refl, ap, sym, ◌∙◌, ◌≤◌, ◌<◌, true, false, not, ◌||◌, Option, none, some, List, All,
  arith, and_then,
}
use vcissuer.Text.{trim_end_slashes}
use vcissuer.Oauth.{ok}
use vcissuer.Platform.{Platform}
use vcissuer.Proof.Jws.{hash_u128}
use vcissuer.Proof.Pid.{
  Disclosed, is_text, text_digest, text_values, not_begun, has_ended, issued_by, read_disclosures,
  canonical_subject,
}
use vcissuer.Proof.Pid.Disclosures.{
  Among, Discloses, nothing, read_disclosures-Among, read_disclosures-Discloses,
}

pub text_is : (o : Option String) (t : String) → is_text o t ≡ true → o ≡ some t
text_is none t h = absurd cc
text_is (some s) t h = ap some ((eq_iff s t).0 h)

module _ {V : Type 0} (p : Platform V) where
  open p use {get, as_str, as_u64, as_array}

  issued_by_ok :
      (o : Option String) (issuer : String)
      → issued_by p o issuer ≡ true
      → (iss : String) × (o ≡ some iss) × (trim_end_slashes iss ≡ trim_end_slashes issuer)
  unfolding issued_by
  issued_by_ok none issuer h = absurd cc
  issued_by_ok (some iss) issuer h = (iss, refl, (eq_iff _ _).0 h)

  not_begun_ok :
      (o : Option ℕ) (now : ℕ) → not_begun p o now ≡ false → (nbf : ℕ) × (o ≡ some nbf) × nbf ≤ now
  unfolding not_begun
  not_begun_ok none now h = absurd cc
  not_begun_ok (some nbf) now h = (nbf, refl, ground arith)

  has_ended_ok :
      (o : Option ℕ) (now : ℕ) → has_ended p o now ≡ false → (exp : ℕ) × (o ≡ some exp) × now < exp
  unfolding has_ended
  has_ended_ok none now h = absurd cc
  has_ended_ok (some exp) now h = (exp, refl, ground arith)

  -- The credential is by this issuer, has begun and has not ended.
  pub record InForce (payload : V) (issuer : String) (now : ℕ) : Type 0 where
    pub by_issuer :
        (iss : String) × (and_then (get payload "iss") as_str ≡ some iss)
        × (trim_end_slashes iss ≡ trim_end_slashes issuer)
    pub begun : (nbf : ℕ) × (and_then (get payload "nbf") as_u64 ≡ some nbf) × nbf ≤ now
    pub not_ended : (exp : ℕ) × (and_then (get payload "exp") as_u64 ≡ some exp) × now < exp

  pub payload-InForce :
      (payload : V) (issuer : String) (now : ℕ)
      → (not (issued_by p (and_then (get payload "iss") as_str) issuer)
          || not_begun p (and_then (get payload "nbf") as_u64) now
          || has_ended p (and_then (get payload "exp") as_u64) now)
        ≡ false
      → InForce payload issuer now
  payload-InForce payload issuer now h = record {
    by_issuer = issued_by_ok (and_then (get payload "iss") as_str) issuer (ground arith);
    begun = not_begun_ok (and_then (get payload "nbf") as_u64) now (ground arith);
    not_ended = has_ended_ok (and_then (get payload "exp") as_u64) now (ground arith);
  }

  -- Every disclosure is committed to by a digest in the credential, the person of the record is
  -- disclosed, and the subject is that person's.
  pub record Identified (payload : V) (disclosures : List String) (subject : ℕ) : Type 0 where
    pub digests : List V
    pub digests_read : and_then (get payload "_sd") as_array ≡ some digests
    pub committed :
        All (λ encoded. Among (text_digest p encoded) (text_values p digests)) disclosures
    pub family_name : Discloses p disclosures "family_name" "Mustermann"
    pub given_name : Discloses p disclosures "given_name" "Erika"
    pub birthdate : Discloses p disclosures "birthdate" "1990-01-01"
    pub subject_is : subject ≡ hash_u128 p "Mustermann\u{1f}Erika\u{1f}1990-01-01"

  pub disclosures-Identified :
      (payload : V) (disclosures : List String) (digests : List V) (d : Disclosed) (subject : ℕ)
      → and_then (get payload "_sd") as_array ≡ some digests
      → read_disclosures p (text_values p digests) disclosures nothing ≡ ok d
      → (not (is_text d.family_name "Mustermann")
          || not (is_text d.given_name "Erika")
          || not (is_text d.birthdate "1990-01-01"))
        ≡ false
      → hash_u128 p (canonical_subject d) ≡ subject
      → Identified payload disclosures subject
  disclosures-Identified payload disclosures digests d subject sd read matched hashed =
      let f = text_is d.family_name "Mustermann" (ground arith) in
      let g = text_is d.given_name "Erika" (ground arith) in
      let b = text_is d.birthdate "1990-01-01" (ground arith) in
      let (family, given, birth) =
        read_disclosures-Discloses p (text_values p digests) disclosures d "Mustermann" "Erika"
          "1990-01-01" read f g b in
      let person : d ≡ record {
        family_name = some "Mustermann";
        given_name = some "Erika";
        birthdate = some "1990-01-01";
      } =
        cc in
      record {
        digests = digests;
        digests_read = sd;
        committed = read_disclosures-Among p (text_values p digests) disclosures nothing d read;
        family_name = family;
        given_name = given;
        birthdate = birth;
        subject_is = sym hashed ∙ ap (λ x. hash_u128 p (canonical_subject x)) person;
      }
