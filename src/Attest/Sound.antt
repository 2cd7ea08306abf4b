-- ===== src/Attest/Sound.antt =====
-- What a verified attestation and a verified assertion prove.
use Prim.Native.String.{String}
use vcissuer.Prelude.{
  ℕ, ◌+◌, ◌≡◌, sym, ap, ◌∙◌, ◌≤◌, ◌<◌, ◌⊎◌, inl, inr, true, false, not, ◌&&◌, ◌||◌, some, List, ◌∷◌,
  [], ◌++◌, length, ltb, leb, Bool-cases, arith, ◌==◌ as nat_eq,
}
use mathlib.Core.Path.{subst}
use vcissuer.Text.{as_bytes}
use vcissuer.Outcome.{ok, ok_then, some_then, pass_then}
use vcissuer.Platform.{Platform}
use vcissuer.Tlsn.{same_bytes}
use vcissuer.Tlsn.Sound.{same_bytes_eq}
use vcissuer.State.{RegisteredInstance}
use vcissuer.Hybrid.Cbor.{Cbor}
use vcissuer.Attest.{
  AppAttestConfig, Certificates, aaguid_prod, aaguid_dev, range, u32_at, u16_at,
  app_id_for_rp_id_hash, spki_point, verify_p384_issued, within_validity, leaf_nonce,
}
use vcissuer.Attest.Verify.{
  Attestation, read_attestation, verify_chain, verify_leaf, verify_auth_data, verify_attestation,
  read_assertion, verify_assertion,
}

-- The app id is one of the list.
abbrev pub IsListed : String → List String → Type 0
IsListed id [] = ⊥
IsListed id (first ∷ ids) = (first ≡ id) ⊎ IsListed id ids

test_eq : (a b : ℕ) → not (nat_eq a b) ≡ false → a ≡ b
test_eq a b h = ground arith

test_le : (a b : ℕ) → ltb a b ≡ false → b ≤ a
test_le a b h = ground arith

module _ {V : Type 0} (p : Platform V) (x : Certificates p) where
  -- The certificate's signature verifies with the key at the point.
  pub record IssuedBy (cert : x.Certificate) (point : List ℕ) : Type 0 where
    pub key : x.P384Key
    pub key_read : x.p384_key_from_sec1_bytes point ≡ some key
    pub tbs : List ℕ
    pub tbs_written : x.tbs_to_der cert ≡ some tbs
    pub signature : x.P384Signature
    pub signature_read : x.p384_signature_from_der (x.signature_raw_bytes cert) ≡ some signature
    pub verifies : x.p384_verify key tbs signature ≡ true

  verify_p384_issued-IssuedBy :
      (cert : x.Certificate) (point : List ℕ)
      → verify_p384_issued p x cert point ≡ ok tt
      → IssuedBy cert point
  unfolding verify_p384_issued
  verify_p384_issued-IssuedBy cert point h =
      some_then (x.p384_key_from_sec1_bytes point) _ _ h λ k kq h0.
        some_then (x.tbs_to_der cert) _ _ h0 λ m mq h1.
          some_then (x.p384_signature_from_der (x.signature_raw_bytes cert)) _ _ h1 λ sig sq h2.
            record {
              key = k;
              key_read = kq;
              tbs = m;
              tbs_written = mq;
              signature = sig;
              signature_read = sq;
              verifies = ground arith;
            }

  -- The app id is one of those configured, and the hash is its hash.
  app_id_found :
      (ids : List String) (hash : List ℕ) (id : String)
      → app_id_for_rp_id_hash p ids hash ≡ some id
      → IsListed id ids × (p.sha256 (as_bytes id) ≡ hash)
  unfolding app_id_for_rp_id_hash
  app_id_found [] hash id h = absurd cc
  app_id_found (first ∷ ids) hash id h =
      elim (Bool-cases (same_bytes (p.sha256 (as_bytes first)) hash)) [
        | inl t ↦
            let e : first ≡ id = ground arith in
            (inl e, ap (λ i. p.sha256 (as_bytes i)) (sym e) ∙ same_bytes_eq _ hash t)
        | inr f ↦ let (m, q) = app_id_found ids hash id (ground arith) in (inr m, q)
      ]

module _ {V : Type 0} (p : Platform V) (x : Certificates p) (c : Cbor) where
  -- The leaf chains to the root over the intermediate, and is valid now.
  pub record ChainProven (root : x.Certificate) (a : Attestation p x c) (now : ℕ) : Type 0 where
    pub ca_point : List ℕ
    pub ca_point_read : x.subject_public_key a.ca_cert ≡ some ca_point
    pub leaf_issued : IssuedBy p x a.cred_cert ca_point
    pub root_point : List ℕ
    pub root_point_read : x.subject_public_key root ≡ some root_point
    pub ca_issued : IssuedBy p x a.ca_cert root_point
    pub started : x.not_before a.cred_cert ≤ now
    pub not_ended : now ≤ x.not_after a.cred_cert

  verify_chain-ChainProven :
      (root : x.Certificate) (a : Attestation p x c) (now : ℕ)
      → verify_chain p x c root a now ≡ ok tt
      → ChainProven root a now
  unfolding verify_chain spki_point within_validity
  verify_chain-ChainProven root a now h =
      some_then (x.subject_public_key a.ca_cert) _ _ h λ ca cap h0.
        ok_then (verify_p384_issued p x a.cred_cert ca) _ h0 λ _ leaf_ok h1.
          some_then (x.subject_public_key root) _ _ h1 λ rp rpq h2.
            ok_then (verify_p384_issued p x a.ca_cert rp) _ h2 λ _ ca_ok valid. record {
              ca_point = ca;
              ca_point_read = cap;
              leaf_issued = verify_p384_issued-IssuedBy p x a.cred_cert ca leaf_ok;
              root_point = rp;
              root_point_read = rpq;
              ca_issued = verify_p384_issued-IssuedBy p x a.ca_cert rp ca_ok;
              started = ground arith;
              not_ended = ground arith;
            }

  -- The leaf carries the nonce of the challenge, and holds the key that the identifier names.
  pub record LeafProven (a : Attestation p x c) (challenge key_id point : List ℕ) : Type 0 where
    pub nonce_bound :
        leaf_nonce p x a.cred_cert ≡ some (p.sha256 (a.auth_data ++ p.sha256 challenge))
    pub point_read : x.subject_public_key a.cred_cert ≡ some point
    pub key_id_length : length key_id ≡ 32
    pub key_id_hash : key_id ≡ p.sha256 point
    pub key : p.VerifyingKey
    pub key_read : p.key_from_sec1_bytes point ≡ some key

  verify_leaf-LeafProven :
      (a : Attestation p x c) (challenge key_id point : List ℕ)
      → verify_leaf p x c a challenge key_id ≡ ok point
      → LeafProven a challenge key_id point
  unfolding verify_leaf spki_point
  verify_leaf-LeafProven a challenge key_id point h =
      some_then (leaf_nonce p x a.cred_cert) _ _ h λ nonce nq h0.
        pass_then (not (same_bytes nonce (p.sha256 (a.auth_data ++ p.sha256 challenge)))) _ _ h0
          λ nonce_ok h1. some_then (x.subject_public_key a.cred_cert) _ _ h1 λ pt ptq h2.
            pass_then (not (nat_eq (length key_id) 32) || not (same_bytes key_id (p.sha256 pt))) _ _
              h2
              λ id_ok h3. some_then (p.key_from_sec1_bytes pt) _ _ h3 λ k kq h4.
                let same : pt ≡ point = cc in
                record {
                  nonce_bound = nq ∙ ap some (same_bytes_eq nonce _ (ground arith));
                  point_read = ptq ∙ ap some same;
                  key_id_length = ground arith;
                  key_id_hash = same_bytes_eq key_id _ (ground arith) ∙ ap p.sha256 same;
                  key = k;
                  key_read = ap p.key_from_sec1_bytes (sym same) ∙ kq;
                }

  abbrev KindAccepted : AppAttestConfig → List ℕ → Type 0
  KindAccepted config aaguid =
      (aaguid ≡ aaguid_prod) ⊎ ((config.allow_development ≡ true) × (aaguid ≡ aaguid_dev))

  -- The authenticator data is of a configured app, with a counter of zero, of an accepted kind of
  -- build, and of the same key.
  pub record DataProven (auth_data key_id : List ℕ) (config : AppAttestConfig) (app_id : String)
      : Type 0 where
    pub app_listed : IsListed app_id config.app_ids
    pub app_hash : p.sha256 (as_bytes app_id) ≡ range 0 32 auth_data
    pub counter_zero : u32_at auth_data 33 ≡ 0
    pub kind_accepted : KindAccepted config (range 37 53 auth_data)
    pub credential_present : 55 + u16_at auth_data 53 ≤ length auth_data
    pub credential_id : range 55 (55 + u16_at auth_data 53) auth_data ≡ key_id

  kind_of :
      (config : AppAttestConfig) (aaguid : List ℕ)
      → not (
          same_bytes aaguid aaguid_prod
          || (config.allow_development && same_bytes aaguid aaguid_dev))
        ≡ false
      → KindAccepted config aaguid
  kind_of config aaguid h = elim (Bool-cases (same_bytes aaguid aaguid_prod)) [
    | inl t ↦ inl (same_bytes_eq _ _ t)
    | inr f ↦ inr (ground arith, same_bytes_eq _ _ (ground arith))
  ]

  verify_auth_data-DataProven :
      (auth_data key_id : List ℕ) (config : AppAttestConfig) (app_id : String)
      → verify_auth_data p x c auth_data key_id config ≡ ok app_id
      → DataProven auth_data key_id config app_id
  unfolding verify_auth_data
  verify_auth_data-DataProven auth_data key_id config app_id h =
      pass_then (ltb (length auth_data) 55) _ _ h λ long h0.
        some_then (app_id_for_rp_id_hash p config.app_ids (range 0 32 auth_data)) _ _ h0
          λ app appq h1. pass_then (not (nat_eq (u32_at auth_data 33) 0)) _ _ h1 λ zero_ok h2.
            pass_then
              (not (
                same_bytes (range 37 53 auth_data) aaguid_prod
                || (config.allow_development && same_bytes (range 37 53 auth_data) aaguid_dev)))
              _ _ h2
              λ kind_ok h3.
                pass_then (ltb (length auth_data) (55 + u16_at auth_data 53)) _ _ h3 λ whole h4.
                  pass_then
                    (not (same_bytes (range 55 (55 + u16_at auth_data 53) auth_data) key_id)) _ _ h4
                    λ cred_ok h5.
                      let same : app ≡ app_id = cc in
                      let (listed, hashed) = app_id_found p x config.app_ids _ app appq in
                      record {
                        app_listed = subst (λ i. IsListed i config.app_ids) same listed;
                        app_hash = ap (λ i. p.sha256 (as_bytes i)) (sym same) ∙ hashed;
                        counter_zero = test_eq _ 0 zero_ok;
                        kind_accepted = kind_of config _ kind_ok;
                        credential_present = test_le _ _ whole;
                        credential_id = same_bytes_eq _ key_id (ground arith);
                      }

  -- An attestation whose leaf chains to Apple's root, whose nonce is of the challenge, and whose
  -- authenticator data is of a configured app and of the key.
  pub record AttestationProven (attestation challenge key_id : List ℕ) (config : AppAttestConfig)
      (now : ℕ) (app_id : String) (point : List ℕ) : Type 0 where
    pub root : x.Certificate
    pub root_read : x.certificate_from_der x.apple_root_ca_der ≡ some root
    pub object : Attestation p x c
    pub object_read : read_attestation p x c attestation ≡ ok object
    pub chain : ChainProven root object now
    pub leaf : LeafProven object challenge key_id point
    pub authenticator : DataProven object.auth_data key_id config app_id

  pub verify_attestation-AttestationProven :
      (attestation challenge key_id : List ℕ) (config : AppAttestConfig) (now : ℕ) (app_id : String)
      (point : List ℕ)
      → verify_attestation p x c attestation challenge key_id config now ≡ ok (app_id, point)
      → AttestationProven attestation challenge key_id config now app_id point
  unfolding verify_attestation
  verify_attestation-AttestationProven attestation challenge key_id config now app_id point h =
      some_then (x.certificate_from_der x.apple_root_ca_der) _ _ h λ r rq h0.
        ok_then (read_attestation p x c attestation) _ h0 λ a aq h1.
          ok_then (verify_chain p x c r a now) _ h1 λ _ chained h2.
            ok_then (verify_leaf p x c a challenge key_id) _ h2 λ leaf_point leafed h3.
              ok_then (verify_auth_data p x c a.auth_data key_id config) _ h3 λ id authed h4.
                let same : id ≡ app_id = cc in
                let same' : leaf_point ≡ point = cc in
                record {
                  root = r;
                  root_read = rq;
                  object = a;
                  object_read = aq;
                  chain = verify_chain-ChainProven r a now chained;
                  leaf = verify_leaf-LeafProven a challenge key_id point (leafed ∙ ap ok same');
                  authenticator =
                      verify_auth_data-DataProven a.auth_data key_id config app_id
                        (authed ∙ ap ok same);
                }

  -- An assertion of the instance: the signature verifies with its key over its app and the data, and
  -- the counter is greater than the one that is known.
  pub record AssertionProven (assertion client_data : List ℕ) (found : RegisteredInstance)
      (count : ℕ) : Type 0 where
    pub signature_bytes : List ℕ
    pub authenticator_data : List ℕ
    pub assertion_read : read_assertion p x c assertion ≡ ok (signature_bytes, authenticator_data)
    pub app_hash : range 0 32 authenticator_data ≡ p.sha256 (as_bytes found.app_id)
    pub key : p.VerifyingKey
    pub key_read : p.key_from_sec1_bytes found.public_key ≡ some key
    pub signature : p.Signature
    pub signature_read : x.signature_from_der signature_bytes ≡ some signature
    pub verifies :
        p.verify key (p.sha256 (authenticator_data ++ p.sha256 client_data)) signature ≡ true
    pub counted : count ≡ u32_at authenticator_data 33
    pub increases : found.sign_count < count

  pub verify_assertion-AssertionProven :
      (assertion client_data : List ℕ) (found : RegisteredInstance) (count : ℕ)
      → verify_assertion p x c assertion client_data found ≡ ok count
      → AssertionProven assertion client_data found count
  unfolding verify_assertion
  verify_assertion-AssertionProven assertion client_data found count h =
      ok_then (read_assertion p x c assertion) _ h λ parts q h0.
        let (sig_bytes, auth) = parts in
        pass_then (ltb (length auth) 37) _ _ h0 λ long h1.
          pass_then (not (same_bytes (range 0 32 auth) (p.sha256 (as_bytes found.app_id)))) _ _ h1
            λ app_ok h2. some_then (p.key_from_sec1_bytes found.public_key) _ _ h2 λ k kq h3.
              some_then (x.signature_from_der sig_bytes) _ _ h3 λ sig sq h4.
                pass_then (not (p.verify k (p.sha256 (auth ++ p.sha256 client_data)) sig)) _ _ h4
                  λ ver h5. pass_then (leb (u32_at auth 33) found.sign_count) _ _ h5 λ more h6.
                    let same : u32_at auth 33 ≡ count = cc in
                    record {
                      signature_bytes = sig_bytes;
                      authenticator_data = auth;
                      assertion_read = q;
                      app_hash = same_bytes_eq _ _ (ground arith);
                      key = k;
                      key_read = kq;
                      signature = sig;
                      signature_read = sq;
                      verifies = ground arith;
                      counted = sym same;
                      increases = ground arith;
                    }
