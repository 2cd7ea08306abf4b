-- ===== src/Attest.antt =====
-- rust/issuer-service/src/app_attest.rs: the verification of attestations and assertions of Apple's
-- App Attest.
pub mod Verify
pub mod Sound
pub mod Endpoints
pub mod Counts
pub mod Once
pub mod Registered
use Prim.Native.String.{String}
use text.Mathlib.Text.{◌==◌}
use vcissuer.Prelude.{
  ℕ, ◌+◌, ◌-◌, ◌*◌, Bool, true, false, not, ◌&&◌, ◌||◌, Option, none, some, List, [], ◌∷◌, ◌++◌,
  length, take, drop, get_elem?, ltb, leb, is_some, and_then, unwrap_or, if◌then◌else◌,
  ◌==◌ as nat_eq,
}
use vcissuer.Text.{as_bytes}
use vcissuer.Outcome.{Outcome, ok, err, deny_if, ok_or, ◌>>=◌, ◌>>◌}
use vcissuer.Platform.{Platform}
use vcissuer.Tlsn.{same_bytes}
use vcissuer.State.{RegisteredInstance}
use vcissuer.Hybrid.Cbor.{Cbor}

pub record AppAttestConfig : Type 0 where
  pub app_ids : List String
  pub allow_development : Bool

-- What is taken from other packages beside `Platform` and `Cbor`: X.509 certificates, P-384 and
-- signatures in DER. A certificate's extensions are its identifiers with their values.
pub record Certificates {V : Type 0} (p : Platform V) : Type 1 where
  pub Certificate : Type 0
  pub certificate_from_der : List ℕ → Option Certificate
  pub tbs_to_der : Certificate → Option (List ℕ)
  pub signature_raw_bytes : Certificate → List ℕ
  pub subject_public_key : Certificate → Option (List ℕ)
  pub not_before : Certificate → ℕ
  pub not_after : Certificate → ℕ
  pub extensions : Certificate → Option (List (String × List ℕ))
  pub P384Key : Type 0
  pub P384Signature : Type 0
  pub p384_key_from_sec1_bytes : List ℕ → Option P384Key
  pub p384_signature_from_der : List ℕ → Option P384Signature
  pub p384_verify : P384Key → List ℕ → P384Signature → Bool
  pub signature_from_der : List ℕ → Option p.Signature
  pub base64_decode : String → Option (List ℕ)
  pub apple_root_ca_der : List ℕ

abbrev pub nonce_oid : String
nonce_oid = "1.2.840.113635.100.8.2"

abbrev pub aaguid_prod : List ℕ
aaguid_prod = 97 ∷ 112 ∷ 112 ∷ 97 ∷ 116 ∷ 116 ∷ 101 ∷ 115 ∷ 116 ∷ 0 ∷ 0 ∷ 0 ∷ 0 ∷ 0 ∷ 0 ∷ 0 ∷ []

abbrev pub aaguid_dev : List ℕ
aaguid_dev =
    97 ∷ 112 ∷ 112 ∷ 97 ∷ 116 ∷ 116 ∷ 101 ∷ 115 ∷ 116 ∷ 100 ∷ 101 ∷ 118 ∷ 101 ∷ 108 ∷ 111 ∷ 112 ∷ []

-- The bytes from one index up to another.
abbrev pub range : ℕ → ℕ → List ℕ → List ℕ
range from to bytes = take (to - from) (drop from bytes)

-- One byte, at an index that a test of the length has made safe.
abbrev pub byte_at : List ℕ → ℕ → ℕ
byte_at bytes n = unwrap_or (get_elem? bytes n) 0

-- `u32::from_be_bytes` and `u16::from_be_bytes` of the bytes at an index.
unfoldable pub u32_at : List ℕ → ℕ → ℕ
u32_at bytes n =
    byte_at bytes n * 16777216
    + byte_at bytes (n + 1) * 65536
    + byte_at bytes (n + 2) * 256
    + byte_at bytes (n + 3)

unfoldable pub u16_at : List ℕ → ℕ → ℕ
u16_at bytes n = byte_at bytes n * 256 + byte_at bytes (n + 1)

module _ (c : Cbor) where
  -- The value of the first entry whose key is the text.
  unfoldable pub cbor_get : List (c.Value × c.Value) → String → Option c.Value
  cbor_get [] key = none
  cbor_get ((k, v) ∷ entries) key =
      let rest = cbor_get entries key in
      elim (c.as_text k) [ some t ↦ if t == key then some v else rest | none ↦ rest ]

  unfoldable pub cbor_text : List (c.Value × c.Value) → String → Option String
  cbor_text entries key = and_then (cbor_get entries key) c.as_text

  unfoldable pub cbor_bytes : List (c.Value × c.Value) → String → Option (List ℕ)
  unfolding cbor_get
  cbor_bytes entries key = and_then (cbor_get entries key) c.as_bytes

  unfoldable pub is_text : Option String → String → Bool
  is_text none s = false
  is_text (some t) s = t == s

module _ {V : Type 0} (p : Platform V) where
  -- The first app id whose hash it is.
  unfoldable pub app_id_for_rp_id_hash : List String → List ℕ → Option String
  app_id_for_rp_id_hash [] rp_id_hash = none
  app_id_for_rp_id_hash (id ∷ ids) rp_id_hash =
      let rest = app_id_for_rp_id_hash ids rp_id_hash in
      if same_bytes (p.sha256 (as_bytes id)) rp_id_hash then some id else rest

module _ {V : Type 0} (p : Platform V) (x : Certificates p) where
  open x use {Certificate}

  unfoldable pub spki_point : Certificate → Outcome String (List ℕ)
  spki_point cert = ok_or (x.subject_public_key cert) "certificate public key is not byte-aligned"

  unfoldable pub verify_p384_issued : Certificate → List ℕ → Outcome String (Unit {0})
  verify_p384_issued cert issuer_point = do
    key ← ok_or (x.p384_key_from_sec1_bytes issuer_point) "issuer key is not a valid P-384 point"
    tbs ← ok_or (x.tbs_to_der cert) "cannot re-encode TBS certificate"
    signature ←
        ok_or (x.p384_signature_from_der (x.signature_raw_bytes cert))
          "certificate signature is not valid DER ECDSA"
    deny_if (not (x.p384_verify key tbs signature))
        "certificate signature does not chain to the issuer"

  unfoldable pub within_validity : Certificate → ℕ → Bool
  within_validity cert now_unix =
      leb (x.not_before cert) now_unix && leb now_unix (x.not_after cert)

  extension_value : String → List (String × List ℕ) → Option (List ℕ)
  extension_value oid [] = none
  extension_value oid ((id, value) ∷ rest) =
      let later = extension_value oid rest in if id == oid then some value else later

  -- The fixed shape around the 32 bytes.
  nonce_of : List ℕ → Option (List ℕ)
  nonce_of der =
      if not (nat_eq (length der) 38)
        || not (nat_eq (byte_at der 0) 0x30)
        || not (nat_eq (byte_at der 2) 0xa1)
        || not (nat_eq (byte_at der 4) 0x04)
        || not (nat_eq (byte_at der 5) 0x20)
      then none
      else some (range 6 38 der)

  unfoldable pub leaf_nonce : Certificate → Option (List ℕ)
  unfolding extension_value nonce_of
  leaf_nonce cert =
      and_then (x.extensions cert)
        λ extensions. and_then (extension_value nonce_oid extensions) nonce_of
