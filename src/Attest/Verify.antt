-- ===== src/Attest/Verify.antt =====
-- rust/issuer-service/src/app_attest.rs: `verify_attestation` and `verify_assertion`.
use Prim.Native.String.{String}
use vcissuer.Prelude.{
  ℕ, ◌+◌, not, ◌&&◌, ◌||◌, List, ◌++◌, length, get_elem?, ltb, leb, and_then, ◌==◌ as nat_eq,
}
use vcissuer.Text.{as_bytes}
use vcissuer.Outcome.{Outcome, ok, deny_if, ok_or, ◌>>=◌, ◌>>◌}
use vcissuer.Platform.{Platform}
use vcissuer.Tlsn.{same_bytes}
use vcissuer.State.{RegisteredInstance}
use vcissuer.Hybrid.Cbor.{Cbor}
use vcissuer.Attest.{
  AppAttestConfig, Certificates, aaguid_prod, aaguid_dev, range, u32_at, u16_at, cbor_get,
  cbor_text, cbor_bytes, is_text, app_id_for_rp_id_hash, spki_point, verify_p384_issued,
  within_validity, leaf_nonce,
}

module _ {V : Type 0} (p : Platform V) (x : Certificates p) (c : Cbor) where
  -- The entries of the attestation object, the two certificates and the authenticator data.
  pub record Attestation : Type 0 where
    pub cred_cert : x.Certificate
    pub ca_cert : x.Certificate
    pub auth_data : List ℕ

  unfoldable pub read_attestation : List ℕ → Outcome String Attestation
  unfolding cbor_get cbor_text is_text
  read_attestation attestation_cbor = do
    (value, position) ← ok_or (c.from_reader attestation_cbor) "attestation is not valid CBOR"
    entries ← ok_or (c.as_map value) "attestation is not a CBOR map"
    deny_if (not (is_text c (cbor_text c entries "fmt") "apple-appattest"))
        "attestation fmt is not apple-appattest"
    att_stmt ← ok_or (and_then (cbor_get c entries "attStmt") c.as_map) "missing attStmt"
    x5c ← ok_or (and_then (cbor_get c att_stmt "x5c") c.as_array) "missing x5c chain"
    deny_if (ltb (length x5c) 2) "x5c must contain the leaf and the intermediate"
    cred_cert_der ← ok_or (and_then (get_elem? x5c 0) c.as_bytes) "x5c[0] is not bytes"
    ca_cert_der ← ok_or (and_then (get_elem? x5c 1) c.as_bytes) "x5c[1] is not bytes"
    auth_data ← ok_or (cbor_bytes c entries "authData") "missing authData"
    cred_cert ← ok_or (x.certificate_from_der cred_cert_der) "credCert is malformed"
    ca_cert ← ok_or (x.certificate_from_der ca_cert_der) "intermediate CA is malformed"
    ok (record { cred_cert = cred_cert; ca_cert = ca_cert; auth_data = auth_data })

  -- The certificates chain to the root, and the leaf is valid now.
  unfoldable pub verify_chain : x.Certificate → Attestation → ℕ → Outcome String (Unit {0})
  verify_chain root a now_unix = do
    ca_point ← spki_point p x a.ca_cert
    verify_p384_issued p x a.cred_cert ca_point
    root_point ← spki_point p x root
    verify_p384_issued p x a.ca_cert root_point
    deny_if (not (within_validity p x a.cred_cert now_unix))
        "credCert is outside its validity window"

  -- The nonce and the key of the leaf.
  unfoldable pub verify_leaf : Attestation → List ℕ → List ℕ → Outcome String (List ℕ)
  verify_leaf a challenge key_id = do
    cert_nonce ← ok_or (leaf_nonce p x a.cred_cert) "credCert has no App Attest nonce extension"
    deny_if (not (same_bytes cert_nonce (p.sha256 (a.auth_data ++ p.sha256 challenge))))
        "attestation nonce does not match the issued challenge"
    cred_point ← spki_point p x a.cred_cert
    deny_if (not (nat_eq (length key_id) 32) || not (same_bytes key_id (p.sha256 cred_point)))
        "keyId does not match the attested public key"
    key ← ok_or (p.key_from_sec1_bytes cred_point) "attested key is not a valid P-256 point"
    ok cred_point

  -- `authData`: the app, a counter of zero, the AAGUID and the credential's identifier.
  unfoldable pub verify_auth_data : List ℕ → List ℕ → AppAttestConfig → Outcome String String
  verify_auth_data auth_data key_id config = do
    deny_if (ltb (length auth_data) 55) "authData is too short"
    app_id ←
        ok_or (app_id_for_rp_id_hash p config.app_ids (range 0 32 auth_data))
          "authData rpIdHash does not match any configured app id"
    deny_if (not (nat_eq (u32_at auth_data 33) 0)) "attestation counter must be zero"
    deny_if
        (not (
          same_bytes (range 37 53 auth_data) aaguid_prod
          || (config.allow_development && same_bytes (range 37 53 auth_data) aaguid_dev)))
        "attestation AAGUID is not accepted"
    deny_if (ltb (length auth_data) (55 + u16_at auth_data 53)) "authData credentialId is truncated"
    deny_if (not (same_bytes (range 55 (55 + u16_at auth_data 53) auth_data) key_id))
        "authData credentialId does not match keyId"
    ok app_id

  unfoldable pub verify_attestation :
      List ℕ → List ℕ → List ℕ → AppAttestConfig → ℕ → Outcome String (String × List ℕ)
  unfolding read_attestation verify_chain verify_leaf verify_auth_data
  verify_attestation attestation_cbor challenge key_id config now_unix = do
    root ←
        ok_or (x.certificate_from_der x.apple_root_ca_der)
          "embedded Apple App Attest root CA is malformed"
    a ← read_attestation attestation_cbor
    verify_chain root a now_unix
    cred_point ← verify_leaf a challenge key_id
    app_id ← verify_auth_data a.auth_data key_id config
    ok (app_id, cred_point)

  -- The signature and the authenticator data of an assertion.
  unfoldable pub read_assertion : List ℕ → Outcome String (List ℕ × List ℕ)
  read_assertion assertion_cbor = do
    (value, position) ← ok_or (c.from_reader assertion_cbor) "assertion is not valid CBOR"
    entries ← ok_or (c.as_map value) "assertion is not a CBOR map"
    signature ← ok_or (cbor_bytes c entries "signature") "assertion missing signature"
    authenticator_data ←
        ok_or (cbor_bytes c entries "authenticatorData") "assertion missing authenticatorData"
    ok (signature, authenticator_data)

  unfoldable pub verify_assertion : List ℕ → List ℕ → RegisteredInstance → Outcome String ℕ
  unfolding read_assertion
  verify_assertion assertion_cbor client_data instance_found = do
    (signature, authenticator_data) ← read_assertion assertion_cbor
    deny_if (ltb (length authenticator_data) 37) "assertion authenticatorData is too short"
    deny_if
        (not
          (same_bytes (range 0 32 authenticator_data) (p.sha256 (as_bytes instance_found.app_id))))
        "assertion rpIdHash does not match the instance's app id"
    key ← ok_or (p.key_from_sec1_bytes instance_found.public_key) "stored instance key is malformed"
    sig ← ok_or (x.signature_from_der signature) "assertion signature is not valid DER ECDSA"
    deny_if (not (p.verify key (p.sha256 (authenticator_data ++ p.sha256 client_data)) sig))
        "assertion signature is invalid"
    deny_if (leb (u32_at authenticator_data 33) instance_found.sign_count)
        "assertion counter did not increase (possible replay)"
    ok (u32_at authenticator_data 33)
