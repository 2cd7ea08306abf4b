-- ===== src/Tests/Attest.antt =====
-- An app instance that is registered, and an assertion of it.
use Prim.Native.String.{String}
use package.text.Mathlib.Text.{◌==◌}
use vcissuer.Prelude.{
  ℕ, ◌≡◌, refl, false, some, List, [], ◌∷◌, ◌++◌, take, ltb, length, if◌then◌else◌,
}
use vcissuer.Text.{as_bytes}
use vcissuer.Oauth.{ok}
use vcissuer.Platform.{Platform}
use vcissuer.State.{VolatileState, initial}
use vcissuer.Hybrid.Cbor.{Cbor}
use vcissuer.Attest.{AppAttestConfig, Certificates, nonce_oid, aaguid_prod}
use vcissuer.Attest.Endpoints.{
  AppAttestRegisterRequest, app_attest_challenge, app_attest_register, verify_app_attest_assertion,
}
use vcissuer.Attest.Once.{to_challenge, attest_step}
use vcissuer.Attest.Registered.{Registered, app_attest_register-Registered}
use vcissuer.Tests.{platform, clock}
use vcissuer.Tests.Codec.{Item, text, bytes, array, map, done, next, codec, write}

abbrev zeros : List ℕ
zeros = 0 ∷ 0 ∷ 0 ∷ 0 ∷ 0 ∷ 0 ∷ 0 ∷ 0 ∷ 0 ∷ 0 ∷ 0 ∷ 0 ∷ 0 ∷ 0 ∷ 0 ∷ 0 ∷ []

-- A digest of 32 bytes.
abbrev device : Platform String
device = record platform { sha256 = λ bytes. take 32 (bytes ++ (zeros ++ zeros)) }

abbrev key_text : String
key_text = "0123456789abcdef0123456789abcdef"

abbrev auth_data : ℕ → List ℕ
auth_data count =
    device.sha256 (as_bytes "app")
    ++ (0 ∷ 0 ∷ 0 ∷ 0 ∷ count ∷ [] ++ (aaguid_prod ++ (0 ∷ 32 ∷ [] ++ as_bytes key_text)))

abbrev attestation : Item
attestation = map (
    next (text "fmt") (
      next (text "apple-appattest") (
        next (text "attStmt") (
          next
            (map (
              next (text "x5c")
                (next (array (next (bytes (1 ∷ [])) (next (bytes (2 ∷ [])) done))) done)))
            (next (text "authData") (next (bytes (auth_data 0)) done))))))

abbrev assertion : Item
assertion = map (
    next (text "signature")
      (next (bytes (1 ∷ [])) (next (text "authenticatorData") (next (bytes (auth_data 1)) done))))

abbrev certificates : Certificates device
certificates = record {
  Certificate = List ℕ;
  certificate_from_der = λ der. some der;
  tbs_to_der = λ cert. some cert;
  signature_raw_bytes = λ cert. cert;
  subject_public_key = λ cert. some (as_bytes key_text);
  not_before = λ cert. 0;
  not_after = λ cert. 1000;
  extensions = λ cert. some (
      (nonce_oid, 0x30 ∷ 0x24 ∷ 0xa1 ∷ 0x22 ∷ 4 ∷ 0x20 ∷ [] ++ device.sha256 (as_bytes "app"))
      ∷ []);
  P384Key = List ℕ;
  P384Signature = List ℕ;
  p384_key_from_sec1_bytes = λ point. some point;
  p384_signature_from_der = λ der. some der;
  p384_verify = λ key tbs signature. ltb 0 (length signature);
  signature_from_der = λ der. some der;
  base64_decode = λ s. some (if s == "attestation" then write attestation else as_bytes s);
  apple_root_ca_der = 3 ∷ [];
}

abbrev cbor : Cbor
cbor = codec (attestation ∷ assertion ∷ [])

abbrev settings : AppAttestConfig
settings = record { app_ids = "other" ∷ "app" ∷ []; allow_development = false }

abbrev request : AppAttestRegisterRequest
request = record { key_id = key_text; attestation = "attestation"; challenge = "c" }

abbrev challenged : VolatileState String
challenged = (app_attest_challenge (some settings) clock "c" initial).1

abbrev registered : VolatileState String
registered =
    (app_attest_register device certificates cbor (some settings) request clock challenged).1

registers :
    app_attest_register device certificates cbor (some settings) request clock challenged
    ≡ (ok tt, registered)
unfolding vcissuer.Flow.step vcissuer.State.initial vcissuer.Table.lookup vcissuer.Table.insert
    vcissuer.Table.remove vcissuer.Table.find_value vcissuer.Table.has vcissuer.Table.add
    vcissuer.Text.as_bytes vcissuer.Text.is_empty vcissuer.Text.split
    vcissuer.Text.split_ascii_whitespace vcissuer.Text.trim_end_slashes vcissuer.Text.strip_prefix
    vcissuer.Proof.Jws.unix_time vcissuer.Proof.Jws.three_parts vcissuer.Proof.Jws.compact_parts
    vcissuer.Oauth.oauth_error vcissuer.Attest.Endpoints.app_attest_challenge
    vcissuer.Attest.Endpoints.app_attest_register vcissuer.Attest.Endpoints.take_challenge
    vcissuer.Attest.Endpoints.verify_app_attest_assertion vcissuer.Attest.Endpoints.count_assertion
    vcissuer.Attest.Endpoints.count_up vcissuer.Attest.Verify.verify_attestation
    vcissuer.Attest.Verify.read_attestation vcissuer.Attest.Verify.verify_chain
    vcissuer.Attest.Verify.verify_leaf vcissuer.Attest.Verify.verify_auth_data
    vcissuer.Attest.Verify.verify_assertion vcissuer.Attest.Verify.read_assertion
    vcissuer.Attest.u32_at vcissuer.Attest.u16_at vcissuer.Attest.cbor_get vcissuer.Attest.cbor_text
    vcissuer.Attest.cbor_bytes vcissuer.Attest.is_text vcissuer.Attest.app_id_for_rp_id_hash
    vcissuer.Attest.spki_point vcissuer.Attest.verify_p384_issued vcissuer.Attest.within_validity
    vcissuer.Attest.leaf_nonce vcissuer.Attest.Endpoints.not_enabled
    vcissuer.Attest.Endpoints.bad_request vcissuer.Table.retain vcissuer.Tests.Codec.chain
    vcissuer.Tests.Codec.entry_chain vcissuer.Tests.Codec.head vcissuer.Tests.Codec.count
    vcissuer.Tests.Codec.write vcissuer.Tests.Codec.items vcissuer.Tests.Codec.entries
    vcissuer.Tests.Codec.read
registers = refl

app_attest_register-Registered_example :
    Registered device certificates cbor (some settings) request clock challenged registered
app_attest_register-Registered_example =
    app_attest_register-Registered device certificates cbor (some settings) request clock challenged
      registered registers

abbrev asserted : VolatileState String
asserted =
    (verify_app_attest_assertion device certificates cbor key_text (write assertion) (7 ∷ [])
      registered).1

abbrev later : VolatileState String
later = attest_step device certificates cbor (some settings) asserted (to_challenge clock "d")
