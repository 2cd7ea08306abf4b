-- ===== src/Hybrid/Decode/Payload.antt =====
-- The committed payload in the signed bytes.
use vcissuer.Prelude.{◌≡◌, refl, List, map, ℕ}
use vcissuer.Outcome.{ok, some_then}
use vcissuer.Hybrid.{UnsignedEnvelope}
use vcissuer.Hybrid.Injective.{HasTypes, build_tbs_inj}
use vcissuer.Hybrid.Cbor.{Cbor, Patterns, ReadsBack}
use vcissuer.Hybrid.Envelope.{payload_value, committed_payload, tbs}
use vcissuer.Hybrid.Decode.Contents.{byte_array_iff}

map_inj :
    (p : Cbor) → Patterns p → (xs ys : List (p.Value × p.Value)) → p.map xs ≡ p.map ys → xs ≡ ys
map_inj p patterns xs ys e =
    let a = (patterns.map-iff (p.map xs) xs).1 refl in
    let b = (patterns.map-iff (p.map xs) ys).1 e in cc

bytes_inj : (p : Cbor) → Patterns p → (x y : List ℕ) → p.bytes x ≡ p.bytes y → x ≡ y
bytes_inj p patterns x y e =
    let a = (patterns.bytes-iff (p.bytes x) x).1 refl in
    let b = (patterns.bytes-iff (p.bytes x) y).1 e in cc

array_inj :
    (p : Cbor)
    → Patterns p
    → (xs ys : List (List ℕ)) → p.array (map p.bytes xs) ≡ p.array (map p.bytes ys)
    → xs ≡ ys
array_inj p patterns xs ys e =
    let a = (byte_array_iff p patterns (p.array (map p.bytes xs)) xs).1 refl in
    let b = (byte_array_iff p patterns (p.array (map p.bytes xs)) ys).1 e in cc

payload_value_inj :
    (p : Cbor)
    → Patterns p
    → (u v : UnsignedEnvelope) → payload_value p u ≡ payload_value p v
    → (u.payload ≡ v.payload) × (u.disclosures ≡ v.disclosures)
payload_value_inj p patterns u v e =
    let entries = map_inj p patterns _ _ e in
    (
      bytes_inj p patterns u.payload v.payload cc,
      array_inj p patterns u.disclosures v.disclosures cc,
    )

-- Envelopes that sign the same bytes have the same purpose, context, payload and disclosures, so that
-- a signature cannot be moved to another credential, purpose or context. Of their key identifiers and
-- of the generation outside of the context nothing is said. The contexts have their types, and the
-- package reads back what it wrote for the two payloads.
pub tbs_inj :
    (p : Cbor) (u v : UnsignedEnvelope) {t : List ℕ}
    → Patterns p
    → HasTypes u.context
    → HasTypes v.context
    → ReadsBack p (payload_value p u)
    → ReadsBack p (payload_value p v)
    → tbs p u ≡ ok t
    → tbs p v ≡ ok t
    → (u.purpose ≡ v.purpose)
      × (u.context ≡ v.context)
      × (u.payload ≡ v.payload)
      × (u.disclosures ≡ v.disclosures)
unfolding tbs committed_payload
tbs_inj p u v patterns types types' reads reads' hu hv =
    some_then (p.into_writer (payload_value p u)) _ _ hu λ w q built.
      some_then (p.into_writer (payload_value p v)) _ _ hv λ w' q' built'.
        let (purposes, contexts, same) =
          build_tbs_inj u.purpose v.purpose u.context v.context w w' types types' built built' in
        let r = reads w q in
        let r' = reads' w' q' in
        let values : payload_value p u ≡ payload_value p v = cc in
        let (payloads, disclosures) = payload_value_inj p patterns u v values in
        (purposes, contexts, payloads, disclosures)
