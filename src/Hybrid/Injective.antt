-- ===== src/Hybrid/Injective.antt =====
-- Reading back the components of the signed bytes.
use mathlib.Core.List.{append-nil}
use vcissuer.Prelude.{
  ℕ, ◌≡◌, refl, sym, ap, ◌∙◌, ◌≤◌, Option, none, some, List, [], ◌∷◌, length, unwrap_or, u64_max,
  arith, ◌==◌, if◌then◌else◌,
}
use vcissuer.Text.{as_bytes}
use vcissuer.Outcome.{ok, ok_then}
use vcissuer.Hybrid.{
  HybridPurpose, wallet_export_v1, wallet_recovery_v1, private_provider_message_v1,
  test_sd_jwt_wrapper_v1, test_mdoc_wrapper_v1, HybridContext, context_domain, domain, id,
  require_nonempty_bounded, validate_optional, validate_common, encode_for, build_tbs,
}
use vcissuer.Hybrid.Bounds.{framed_split, append_split, u64_to_be_bytes_inj}
use vcissuer.Hybrid.Tbs.{encode_for-Encoded, build_tbs-Signed}

-- What the types of the fields say: numbers are `u64` and a transcript hash has 32 bytes.
abbrev pub HashLength : Option (List ℕ) → Type 0
HashLength none = Unit {0}
HashLength (some hash) = length hash ≡ 32

pub record HasTypes (c : HybridContext) : Type 0 where
  pub key_generation_u64 : c.key_generation ≤ u64_max
  pub created_at_u64 : c.created_at_epoch_seconds ≤ u64_max
  pub expires_at_u64 : c.expires_at_epoch_seconds ≤ u64_max
  pub transcript_length : HashLength c.transcript_hash

-- An optional field that was checked is not an empty one.
optional_inj :
    (x y : Option (List ℕ))
    → validate_optional x ≡ ok tt
    → validate_optional y ≡ ok tt
    → unwrap_or x [] ≡ unwrap_or y []
    → x ≡ y
unfolding validate_optional require_nonempty_bounded
optional_inj none none p q e = refl
optional_inj none (some []) p q e = absurd cc
optional_inj none (some (b ∷ rest)) p q e = absurd cc
optional_inj (some []) y p q e = absurd cc
optional_inj (some (a ∷ xs)) none p q e = absurd cc
optional_inj (some (a ∷ xs)) (some ys) p q e = cc

hash_inj :
    (x y : Option (List ℕ)) → HashLength x → HashLength y → unwrap_or x [] ≡ unwrap_or y [] → x ≡ y
hash_inj none none p q e = refl
hash_inj none (some ys) p q e = let s : length ys ≡ 0 = rw (← e) refl in absurd (omega arith)
hash_inj (some xs) none p q e = let s : length xs ≡ 0 = rw e refl in absurd (omega arith)
hash_inj (some xs) (some ys) p q e = cc

record Checked (c : HybridContext) : Type 0 where
  issuer_ok : validate_optional c.issuer_identity ≡ ok tt
  transaction_ok : validate_optional c.transaction_id ≡ ok tt
  session_ok : validate_optional c.session_id ≡ ok tt
  audience_ok : validate_optional c.audience ≡ ok tt

validate_common-Checked : (c : HybridContext) → validate_common c ≡ ok tt → Checked c
unfolding validate_common
validate_common-Checked c h = ok_then (require_nonempty_bounded c.wallet_identity) _ h λ _ _ h0.
    ok_then (validate_optional c.issuer_identity) _ h0 λ _ issuer h1.
      ok_then (validate_optional c.transaction_id) _ h1 λ _ transaction h2.
        ok_then (validate_optional c.session_id) _ h2 λ _ session h3.
          ok_then (validate_optional c.audience) _ h3 λ _ audience h4. record {
            issuer_ok = issuer;
            transaction_ok = transaction;
            session_ok = session;
            audience_ok = audience;
          }

tail_eq : {a b : ℕ} {xs ys : List ℕ} → a ∷ xs ≡ b ∷ ys → xs ≡ ys
tail_eq e = cc

-- Two contexts with the same bytes are the same context, also under different purposes.
pub encode_for_inj :
    (p q : HybridPurpose) (c d : HybridContext) {e : List ℕ}
    → HasTypes c
    → HasTypes d
    → encode_for p c ≡ ok e
    → encode_for q d ≡ ok e
    → c ≡ d
encode_for_inj p q c d types types' hc hd =
    let x = encode_for-Encoded p c hc in
    let y = encode_for-Encoded q d hd in
    let checked = validate_common-Checked c x.common in
    let checked' = validate_common-Checked d y.common in
    let (_, r0) =
      append_split (as_bytes context_domain) (as_bytes context_domain) _ _ refl
        (sym x.laid_out ∙ y.laid_out) in
    let (wallet, r1) = framed_split _ _ _ _ x.wallet_fits y.wallet_fits (tail_eq r0) in
    let (issuer, r2) = framed_split _ _ _ _ x.issuer_fits y.issuer_fits (tail_eq r1) in
    let (key, r3) = framed_split _ _ _ _ x.key_fits y.key_fits (tail_eq r2) in
    let (transaction, r4) =
      framed_split _ _ _ _ x.transaction_fits y.transaction_fits (tail_eq r3) in
    let (session, r5) = framed_split _ _ _ _ x.session_fits y.session_fits (tail_eq r4) in
    let (audience, r6) = framed_split _ _ _ _ x.audience_fits y.audience_fits (tail_eq r5) in
    let (nonce, r7) = framed_split _ _ _ _ x.nonce_fits y.nonce_fits (tail_eq r6) in
    let (creation, r8) = framed_split _ _ _ _ x.creation_fits y.creation_fits (tail_eq r7) in
    let (expiry, r9) = framed_split _ _ _ _ x.expiry_fits y.expiry_fits (tail_eq r8) in
    let (transcript, _) =
      framed_split _ _ [] [] x.transcript_fits y.transcript_fits
        (append-nil _ ∙ tail_eq r9 ∙ sym (append-nil _)) in
    let issuer' = optional_inj _ _ checked.issuer_ok checked'.issuer_ok issuer in
    let transaction' =
      optional_inj _ _ checked.transaction_ok checked'.transaction_ok transaction in
    let session' = optional_inj _ _ checked.session_ok checked'.session_ok session in
    let audience' = optional_inj _ _ checked.audience_ok checked'.audience_ok audience in
    let key' = u64_to_be_bytes_inj _ _ types.key_generation_u64 types'.key_generation_u64 key in
    let creation' = u64_to_be_bytes_inj _ _ types.created_at_u64 types'.created_at_u64 creation in
    let expiry' = u64_to_be_bytes_inj _ _ types.expires_at_u64 types'.expires_at_u64 expiry in
    let transcript' = hash_inj _ _ types.transcript_length types'.transcript_length transcript in cc

-- The identifiers have different lengths.
purpose_of_length : ℕ → HybridPurpose
purpose_of_length n =
    if n == 16
    then wallet_export_v1
    else if n == 18
    then wallet_recovery_v1
    else if n == 27
    then private_provider_message_v1
    else if n == 22
    then test_sd_jwt_wrapper_v1
    else test_mdoc_wrapper_v1

purpose_of_length-id : (p : HybridPurpose) → purpose_of_length (length (as_bytes (id p))) ≡ p
unfolding purpose_of_length id as_bytes
purpose_of_length-id HybridPurpose.wallet_export_v1 = refl
purpose_of_length-id HybridPurpose.wallet_recovery_v1 = refl
purpose_of_length-id HybridPurpose.private_provider_message_v1 = refl
purpose_of_length-id HybridPurpose.test_sd_jwt_wrapper_v1 = refl
purpose_of_length-id HybridPurpose.test_mdoc_wrapper_v1 = refl

-- Signed bytes are of one purpose, one context and one payload: bytes that were signed for one are
-- never bytes for another. The contexts' numbers are `u64` and their hashes have 32 bytes.
pub build_tbs_inj :
    (p q : HybridPurpose) (c d : HybridContext) (x y : List ℕ) {t : List ℕ}
    → HasTypes c
    → HasTypes d
    → build_tbs p c x ≡ ok t
    → build_tbs q d y ≡ ok t
    → (p ≡ q) × (c ≡ d) × (x ≡ y)
build_tbs_inj p q c d x y types types' hc hd =
    let a = build_tbs-Signed p c x hc in
    let b = build_tbs-Signed q d y hd in
    let (_, r0) =
      append_split (as_bytes domain) (as_bytes domain) _ _ refl (sym a.laid_out ∙ b.laid_out) in
    let (_, r1) = framed_split _ _ _ _ a.profile_fits b.profile_fits r0 in
    let (purposes, r2) = framed_split _ _ _ _ a.purpose_fits b.purpose_fits r1 in
    let (contexts, r3) = framed_split _ _ _ _ a.context_fits b.context_fits r2 in
    let (payloads, _) =
      framed_split x y [] [] a.payload_fits b.payload_fits
        (append-nil _ ∙ r3 ∙ sym (append-nil _)) in
    let same : p ≡ q =
      sym (purpose_of_length-id p)
      ∙ ap (λ bytes. purpose_of_length (length bytes)) purposes
      ∙ purpose_of_length-id q in
    let encoding' : encode_for q d ≡ ok a.encoded_context = rw contexts b.encoding in
    (same, encode_for_inj p q c d types types' a.encoding encoding', payloads)
