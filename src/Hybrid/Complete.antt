-- ===== src/Hybrid/Complete.antt =====
-- The signed bytes: when they exist, and how long they are.
use mathlib.Core.Path.{subst}
use vcissuer.Prelude.{
  ℕ, ◌+◌, ◌≡◌, refl, sym, ◌≤◌, ◌↔◌, Option, none, some, List, [], ◌∷◌, ◌++◌, length, length-append,
  ltb, unwrap_or, arith,
}
use vcissuer.Text.{as_bytes}
use vcissuer.Outcome.{ok, ◌>>=◌, ok_then, pass_then, then_ok, then_pass}
use vcissuer.Hybrid.{
  HybridPurpose, HybridContext, Coded, context_domain, domain, profile, id, no_bytes,
  max_field_bytes, max_nonce_bytes, require_nonempty_bounded, validate_optional, validate_common,
  validate_for, u32_to_be_bytes, u64_to_be_bytes, append_component, encode_context_field,
  encode_for, build_tbs,
}
use vcissuer.Hybrid.Bounds.{framed, Fits, length-u32_to_be_bytes, length-u64_to_be_bytes}
use vcissuer.Hybrid.Tbs.{Signed, context_fields, encode_for-Encoded, build_tbs-Signed}
use vcissuer.Hybrid.Injective.{HashLength, HasTypes}

bounded_of_required : (x : List ℕ) → require_nonempty_bounded x ≡ ok tt → length x ≤ max_field_bytes
unfolding require_nonempty_bounded
bounded_of_required x h = pass_then (no_bytes x) _ _ h λ given h0. ground arith

bounded_of_optional :
    (x : Option (List ℕ)) → validate_optional x ≡ ok tt → length (unwrap_or x []) ≤ max_field_bytes
unfolding validate_optional
bounded_of_optional none h = omega arith
bounded_of_optional (some x) h = bounded_of_required x h

bounded_of_hash : (x : Option (List ℕ)) → HashLength x → length (unwrap_or x []) ≤ 32
bounded_of_hash none h = omega arith
bounded_of_hash (some x) h = omega arith

-- The sizes of a context that passed its checks.
record Sizes (c : HybridContext) : Type 0 where
  wallet_size : length c.wallet_identity ≤ max_field_bytes
  issuer_size : length (unwrap_or c.issuer_identity []) ≤ max_field_bytes
  transaction_size : length (unwrap_or c.transaction_id []) ≤ max_field_bytes
  session_size : length (unwrap_or c.session_id []) ≤ max_field_bytes
  audience_size : length (unwrap_or c.audience []) ≤ max_field_bytes
  nonce_size : length c.nonce ≤ max_nonce_bytes

validate_common-Sizes : (c : HybridContext) → validate_common c ≡ ok tt → Sizes c
unfolding validate_common
validate_common-Sizes c h = ok_then (require_nonempty_bounded c.wallet_identity) _ h λ _ wallet h0.
    ok_then (validate_optional c.issuer_identity) _ h0 λ _ issuer h1.
      ok_then (validate_optional c.transaction_id) _ h1 λ _ transaction h2.
        ok_then (validate_optional c.session_id) _ h2 λ _ session h3.
          ok_then (validate_optional c.audience) _ h3 λ _ audience h4. record {
            wallet_size = bounded_of_required _ wallet;
            issuer_size = bounded_of_optional _ issuer;
            transaction_size = bounded_of_optional _ transaction;
            session_size = bounded_of_optional _ session;
            audience_size = bounded_of_optional _ audience;
            nonce_size = ground arith;
          }

abbrev Succeeds : {B : Type 0} → Coded B → Type 0
Succeeds {B} o = (b : B) × (o ≡ ok b)

Succeeds-then :
    {A B : Type 0} (o : Coded A) (f : A → Coded B)
    → Succeeds o
    → ((a : A) → Succeeds (f a))
    → Succeeds (o >>= f)
Succeeds-then o f done next = let (a, e) = done in let (b, h) = next a in (b, then_ok o f e h)

component-Fits :
    (output component : List ℕ) → Fits component → Succeeds (append_component output component)
unfolding append_component
component-Fits output component fits = (_, then_pass _ _ _ (ground arith) refl)

field-Fits :
    (output : List ℕ) (tag : ℕ) (value : Option (List ℕ))
    → Fits (unwrap_or value [])
    → Succeeds (encode_context_field output tag value)
unfolding encode_context_field
field-Fits output tag none fits = component-Fits _ _ fits
field-Fits output tag (some x) fits = component-Fits _ _ fits

u64-Fits : (n : ℕ) → Fits (u64_to_be_bytes n)
u64-Fits n = omega (arith, length-u64_to_be_bytes n)

encode_for-Succeeds :
    (purpose : HybridPurpose) (c : HybridContext)
    → HasTypes c
    → validate_common c ≡ ok tt
    → validate_for purpose c ≡ ok tt
    → Succeeds (encode_for purpose c)
unfolding encode_for
encode_for-Succeeds purpose c types common fields =
    let z = validate_common-Sizes c common in
    let hash = bounded_of_hash c.transcript_hash types.transcript_length in
    Succeeds-then _ _ (tt, common)
      λ _.
        Succeeds-then _ _ (tt, fields)
          λ _.
            Succeeds-then _ _
              (field-Fits _ 1 (some c.wallet_identity) (let s = z.wallet_size in omega arith))
              λ b1.
                Succeeds-then _ _
                  (field-Fits b1 2 c.issuer_identity (let s = z.issuer_size in omega arith))
                  λ b2.
                    Succeeds-then _ _
                      (field-Fits b2 3 (some (u64_to_be_bytes c.key_generation)) (u64-Fits _))
                      λ b3.
                        Succeeds-then _ _
                          (field-Fits b3 4 c.transaction_id
                            (let s = z.transaction_size in omega arith))
                          λ b4.
                            Succeeds-then _ _
                              (field-Fits b4 5 c.session_id (let s = z.session_size in omega arith))
                              λ b5.
                                Succeeds-then _ _
                                  (field-Fits b5 6 c.audience
                                    (let s = z.audience_size in omega arith))
                                  λ b6.
                                    Succeeds-then _ _
                                      (field-Fits b6 7 (some c.nonce)
                                        (let s = z.nonce_size in omega arith))
                                      λ b7.
                                        Succeeds-then _ _
                                          (field-Fits b7 8
                                            (some (u64_to_be_bytes c.created_at_epoch_seconds))
                                            (u64-Fits _))
                                          λ b8.
                                            Succeeds-then _ _
                                              (field-Fits b8 9
                                                (some (u64_to_be_bytes c.expires_at_epoch_seconds))
                                                (u64-Fits _))
                                              λ b9. field-Fits b9 10 c.transcript_hash (omega arith)

-- Bytes that are at most so many, and what is put together of them.
record Most (bytes : List ℕ) (bound : ℕ) : Type 0 where
  within : length bytes ≤ bound

framed-Most :
    (x rest : List ℕ) (a b : ℕ) → length x ≤ a → Most rest b → Most (framed x ++ rest) (4 + a + b)
framed-Most x rest a b p q =
    let within = q.within in
    record {
      within = omega (
        arith,
        length-append (framed x) rest,
        length-append (u32_to_be_bytes (length x)) x,
        length-u32_to_be_bytes (length x),
      );
    }

field-Most :
    (tag : ℕ) (x rest : List ℕ) (a b : ℕ)
    → length x ≤ a
    → Most rest b
    → Most (tag ∷ framed x ++ rest) (5 + a + b)
field-Most tag x rest a b p q =
    let whole = (framed-Most x rest a b p q).within in record { within = omega arith }

last-Most : (x : List ℕ) (a : ℕ) → length x ≤ a → Most (framed x) (4 + a)
last-Most x a p = record {
  within =
      omega
        (arith, length-append (u32_to_be_bytes (length x)) x, length-u32_to_be_bytes (length x));
}

append-Most : (x rest : List ℕ) (a b : ℕ) → length x ≤ a → Most rest b → Most (x ++ rest) (a + b)
append-Most x rest a b p q =
    let within = q.within in record { within = omega (arith, length-append x rest) }

u64_most : (n : ℕ) → length (u64_to_be_bytes n) ≤ 8
u64_most n = omega (arith, length-u64_to_be_bytes n)

context_most :
    (purpose : HybridPurpose) (c : HybridContext) {e : List ℕ}
    → HasTypes c
    → encode_for purpose c ≡ ok e
    → length e ≤ 20676
unfolding as_bytes
context_most purpose c {e} types h =
    let x = encode_for-Encoded purpose c h in
    let z = validate_common-Sizes c x.common in
    let hash = bounded_of_hash c.transcript_hash types.transcript_length in
    let last : Most (10 ∷ framed (unwrap_or c.transcript_hash [])) 37 =
      let l = (last-Most _ 32 hash).within in record { within = omega arith } in
    let bound : Most (as_bytes context_domain ++ context_fields c) 20676 =
      append-Most (as_bytes context_domain) _ 26 20650 (omega arith) (
        field-Most 1 c.wallet_identity _ 4096 16549 z.wallet_size (
          field-Most 2 (unwrap_or c.issuer_identity []) _ 4096 12448 z.issuer_size (
            field-Most 3 (u64_to_be_bytes c.key_generation) _ 8 12435 (u64_most _) (
              field-Most 4 (unwrap_or c.transaction_id []) _ 4096 8334 z.transaction_size (
                field-Most 5 (unwrap_or c.session_id []) _ 4096 4233 z.session_size (
                  field-Most 6 (unwrap_or c.audience []) _ 4096 132 z.audience_size (
                    field-Most 7 c.nonce _ 64 63 z.nonce_size (
                      field-Most 8 (u64_to_be_bytes c.created_at_epoch_seconds) _ 8 50 (u64_most _)
                        (field-Most 9 (u64_to_be_bytes c.expires_at_epoch_seconds) _ 8 37
                          (u64_most _) last))))))))) in
    subst (λ bytes. length bytes ≤ 20676) (sym x.laid_out) bound.within

id_short : (p : HybridPurpose) → length (as_bytes (id p)) ≤ 27
unfolding id as_bytes
id_short HybridPurpose.wallet_export_v1 = omega arith
id_short HybridPurpose.wallet_recovery_v1 = omega arith
id_short HybridPurpose.private_provider_message_v1 = omega arith
id_short HybridPurpose.test_sd_jwt_wrapper_v1 = omega arith
id_short HybridPurpose.test_mdoc_wrapper_v1 = omega arith

components_fit :
    (purpose : HybridPurpose) (encoded_context payload : List ℕ)
    → Fits encoded_context
    → Fits payload
    → Succeeds (
        append_component (as_bytes domain) (as_bytes profile) >>= λ b1.
        (append_component b1 (as_bytes (id purpose)) >>= λ b2.
        (append_component b2 encoded_context >>= λ b3. append_component b3 payload)))
unfolding as_bytes
components_fit purpose encoded_context payload p q =
    let name = id_short purpose in
    Succeeds-then _ _ (component-Fits _ (as_bytes profile) (omega arith)) λ b1.
      Succeeds-then _ _ (component-Fits b1 (as_bytes (id purpose)) (omega arith)) λ b2.
        Succeeds-then _ _ (component-Fits b2 encoded_context p) λ b3. component-Fits b3 payload q

Signed-most :
    (purpose : HybridPurpose) (c : HybridContext) (payload : List ℕ) {t : List ℕ}
    → HasTypes c
    → Signed purpose c payload t
    → length t ≤ 24864
unfolding as_bytes
Signed-most purpose c payload types x =
    let name = id_short purpose in
    let last = last-Most payload 4096 x.payload_bounded in
    let context = context_most purpose c types x.encoding in
    let bound = append-Most (as_bytes domain) _ 28 24836 (omega arith) (
      framed-Most (as_bytes profile) _ 21 24811 (omega arith) (
        framed-Most (as_bytes (id purpose)) _ 27 24780 name
          (framed-Most x.encoded_context _ 20676 4100 context last))) in
    subst (λ bytes. length bytes ≤ 24864) (sym x.laid_out) bound.within

-- The signed bytes exist exactly if the payload is within its bound and the context passes the checks
-- of its purpose: the width of a length field, `length_overflow`, is never exceeded. There are at most
-- 24864 of them. The context's numbers are `u64` and its hash has 32 bytes.
pub build_tbs_bounds :
    (purpose : HybridPurpose) (c : HybridContext) (payload : List ℕ)
    → HasTypes c
    → (((t : List ℕ) × (build_tbs purpose c payload ≡ ok t)) ↔ (
        length payload ≤ max_field_bytes
        × (validate_common c ≡ ok tt)
        × (validate_for purpose c ≡ ok tt)))
      × ((t : List ℕ) → build_tbs purpose c payload ≡ ok t → length t ≤ 24864)
unfolding build_tbs encode_for
build_tbs_bounds purpose c payload types = (
  (
    λ built.
        let (t, h) = built in
        pass_then (ltb max_field_bytes (length payload)) _ _ h λ small h0.
          ok_then (encode_for purpose c) _ h0 λ e q h1.
            ok_then (validate_common c) _ q λ _ common h2.
              ok_then (validate_for purpose c) _ h2 λ _ fields h3. (ground arith, common, fields),
    λ x.
        let (small, common, fields) = x in
        let (e, q) = encode_for-Succeeds purpose c types common fields in
        let short = context_most purpose c types q in
        let (t, built) = components_fit purpose e payload (omega arith) (omega arith) in
        (t, then_pass _ _ _ (ground arith) (then_ok _ _ q built)),
  ),
  λ t h. Signed-most purpose c payload types (build_tbs-Signed purpose c payload h),
)
