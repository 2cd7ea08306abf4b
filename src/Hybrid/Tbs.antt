-- ===== src/Hybrid/Tbs.antt =====
-- The bytes that the context and the whole envelope put under the signatures.
use mathlib.Core.List.{append_assoc}
use vcissuer.Prelude.{
  ℕ, ◌≡◌, sym, ap, ◌∙◌, ◌≤◌, Option, none, some, List, [], ◌∷◌, ◌++◌, length, ltb, unwrap_or, arith,
}
use vcissuer.Text.{as_bytes}
use vcissuer.Outcome.{ok, ◌>>=◌, ok_then, pass_then}
use vcissuer.Hybrid.{
  HybridPurpose, HybridContext, Coded, context_domain, domain, profile, id, max_field_bytes,
  validate_common, validate_for, u64_to_be_bytes, append_component, encode_context_field,
  encode_for, build_tbs,
}
use vcissuer.Hybrid.Bounds.{framed, Fits}

ok_inj : {x y : List ℕ} → let r : Coded (List ℕ) = ok x in r ≡ ok y → x ≡ y
ok_inj h = cc

append_component-ok :
    (output component : List ℕ) {r : List ℕ}
    → append_component output component ≡ ok r
    → Fits component × (r ≡ output ++ framed component)
unfolding append_component
append_component-ok output component h =
    pass_then (ltb 4294967295 (length component)) _ _ h
      λ small e. (ground arith, ok_inj (sym e) ∙ append_assoc output _ component)

encode_context_field-ok :
    (output : List ℕ) (tag : ℕ) (value : Option (List ℕ)) {r : List ℕ}
    → encode_context_field output tag value ≡ ok r
    → Fits (unwrap_or value []) × (r ≡ output ++ (tag ∷ framed (unwrap_or value [])))
unfolding encode_context_field
encode_context_field-ok output tag none h =
    let (fits, e) = append_component-ok _ _ h in (fits, e ∙ append_assoc output _ _)
encode_context_field-ok output tag (some value) h =
    let (fits, e) = append_component-ok _ _ h in (fits, e ∙ append_assoc output _ _)

-- The fields of a context after the domain, each with its tag and its length.
abbrev pub context_fields : HybridContext → List ℕ
context_fields c =
    1 ∷ framed c.wallet_identity
    ++ (2 ∷ framed (unwrap_or c.issuer_identity [])
        ++ (3 ∷ framed (u64_to_be_bytes c.key_generation)
            ++ (4 ∷ framed (unwrap_or c.transaction_id [])
                ++ (5 ∷ framed (unwrap_or c.session_id [])
                    ++ (6 ∷ framed (unwrap_or c.audience [])
                        ++ (7 ∷ framed c.nonce
                            ++ (8 ∷ framed (u64_to_be_bytes c.created_at_epoch_seconds)
                                ++ (9 ∷ framed (u64_to_be_bytes c.expires_at_epoch_seconds)
                                    ++ (10 ∷ framed (unwrap_or c.transcript_hash []))))))))))

-- Every field fits its length, and a context passed the checks.
pub record Encoded (c : HybridContext) (e : List ℕ) : Type 0 where
  pub common : validate_common c ≡ ok tt
  pub wallet_fits : Fits c.wallet_identity
  pub issuer_fits : Fits (unwrap_or c.issuer_identity [])
  pub key_fits : Fits (u64_to_be_bytes c.key_generation)
  pub transaction_fits : Fits (unwrap_or c.transaction_id [])
  pub session_fits : Fits (unwrap_or c.session_id [])
  pub audience_fits : Fits (unwrap_or c.audience [])
  pub nonce_fits : Fits c.nonce
  pub creation_fits : Fits (u64_to_be_bytes c.created_at_epoch_seconds)
  pub expiry_fits : Fits (u64_to_be_bytes c.expires_at_epoch_seconds)
  pub transcript_fits : Fits (unwrap_or c.transcript_hash [])
  pub laid_out : e ≡ as_bytes context_domain ++ context_fields c

-- What ends with `middle` and a rest, where `middle` is `front` and one field more.
abbrev Grows : List ℕ → List ℕ → List ℕ → Type 0
Grows front field middle =
    (end rest : List ℕ) → end ≡ middle ++ rest → end ≡ front ++ (field ++ rest)

grows : (front field middle : List ℕ) → middle ≡ front ++ field → Grows front field middle
grows front field middle e end rest h = h ∙ ap (λ m. m ++ rest) e ∙ append_assoc front field rest

-- A step that adds a field, with what follows as an argument.
field_then :
    {B : Type 0} {G : Type 0} (output : List ℕ) (tag : ℕ) (value : Option (List ℕ))
    (f : List ℕ → Coded B) {b : B}
    → (encode_context_field output tag value >>= f) ≡ ok b
    → ((r : List ℕ)
        → Fits (unwrap_or value [])
        → Grows output (tag ∷ framed (unwrap_or value [])) r
        → f r ≡ ok b
        → G)
    → G
field_then output tag value f h g = ok_then (encode_context_field output tag value) f h λ r q h1.
    let (fits, e) = encode_context_field-ok output tag value q in g r fits (grows output _ r e) h1

pub encode_for-Encoded :
    (purpose : HybridPurpose) (c : HybridContext) {e : List ℕ}
    → encode_for purpose c ≡ ok e
    → Encoded c e
unfolding encode_for
encode_for-Encoded purpose c h = ok_then (validate_common c) _ h λ u v h0.
    ok_then (validate_for purpose c) _ h0 λ _ _ h1.
      field_then _ 1 (some c.wallet_identity) _ h1 λ b1 f1 e1 h2.
        field_then b1 2 c.issuer_identity _ h2 λ b2 f2 e2 h3.
          field_then b2 3 (some (u64_to_be_bytes c.key_generation)) _ h3 λ b3 f3 e3 h4.
            field_then b3 4 c.transaction_id _ h4 λ b4 f4 e4 h5.
              field_then b4 5 c.session_id _ h5 λ b5 f5 e5 h6.
                field_then b5 6 c.audience _ h6 λ b6 f6 e6 h7.
                  field_then b6 7 (some c.nonce) _ h7 λ b7 f7 e7 h8.
                    field_then b7 8 (some (u64_to_be_bytes c.created_at_epoch_seconds)) _ h8
                      λ b8 f8 e8 h9.
                        field_then b8 9 (some (u64_to_be_bytes c.expires_at_epoch_seconds)) _ h9
                          λ b9 f9 e9 q10.
                            let (f10, e10) = encode_context_field-ok b9 10 c.transcript_hash q10 in
                            record {
                              common = v;
                              wallet_fits = f1;
                              issuer_fits = f2;
                              key_fits = f3;
                              transaction_fits = f4;
                              session_fits = f5;
                              audience_fits = f6;
                              nonce_fits = f7;
                              creation_fits = f8;
                              expiry_fits = f9;
                              transcript_fits = f10;
                              laid_out = e1 _ _ (
                                  e2 _ _ (
                                    e3 _ _
                                      (e4 _ _ (e5 _ _ (e6 _ _ (e7 _ _ (e8 _ _ (e9 _ _ e10))))))));
                            }

-- A component that is added, with what follows as an argument.
component_then :
    {B : Type 0} {G : Type 0} (output component : List ℕ) (f : List ℕ → Coded B) {b : B}
    → (append_component output component >>= f) ≡ ok b
    → ((r : List ℕ) → Fits component → Grows output (framed component) r → f r ≡ ok b → G)
    → G
component_then output component f h g = ok_then (append_component output component) f h λ r q h1.
    let (fits, e) = append_component-ok output component q in g r fits (grows output _ r e) h1

-- The signed bytes: the domain, and four components with their lengths.
pub record Signed (purpose : HybridPurpose) (c : HybridContext) (payload t : List ℕ) : Type 0 where
  pub encoded_context : List ℕ
  pub encoding : encode_for purpose c ≡ ok encoded_context
  pub profile_fits : Fits (as_bytes profile)
  pub purpose_fits : Fits (as_bytes (id purpose))
  pub context_fits : Fits encoded_context
  pub payload_fits : Fits payload
  pub payload_bounded : length payload ≤ max_field_bytes
  pub laid_out :
      t
      ≡ as_bytes domain
        ++ (framed (as_bytes profile)
            ++ (framed (as_bytes (id purpose)) ++ (framed encoded_context ++ framed payload)))

pub build_tbs-Signed :
    (purpose : HybridPurpose) (c : HybridContext) (payload : List ℕ) {t : List ℕ}
    → build_tbs purpose c payload ≡ ok t
    → Signed purpose c payload t
unfolding build_tbs
build_tbs-Signed purpose c payload h =
    pass_then (ltb max_field_bytes (length payload)) _ _ h λ small h0.
      ok_then (encode_for purpose c) _ h0 λ encoded q h1.
        component_then _ (as_bytes profile) _ h1 λ b1 f1 e1 h2.
          component_then b1 (as_bytes (id purpose)) _ h2 λ b2 f2 e2 h3.
            component_then b2 encoded _ h3 λ b3 f3 e3 q4.
              let (f4, e4) = append_component-ok b3 payload q4 in
              record {
                encoded_context = encoded;
                encoding = q;
                profile_fits = f1;
                purpose_fits = f2;
                context_fits = f3;
                payload_fits = f4;
                payload_bounded = ground arith;
                laid_out = e1 _ _ (e2 _ _ (e3 _ _ e4));
              }
