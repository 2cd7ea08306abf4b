-- ===== src/Hybrid/Decode/Contents.antt =====
-- The eleven fields of an envelope and its contents.
use Prim.Native.String.{String}
use mathlib.Core.Path.{subst}
use package.text.Mathlib.Text.{◌==◌}
use package.text.Mathlib.TextEquality.{eq_iff}
use vcissuer.Prelude.{
  ℕ, suc, ◌≡◌, refl, sym, ap, ◌∙◌, ◌≤◌, ◌↔◌, true, false, not, ◌||◌, List, [], ◌∷◌, map, length,
  arith, u64_max, ◌==◌ as nat_eq,
}
use vcissuer.Outcome.{ok, ok_or-eq-ok, ok_then, some_then, pass_then, then_ok, then_some, then_pass}
use vcissuer.Hybrid.{
  HybridPurpose, HybridContext, UnsignedEnvelope, EnvelopeSignatures, version, profile, format, id,
  try_from, require_nonempty_bounded,
}
use vcissuer.Hybrid.Purposes.{try_from_iff}
use vcissuer.Hybrid.Cbor.{Cbor, Patterns}
use vcissuer.Hybrid.Envelope.{
  read_integer, read_text, read_bytes, all_bytes, byte_array, each_bounded, kid_bounded,
  wrong_lengths, envelope_value,
}
use vcissuer.Hybrid.Decode.{same_purpose, read_envelope}
use vcissuer.Hybrid.Decode.Fields.{number_from, pairs_from}

pub same_purpose_iff : (p : Cbor) (a b : HybridPurpose) → (same_purpose p a b ≡ true) ↔ (a ≡ b)
unfolding same_purpose
same_purpose_iff p a b = ground arith

module _ (p : Cbor) where
  -- What both directions require of an envelope with its signatures.
  pub record Admissible (u : UnsignedEnvelope) (s : EnvelopeSignatures) : Type 0 where
    pub lengths : wrong_lengths p s ≡ false
    pub payload_bounded : require_nonempty_bounded u.payload ≡ ok tt
    pub disclosures_bounded : each_bounded p u.disclosures ≡ ok tt
    pub classical_kid_bounded : kid_bounded p u.classical_kid ≡ ok tt
    pub pq_kid_bounded : kid_bounded p u.pq_kid ≡ ok tt
    pub generation_given : nat_eq u.generation 0 ≡ false
    pub generation_u64 : u.generation ≤ u64_max

  abbrev pub contents : UnsignedEnvelope → EnvelopeSignatures → List p.Value
  contents u s =
      p.integer version
      ∷ p.text profile
      ∷ p.text (id u.purpose)
      ∷ p.text format
      ∷ p.bytes u.payload
      ∷ p.array (map p.bytes u.disclosures)
      ∷ p.text u.classical_kid
      ∷ p.text u.pq_kid
      ∷ p.integer u.generation
      ∷ p.bytes s.classical
      ∷ p.bytes s.post_quantum
      ∷ []

  pub envelope_value-contents :
      (u : UnsignedEnvelope) (s : EnvelopeSignatures)
      → envelope_value p u s ≡ p.map (pairs_from p 1 (contents u s))
  envelope_value-contents u s = refl

module _ (p : Cbor) (patterns : Patterns p) where
  pub read_integer_iff :
      (v : p.Value) (n : ℕ) → (read_integer p v ≡ ok n) ↔ ((v ≡ p.integer n) × (n ≤ u64_max))
  unfolding read_integer
  read_integer_iff v n = (
    λ h. (patterns.integer-iff v n).0 (ok_or-eq-ok _ _ h),
    λ e. rw ((patterns.integer-iff v n).1 e) refl,
  )

  pub read_text_iff : (v : p.Value) (s : String) → (read_text p v ≡ ok s) ↔ (v ≡ p.text s)
  unfolding read_text
  read_text_iff v s = (
    λ h. (patterns.text-iff v s).0 (ok_or-eq-ok _ _ h),
    λ e. rw ((patterns.text-iff v s).1 e) refl,
  )

  pub read_bytes_iff : (v : p.Value) (b : List ℕ) → (read_bytes p v ≡ ok b) ↔ (v ≡ p.bytes b)
  unfolding read_bytes
  read_bytes_iff v b = (
    λ h. (patterns.bytes-iff v b).0 (ok_or-eq-ok _ _ h),
    λ e. rw ((patterns.bytes-iff v b).1 e) refl,
  )

  all_bytes-map : (bs : List (List ℕ)) → all_bytes p (map p.bytes bs) ≡ ok bs
  unfolding all_bytes
  all_bytes-map [] = refl
  all_bytes-map (b ∷ bs) =
      then_ok _ _ ((read_bytes_iff (p.bytes b) b).1 refl) (then_ok _ _ (all_bytes-map bs) refl)

  map_of_all_bytes :
      (vs : List p.Value) (bs : List (List ℕ)) → all_bytes p vs ≡ ok bs → vs ≡ map p.bytes bs
  unfolding all_bytes
  map_of_all_bytes [] bs h = let e : bs ≡ [] = cc in rw e refl
  map_of_all_bytes (v ∷ vs) bs h = ok_then (read_bytes p v) _ h λ first q h0.
      ok_then (all_bytes p vs) _ h0 λ rest r h1.
        let e : bs ≡ first ∷ rest = cc in
        rw (e, (read_bytes_iff v first).0 q, map_of_all_bytes vs rest r) refl

  pub byte_array_iff :
      (v : p.Value) (bs : List (List ℕ)) → (byte_array p v ≡ ok bs) ↔ (v ≡ p.array (map p.bytes bs))
  unfolding byte_array
  byte_array_iff v bs = (
    λ h.
        some_then (p.as_array v) _ _ h
          λ vs q h0. (patterns.array-iff v vs).0 q ∙ ap p.array (map_of_all_bytes vs bs h0),
    λ e. then_some _ _ _ ((patterns.array-iff v _).1 e) (all_bytes-map bs),
  )

  pub read_envelope-contents :
      (u : UnsignedEnvelope) (s : EnvelopeSignatures)
      → Admissible p u s
      → read_envelope p (number_from 1 (contents p u s)) u.purpose u.context ≡ ok (u, s)
  unfolding read_envelope
  read_envelope-contents u s a = then_ok _ _ ((read_integer_iff _ version).1 (refl, omega arith)) (
      then_ok _ _ ((read_text_iff _ profile).1 refl) (
        then_ok _ _ ((read_text_iff _ (id u.purpose)).1 refl) (
          then_ok _ _ ((try_from_iff (id u.purpose) u.purpose).1 refl) (
            then_ok _ _ ((read_text_iff _ format).1 refl) (
              then_pass _ _ _ (let e = (same_purpose_iff p u.purpose u.purpose).1 refl in rw e refl)
                (then_ok _ _ ((read_bytes_iff _ u.payload).1 refl) (
                  then_ok _ _ a.payload_bounded (
                    then_ok _ _ ((byte_array_iff _ u.disclosures).1 refl) (
                      then_ok _ _ a.disclosures_bounded (
                        then_ok _ _ ((read_text_iff _ u.classical_kid).1 refl) (
                          then_ok _ _ ((read_text_iff _ u.pq_kid).1 refl) (
                            then_ok _ _ a.classical_kid_bounded (
                              then_ok _ _ a.pq_kid_bounded (
                                then_ok _ _
                                  ((read_integer_iff _ u.generation).1 (refl, a.generation_u64))
                                  (then_pass _ _ _ a.generation_given (
                                    then_ok _ _ ((read_bytes_iff _ s.classical).1 refl) (
                                      then_ok _ _ ((read_bytes_iff _ s.post_quantum).1 refl)
                                        (then_pass _ _ _ a.lengths refl))))))))))))))))))

-- The first of the values that there are.
pub more_then :
    {A : Type 0} {G : Type 0} (n : ℕ) (vs : List A)
    → length vs ≡ suc n
    → ((v : A) → (rest : List A) → vs ≡ v ∷ rest → length rest ≡ n → G)
    → G
more_then n [] e g = absurd (omega arith)
more_then n (v ∷ rest) e g = g v rest refl (omega arith)

pub no_more : {A : Type 0} (vs : List A) → length vs ≡ 0 → vs ≡ []
no_more [] e = refl
no_more (v ∷ vs) e = absurd (omega arith)

module _ (p : Cbor) (patterns : Patterns p) where
  abbrev pub Said :
      List p.Value → HybridPurpose → HybridContext → UnsignedEnvelope → EnvelopeSignatures → Type 0
  Said vs purpose context u s =
      (vs ≡ contents p u s) × Admissible p u s × (u.purpose ≡ purpose) × (u.context ≡ context)

  contents_of_values :
      (v0 v1 v2 v3 v4 v5 v6 v7 v8 v9 v10 : p.Value) (purpose : HybridPurpose)
      (context : HybridContext) (u : UnsignedEnvelope) (s : EnvelopeSignatures)
      → let vs : List p.Value = v0 ∷ v1 ∷ v2 ∷ v3 ∷ v4 ∷ v5 ∷ v6 ∷ v7 ∷ v8 ∷ v9 ∷ v10 ∷ [] in
        read_envelope p (number_from 1 vs) purpose context ≡ ok (u, s) → Said vs purpose context u s
  unfolding read_envelope
  contents_of_values v0 v1 v2 v3 v4 v5 v6 v7 v8 v9 v10 purpose context u s h =
      ok_then (read_integer p v0) _ h λ a0 q0 h0. ok_then (read_text p v1) _ h0 λ a1 q1 h1.
        ok_then (read_text p v2) _ h1 λ a2 q2 h2. ok_then (try_from a2) _ h2 λ pu q h3.
          ok_then (read_text p v3) _ h3 λ a3 q3 h4.
            pass_then
              (not (nat_eq a0 version)
                || not (a1 == profile)
                || not (same_purpose p pu purpose)
                || not (a3 == format))
              _ _ h4
              λ t h5. ok_then (read_bytes p v4) _ h5 λ a4 q4 h6.
                ok_then (require_nonempty_bounded a4) _ h6 λ _ payload_ok h7.
                  ok_then (byte_array p v5) _ h7 λ a5 q5 h8.
                    ok_then (each_bounded p a5) _ h8 λ _ disclosures_ok h9.
                      ok_then (read_text p v6) _ h9 λ a6 q6 h10.
                        ok_then (read_text p v7) _ h10 λ a7 q7 h11.
                          ok_then (kid_bounded p a6) _ h11 λ _ classical_ok h12.
                            ok_then (kid_bounded p a7) _ h12 λ _ pq_ok h13.
                              ok_then (read_integer p v8) _ h13 λ a8 q8 h14.
                                pass_then (nat_eq a8 0) _ _ h14 λ given h15.
                                  ok_then (read_bytes p v9) _ h15 λ a9 q9 h16.
                                    ok_then (read_bytes p v10) _ h16 λ a10 q10 h17.
                                      let signatures : EnvelopeSignatures = record {
                                        classical = a9;
                                        post_quantum = a10;
                                      } in
                                      pass_then (wrong_lengths p signatures) _ _ h17
                                        λ lengths_ok h18.
                                          let unsigned : UnsignedEnvelope = record {
                                            purpose = pu;
                                            context = context;
                                            payload = a4;
                                            disclosures = a5;
                                            classical_kid = a6;
                                            pq_kid = a7;
                                            generation = a8;
                                          } in
                                          let same : unsigned ≡ u = cc in
                                          let same' : signatures ≡ s = cc in
                                          let (is_version, _) =
                                            (read_integer_iff p patterns v0 a0).0 q0 in
                                          let (is_generation, generation_small) =
                                            (read_integer_iff p patterns v8 a8).0 q8 in
                                          let one : a0 ≡ version = ground arith in
                                          let two : a1 ≡ profile =
                                            (eq_iff a1 profile).0 (ground arith) in
                                          let three : a2 ≡ id pu = (try_from_iff a2 pu).0 q in
                                          let four : a3 ≡ format =
                                            (eq_iff a3 format).0 (ground arith) in
                                          let five : pu ≡ purpose =
                                            (same_purpose_iff p pu purpose).0 (ground arith) in
                                          let admissible : Admissible p unsigned signatures =
                                            record {
                                              lengths = lengths_ok;
                                              payload_bounded = payload_ok;
                                              disclosures_bounded = disclosures_ok;
                                              classical_kid_bounded = classical_ok;
                                              pq_kid_bounded = pq_ok;
                                              generation_given = given;
                                              generation_u64 = generation_small;
                                            } in
                                          let b1 = (read_text_iff p patterns v1 a1).0 q1 in
                                          let b2 = (read_text_iff p patterns v2 a2).0 q2 in
                                          let b3 = (read_text_iff p patterns v3 a3).0 q3 in
                                          let b4 = (read_bytes_iff p patterns v4 a4).0 q4 in
                                          let b5 = (byte_array_iff p patterns v5 a5).0 q5 in
                                          let b6 = (read_text_iff p patterns v6 a6).0 q6 in
                                          let b7 = (read_text_iff p patterns v7 a7).0 q7 in
                                          let b9 = (read_bytes_iff p patterns v9 a9).0 q9 in
                                          let b10 = (read_bytes_iff p patterns v10 a10).0 q10 in
                                          let vs : List p.Value =
                                            v0 ∷ v1 ∷ v2 ∷ v3 ∷ v4 ∷ v5 ∷ v6 ∷ v7 ∷ v8 ∷ v9 ∷ v10
                                            ∷ [] in
                                          let listed : vs ≡ contents p unsigned signatures = cc in
                                          subst (Said vs purpose context u) same' (
                                            subst (λ x. Said vs purpose context x signatures) same
                                              (listed, admissible, five, refl))

  -- Fields are read as an envelope exactly if they are its contents, and the envelope is admissible.
  pub read_envelope_iff :
      (vs : List p.Value) (purpose : HybridPurpose) (context : HybridContext) (u : UnsignedEnvelope)
      (s : EnvelopeSignatures)
      → length vs ≡ 11
      → (read_envelope p (number_from 1 vs) purpose context ≡ ok (u, s))
        ↔ Said vs purpose context u s
  read_envelope_iff vs purpose context u s e = (
    λ h. more_then 10 vs e λ v0 r0 e0 n0. more_then 9 r0 n0 λ v1 r1 e1 n1.
        more_then 8 r1 n1 λ v2 r2 e2 n2. more_then 7 r2 n2 λ v3 r3 e3 n3.
          more_then 6 r3 n3 λ v4 r4 e4 n4. more_then 5 r4 n4 λ v5 r5 e5 n5.
            more_then 4 r5 n5 λ v6 r6 e6 n6. more_then 3 r6 n6 λ v7 r7 e7 n7.
              more_then 2 r7 n7 λ v8 r8 e8 n8. more_then 1 r8 n8 λ v9 r9 e9 n9.
                more_then 0 r9 n9 λ v10 r10 e10 n10.
                  let all : vs ≡ v0 ∷ v1 ∷ v2 ∷ v3 ∷ v4 ∷ v5 ∷ v6 ∷ v7 ∷ v8 ∷ v9 ∷ v10 ∷ [] =
                    let last = no_more r10 n10 in cc in
                  subst (λ x. Said x purpose context u s) (sym all)
                    (contents_of_values v0 v1 v2 v3 v4 v5 v6 v7 v8 v9 v10 purpose context u s
                      (ap (λ x. read_envelope p (number_from 1 x) purpose context) (sym all) ∙ h)),
    λ x.
        let (listed, admissible, same, same') = x in
        rw (listed, sym same, sym same') (read_envelope-contents p patterns u s admissible),
  )
