-- ===== src/Hybrid/Signer/Store.antt =====
-- The record of the post-quantum key: written and read.
use vcissuer.Prelude.{
  ℕ, zero, suc, ◌+◌, ◌-◌, ◌≡◌, refl, sym, ap, ◌∙◌, ◌≤◌, some, List, [], ◌∷◌, ◌++◌, length, take,
  drop, length-append, get_elem?, unwrap_or, false, not, ◌||◌, arith, u64_max, ◌==◌ as nat_eq,
}
use mathlib.Core.List.{append_assoc}
use vcissuer.Outcome.{ok, some_then, pass_then, then_some, then_pass}
use vcissuer.Attest.{range, u32_at}
use vcissuer.Hybrid.{public_key_bytes, u32_to_be_bytes, u64_to_be_bytes}
use vcissuer.Hybrid.Bounds.{length-u64_to_be_bytes}
use vcissuer.Hybrid.Signer.{
  Custody, StoredKey, Kept, store_version, nonce_bytes, secret_key_bytes, u64_at, persist_key,
  load_stored_key,
}

take-append : (xs ys : List ℕ) (n : ℕ) → length xs ≡ n → take n (xs ++ ys) ≡ xs
take-append [] ys zero h = refl
take-append (x ∷ xs) ys (suc n) h = ap (λ r. x ∷ r) (take-append xs ys n (omega arith))
take-append [] ys (suc n) h = absurd (omega arith)
take-append (x ∷ xs) ys zero h = absurd (omega arith)

drop-append : (xs ys : List ℕ) (n : ℕ) → length xs ≡ n → drop n (xs ++ ys) ≡ ys
drop-append [] ys zero h = refl
drop-append (x ∷ xs) ys (suc n) h = drop-append xs ys n (omega arith)
drop-append [] ys (suc n) h = absurd (omega arith)
drop-append (x ∷ xs) ys zero h = absurd (omega arith)

-- The middle of three parts.
range_middle :
    (xs ys zs : List ℕ) (from to : ℕ)
    → length xs ≡ from
    → length ys ≡ to - from
    → range from to ((xs ++ ys) ++ zs) ≡ ys
range_middle xs ys zs from to p q =
    ap (range from to) (append_assoc xs ys zs)
    ∙ (ap (take (to - from)) (drop-append xs (ys ++ zs) from p) ∙ take-append ys zs (to - from) q)

abbrev layout : ℕ → List ℕ → List ℕ → List ℕ → List ℕ → List ℕ
layout generation hash nonce public_key ciphertext =
    store_version ∷ (u64_to_be_bytes generation ++ hash ++ nonce ++ public_key ++ ciphertext)

-- What was encrypted is decrypted, with sixteen more bytes for the tag.
abbrev pub Unwraps : Custody → Type 0
Unwraps custody =
    (key nonce message ciphertext : List ℕ)
    → custody.encrypt key nonce message ≡ some ciphertext
    → (custody.decrypt key nonce ciphertext ≡ some message)
      × (length ciphertext ≡ length message + 16)

module _ (generation : ℕ) (hash nonce public_key ciphertext : List ℕ) (hash_32 : length hash ≡ 32)
    (nonce_12 : length nonce ≡ 12) (public_1952 : length public_key ≡ 1952) where
  header : List ℕ
  header = store_version ∷ u64_to_be_bytes generation

  length-header : length header ≡ 9
  unfolding header
  length-header = omega (arith, length-u64_to_be_bytes generation)

  up_to_nonce : List ℕ
  unfolding header
  up_to_nonce = header ++ hash ++ nonce

  length-layout :
      length (layout generation hash nonce public_key ciphertext) ≡ 2005 + length ciphertext
  length-layout = omega (
    arith,
    length-u64_to_be_bytes generation,
    length-append (u64_to_be_bytes generation ++ hash ++ nonce ++ public_key) ciphertext,
    length-append (u64_to_be_bytes generation ++ hash ++ nonce) public_key,
    length-append (u64_to_be_bytes generation ++ hash) nonce,
    length-append (u64_to_be_bytes generation) hash,
  )

  length-up_to_nonce : length up_to_nonce ≡ 53
  unfolding up_to_nonce
  length-up_to_nonce =
      omega (arith, length-append (header ++ hash) nonce, length-append header hash, length-header)

  generation_at :
      generation ≤ u64_max
      → u64_at (layout generation hash nonce public_key ciphertext) 1 ≡ generation
  unfolding u64_at u32_at u64_to_be_bytes u32_to_be_bytes
  generation_at small = omega arith

  hash_at : range 9 41 (layout generation hash nonce public_key ciphertext) ≡ hash
  unfolding header
  hash_at =
      ap (range 9 41) (
        append_assoc (header ++ hash ++ nonce) public_key ciphertext
        ∙ append_assoc (header ++ hash) nonce (public_key ++ ciphertext))
      ∙ range_middle header hash (nonce ++ (public_key ++ ciphertext)) 9 41 length-header hash_32

  nonce_at : range 41 53 (layout generation hash nonce public_key ciphertext) ≡ nonce
  unfolding header
  nonce_at =
      ap (range 41 53) (append_assoc (header ++ hash ++ nonce) public_key ciphertext)
      ∙ range_middle (header ++ hash) nonce (public_key ++ ciphertext) 41 53
          (omega (arith, length-append header hash, length-header)) nonce_12

  public_at : range 53 2005 (layout generation hash nonce public_key ciphertext) ≡ public_key
  unfolding up_to_nonce header
  public_at = range_middle up_to_nonce public_key ciphertext 53 2005 length-up_to_nonce public_1952

  ciphertext_at : drop 2005 (layout generation hash nonce public_key ciphertext) ≡ ciphertext
  unfolding up_to_nonce header
  ciphertext_at =
      drop-append (up_to_nonce ++ public_key) ciphertext 2005
        (omega (arith, length-append up_to_nonce public_key, length-up_to_nonce))

-- A key that was stored is loaded as it was stored, with its generation and the hash of the classical
-- key's identifier. AES-GCM decrypts what it encrypted and adds sixteen bytes; the generation is a
-- `u64`, and the hash, the nonce and the keys have their lengths.
pub persist_key-load :
    (custody : Custody) (wrapping_key : List ℕ) (generation : ℕ)
    (hash public_key secret_key nonce encoded : List ℕ)
    → Unwraps custody
    → generation ≤ u64_max
    → length hash ≡ 32
    → length nonce ≡ nonce_bytes
    → length public_key ≡ public_key_bytes
    → length secret_key ≡ secret_key_bytes
    → persist_key custody wrapping_key generation hash public_key secret_key nonce ≡ ok encoded
    → load_stored_key custody (some encoded) wrapping_key
      ≡ ok (record {
        generation = generation;
        classical_kid_hash = hash;
        public_key = public_key;
        secret_key = secret_key;
      })
unfolding persist_key load_stored_key u64_at u32_at
persist_key-load custody wrapping_key generation hash public_key secret_key nonce encoded unwraps
      small hash_32 nonce_12 public_1952 secret_4032 h =
    some_then (custody.encrypt wrapping_key nonce secret_key) _ _ h λ ciphertext q h0.
      pass_then (not (custody.replaces (layout generation hash nonce public_key ciphertext))) _ _ h0
        λ t h1.
          let e : layout generation hash nonce public_key ciphertext ≡ encoded = cc in
          let (opened, longer) = unwraps wrapping_key nonce secret_key ciphertext q in
          let n =
            length-layout generation hash nonce public_key ciphertext hash_32 nonce_12
              public_1952 in
          let n' =
            nonce_at generation hash nonce public_key ciphertext hash_32 nonce_12 public_1952 in
          let c' =
            ciphertext_at generation hash nonce public_key ciphertext hash_32 nonce_12
              public_1952 in
          let h' =
            hash_at generation hash nonce public_key ciphertext hash_32 nonce_12 public_1952 in
          let p' =
            public_at generation hash nonce public_key ciphertext hash_32 nonce_12 public_1952 in
          let g' =
            generation_at generation hash nonce public_key ciphertext hash_32 nonce_12 public_1952
              small in
          let bytes = layout generation hash nonce public_key ciphertext in
          let kept : ℕ → List ℕ → List ℕ → Kept StoredKey = λ g kid key. ok (record {
            generation = g;
            classical_kid_hash = kid;
            public_key = key;
            secret_key = secret_key;
          }) in
          let whole : length bytes ≡ 6053 = omega (arith, n, longer, secret_4032) in
          let wrong_record : (not (nat_eq (length bytes) 6053)
                || not (nat_eq (unwrap_or (get_elem? bytes 0) 0) store_version))
              ≡ false =
            ap
              (λ n.
                not (nat_eq n 6053) || not (nat_eq (unwrap_or (get_elem? bytes 0) 0) store_version))
              whole in
          ap (λ file. load_stored_key custody (some file) wrapping_key) (sym e)
          ∙ then_pass
              (not (nat_eq (length bytes) 6053)
                || not (nat_eq (unwrap_or (get_elem? bytes 0) 0) store_version))
              _ _ wrong_record
              (then_some (custody.decrypt wrapping_key (range 41 53 bytes) (drop 2005 bytes)) _ _
                (rw (n', c') opened)
                (then_pass (not (nat_eq (length secret_key) secret_key_bytes)) _ _
                  (ap (λ n. not (nat_eq n secret_key_bytes)) secret_4032)
                  (ap (λ g. kept g (range 9 41 bytes) (range 53 2005 bytes)) g'
                    ∙ (ap (λ kid. kept generation kid (range 53 2005 bytes)) h'
                        ∙ ap (λ key. kept generation hash key) p'))))
