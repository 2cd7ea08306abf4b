-- ===== src/Tests/Signer.antt =====
-- A signing identity with its stored key, and one envelope.
use Prim.Native.String.{String}
use vcissuer.Prelude.{ℕ, ◌≡◌, refl, sym, ap, some, List, [], ◌∷◌, ◌++◌, length, drop, arith, true}
use vcissuer.Platform.{Platform}
use vcissuer.Outcome.{ok}
use vcissuer.Hybrid.{EnvelopeSignatures, u64_to_be_bytes}
use vcissuer.Hybrid.Signer.{Custody, HybridCredentialSigner, persist_key, load_stored_key}
use vcissuer.Hybrid.Signer.Store.{Unwraps, persist_key-load}
use vcissuer.Tests as plain
use vcissuer.Tests.Hybrid.{times}

abbrev platform : Platform String
platform = record plain.platform { sha256 = λ bytes. times 32 }

abbrev custody : Custody
custody = record {
  sign_es256 = λ message. some (times 64);
  encrypt = λ key nonce message. some (times 16 ++ message);
  decrypt = λ key nonce ciphertext. some (drop 16 ciphertext);
  sign_once = λ secret message. some (times 3309);
  replaces = λ bytes. true;
}

abbrev signer : HybridCredentialSigner
signer = record {
  classical_kid = "c";
  classical_public_key = 4 ∷ [];
  pq_public_key = times 1952;
  pq_kid = "q";
  generation = 3;
  wrapping_key = times 32;
}

abbrev file : List ℕ
file = 1 ∷ (u64_to_be_bytes 3 ++ times 32 ++ times 12 ++ times 1952 ++ (times 16 ++ times 4032))

unwraps : Unwraps custody
unfolding vcissuer.Tests.Hybrid.times
unwraps key nonce message ciphertext h =
    let e : times 16 ++ message ≡ ciphertext = cc in
    let n = ap length (sym e) in (ap (λ c. some (drop 16 c)) (sym e), omega arith)

persists :
    persist_key custody (times 32) 3 (times 32) (times 1952) (times 4032) (times 12) ≡ ok file
unfolding persist_key
persists = refl

persist_key-load_example :
    load_stored_key custody (some file) (times 32)
    ≡ ok (record {
      generation = 3;
      classical_kid_hash = times 32;
      public_key = times 1952;
      secret_key = times 4032;
    })
unfolding vcissuer.Tests.Hybrid.times
persist_key-load_example =
    persist_key-load custody (times 32) 3 (times 32) (times 1952) (times 4032) (times 12) file
      unwraps (omega arith) refl refl refl refl persists
