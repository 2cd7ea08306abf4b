-- ===== src/Tlsn/Sound.antt =====
-- What a notary's artifact that verifies has shown.
use Prim.Native.String.{String, len}
use text.Mathlib.Text.{◌==◌}
use text.Mathlib.TextEquality.{eq_iff}
use vcissuer.Prelude.{
  ℕ, ◌≤◌, ◌+◌, ◌-◌, ◌≡◌, refl, ap, ◌≢◌, Bool, true, false, not, ◌||◌, List, [], ◌∷◌, Option, none,
  some, arith, length, ltb, saturating_add, unwrap_or, ◌==◌ as nat_eq, ==_iff,
}
use vcissuer.Text.{is_empty}
use vcissuer.Oauth.{ok, some_then, pass_then, >>=-eq-ok}
use vcissuer.Platform.{Platform}
use vcissuer.Tlsn.{
  SignedTlsnArtifact, VerifiedTlsnEvidence, same_bytes, is_ml_dsa, verify_pq, verify_tlsn_artifact,
  tlsn_artifact_version, max_tlsn_artifact_bytes,
}

pub same_bytes_eq : (xs ys : List ℕ) → same_bytes xs ys ≡ true → xs ≡ ys
same_bytes_eq [] [] h = refl
same_bytes_eq (x ∷ xs) (y ∷ ys) h =
    let e : x ≡ y = ground (arith, ==_iff x y) in
    let t = same_bytes_eq xs ys (ground arith) in rw (e, t) refl
same_bytes_eq [] (y ∷ ys) h = absurd cc
same_bytes_eq (x ∷ xs) [] h = absurd cc

module _ {V : Type 0} (p : Platform V) where
  open p use {
    VerifyingKey, Signature, base64url_decode, signature_from_slice, key_from_sec1_bytes, verify,
    ml_dsa_verify, payload_to_vec,
  }

  -- Where a post-quantum key is configured, the artifact names it and carries its signature.
  abbrev pub PqSigned : SignedTlsnArtifact V → List ℕ → Option (List ℕ) → Type 0
  PqSigned artifact message none = Unit
  PqSigned artifact message (some key) =
      (sig : List ℕ) × (artifact.pq_algorithm ≡ some "ML-DSA-65")
      × (base64url_decode (unwrap_or artifact.pq_public_key "") ≡ some key)
      × (base64url_decode (unwrap_or artifact.pq_signature "") ≡ some sig)
      × (ml_dsa_verify key message sig ≡ true)

  pub record ArtifactProven (artifact : SignedTlsnArtifact V) (trusted : List ℕ)
      (trusted_pq : Option (List ℕ)) (now : ℕ) (v : VerifiedTlsnEvidence V) : Type 0 where
    pub message : List ℕ
    pub key : VerifyingKey
    pub signature : Signature
    pub signature_bytes : List ℕ
    pub encoded : payload_to_vec artifact.payload ≡ some message
    pub small : length message ≤ max_tlsn_artifact_bytes
    pub version : artifact.payload.version ≡ tlsn_artifact_version
    pub algorithm : artifact.algorithm ≡ "ES256"
    pub named : base64url_decode artifact.public_key ≡ some trusted
    pub key_read : key_from_sec1_bytes trusted ≡ some key
    pub signature_decoded : base64url_decode artifact.signature ≡ some signature_bytes
    pub signature_read : signature_from_slice signature_bytes ≡ some signature
    pub signed : verify key message signature ≡ true
    pub pq_signed : PqSigned artifact message trusted_pq
    pub not_old : now ≤ artifact.payload.issued_at + 300
    pub not_early : artifact.payload.issued_at ≤ now + 5
    pub session : (v.session_id ≡ artifact.payload.session_id) × (v.session_id ≢ "")
    pub issued_at : v.issued_at ≡ artifact.payload.issued_at
    pub output : v.verifier_output ≡ artifact.payload.verifier_output

  is_ml_dsa_eq : (a : Option String) → is_ml_dsa p a ≡ true → a ≡ some "ML-DSA-65"
  unfolding is_ml_dsa
  is_ml_dsa_eq none h = absurd cc
  is_ml_dsa_eq (some a) h = ap some ((eq_iff a "ML-DSA-65").0 h)

  verify_pq-PqSigned :
      (artifact : SignedTlsnArtifact V) (message : List ℕ) (key : Option (List ℕ)) {u : Unit {0}}
      → verify_pq p artifact message key ≡ ok u
      → PqSigned artifact message key
  unfolding verify_pq
  verify_pq-PqSigned artifact message none h = tt
  verify_pq-PqSigned artifact message (some key) h =
      pass_then (not (is_ml_dsa p artifact.pq_algorithm)) _ _ h λ algorithm h1.
        some_then (base64url_decode (unwrap_or artifact.pq_public_key "")) _ _ h1 λ k kd h2.
          pass_then (not (nat_eq (length k) (length key)) || not (same_bytes k key)) _ _ h2
            λ same h3.
              some_then (base64url_decode (unwrap_or artifact.pq_signature "")) _ _ h3 λ sig sd h4.
                let e : k ≡ key = same_bytes_eq k key (ground arith) in
                (
                  sig,
                  is_ml_dsa_eq artifact.pq_algorithm (ground arith),
                  rw (← e) kd,
                  sd,
                  ground arith,
                )

  not_empty : (s : String) → is_empty s ≡ false → s ≢ ""
  unfolding is_empty
  not_empty s h e = ground (arith, eq_iff s "")

  session_there :
      (i j : String) (a b c : Bool) → (is_empty i || a || b || c) ≡ false → j ≡ i → j ≢ ""
  session_there i j a b c h e = rw e (not_empty i (ground arith))

  -- An artifact that verifies is of the known version, at most 300 seconds old and at most 5 seconds
  -- ahead, has a session identifier, and its payload is signed with the trusted notary's key; where a
  -- post-quantum key is configured, the payload is signed with that key too, so an artifact without
  -- the second signature is refused. The evidence is what the payload says.
  pub verify_tlsn_artifact-ArtifactProven :
      (artifact : SignedTlsnArtifact V) (trusted : List ℕ) (trusted_pq : Option (List ℕ)) (now : ℕ)
      (v : VerifiedTlsnEvidence V)
      → verify_tlsn_artifact p artifact trusted trusted_pq now ≡ ok v
      → ArtifactProven artifact trusted trusted_pq now v
  unfolding verify_tlsn_artifact
  verify_tlsn_artifact-ArtifactProven artifact trusted trusted_pq now v h =
      pass_then
        (not (artifact.payload.version == tlsn_artifact_version)
          || not (artifact.algorithm == "ES256"))
        _ _ h
        λ kind h1.
          pass_then
            (is_empty artifact.payload.session_id
              || ltb 256 (len artifact.payload.session_id)
              || ltb (saturating_add now 5) artifact.payload.issued_at
              || ltb 300 (now - artifact.payload.issued_at))
            _ _ h1
            λ current h2. some_then (payload_to_vec artifact.payload) _ _ h2 λ message encoded h3.
              pass_then (ltb max_tlsn_artifact_bytes (length message)) _ _ h3 λ small h4.
                some_then (base64url_decode artifact.public_key) _ _ h4 λ k kd h5.
                  pass_then (not (same_bytes k trusted)) _ _ h5 λ same h6.
                    some_then (base64url_decode artifact.signature) _ _ h6 λ sb sd h7.
                      some_then (signature_from_slice sb) _ _ h7 λ signature sp h8.
                        some_then (key_from_sec1_bytes trusted) _ _ h8 λ key kp h9.
                          pass_then (not (verify key message signature)) _ _ h9 λ signed h10.
                            let (_, pq, h11) =
                              >>=-eq-ok (verify_pq p artifact message trusted_pq) _ h10 in
                            let e : k ≡ trusted = same_bytes_eq k trusted (ground arith) in
                            record {
                              message = message;
                              key = key;
                              signature = signature;
                              signature_bytes = sb;
                              encoded = encoded;
                              small = ground arith;
                              version =
                                  ground
                                    (arith, eq_iff artifact.payload.version tlsn_artifact_version);
                              algorithm = ground (arith, eq_iff artifact.algorithm "ES256");
                              named = rw (← e) kd;
                              key_read = kp;
                              signature_decoded = sd;
                              signature_read = sp;
                              signed = ground arith;
                              pq_signed = verify_pq-PqSigned artifact message trusted_pq pq;
                              not_old = ground arith;
                              not_early = ground arith;
                              session = (
                                cc,
                                session_there artifact.payload.session_id v.session_id _ _ _ current
                                    cc,
                              );
                              issued_at = cc;
                              output = cc;
                            }
