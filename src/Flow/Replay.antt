-- ===== src/Flow/Replay.antt =====
-- Replays: what one call has used up, no later call of any kind makes usable again.
use Prim.Native.String.{String}
use text.Mathlib.TextEquality.{eq_iff}
use text.Mathlib.TextPositions.{eq_refl}
use vcissuer.Prelude.{ℕ, ◌≡◌, refl, true, false, Option, some, List, [], ◌∷◌, arith}
use vcissuer.Oauth.{Result, ok, err, is_ok}
use vcissuer.Platform.{Platform}
use vcissuer.Proof.Dpop.{VerifiedDpop, verify_dpop}
use vcissuer.Proof.Credential.{VerifiedCredentialProof, verify_credential_proof}
use vcissuer.Proof.Jws.{unix_time}
use vcissuer.Table.{lookup, has, add, lookup-insert}
use vcissuer.Tlsn.{
  SignedTlsnArtifact, VerifiedTlsnEvidence, verify_tlsn_artifact, reserve_tlsn_session,
}
use vcissuer.State.{VolatileState, Config, use_dpop_jti}
use vcissuer.Endpoint.Offer.{CreateOfferResponse, build_tlsn_offer, reserve}
use vcissuer.Endpoint.Token.{TokenRequest, TokenResponse, token}
use vcissuer.Endpoint.Token.Redeem.{token_iff}
use vcissuer.Endpoint.Credential.{CredentialInput, Order, credential}
use vcissuer.Endpoint.Credential.Issued.{credential-Issued}
use vcissuer.Flow.{Reach}
use vcissuer.Flow.Advance.{is_consumed, is_used}
use vcissuer.Flow.Once.{Reach-Advances}

has_self : (k : String) (xs : List String) → has k (k ∷ xs) ≡ true
unfolding has
has_self k xs = ground (arith, eq_refl k)

-- A function of the same argument has the same result.
same_result :
    {X Y : Type 0} (f : X → Result Y) {o : Option X} {x x' : X} {y y' : Y}
    → o ≡ some x
    → f x ≡ ok y
    → o ≡ some x'
    → f x' ≡ ok y'
    → y ≡ y'
same_result f e v e' v' = cc

module _ {A S : Type 0} where
  -- A call is refused when its success leads to a contradiction.
  refused : (r : Result A × S) → ((a : A) (s : S) → r ≡ (ok a, s) → ⊥) → is_ok r.0 ≡ false
  refused (ok a, s) f = absurd (f a s refl)
  refused (err e, s) f = refl

module _ {V : Type 0} (p : Platform V) (config : Config V) where
  open p use {url_join}

  token-consumes :
      (dpop : Option String) (request : TokenRequest) (clock : Option ℕ) (w : String)
      (s t : VolatileState V) (a : TokenResponse)
      → token p config dpop request clock w s ≡ (ok a, t)
      → is_consumed (lookup request.code t.codes) ≡ true
  token-consumes dpop request clock w s t a h =
      let (proof, d, c, r, e, u) = (token_iff p config dpop request clock w s t a).0 h in
      let q = lookup-insert request.code request.code (record c { consumed = true }) s.codes in
      rw (u, q, eq_refl request.code) refl

  -- Once a code has been exchanged for a token, every later exchange of it is refused.
  pub token_once :
      (dpop dpop' : Option String) (request request' : TokenRequest) (clock clock' : Option ℕ)
      (w w' : String) (s t u : VolatileState V) (a : TokenResponse)
      → token p config dpop request clock w s ≡ (ok a, t)
      → Reach p config t u
      → request'.code ≡ request.code
      → is_ok (token p config dpop' request' clock' w' u).0 ≡ false
  token_once dpop dpop' request request' clock clock' w w' s t u a h r same =
      refused (token p config dpop' request' clock' w' u) λ b v h'.
        let (proof, d, c, q, _, _) = (token_iff p config dpop' request' clock' w' u v b).0 h' in
        let used =
          (Reach-Advances p config t u r).code request.code
            (token-consumes dpop request clock w s t a h) in
        let f = q.found in let n = q.unused in ground arith

  the_proof :
      (proofs : List String) (clock : Option ℕ) {jwt jwt' : String}
      {k k' : VerifiedCredentialProof V}
      → proofs ≡ jwt ∷ []
      → verify_credential_proof p jwt config.issuer clock ≡ ok k
      → proofs ≡ jwt' ∷ []
      → verify_credential_proof p jwt' config.issuer clock ≡ ok k'
      → k ≡ k'
  the_proof proofs clock {jwt} {jwt'} {k} {k'} e v e' v' =
      let j : jwt ≡ jwt' = cc in
      let w : verify_credential_proof p jwt' config.issuer clock ≡ ok k = rw (← j) v in cc

  credential-uses :
      (input : CredentialInput) (s t : VolatileState V) (o : Order V) (jwt : String)
      (k : VerifiedCredentialProof V)
      → credential p config input s ≡ (ok o, t)
      → input.proofs ≡ jwt ∷ []
      → verify_credential_proof p jwt config.issuer input.proof_clock ≡ ok k
      → is_used (lookup k.nonce t.nonces) ≡ true
  credential-uses input s t o jwt k h e v =
      let i = credential-Issued p config input s t o h in
      let q = the_proof input.proofs input.proof_clock e v i.proves.single i.proves.verified in
      rw
        (
          i.after,
          q,
          lookup-insert i.proof.nonce i.proof.nonce true i.last.nonces,
          eq_refl i.proof.nonce,
        )
        refl

  -- Once a credential has been issued for a proof with some nonce, every later request that proves
  -- possession with the same nonce is refused.
  pub nonce_once :
      (input input' : CredentialInput) (s t u : VolatileState V) (o : Order V) (jwt jwt' : String)
      (k k' : VerifiedCredentialProof V)
      → credential p config input s ≡ (ok o, t)
      → Reach p config t u
      → input.proofs ≡ jwt ∷ []
      → verify_credential_proof p jwt config.issuer input.proof_clock ≡ ok k
      → input'.proofs ≡ jwt' ∷ []
      → verify_credential_proof p jwt' config.issuer input'.proof_clock ≡ ok k'
      → k'.nonce ≡ k.nonce
      → is_ok (credential p config input' u).0 ≡ false
  nonce_once input input' s t u o jwt jwt' k k' h r e v e' v' same =
      refused (credential p config input' u) λ b x h'.
        let i = credential-Issued p config input' u x b h' in
        let q =
          the_proof input'.proofs input'.proof_clock e' v' i.proves.single i.proves.verified in
        let used =
          (Reach-Advances p config t u r).nonce k.nonce (credential-uses input s t o jwt k h e v) in
        let unused = i.proves.unused in let n : i.proof.nonce ≡ k.nonce = cc in ground arith

  -- The identifier of a DPoP proof is used up as soon as the proof verifies, whatever becomes of the
  -- call.
  token-uses :
      (proof : String) (request : TokenRequest) (clock : Option ℕ) (w : String)
      (s : VolatileState V) (d : VerifiedDpop)
      → request.grant_type ≡ "authorization_code"
      → verify_dpop p proof "POST" (url_join config.issuer "token") clock ≡ ok d
      → has d.jti (token p config (some proof) request clock w s).1.dpop_jtis ≡ true
  unfolding token use_dpop_jti add
  token-uses proof request clock w s d g v = grind (
    arith,
    eq_refl request.grant_type,
    eq_refl d.jti,
    eq_iff request.grant_type "authorization_code",
  )

  token-refuses_jti :
      (proof : String) (request : TokenRequest) (clock : Option ℕ) (w : String)
      (s : VolatileState V) (d : VerifiedDpop)
      → verify_dpop p proof "POST" (url_join config.issuer "token") clock ≡ ok d
      → has d.jti s.dpop_jtis ≡ true
      → is_ok (token p config (some proof) request clock w s).0 ≡ false
  token-refuses_jti proof request clock w s d v used =
      refused (token p config (some proof) request clock w s) λ a t h.
        let (proof', d', c, q, _, _) =
          (token_iff p config (some proof) request clock w s t a).0 h in
        let fresh = q.fresh in
        let n =
          same_result (λ j. verify_dpop p j "POST" (url_join config.issuer "token") clock) q.header
            q.verified refl v in
        ground arith

  credential-refuses_jti :
      (input : CredentialInput) (proof : String) (s : VolatileState V) (d : VerifiedDpop)
      → input.dpop ≡ some proof
      → verify_dpop p proof "POST" (url_join config.issuer "credential") input.dpop_clock ≡ ok d
      → has d.jti s.dpop_jtis ≡ true
      → is_ok (credential p config input s).0 ≡ false
  credential-refuses_jti input proof s d header v used =
      refused (credential p config input s) λ o t h.
        let i = credential-Issued p config input s t o h in
        let fresh = i.fresh in
        let n =
          same_result
            (λ j. verify_dpop p j "POST" (url_join config.issuer "credential") input.dpop_clock)
            i.header i.verified header v in
        ground arith

  -- Once a DPoP proof has verified in a call of the token endpoint, whatever became of the call, every
  -- later call of the token or the credential endpoint whose proof has the same identifier is refused.
  pub dpop_jti_once :
      (proof proof' proof2 : String) (request request' : TokenRequest) (input : CredentialInput)
      (clock clock' : Option ℕ) (w w' : String) (s u : VolatileState V) (d d' d2 : VerifiedDpop)
      → request.grant_type ≡ "authorization_code"
      → verify_dpop p proof "POST" (url_join config.issuer "token") clock ≡ ok d
      → Reach p config (token p config (some proof) request clock w s).1 u
      → verify_dpop p proof' "POST" (url_join config.issuer "token") clock' ≡ ok d'
      → d'.jti ≡ d.jti
      → input.dpop ≡ some proof2
      → verify_dpop p proof2 "POST" (url_join config.issuer "credential") input.dpop_clock ≡ ok d2
      → d2.jti ≡ d.jti
      → (is_ok (token p config (some proof') request' clock' w' u).0 ≡ false)
        × (is_ok (credential p config input u).0 ≡ false)
  dpop_jti_once proof proof' proof2 request request' input clock clock' w w' s u d d' d2 g v r v' e
        header v2 e2 =
      let used =
        (Reach-Advances p config _ u r).dpop d.jti (token-uses proof request clock w s d g v) in
      (
        token-refuses_jti proof' request' clock' w' u d' v' (rw e used),
        credential-refuses_jti input proof2 u d2 header v2 (rw e2 used),
      )

  reserves :
      (artifact : SignedTlsnArtifact V) (uuid state : String) (clock : Option ℕ) (now : ℕ)
      (s t : VolatileState V) (a : CreateOfferResponse) (v : VerifiedTlsnEvidence V)
      → unix_time clock ≡ ok now
      → verify_tlsn_artifact p artifact config.trusted_notary_key config.trusted_notary_pq_key now
        ≡ ok v
      → build_tlsn_offer p config artifact uuid state clock s ≡ (ok a, t)
      → (has v.session_id s.tlsn_sessions ≡ false) × (has v.session_id t.tlsn_sessions ≡ true)
  unfolding build_tlsn_offer reserve reserve_tlsn_session add
  reserves artifact uuid state clock now s t a v c w h =
      (ground arith, ground (arith, has_self v.session_id s.tlsn_sessions))

  -- Once the evidence of a notarised session has become an offer, every later offer from evidence of
  -- the same session is refused.
  pub tlsn_session_once :
      (artifact artifact' : SignedTlsnArtifact V) (uuid uuid' state state' : String)
      (clock clock' : Option ℕ) (now now' : ℕ) (s t u : VolatileState V) (a : CreateOfferResponse)
      (v v' : VerifiedTlsnEvidence V)
      → unix_time clock ≡ ok now
      → verify_tlsn_artifact p artifact config.trusted_notary_key config.trusted_notary_pq_key now
        ≡ ok v
      → build_tlsn_offer p config artifact uuid state clock s ≡ (ok a, t)
      → Reach p config t u
      → unix_time clock' ≡ ok now'
      → verify_tlsn_artifact p artifact' config.trusted_notary_key config.trusted_notary_pq_key now'
        ≡ ok v'
      → v'.session_id ≡ v.session_id
      → is_ok (build_tlsn_offer p config artifact' uuid' state' clock' u).0 ≡ false
  tlsn_session_once artifact artifact' uuid uuid' state state' clock clock' now now' s t u a v v' c
        e h r c' e' same =
      refused (build_tlsn_offer p config artifact' uuid' state' clock' u) λ b x h'.
        let (_, used) = reserves artifact uuid state clock now s t a v c e h in
        let (fresh, _) = reserves artifact' uuid' state' clock' now' u x b v' c' e' h' in
        let kept = (Reach-Advances p config t u r).session v.session_id used in ground arith
