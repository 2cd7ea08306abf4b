-- ===== src/Flow/Once.antt =====
-- What is accepted once is never accepted again.
use Prim.Native.String.{String}
use text.Mathlib.TextEquality.{eq_iff}
use vcissuer.Prelude.{◌≡◌, true, false, none, Option-cases, inl, inr, arith}
use vcissuer.Platform.{Platform}
use vcissuer.Table.{Table, lookup, insert, lookup-insert}
use vcissuer.State.{VolatileState, Config, AuthorizationCode}
use vcissuer.Endpoint.Authorize.{AuthorizationRequest, issued_code, authorize}
use vcissuer.Endpoint.Token.{nonce}
use vcissuer.Flow.{
  Call, to_par, to_create_offer, to_tlsn_offer, to_get_offer, to_authorize, to_token, to_nonce,
  to_credential, step, Fresh, Reach, start, next,
}
use vcissuer.Flow.Advance.{Advances, Advances-refl, Advances-trans, is_consumed}
use vcissuer.Flow.Endpoints.{
  par-Forward, create_credential_offer-Forward, build_tlsn_offer-Forward,
  get_credential_offer-Forward, token-Forward, credential-Forward,
}

module _ {V : Type 0} (p : Platform V) where
  kept_code :
      (m : Table (AuthorizationCode V)) (k j : String) (c : AuthorizationCode V)
      → lookup k m ≡ none
      → is_consumed (lookup j m) ≡ true
      → is_consumed (lookup j (insert k c m)) ≡ true
  kept_code m k j c h e = ground (arith, lookup-insert k j c m, eq_iff k j)

  authorize-Advances :
      (request : AuthorizationRequest) (code : String) (s : VolatileState V)
      → lookup code s.codes ≡ none
      → Advances s (authorize p request code s).1
  unfolding authorize
  authorize-Advances request code s h = record {
    dpop = λ j e. ground arith;
    binding = λ j e. ground arith;
    session = λ i e. ground arith;
    nonce = λ n e. ground arith;
    code = λ k e. elim (Option-cases (lookup request.request_uri s.pushed)) [
      | inl n ↦ ground arith
      | inr (a, n) ↦ let kept = kept_code s.codes code k (issued_code a) h e in ground arith
    ];
  }

  nonce-Advances :
      (n : String) (s : VolatileState V) → lookup n s.nonces ≡ none → Advances s (nonce n s).1
  unfolding nonce
  nonce-Advances n s h = record {
    dpop = λ j e. e;
    binding = λ j e. e;
    session = λ i e. e;
    nonce = λ m e. ground (arith, lookup-insert n m false s.nonces, eq_iff n m);
    code = λ k e. e;
  }

  module _ (config : Config V) where
    pub step-Advances :
        (s : VolatileState V) (c : Call V) → Fresh s c → Advances s (step p config s c)
    unfolding step
    step-Advances s (to_par request clock uuid) f = (par-Forward config request clock uuid).at s
    step-Advances s (to_create_offer id uuid state clock) f =
        (create_credential_offer-Forward p config id uuid state clock).at s
    step-Advances s (to_tlsn_offer artifact uuid state clock) f =
        (build_tlsn_offer-Forward p config artifact uuid state clock).at s
    step-Advances s (to_get_offer id clock) f = (get_credential_offer-Forward config id clock).at s
    step-Advances s (to_authorize request code) f = authorize-Advances request code s f
    step-Advances s (to_token dpop request clock w) f =
        (token-Forward p config dpop request clock w).at s
    step-Advances s (to_nonce n) f = nonce-Advances n s f
    step-Advances s (to_credential input) f = (credential-Forward p config input).at s

    pub Reach-Advances : (s t : VolatileState V) → Reach p config s t → Advances s t
    Reach-Advances s t start = Advances-refl s
    Reach-Advances s u (next {t = t} r c f e) =
        Advances-trans (Reach-Advances s t r) (rw e (step-Advances t c f))
