-- ===== src/Flow/Advance.antt =====
-- What no endpoint takes back: a used identifier, nonce, session or code stays used.
use Prim.Native.String.{String}
use vcissuer.Prelude.{◌≡◌, Bool, true, false, Option, none, some, arith, if◌then◌else◌}
use vcissuer.Oauth.{OauthError, Result, ok, err}
use vcissuer.Table.{lookup, insert, has, has-add, lookup-insert}
use vcissuer.Tlsn.{reserve_tlsn_session}
use vcissuer.Endpoint.Offer.{reserve}
use vcissuer.State.{
  PushedAuthorization, AuthorizationCode, AccessToken, CredentialOffer, VolatileState, Handler,
  continue, ◌>>=◌, change, use_dpop_jti, use_binding_jti,
}

abbrev pub is_used : Option Bool → Bool
is_used none = false
is_used (some used) = used

module _ {V : Type 0} where
  abbrev pub is_consumed : Option (AuthorizationCode V) → Bool
  is_consumed none = false
  is_consumed (some c) = c.consumed

  pub record Advances (s t : VolatileState V) : Type 0 where
    pub dpop : (j : String) → has j s.dpop_jtis ≡ true → has j t.dpop_jtis ≡ true
    pub binding : (j : String) → has j s.binding_jtis ≡ true → has j t.binding_jtis ≡ true
    pub session : (i : String) → has i s.tlsn_sessions ≡ true → has i t.tlsn_sessions ≡ true
    pub nonce :
        (n : String) → is_used (lookup n s.nonces) ≡ true → is_used (lookup n t.nonces) ≡ true
    pub code :
        (k : String) → is_consumed (lookup k s.codes) ≡ true → is_consumed (lookup k t.codes) ≡ true

  pub Advances-refl : (s : VolatileState V) → Advances s s
  Advances-refl s = record {
    dpop = λ j h. h;
    binding = λ j h. h;
    session = λ i h. h;
    nonce = λ n h. h;
    code = λ k h. h;
  }

  pub Advances-trans : {s t u : VolatileState V} → Advances s t → Advances t u → Advances s u
  Advances-trans a b = record {
    dpop = λ j h. b.dpop j (a.dpop j h);
    binding = λ j h. b.binding j (a.binding j h);
    session = λ i h. b.session i (a.session i h);
    nonce = λ n h. b.nonce n (a.nonce n h);
    code = λ k h. b.code k (a.code k h);
  }

-- Every run of a handler, also one that fails, takes nothing back.
pub record Forward {V A : Type 0} (m : Handler V A) : Type 0 where
  pub at : (s : VolatileState V) → Advances s (m s).1

module _ {V A : Type 0} where
  pub Forward-read : (f : VolatileState V → Result A) → Forward {V = V} {A = A} (λ s. (f s, s))
  Forward-read f = record { at = Advances-refl }

  pub Forward-if :
      (b : Bool) (m n : Handler V A) → Forward m → Forward n → Forward (if b then m else n)
  Forward-if true m n h k = h
  Forward-if false m n h k = k

module _ {V A B : Type 0} where
  continue-Advances :
      (s : VolatileState V) (r : Result A × VolatileState V) (f : A → Handler V B)
      → Advances s r.1
      → ((a : A) → Forward (f a))
      → Advances s (continue r f).1
  continue-Advances s (ok a, t) f h k = Advances-trans h ((k a).at t)
  continue-Advances s (err e, t) f h k = h

  pub Forward-bind :
      (m : Handler V A) (f : A → Handler V B)
      → Forward m
      → ((a : A) → Forward (f a))
      → Forward (m >>= f)
  Forward-bind m f h k = record { at = λ s. continue-Advances s (m s) f (h.at s) k }

module _ {V : Type 0} where
  pub Forward-use_dpop_jti : (jti : String) (e : OauthError) → Forward {V = V} (use_dpop_jti jti e)
  unfolding use_dpop_jti
  Forward-use_dpop_jti jti e = record {
    at = λ s. record {
      dpop = λ j h. ground (arith, has-add jti j s.dpop_jtis);
      binding = λ j h. ground arith;
      session = λ i h. ground arith;
      nonce = λ n h. ground arith;
      code = λ k h. ground arith;
    };
  }

  pub Forward-use_binding_jti :
      (jti : String) (e : OauthError) → Forward {V = V} (use_binding_jti jti e)
  unfolding use_binding_jti
  Forward-use_binding_jti jti e = record {
    at = λ s. record {
      dpop = λ j h. ground arith;
      binding = λ j h. ground (arith, has-add jti j s.binding_jtis);
      session = λ i h. ground arith;
      nonce = λ n h. ground arith;
      code = λ k h. ground arith;
    };
  }

  -- Marking a nonce as used.
  pub Forward-use_nonce :
      (n : String) → Forward {V = V} (change λ s. record s { nonces = insert n true s.nonces })
  Forward-use_nonce n = record {
    at = λ s. record {
      dpop = λ j h. h;
      binding = λ j h. h;
      session = λ i h. h;
      nonce = λ m h. ground (arith, lookup-insert n m true s.nonces);
      code = λ k h. h;
    };
  }

  -- Consuming a code, with any change of the tokens.
  pub Forward-redeem :
      (k : String) (c : AuthorizationCode V) (w : String) (a : AccessToken V)
      → Forward {V = V} (
          change λ s. record s {
            codes = insert k (record c { consumed = true }) s.codes;
            tokens = insert w a s.tokens;
          })
  Forward-redeem k c w a = record {
    at = λ s. record {
      dpop = λ j h. h;
      binding = λ j h. h;
      session = λ i h. h;
      nonce = λ n h. h;
      code = λ j h. ground (arith, lookup-insert k j (record c { consumed = true }) s.codes);
    };
  }

  -- A table that no counted state stands in.
  pub Forward-push :
      (k : String) (a : PushedAuthorization V)
      → Forward {V = V} (change λ s. record s { pushed = insert k a s.pushed })
  Forward-push k a = record {
    at = λ s. record {
      dpop = λ j h. h;
      binding = λ j h. h;
      session = λ i h. h;
      nonce = λ n h. h;
      code = λ j h. h;
    };
  }

  pub Forward-offer :
      (k : String) (a : CredentialOffer V)
      → Forward {V = V} (change λ s. record s { offers = insert k a s.offers })
  Forward-offer k a = record {
    at = λ s. record {
      dpop = λ j h. h;
      binding = λ j h. h;
      session = λ i h. h;
      nonce = λ n h. h;
      code = λ j h. h;
    };
  }

  pub Forward-reserve : (i : String) → Forward {V = V} (reserve i)
  unfolding reserve reserve_tlsn_session
  Forward-reserve i = record {
    at = λ s. record {
      dpop = λ j h. ground arith;
      binding = λ j h. ground arith;
      session = λ k h. ground (arith, has-add i k s.tlsn_sessions);
      nonce = λ n h. ground arith;
      code = λ j h. ground arith;
    };
  }

pub ruleset forward_rules = (
  Forward-read, Forward-bind, Forward-if, Forward-use_dpop_jti, Forward-use_binding_jti,
  Forward-use_nonce, Forward-redeem, Forward-push, Forward-offer, Forward-reserve,
)
