-- ===== src/Attest/Counts.antt =====
-- The counter of a registered instance over the App Attest calls.
use Prim.Native.String.{String}
use mathlib.Core.Path.{subst}
use text.Mathlib.Text.{◌==◌ as str_eq}
use text.Mathlib.TextEquality.{eq_iff}
use vcissuer.Prelude.{
  ℕ, ◌≡◌, ◌≢◌, refl, sym, ◌∙◌, ◌⊎◌, ◌≤◌, Option, none, some, List, arith, if◌then◌else◌, inl, inr,
}
use vcissuer.Oauth.{ok_or, ok_or-eq-ok, OauthError, Result, ok, err}
use vcissuer.Outcome.{Outcome}
use vcissuer.Platform.{Platform}
use vcissuer.Table.{Table, lookup, insert, lookup-insert}
use vcissuer.State.{
  RegisteredInstance, VolatileState, Handler, continue, ◌>>=◌, lift, pure, read, change,
}
use vcissuer.Hybrid.Cbor.{Cbor}
use vcissuer.Attest.{AppAttestConfig, Certificates}
use vcissuer.Attest.Verify.{verify_assertion}
use vcissuer.Attest.Sound.{AssertionProven, verify_assertion-AssertionProven}
use vcissuer.Attest.Endpoints.{
  AppAttestRegisterRequest, AppAttestAssertRequest, rejected, app_attest_challenge, take_challenge,
  app_attest_register, count_up, verify_app_attest_assertion, app_attest_assert, enforce_app_attest,
  count_assertion, unknown_instance, invalid_assertion,
}

module _ {V : Type 0} where
  -- The instance of the key, if there is one, has counted up to the number at least.
  abbrev pub Counted : String → ℕ → VolatileState V → Type 0
  Counted key n s =
      (found : RegisteredInstance)
      → lookup key s.app_attest_instances ≡ some found
      → n ≤ found.sign_count

-- No run of a handler turns back the counter of the key, also one that fails.
pub record CountsOn {V A : Type 0} (key : String) (m : Handler V A) : Type 0 where
  pub at : (n : ℕ) (s : VolatileState V) → Counted key n s → Counted key n (m s).1

module _ {V A : Type 0} (key : String) where
  pub CountsOn-lift : (r : Result A) → CountsOn {V = V} key (lift r)
  CountsOn-lift r = record { at = λ n s h. h }

  pub CountsOn-read : (f : VolatileState V → A) → CountsOn key (read f)
  CountsOn-read f = record { at = λ n s h. h }

  pub CountsOn-pure : (a : A) → CountsOn {V = V} key (pure a)
  CountsOn-pure a = record { at = λ n s h. h }

module _ {V A B : Type 0} where
  lift_cases :
      (r : Result A) (f : A → Handler V B) (s : VolatileState V)
      → ((e : OauthError) × ((lift r >>= f) s ≡ (err e, s)))
        ⊎ ((a : A) × (r ≡ ok a) × ((lift r >>= f) s ≡ f a s))
  lift_cases (ok a) f s = inr (a, refl, refl)
  lift_cases (err e) f s = inl (e, refl)

module _ {V A B : Type 0} (key : String) where
  continue-Counted :
      (n : ℕ) (r : Result A × VolatileState V) (f : A → Handler V B)
      → Counted key n r.1
      → ((a : A) → CountsOn key (f a))
      → Counted key n (continue r f).1
  continue-Counted n (ok a, t) f h k = (k a).at n t h
  continue-Counted n (err e, t) f h k = h

  pub CountsOn-bind :
      (m : Handler V A) (f : A → Handler V B)
      → CountsOn key m
      → ((a : A) → CountsOn key (f a))
      → CountsOn key (m >>= f)
  CountsOn-bind m f h k = record { at = λ n s c. continue-Counted n (m s) f (h.at n s c) k }

module _ {V : Type 0} (key : String) where
  pub CountsOn-challenges :
      (f : Table ℕ → Table ℕ)
      → CountsOn {V = V} key
          (change λ s. record s { app_attest_challenges = f s.app_attest_challenges })
  CountsOn-challenges f = record { at = λ n s h. h }

  pub CountsOn-take_challenge :
      (challenge : String) (now : ℕ) → CountsOn {V = V} key (take_challenge challenge now)
  unfolding take_challenge
  CountsOn-take_challenge challenge now = record { at = λ n s h. h }

  pub CountsOn-insert :
      (other : String) (found : RegisteredInstance)
      → other ≢ key
      → CountsOn {V = V} key (
          change λ s. record s { app_attest_instances = insert other found s.app_attest_instances })
  CountsOn-insert other found different = record {
    at = λ n s h j e.
        h j
          (ground (arith, lookup-insert other key found s.app_attest_instances, eq_iff other key));
  }

pub accepted_of :
    {A : Type 0} (o : Outcome String A) (e : OauthError) {a : A}
    → rejected o e ≡ ok a
    → o ≡ Outcome.ok a
accepted_of (Outcome.ok b) e h = cc
accepted_of (Outcome.err reason) e h = absurd cc

module _ {V : Type 0} (p : Platform V) (x : Certificates p) (c : Cbor) where
  -- An instance that is there counts up.
  pub lookup-count_up :
      (key other : String) (new_count : ℕ) (s : VolatileState V) {found : RegisteredInstance}
      → lookup other s.app_attest_instances ≡ some found
      → lookup key (count_up p x c other new_count s).app_attest_instances ≡ (
          if str_eq other key
          then some (record found { sign_count = new_count })
          else lookup key s.app_attest_instances)
  unfolding count_up
  lookup-count_up key other new_count s {found} e =
      rw (e, count_up)
        (lookup-insert other key (record found { sign_count = new_count }) s.app_attest_instances)

  -- A run leaves the state alone, or it accepts the assertion of an instance and counts up.
  pub verify_cases :
      (key : String) (assertion client_data : List ℕ) (s : VolatileState V)
      → ((e : OauthError) × (verify_app_attest_assertion p x c key assertion client_data s
            ≡ (err e, s)))
        ⊎ ((found : RegisteredInstance) × (new_count : ℕ) × (lookup key s.app_attest_instances
              ≡ some found)
            × AssertionProven p x c assertion client_data found new_count
            × (verify_app_attest_assertion p x c key assertion client_data s
                ≡ (ok tt, count_up p x c key new_count s)))
  unfolding verify_app_attest_assertion count_assertion
  verify_cases key assertion client_data s =
      elim (lift_cases (ok_or (lookup key s.app_attest_instances) unknown_instance)
        (count_assertion p x c key assertion client_data) s) [
          | inl (e, q) ↦ inl (e, q)
          | inr (found, q, r) ↦
              elim (lift_cases
                (rejected (verify_assertion p x c assertion client_data found) invalid_assertion)
                (λ n. change (count_up p x c key n)) s) [
                  | inl (e, q') ↦ inl (e, r ∙ q')
                  | inr (count, q', r') ↦ inr (
                    found,
                    count,
                    ok_or-eq-ok _ _ q,
                    verify_assertion-AssertionProven p x c assertion client_data found count
                        (accepted_of _ _ q'),
                    r ∙ r',
                  )
                ]
        ]

  pub CountsOn-verify :
      (key other : String) (assertion client_data : List ℕ)
      → CountsOn key (verify_app_attest_assertion p x c other assertion client_data)
  CountsOn-verify key other assertion client_data = record {
    at = λ n s h. elim (verify_cases other assertion client_data s) [
      | inl (e, q) ↦ subst (λ r. Counted key n r.1) (sym q) h
      | inr (found, count, e, proven, q) ↦
          subst (λ r. Counted key n r.1) (sym q)
            λ j l.
              let more = proven.increases in
              let before = h found in
              ground (arith, lookup-count_up key other count s e, eq_iff other key, h j)
    ];
  }

ruleset count_rules = (
  CountsOn-lift, CountsOn-pure, CountsOn-bind, CountsOn-challenges, CountsOn-take_challenge,
  CountsOn-insert, CountsOn-verify,
)

module _ {V : Type 0} (p : Platform V) (x : Certificates p) (c : Cbor) (key : String) where
  pub CountsOn-app_attest_challenge :
      (config : Option AppAttestConfig) (clock : Option ℕ) (challenge : String)
      → CountsOn {V = V} key (app_attest_challenge config clock challenge)
  unfolding app_attest_challenge
  CountsOn-app_attest_challenge config clock challenge = search count_rules depth 40

  pub CountsOn-app_attest_register :
      (config : Option AppAttestConfig) (request : AppAttestRegisterRequest) (clock : Option ℕ)
      → request.key_id ≢ key
      → CountsOn key (app_attest_register p x c config request clock)
  unfolding app_attest_register
  CountsOn-app_attest_register config request clock different = search count_rules depth 40

  pub CountsOn-app_attest_assert :
      (config : Option AppAttestConfig) (request : AppAttestAssertRequest)
      → CountsOn key (app_attest_assert p x c config request)
  unfolding app_attest_assert
  CountsOn-app_attest_assert config request = search count_rules depth 40

  pub CountsOn-enforce_app_attest :
      (config : Option AppAttestConfig) (key_header assertion_header : Option String)
      (body : List ℕ)
      → CountsOn key (enforce_app_attest p x c config key_header assertion_header body)
  unfolding enforce_app_attest
  CountsOn-enforce_app_attest none key_header assertion_header body = CountsOn-pure key tt
  CountsOn-enforce_app_attest (some config) key_header assertion_header body =
      search count_rules depth 40
