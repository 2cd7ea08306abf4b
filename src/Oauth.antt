-- ===== src/Oauth.antt =====
-- rust/issuer-service/src/main.rs: `OAuthError`, `oauth_error` and the results of the endpoints.
use Prim.Native.String.{String}
use vcissuer.Prelude.{ℕ, ◌≡◌, refl, Bool, true, false, Option, none, some, ◌⊎◌, inl, inr}

-- A status with the body of the error.
pub record OauthError : Type 0 where
  pub status : ℕ
  pub error : String
  pub error_description : String

unfoldable pub oauth_error : ℕ → String → String → OauthError
oauth_error status error description = record {
  status = status;
  error = error;
  error_description = description;
}

pub data Result {ℓ} (A : Type ℓ) : Type ℓ where
  ok : A → Result A
  err : OauthError → Result A

-- `if test { return Err(e) }`.
abbrev pub deny_if : Bool → OauthError → Result (Unit {0})
deny_if true e = err e
deny_if false e = ok tt

-- `ok_or_else` and `map_err`.
abbrev pub ok_or {ℓ} : {A : Type ℓ} → Option A → OauthError → Result A
ok_or none e = err e
ok_or (some a) e = ok a

-- The operators of a do block: an error ends it.
infixl 5 ◌>>=◌ ◌>>◌
abbrev pub ◌>>=◌ {ℓ κ} : {A : Type ℓ} {B : Type κ} → Result A → (A → Result B) → Result B
◌>>=◌ (err failure) next = err failure
◌>>=◌ (ok value) next = next value

abbrev pub ◌>>◌ {ℓ} : {B : Type ℓ} → Result (Unit {0}) → Result B → Result B
◌>>◌ check rest = check >>= λ passed. rest

-- What a successful chain says of its first step.
pub >>=-eq-ok {ℓ κ} :
    {A : Type ℓ} {B : Type κ} (first : Result A) (next : A → Result B) {result : B}
    → (first >>= next) ≡ ok result
    → (value : A) × (first ≡ ok value) × (next value ≡ ok result)
>>=-eq-ok (err failure) next h = absurd cc
>>=-eq-ok (ok value) next h = (value, refl, h)

pub deny_if-eq-ok : (b : Bool) (e : OauthError) {u : Unit {0}} → deny_if b e ≡ ok u → b ≡ false
deny_if-eq-ok true e h = cc
deny_if-eq-ok false e h = refl

pub ok_or-eq-ok {ℓ} :
    {A : Type ℓ} (o : Option A) (e : OauthError) {a : A} → ok_or o e ≡ ok a → o ≡ some a
ok_or-eq-ok none e h = cc
ok_or-eq-ok (some b) e h = cc

pub Result-cases {ℓ} :
    {A : Type ℓ} (r : Result A) → ((a : A) × (r ≡ ok a)) ⊎ ((e : OauthError) × (r ≡ err e))
Result-cases (ok a) = inl (a, refl)
Result-cases (err e) = inr (e, refl)

abbrev pub is_ok {ℓ} : {A : Type ℓ} → Result A → Bool
is_ok (ok a) = true
is_ok (err e) = false

-- The same, for the two kinds of step, with what follows as an argument.
pub some_then {ℓ} :
    {A B : Type 0} {G : Type ℓ} (o : Option A) (e : OauthError) (f : A → Result B) {b : B}
    → (ok_or o e >>= f) ≡ ok b
    → ((a : A) → o ≡ some a → f a ≡ ok b → G)
    → G
some_then none e f h g = absurd cc
some_then (some a) e f h g = g a refl h

pub pass_then {ℓ} :
    {B : Type 0} {G : Type ℓ} (t : Bool) (e : OauthError) (k : Result B) {b : B}
    → (deny_if t e >> k) ≡ ok b
    → (t ≡ false → k ≡ ok b → G)
    → G
pass_then true e k h g = absurd cc
pass_then false e k h g = g refl h
