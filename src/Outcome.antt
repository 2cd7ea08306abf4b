-- ===== src/Outcome.antt =====
-- Rust's `Result`, whose two types are both arguments, with the operators of a do block.
use vcissuer.Prelude.{◌≡◌, refl, ◌⊎◌, inl, inr, Bool, true, false, Option, none, some}

pub data Outcome {ℓ κ} (E : Type κ) (A : Type ℓ) : Type (ℓ ⊔ κ) where
  ok : A → Outcome E A
  err : E → Outcome E A

-- `if test { return Err(e) }`.
abbrev pub deny_if {κ} : {E : Type κ} → Bool → E → Outcome E (Unit {0})
deny_if true e = err e
deny_if false e = ok tt

-- `ok_or` and `map_err`.
abbrev pub ok_or {ℓ κ} : {E : Type κ} {A : Type ℓ} → Option A → E → Outcome E A
ok_or none e = err e
ok_or (some a) e = ok a

infixl 5 ◌>>=◌ ◌>>◌
abbrev pub ◌>>=◌ {ℓ κ μ} :
    {E : Type μ} {A : Type ℓ} {B : Type κ} → Outcome E A → (A → Outcome E B) → Outcome E B
◌>>=◌ (err reason) f = err reason
◌>>=◌ (ok a) f = f a

abbrev pub ◌>>◌ {κ μ} : {E : Type μ} {B : Type κ} → Outcome E (Unit {0}) → Outcome E B → Outcome E B
◌>>◌ test rest = test >>= λ passed. rest

-- What a chain that succeeds says of its first step, with what follows as an argument.
pub ok_then {ℓ κ μ ν} :
    {E : Type μ} {A : Type ℓ} {B : Type κ} {G : Type ν} (o : Outcome E A) (f : A → Outcome E B)
    {b : B}
    → (o >>= f) ≡ ok b
    → ((a : A) → o ≡ ok a → f a ≡ ok b → G)
    → G
ok_then (err e) f h g = absurd cc
ok_then (ok a) f h g = g a refl h

pub some_then {ℓ κ μ ν} :
    {E : Type μ} {A : Type ℓ} {B : Type κ} {G : Type ν} (o : Option A) (e : E) (f : A → Outcome E B)
    {b : B}
    → (ok_or o e >>= f) ≡ ok b
    → ((a : A) → o ≡ some a → f a ≡ ok b → G)
    → G
some_then none e f h g = absurd cc
some_then (some a) e f h g = g a refl h

pub pass_then {κ μ ν} :
    {E : Type μ} {B : Type κ} {G : Type ν} (t : Bool) (e : E) (k : Outcome E B) {b : B}
    → (deny_if t e >> k) ≡ ok b
    → (t ≡ false → k ≡ ok b → G)
    → G
pass_then true e k h g = absurd cc
pass_then false e k h g = g refl h

abbrev pub is_ok {ℓ κ} : {E : Type κ} {A : Type ℓ} → Outcome E A → Bool
is_ok (ok a) = true
is_ok (err e) = false

pub ok_or-eq-ok {ℓ κ} :
    {E : Type κ} {A : Type ℓ} (o : Option A) (e : E) {a : A} → ok_or o e ≡ ok a → o ≡ some a
ok_or-eq-ok none e h = cc
ok_or-eq-ok (some b) e h = cc

-- The other way: a chain whose steps succeed.
pub then_ok {ℓ κ μ} :
    {E : Type μ} {A : Type ℓ} {B : Type κ} (o : Outcome E A) (f : A → Outcome E B) {a : A} {b : B}
    → o ≡ ok a
    → f a ≡ ok b
    → (o >>= f) ≡ ok b
then_ok o f e h = rw e h

pub then_some {ℓ κ μ} :
    {E : Type μ} {A : Type ℓ} {B : Type κ} (o : Option A) (e : E) (f : A → Outcome E B) {a : A}
    {b : B}
    → o ≡ some a
    → f a ≡ ok b
    → (ok_or o e >>= f) ≡ ok b
then_some o e f q h = rw q h

pub then_pass {κ μ} :
    {E : Type μ} {B : Type κ} (t : Bool) (e : E) (k : Outcome E B) {b : B}
    → t ≡ false
    → k ≡ ok b
    → (deny_if t e >> k) ≡ ok b
then_pass t e k q h = rw q h

pub then_done {κ μ} :
    {E : Type μ} {B : Type κ} (o : Outcome E (Unit {0})) (k : Outcome E B) {b : B}
    → o ≡ ok tt
    → k ≡ ok b
    → (o >> k) ≡ ok b
then_done o k e h = rw e h

pub Outcome-cases {ℓ κ} :
    {E : Type κ} {A : Type ℓ} (o : Outcome E A) → ((a : A) × (o ≡ ok a)) ⊎ ((e : E) × (o ≡ err e))
Outcome-cases (ok a) = inl (a, refl)
Outcome-cases (err e) = inr (e, refl)
