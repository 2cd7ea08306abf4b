-- ===== src/Proof/Pid/Disclosures.antt =====
-- The disclosures of a presented PID: which name says what, and that the issuer has committed to it.
use Prim.Native.String.{String}
use text.Mathlib.Text.{◌==◌}
use text.Mathlib.TextEquality.{eq_iff}
use vcissuer.Prelude.{
  ℕ, ◌≡◌, refl, ap, ◌⊎◌, inl, inr, true, not, Option, none, some, List, [], ◌∷◌, any, All, arith,
  Bool-cases,
}
use vcissuer.Oauth.{ok, some_then, pass_then}
use vcissuer.Platform.{Platform}
use vcissuer.Proof.Pid.{Disclosed, disclose, disclose_values, text_digest, read_disclosures}

-- A member of a list of texts.
abbrev pub Among : String → List String → Type 0
Among s [] = ⊥
Among s (x ∷ xs) = (s ≡ x) ⊎ Among s xs

Among-any : (s : String) (xs : List String) → any (◌==◌ s) xs ≡ true → Among s xs
Among-any s [] h = absurd cc
Among-any s (x ∷ xs) h = elim (Bool-cases (s == x)) [
  | inl e ↦ inl ((eq_iff s x).0 e)
  | inr n ↦ inr (Among-any s xs (ground arith))
]

-- Before the first disclosure is read.
abbrev pub nothing : Disclosed
nothing = record { family_name = none; given_name = none; birthdate = none }

module _ {V : Type 0} (p : Platform V) where
  open p use {base64url_decode, value_from_slice, as_str, as_array}

  -- A disclosure is the array of a salt, the name and the value.
  pub record Says (name value encoded : String) : Type 0 where
    pub bytes : List ℕ
    pub decoded : base64url_decode encoded ≡ some bytes
    pub json : V
    pub read : value_from_slice bytes ≡ some json
    pub salt : V
    pub name_value : V
    pub text_value : V
    pub listed : as_array json ≡ some (salt ∷ name_value ∷ text_value ∷ [])
    pub named : as_str name_value ≡ some name
    pub valued : as_str text_value ≡ some value

  -- One of the disclosures says it.
  abbrev pub Discloses : List String → String → String → Type 0
  Discloses disclosures name value =
      (encoded : String) × Among encoded disclosures × Says name value encoded

  -- The digests of all of them are among those that the issuer has signed.
  pub read_disclosures-Among :
      (allowed disclosures : List String) (d d' : Disclosed)
      → read_disclosures p allowed disclosures d ≡ ok d'
      → All (λ encoded. Among (text_digest p encoded) allowed) disclosures
  unfolding read_disclosures
  read_disclosures-Among allowed [] d d' h = tt
  read_disclosures-Among allowed (encoded ∷ rest) d d' h =
      pass_then (not (any (◌==◌ (text_digest p encoded)) allowed)) _ _ h λ committed h1.
        some_then (base64url_decode encoded) _ _ h1 λ bytes q h2.
          some_then (value_from_slice bytes) _ _ h2 λ json r h3.
            some_then (as_array json) _ _ h3 λ values a h4. (
              Among-any (text_digest p encoded) allowed (ground arith),
              read_disclosures-Among allowed rest (disclose_values p values d) d' h4,
            )

  -- A name of a person, and where it is kept.
  module _ (name : String) (pick : Disclosed → Option String)
      (step : (n v : Option String) (d : Disclosed) (x : String)
        → pick (disclose n v d) ≡ some x
        → (pick d ≡ some x) ⊎ ((n ≡ some name) × (v ≡ some x))) where
    said_by_values :
        (encoded : String) (bytes : List ℕ) (json : V) (values : List V) (d : Disclosed)
        (x : String)
        → base64url_decode encoded ≡ some bytes
        → value_from_slice bytes ≡ some json
        → as_array json ≡ some values
        → pick (disclose_values p values d) ≡ some x
        → (pick d ≡ some x) ⊎ Says name x encoded
    unfolding disclose_values
    said_by_values encoded bytes json (salt ∷ n ∷ v ∷ []) d x q r a h =
        elim (step (as_str n) (as_str v) d x h) [
          | inl before ↦ inl before
          | inr (named, valued) ↦ inr (record {
            bytes = bytes;
            decoded = q;
            json = json;
            read = r;
            salt = salt;
            name_value = n;
            text_value = v;
            listed = a;
            named = named;
            valued = valued;
          })
        ]
    said_by_values encoded bytes json [] d x q r a h = inl h
    said_by_values encoded bytes json (_ ∷ []) d x q r a h = inl h
    said_by_values encoded bytes json (_ ∷ _ ∷ []) d x q r a h = inl h
    said_by_values encoded bytes json (_ ∷ _ ∷ _ ∷ _ ∷ _) d x q r a h = inl h

    said_by :
        (allowed disclosures : List String) (d d' : Disclosed) (x : String)
        → read_disclosures p allowed disclosures d ≡ ok d'
        → pick d' ≡ some x
        → (pick d ≡ some x) ⊎ Discloses disclosures name x
    unfolding read_disclosures
    said_by allowed [] d d' x h e = inl cc
    said_by allowed (encoded ∷ rest) d d' x h e =
        pass_then (not (any (◌==◌ (text_digest p encoded)) allowed)) _ _ h λ committed h1.
          some_then (base64url_decode encoded) _ _ h1 λ bytes q h2.
            some_then (value_from_slice bytes) _ _ h2 λ json r h3.
              some_then (as_array json) _ _ h3 λ values a h4.
                elim (said_by allowed rest (disclose_values p values d) d' x h4 e) [
                  | inr (later, among, says) ↦ inr (later, inr among, says)
                  | inl now ↦ elim (said_by_values encoded bytes json values d x q r a now) [
                    | inl before ↦ inl before
                    | inr says ↦ inr (encoded, inl refl, says)
                  ]
                ]

  family_step :
      (n v : Option String) (d : Disclosed) (x : String)
      → (disclose n v d).family_name ≡ some x
      → (d.family_name ≡ some x) ⊎ ((n ≡ some "family_name") × (v ≡ some x))
  unfolding disclose
  family_step none v d x h = inl h
  family_step (some n) v d x h = elim (Bool-cases (n == "family_name")) [
    | inl e ↦ inr (ap some ((eq_iff n "family_name").0 e), ground arith)
    | inr e ↦ inl (ground arith)
  ]

  given_step :
      (n v : Option String) (d : Disclosed) (x : String)
      → (disclose n v d).given_name ≡ some x
      → (d.given_name ≡ some x) ⊎ ((n ≡ some "given_name") × (v ≡ some x))
  unfolding disclose
  given_step none v d x h = inl h
  given_step (some n) v d x h = elim (Bool-cases (n == "given_name")) [
    | inl e ↦ let q = (eq_iff n "given_name").0 e in inr (ap some q, rw q at h)
    | inr e ↦ inl (ground arith)
  ]

  birth_step :
      (n v : Option String) (d : Disclosed) (x : String)
      → (disclose n v d).birthdate ≡ some x
      → (d.birthdate ≡ some x) ⊎ ((n ≡ some "birthdate") × (v ≡ some x))
  unfolding disclose
  birth_step none v d x h = inl h
  birth_step (some n) v d x h = elim (Bool-cases (n == "birthdate")) [
    | inl e ↦ let q = (eq_iff n "birthdate").0 e in inr (ap some q, rw q at h)
    | inr e ↦ inl (ground arith)
  ]

  -- The three names that were read, each from one of the disclosures.
  pub read_disclosures-Discloses :
      (allowed disclosures : List String) (d : Disclosed) (family given birth : String)
      → read_disclosures p allowed disclosures nothing ≡ ok d
      → d.family_name ≡ some family
      → d.given_name ≡ some given
      → d.birthdate ≡ some birth
      → Discloses disclosures "family_name" family
        × Discloses disclosures "given_name" given
        × Discloses disclosures "birthdate" birth
  read_disclosures-Discloses allowed disclosures d family given birth h f g b =
      let first =
        said_by "family_name" (λ d. d.family_name) family_step allowed disclosures nothing d family
          h f in
      let second =
        said_by "given_name" (λ d. d.given_name) given_step allowed disclosures nothing d given h
          g in
      let third =
        said_by "birthdate" (λ d. d.birthdate) birth_step allowed disclosures nothing d birth h b in
      (
        elim first [ inl z ↦ absurd cc | inr x ↦ x ],
        elim second [ inl z ↦ absurd cc | inr x ↦ x ],
        elim third [ inl z ↦ absurd cc | inr x ↦ x ],
      )
