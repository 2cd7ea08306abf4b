-- ===== src/Hybrid/Cbor.antt =====
-- The package that reads and writes CBOR, as a parameter: its values are made and taken apart by the
-- functions below, which stand for the constructors and patterns of `ciborium::value::Value`.
use Prim.Native.String.{String}
use vcissuer.Prelude.{ℕ, ◌≡◌, ◌≤◌, ◌↔◌, Option, some, List, length, u64_max}

-- `as_integer` is the pattern with `u64::try_from` after it. A reader gives the value and the position
-- that it stopped at. A missing result is the package's error.
pub record Cbor : Type 1 where
  pub Value : Type 0
  pub integer : ℕ → Value
  pub text : String → Value
  pub bytes : List ℕ → Value
  pub array : List Value → Value
  pub map : List (Value × Value) → Value
  pub as_integer : Value → Option ℕ
  pub as_text : Value → Option String
  pub as_bytes : Value → Option (List ℕ)
  pub as_array : Value → Option (List Value)
  pub as_map : Value → Option (List (Value × Value))
  pub into_writer : Value → Option (List ℕ)
  pub from_reader : List ℕ → Option (Value × ℕ)

-- A pattern matches exactly the values of its constructor.
pub record Patterns (p : Cbor) : Type 0 where
  pub integer-iff :
      (v : p.Value) (n : ℕ) → (p.as_integer v ≡ some n) ↔ ((v ≡ p.integer n) × (n ≤ u64_max))
  pub text-iff : (v : p.Value) (s : String) → (p.as_text v ≡ some s) ↔ (v ≡ p.text s)
  pub bytes-iff : (v : p.Value) (b : List ℕ) → (p.as_bytes v ≡ some b) ↔ (v ≡ p.bytes b)
  pub array-iff : (v : p.Value) (vs : List p.Value) → (p.as_array v ≡ some vs) ↔ (v ≡ p.array vs)
  pub map-iff :
      (v : p.Value) (entries : List (p.Value × p.Value))
      → (p.as_map v ≡ some entries) ↔ (v ≡ p.map entries)

-- What was written for this value is read back as the value, to the end.
abbrev pub ReadsBack : (p : Cbor) → p.Value → Type 0
ReadsBack p v = (w : List ℕ) → p.into_writer v ≡ some w → p.from_reader w ≡ some (v, length w)
