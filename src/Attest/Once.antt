-- ===== src/Attest/Once.antt =====
-- Sequences of App Attest calls around an assertion.
use Prim.Native.String.{String}
use vcissuer.Prelude.{ℕ, ◌≡◌, ◌≢◌, Option, List}
use vcissuer.Platform.{Platform}
use vcissuer.State.{VolatileState}
use vcissuer.Hybrid.Cbor.{Cbor}
use vcissuer.Attest.{AppAttestConfig, Certificates}
use vcissuer.Attest.Endpoints.{
  AppAttestRegisterRequest, AppAttestAssertRequest, app_attest_challenge, app_attest_register,
  app_attest_assert, enforce_app_attest,
}

-- The calls that change what App Attest keeps, with their clocks and random values.
pub data AttestCall : Type 0 where
  to_challenge : Option ℕ → String → AttestCall
  to_register : AppAttestRegisterRequest → Option ℕ → AttestCall
  to_assert : AppAttestAssertRequest → AttestCall
  to_protected : Option String → Option String → List ℕ → AttestCall

-- The call registers another key.
abbrev pub Spares : String → AttestCall → Type 0
Spares key (to_register request clock) = request.key_id ≢ key
Spares key _ = Unit {0}

module _ {V : Type 0} (p : Platform V) (x : Certificates p) (c : Cbor)
    (config : Option AppAttestConfig) where
  unfoldable pub attest_step : VolatileState V → AttestCall → VolatileState V
  attest_step s (to_challenge clock challenge) = (app_attest_challenge config clock challenge s).1
  attest_step s (to_register request clock) = (app_attest_register p x c config request clock s).1
  attest_step s (to_assert request) = (app_attest_assert p x c config request s).1
  attest_step s (to_protected key_header assertion_header body) =
      (enforce_app_attest p x c config key_header assertion_header body s).1

  -- The states that calls lead to without registering the key.
  pub data Later (key : String) (s : VolatileState V) : VolatileState V → Type 0 where
    now : Later key s s
    after :
        {t u : VolatileState V}
        → Later key s t
        → (call : AttestCall) → Spares key call
        → u ≡ attest_step t call
        → Later key s u
