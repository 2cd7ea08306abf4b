-- ===== src/Hybrid/Purposes.antt =====
-- The identifiers of the purposes.
use Prim.Native.String.{String}
use text.Mathlib.TextEquality.{eq_iff}
use vcissuer.Prelude.{◌≡◌, refl, ap, ◌∙◌, ◌↔◌, Bool, true, false, if◌then◌else◌}
use vcissuer.Outcome.{ok}
use vcissuer.Hybrid.{
  HybridPurpose, wallet_export_v1, wallet_recovery_v1, private_provider_message_v1,
  test_sd_jwt_wrapper_v1, test_mdoc_wrapper_v1, Coded, id, try_from,
}

try_from-id : (purpose : HybridPurpose) → try_from (id purpose) ≡ ok purpose
unfolding try_from id
try_from-id HybridPurpose.wallet_export_v1 = refl
try_from-id HybridPurpose.wallet_recovery_v1 = refl
try_from-id HybridPurpose.private_provider_message_v1 = refl
try_from-id HybridPurpose.test_sd_jwt_wrapper_v1 = refl
try_from-id HybridPurpose.test_mdoc_wrapper_v1 = refl

-- One arm of the match, for a purpose with its identifier.
arm_then :
    (value : String) (arm : HybridPurpose) (rest : Coded HybridPurpose) (purpose : HybridPurpose)
    → (rest ≡ ok purpose → value ≡ id purpose)
    → (test : Bool) → (test ≡ true → value ≡ id arm)
    → (if test then ok arm else rest) ≡ ok purpose
    → value ≡ id purpose
arm_then value arm rest purpose next true named h =
    let e : arm ≡ purpose = cc in named refl ∙ ap id e
arm_then value arm rest purpose next false named h = next h

id_of_try_from :
    (value : String) (purpose : HybridPurpose) → try_from value ≡ ok purpose → value ≡ id purpose
unfolding try_from id
id_of_try_from value purpose =
    arm_then value wallet_export_v1 _ purpose
      (arm_then value wallet_recovery_v1 _ purpose
        (arm_then value private_provider_message_v1 _ purpose
          (arm_then value test_sd_jwt_wrapper_v1 _ purpose
            (arm_then value test_mdoc_wrapper_v1 _ purpose (λ h. absurd cc) _ (eq_iff value _).0) _
            (eq_iff value _).0)
          _ (eq_iff value _).0)
        _ (eq_iff value _).0)
      _ (eq_iff value _).0

-- A text is read as a purpose exactly if it is the identifier of that purpose.
pub try_from_iff :
    (value : String) (purpose : HybridPurpose)
    → (try_from value ≡ ok purpose) ↔ (value ≡ id purpose)
try_from_iff value purpose =
    (id_of_try_from value purpose, λ e. ap try_from e ∙ try_from-id purpose)
