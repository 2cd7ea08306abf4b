-- ===== src/Liveness/Verdict.antt =====
-- When the provider's answer counts as a live person.
use Prim.Native.String.{String}
use text.Mathlib.TextEquality.{eq_iff}
use vcissuer.Prelude.{◌≡◌, ◌↔◌, refl, ap, true, Option, none, some, arith, Option-cases, inl, inr}
use vcissuer.Liveness.{
  IproovConfig, ValidateResponse, Provider, is_text, validate_endpoint, validate_request_body,
  safe_user_id, validate,
}

-- The provider answered for this token and user, that the capture passed at the level required.
pub record Live (provider : Provider) (cfg : IproovConfig) (token user_id client_ip : String)
    : Type 0 where
  pub body : String
  pub answered :
      provider.post
        (validate_endpoint cfg)
        (validate_request_body cfg token (safe_user_id provider user_id) client_ip)
      ≡ some body
  pub response : ValidateResponse
  pub parsed : provider.validate_from_str body ≡ some response
  pub passed : response.passed ≡ true
  pub level : response.assurance_type ≡ some cfg.assurance_type

is_text_iff : (o : Option String) (s : String) → is_text o s ≡ true → o ≡ some s
unfolding is_text
is_text_iff none s h = absurd cc
is_text_iff (some t) s h = ap some ((eq_iff t s).0 h)

pub validate-Live :
    (provider : Provider) (cfg : IproovConfig) (token user_id client_ip : String)
    → validate provider cfg token user_id client_ip ≡ some true
    → Live provider cfg token user_id client_ip
unfolding validate
validate-Live provider cfg token user_id client_ip h =
    elim (Option-cases (
      provider.post (validate_endpoint cfg)
        (validate_request_body cfg token (safe_user_id provider user_id) client_ip))) [
          | inl e ↦ absurd (ground arith)
          | inr (b, e) ↦ elim (Option-cases (provider.validate_from_str b)) [
            | inl q ↦ absurd (ground arith)
            | inr (r, q) ↦ record {
              body = b;
              answered = e;
              response = r;
              parsed = q;
              passed = ground arith;
              level = is_text_iff r.assurance_type cfg.assurance_type (ground arith);
            }
          ]
        ]

is_text_refl : (s : String) → is_text (some s) s ≡ true
unfolding is_text
is_text_refl s = (eq_iff s s).1 refl

Live-validate :
    (provider : Provider) (cfg : IproovConfig) (token user_id client_ip : String)
    → Live provider cfg token user_id client_ip
    → validate provider cfg token user_id client_ip ≡ some true
unfolding validate
Live-validate provider cfg token user_id client_ip h =
    rw (h.answered, h.parsed, h.passed, h.level, is_text_refl cfg.assurance_type)

-- The verdict is that of a live person exactly if the provider answered, for this token and user, that
-- the capture passed at the level that is configured: a weaker level, or none, is never a pass.
pub validate_iff :
    (provider : Provider) (cfg : IproovConfig) (token user_id client_ip : String)
    → (validate provider cfg token user_id client_ip ≡ some true
        ↔ Live provider cfg token user_id client_ip)
validate_iff provider cfg token user_id client_ip = (
  validate-Live provider cfg token user_id client_ip,
  Live-validate provider cfg token user_id client_ip,
)
