-- ===== src/Liveness.antt =====
-- rust/issuer-service/src/iproov.rs: the liveness provider. What is sent over the network is a
-- parameter: a post to a URL with the fields of its body gives the text of the answer, or nothing where
-- the call failed or the status was an error. The answers' JSON shapes are read by parameters, too.
pub mod Verdict
use Prim.Native.String.{String, [], ◌∷◌, ◌++◌}
use text.Mathlib.Text.{◌==◌}
use mathlib.Core.List
use vcissuer.Prelude.{
  ℕ, Bool, true, false, not, all, length, ◌&&◌, ◌||◌, Option, none, some, List, leb, and_then,
  unwrap_or, if◌then◌else◌, ◌==◌ as nat_eq,
}
use vcissuer.Text.{as_bytes, split, strip_prefix, is_empty}

pub record IproovConfig : Type 0 where
  pub api_key : String
  pub secret : String
  pub base_url : String
  pub assurance_type : String
  pub web_base_url : Option String

pub record ValidateResponse : Type 0 where
  pub passed : Bool
  pub assurance_type : Option String

-- What the provider's client takes from other packages.
pub record Provider : Type 0 where
  pub post : String → List (String × String) → Option String
  pub sha256_hex : List ℕ → String
  pub token_from_str : String → Option String
  pub validate_from_str : String → Option ValidateResponse

abbrev pub client_id : String
client_id = "eudi-wallet-pid-capture"

first_piece : List String → String → String
first_piece List.[] whole = whole
first_piece (List.◌∷◌ piece pieces) whole = piece

without_scheme : String → String
without_scheme base_url =
    unwrap_or (strip_prefix "https://" base_url)
      (unwrap_or (strip_prefix "http://" base_url) base_url)

unfoldable pub host_of : String → String
unfolding first_piece without_scheme
host_of base_url = first_piece (split b'/' (without_scheme base_url)) (without_scheme base_url)

unfoldable pub token_endpoint : IproovConfig → String
token_endpoint cfg = cfg.base_url ++ "/claim/verify/token"

unfoldable pub validate_endpoint : IproovConfig → String
validate_endpoint cfg = cfg.base_url ++ "/claim/verify/validate"

derived_url : IproovConfig → String
derived_url cfg = "wss://" ++ (host_of cfg.base_url ++ "/ws")

given_or_derived : Option String → IproovConfig → String
unfolding derived_url
given_or_derived none cfg = derived_url cfg
given_or_derived (some web) cfg = if is_empty web then derived_url cfg else web

unfoldable pub streaming_url : IproovConfig → String
unfolding given_or_derived
streaming_url cfg = given_or_derived cfg.web_base_url cfg

unfoldable pub token_request_body : IproovConfig → String → String → List (String × String)
token_request_body cfg user_id resource =
    List.◌∷◌ ("api_key", cfg.api_key)
      (List.◌∷◌ ("secret", cfg.secret)
        (List.◌∷◌ ("resource", resource)
          (List.◌∷◌ ("client", client_id)
            (List.◌∷◌ ("assurance_type", cfg.assurance_type)
              (List.◌∷◌ ("user_id", user_id) List.[])))))

unfoldable pub validate_request_body :
    IproovConfig → String → String → String → List (String × String)
validate_request_body cfg token user_id client_ip =
    List.◌∷◌ ("api_key", cfg.api_key)
      (List.◌∷◌ ("secret", cfg.secret)
        (List.◌∷◌ ("token", token)
          (List.◌∷◌ ("client", client_id)
            (List.◌∷◌ ("user_id", user_id) (List.◌∷◌ ("ip", client_ip) List.[])))))

is_text : Option String → String → Bool
is_text none s = false
is_text (some t) s = t == s

module _ (provider : Provider) where
  -- A missing result is an error.
  unfoldable pub parse_token_response : String → Option String
  parse_token_response body =
      and_then (provider.token_from_str body) λ token. if is_empty token then none else some token

  unfoldable pub parse_validate_response : String → String → Option Bool
  unfolding is_text
  parse_validate_response body required_assurance =
      and_then (provider.validate_from_str body)
        λ parsed. some (parsed.passed && is_text parsed.assurance_type required_assurance)

  is_safe_byte : ℕ → Bool
  is_safe_byte b =
      (leb b'a' b && leb b b'z')
      || (leb b'A' b && leb b b'Z')
      || (leb b'0' b && leb b b'9')
      || nat_eq b b'@'
      || nat_eq b b'.'
      || nat_eq b b'_'
      || nat_eq b b'-'

  unfoldable pub safe_user_id : String → String
  unfolding is_safe_byte
  safe_user_id raw =
      if not (is_empty raw) && leb (length (as_bytes raw)) 255 && all is_safe_byte (as_bytes raw)
      then raw
      else provider.sha256_hex (as_bytes raw)

  unfoldable pub create_token : IproovConfig → String → String → Option String
  unfolding parse_token_response
  create_token cfg user_id resource =
      and_then
        (provider.post (token_endpoint cfg)
          (token_request_body cfg (safe_user_id user_id) resource))
        parse_token_response

  unfoldable pub validate : IproovConfig → String → String → String → Option Bool
  unfolding parse_validate_response
  validate cfg token user_id client_ip =
      and_then
        (provider.post (validate_endpoint cfg)
          (validate_request_body cfg token (safe_user_id user_id) client_ip))
        (λ body. parse_validate_response body cfg.assurance_type)
