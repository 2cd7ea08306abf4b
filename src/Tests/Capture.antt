-- ===== src/Tests/Capture.antt =====
-- A capture session from its opening to the document.
use Prim.Native.String.{String, ◌++◌}
use vcissuer.Prelude.{◌≡◌, ◌↔◌, refl, true, none, some, arith}
use vcissuer.Oauth.{ok}
use vcissuer.State.{VolatileState, initial, awaiting_evidence}
use vcissuer.Liveness.{IproovConfig, Provider, validate}
use vcissuer.Liveness.Verdict.{Live, validate_iff}
use vcissuer.Capture.{
  CreateCaptureSessionRequest, CaptureEvidenceRequest, CaptureAnswer, PendingCapture, Encoders,
  create_pid_capture_session, begin_capture, finish_capture,
}
use vcissuer.Capture.Captured.{Captured, finish_capture-Captured}
use vcissuer.Tests.{platform, config, clock, kernel_tokens}
use vcissuer.Tests.Proofs.{chip}

abbrev provider : Provider
provider = record {
  post = λ url body. some url;
  sha256_hex = λ bytes. "hash";
  token_from_str = λ text. some "token";
  validate_from_str =
      λ text. some (record { passed = true; assurance_type = some "genuine_presence" });
}

abbrev gpa : IproovConfig
gpa = record {
  api_key = "k";
  secret = "s";
  base_url = "https://iproov/api/v2";
  assurance_type = "genuine_presence";
  web_base_url = none;
}

abbrev encoders : Encoders String
encoders = record {
  issue_sd_jwt = λ profile key now claims. ok ("sd-jwt " ++ claims.family_name);
  issue_mdoc = λ profile key now claims. ok ("mdoc " ++ claims.family_name);
}

abbrev opening : CreateCaptureSessionRequest String
opening = record { holder_jwk = "jwk"; device_token = none }

abbrev open_state : VolatileState String
open_state =
    (create_pid_capture_session platform provider config (some gpa) opening clock "id" "n"
      "https://i/" initial).1

abbrev request : CaptureEvidenceRequest
request = record { attestation = "h.c.s"; client_ip = none }

abbrev pending : PendingCapture String
pending = record {
  session = record {
    holder_jkt = "digest";
    holder_jwk = "0123456789abcdef0123456789abcdef";
    nonce = "n";
    iproov_user_id = "pid-capture-id";
    iproov_token = some "token";
    status = awaiting_evidence;
    credential = none;
    credential_mdoc = none;
    expires_at = 1000;
    device_token = none;
  };
  now = 100;
  verified = chip;
}

begins :
    begin_capture platform provider config (some gpa) "id" request 100 open_state
    ≡ (ok pending, open_state)
unfolding vcissuer.Flow.step vcissuer.State.initial vcissuer.Table.lookup vcissuer.Table.insert
    vcissuer.Table.remove vcissuer.Table.find_value vcissuer.Table.has vcissuer.Table.add
    vcissuer.Text.as_bytes vcissuer.Text.is_empty vcissuer.Text.split
    vcissuer.Text.split_ascii_whitespace vcissuer.Text.trim_end_slashes vcissuer.Text.strip_prefix
    vcissuer.Proof.Jws.unix_time vcissuer.Proof.Jws.three_parts vcissuer.Proof.Jws.compact_parts
    vcissuer.Oauth.oauth_error vcissuer.Capture.begin_capture vcissuer.Capture.finish_capture
    vcissuer.Capture.capture_gate vcissuer.Capture.set_session vcissuer.Capture.awaiting_session
    vcissuer.Capture.is_awaiting vcissuer.Capture.liveness
    vcissuer.Capture.portrait_matched_liveness vcissuer.Liveness.validate
    vcissuer.Liveness.safe_user_id vcissuer.Liveness.parse_validate_response
    vcissuer.Liveness.validate_endpoint vcissuer.Liveness.validate_request_body
    vcissuer.State.use_binding_jti vcissuer.Gate.authorize_kernel vcissuer.Gate.role_of
    vcissuer.Profile.is_nfc_pid vcissuer.Proof.Jws.hash_u128 vcissuer.Kernel.authorize_sign
    vcissuer.Kernel.may_issue vcissuer.Kernel.usable_at vcissuer.Kernel.role_evidence_ok
    vcissuer.Kernel.representation_ok vcissuer.Kernel.chip_liveness_ok
    vcissuer.Kernel.device_binding_ok vcissuer.Kernel.subset_of vcissuer.Kernel.command_powers
    vcissuer.Gate.subject_of vcissuer.Gate.chip_subject vcissuer.Gate.or_else
    vcissuer.Gate.demo_mandate_delegation vcissuer.Kernel.is_empty
    vcissuer.Capture.create_pid_capture_session vcissuer.Capture.iproov_user_id
    vcissuer.Capture.iproov_resource vcissuer.Liveness.create_token
    vcissuer.Liveness.parse_token_response vcissuer.Liveness.token_endpoint
    vcissuer.Liveness.token_request_body vcissuer.Liveness.streaming_url vcissuer.Liveness.host_of
    vcissuer.Capture.invocation_url vcissuer.Proof.Jws.verifying_key_and_jwk
    vcissuer.Proof.Emrtd.verify_emrtd_evidence vcissuer.Proof.Jws.verify_jws_payload
    vcissuer.Proof.Emrtd.is_expired_document vcissuer.Proof.Emrtd.age_over_18
    vcissuer.Proof.Emrtd.parse_date vcissuer.Text.parse_number vcissuer.Proof.Emrtd.today_at
    vcissuer.Text.is_blank
begins = refl

abbrev answer : CaptureAnswer
answer = record { credential = "sd-jwt Mustermann"; credential_mdoc = "mdoc Mustermann" }

abbrev closed_state : VolatileState String
closed_state =
    (finish_capture platform encoders "id" pending kernel_tokens kernel_tokens open_state).1

finishes :
    finish_capture platform encoders "id" pending kernel_tokens kernel_tokens open_state
    ≡ (ok answer, closed_state)
unfolding vcissuer.Flow.step vcissuer.State.initial vcissuer.Table.lookup vcissuer.Table.insert
    vcissuer.Table.remove vcissuer.Table.find_value vcissuer.Table.has vcissuer.Table.add
    vcissuer.Text.as_bytes vcissuer.Text.is_empty vcissuer.Text.split
    vcissuer.Text.split_ascii_whitespace vcissuer.Text.trim_end_slashes vcissuer.Text.strip_prefix
    vcissuer.Proof.Jws.unix_time vcissuer.Proof.Jws.three_parts vcissuer.Proof.Jws.compact_parts
    vcissuer.Oauth.oauth_error vcissuer.Capture.begin_capture vcissuer.Capture.finish_capture
    vcissuer.Capture.capture_gate vcissuer.Capture.set_session vcissuer.Capture.awaiting_session
    vcissuer.Capture.is_awaiting vcissuer.Capture.liveness
    vcissuer.Capture.portrait_matched_liveness vcissuer.Liveness.validate
    vcissuer.Liveness.safe_user_id vcissuer.Liveness.parse_validate_response
    vcissuer.Liveness.validate_endpoint vcissuer.Liveness.validate_request_body
    vcissuer.State.use_binding_jti vcissuer.Gate.authorize_kernel vcissuer.Gate.role_of
    vcissuer.Profile.is_nfc_pid vcissuer.Proof.Jws.hash_u128 vcissuer.Kernel.authorize_sign
    vcissuer.Kernel.may_issue vcissuer.Kernel.usable_at vcissuer.Kernel.role_evidence_ok
    vcissuer.Kernel.representation_ok vcissuer.Kernel.chip_liveness_ok
    vcissuer.Kernel.device_binding_ok vcissuer.Kernel.subset_of vcissuer.Kernel.command_powers
    vcissuer.Gate.subject_of vcissuer.Gate.chip_subject vcissuer.Gate.or_else
    vcissuer.Gate.demo_mandate_delegation vcissuer.Kernel.is_empty
    vcissuer.Capture.create_pid_capture_session vcissuer.Capture.iproov_user_id
    vcissuer.Capture.iproov_resource vcissuer.Liveness.create_token
    vcissuer.Liveness.parse_token_response vcissuer.Liveness.token_endpoint
    vcissuer.Liveness.token_request_body vcissuer.Liveness.streaming_url vcissuer.Liveness.host_of
    vcissuer.Capture.invocation_url vcissuer.Proof.Jws.verifying_key_and_jwk
    vcissuer.Proof.Emrtd.verify_emrtd_evidence vcissuer.Proof.Jws.verify_jws_payload
    vcissuer.Proof.Emrtd.is_expired_document vcissuer.Proof.Emrtd.age_over_18
    vcissuer.Proof.Emrtd.parse_date vcissuer.Text.parse_number vcissuer.Proof.Emrtd.today_at
    vcissuer.Text.is_blank
finishes = refl

finish_capture-Captured_example :
    Captured platform provider config
      (some gpa)
      encoders
      "id"
      request
      100
      kernel_tokens
      kernel_tokens
      open_state
      open_state
      closed_state
      answer
finish_capture-Captured_example =
    finish_capture-Captured platform provider config (some gpa) encoders "id" request 100
      kernel_tokens kernel_tokens pending open_state open_state open_state closed_state answer
      (omega arith) begins finishes

validate_iff_example :
    validate provider gpa "token" "pid-capture-id" "" ≡ some true
    ↔ Live provider gpa "token" "pid-capture-id" ""
validate_iff_example = validate_iff provider gpa "token" "pid-capture-id" ""
