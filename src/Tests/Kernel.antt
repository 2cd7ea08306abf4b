-- ===== src/Tests/Kernel.antt =====
-- The fixtures of rust/issuer-core/src/lib.rs and its kernel on them.
use vcissuer.Prelude.{◌≡◌, ◌≢◌, ◌↔◌, refl, true, false, none, some}
use vcissuer.Kernel.{
  Evidence, Session, Request, SignCommand, Delegation, pid, representation, sd_jwt_vc, signed,
  usable_at, role_evidence_ok, representation_ok, chip_liveness_ok, device_binding_ok,
  command_powers, is_empty, may_issue, authorize_sign, subset_of, powers_to_scope_urns,
  scope_urns_subset,
}
use vcissuer.Kernel.Mandate.{Delegated, on_behalf_of-Delegated, no_delegator-no_powers}
use vcissuer.Kernel.Taxonomy.{scope_urns_subset-subset_of}

abbrev valid_evidence : Evidence
valid_evidence = record { valid_from = 1; valid_until = 200; fresh_until = 150; accepted = true }

abbrev session : Session
session = record {
  id = 1;
  profile = record {
    id = 7;
    role = pid;
    format = sd_jwt_vc;
    enabled = true;
    device_binding_required = true;
    pid_binding_required = false;
    require_hybrid_pq = false;
    require_chip_liveness = false;
  };
  authorization = record { evidence = valid_evidence; profile = 7; subject = 8; dataset = 9 };
  token = record { evidence = valid_evidence; dpop_key = 10 };
  wallet = record {
    wia = valid_evidence;
    ka = some valid_evidence;
    wallet_not_revoked = true;
    holder_key_approved = true;
  };
  subject = record {
    evidence = valid_evidence;
    subject = 8;
    loa_high = true;
    entitled = true;
    claims_current = true;
    dataset = 9;
    pid_binding_verified = false;
  };
  expected_nonce = 11;
  nonce_unused = true;
  issuer_entitled = true;
  status_reserved = true;
  already_issued = false;
  wia_ka_maintenance_end = 1000;
  hybrid_pq_bound = false;
  delegation = none;
  chip_evidence = none;
}

abbrev request : Request
request = record {
  id = 12;
  profile = 7;
  subject = 8;
  dataset = 9;
  dpop_key = 10;
  proof = record {
    evidence = valid_evidence;
    nonce = 11;
    holder_key = 10;
    possession_valid = true;
  };
  expiry = 900;
  requested_powers = 0;
}

abbrev delegation : Delegation
delegation = record {
  delegator_evidence = valid_evidence;
  delegator = 20;
  delegate_key = 10;
  grant = 0b1110;
  mandate_not_revoked = true;
}

abbrev mandate_session : Session
mandate_session = record session {
  profile = record session.profile { role = representation };
  delegation = some delegation;
}

abbrev mandate_request : Request
mandate_request = record request { requested_powers = 0b110 }

abbrev command : SignCommand
command = record {
  session = 1;
  request = 12;
  profile = 7;
  subject = 8;
  holder_key = 10;
  on_behalf_of = none;
  granted_powers = 0;
}

abbrev mandate_command : SignCommand
mandate_command = record command { on_behalf_of = some 20; granted_powers = 0b110 }

issued_early : may_issue session request 50 ≡ true
unfolding may_issue usable_at role_evidence_ok representation_ok chip_liveness_ok device_binding_ok
issued_early = refl

issued_late : may_issue session request 150 ≡ true
unfolding may_issue usable_at role_evidence_ok representation_ok chip_liveness_ok device_binding_ok
issued_late = refl

command_signed : authorize_sign session request 100 ≡ signed command
unfolding may_issue usable_at role_evidence_ok representation_ok chip_liveness_ok device_binding_ok
    authorize_sign command_powers
command_signed = refl

mandate_signed : authorize_sign mandate_session mandate_request 100 ≡ signed mandate_command
unfolding may_issue usable_at role_evidence_ok representation_ok chip_liveness_ok device_binding_ok
    authorize_sign command_powers subset_of is_empty
mandate_signed = refl

on_behalf_of-Delegated_example : Delegated mandate_session mandate_command 20 100
on_behalf_of-Delegated_example =
    on_behalf_of-Delegated mandate_session mandate_request 100 mandate_command 20 mandate_signed
      refl

no_delegator-no_powers_example : (command.granted_powers ≡ 0) × (pid ≢ representation)
no_delegator-no_powers_example =
    no_delegator-no_powers session request 100 command command_signed refl

covered : subset_of 0b110 0b111111 ≡ true
unfolding subset_of
covered = refl

scope_urns_subset-subset_of_example :
    (scope_urns_subset (powers_to_scope_urns 0b110) (powers_to_scope_urns 0b1110) ≡ true)
    ↔ (subset_of 0b110 0b1110 ≡ true)
scope_urns_subset-subset_of_example = scope_urns_subset-subset_of 0b110 0b1110 covered
