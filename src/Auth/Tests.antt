-- ===== src/Auth/Tests.antt =====
-- Runs of the grant policy of auth.py.
use fxfill_enterprise_bankin.Common.{◌≡◌, ◌↔◌, refl, true, false, some}
use fxfill_enterprise_bankin.Auth.{
  OperationKind, Operation, OperationGrant, granted, authorize, can_authorize, is_expired,
}
use fxfill_enterprise_bankin.Auth.Grant.{IsFor, is_approved, grant_policy_exact}

abbrev transfer : Operation
transfer = record {
  kind = OperationKind.transfer;
  name = "submit_transfer";
  target = "tool:submit_transfer";
  details = record {
    args = "{draft: 7}";
    session_id = "s1";
    user_id = "alice";
    thread_id = "t1";
    idempotency_key = "s1:c1";
  };
}

abbrev grant : OperationGrant
grant = record {
  session_id = "s1";
  approving_user = "bob";
  requesting_user = "alice";
  thread_id = "t1";
  tool_name = "submit_transfer";
  tool_args = "{draft: 7}";
  idempotency_key = "s1:c1";
  decision = "approved";
  created_at = 10;
  expires_at = some 500;
  consumed = false;
  version = 1;
}

approves_transfer : is_approved (authorize 20 (granted grant false) transfer).0.decision ≡ true
unfolding authorize can_authorize is_expired
approves_transfer = refl

grant_policy_exact_example :
    (is_approved (authorize 20 (granted grant false) transfer).0.decision ≡ true)
    ↔ IsFor 20 grant transfer
grant_policy_exact_example = grant_policy_exact 20 grant transfer
