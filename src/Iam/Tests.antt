-- ===== src/Iam/Tests.antt =====
-- Runs of the policies of security/authorization.py.
use fxfill_enterprise_bankin.Common.{◌≡◌, ◌↔◌, refl, true, not, ◌||◌, some, [], ◌∷◌, contains, ◌==◌}
use fxfill_enterprise_bankin.Iam.{
  Permission, transfer_submit, Context, ResourceAttributes, action_to_permission, tenant_scoped,
  rbac, is_allowed, composite, has_permission, valid_roles, grants, role_of,
}
use fxfill_enterprise_bankin.Iam.Decisions.{HasRole, rbac_iff, submit_requirements}

abbrev officer : Context
officer = record {
  subject_id = "carol";
  tenant_id = "north";
  roles = "banking_officer" ∷ "approver" ∷ [];
}

abbrev transfer : ResourceAttributes
transfer = record {
  resource_type = "transfer";
  resource_id = "d1";
  tenant_id = "north";
  owner_subject_id = "alice";
  risk_level = "critical";
  side_effect = true;
}

submit_allowed :
    is_allowed (composite (tenant_scoped ∷ rbac ∷ []) officer transfer "submit_transfer") ≡ true
unfolding composite tenant_scoped rbac action_to_permission has_permission valid_roles grants
    role_of
submit_allowed = refl

rbac_iff_example : (is_allowed (rbac officer transfer "submit_transfer") ≡ true) ↔ (
    (p : Permission) × (action_to_permission "submit_transfer" ≡ some p) × HasRole p officer.roles)
rbac_iff_example = rbac_iff officer transfer "submit_transfer"

submit_requirements_example :
    (officer.tenant_id ≡ transfer.tenant_id)
    × HasRole transfer_submit officer.roles
    × ((not (transfer.risk_level == "critical") || contains "approver" officer.roles) ≡ true)
submit_requirements_example = submit_requirements officer transfer submit_allowed refl
