-- ===== src/Iam.antt =====
-- iam.py and security/authorization.py: roles, permissions, and the policies that decide on a
-- request. A set of texts is a list; `context.roles` holds the role names of the request.
pub mod Decisions
mod Tests
use fxfill_enterprise_bankin.Common.{
  String, Bool, true, false, not, ◌&&◌, ◌||◌, Option, none, some, List, [], ◌∷◌, any, contains,
  is_nonempty, ◌==◌, if◌then◌else◌,
}

pub data Role : Type 0 where
  customer banking_officer approver compliance_officer admin auditor system : Role

pub data Permission : Type 0 where
  account_read account_read_own transfer_create transfer_submit transfer_cancel transfer_read
        beneficiary_read audit_read user_manage report_suspicious approve_low_risk approve_high_risk
        approve_critical :
      Permission

-- ROLE_PERMISSIONS, as the test `permission in perms`
unfoldable pub grants : Role → Permission → Bool
grants customer p = elim p [
  | account_read_own ↦ true
  | transfer_create ↦ true
  | transfer_cancel ↦ true
  | transfer_read ↦ true
  | beneficiary_read ↦ true
  | report_suspicious ↦ true
  | _ ↦ false
]
grants banking_officer p = elim p [
  | account_read ↦ true
  | transfer_create ↦ true
  | transfer_submit ↦ true
  | transfer_cancel ↦ true
  | transfer_read ↦ true
  | beneficiary_read ↦ true
  | approve_low_risk ↦ true
  | report_suspicious ↦ true
  | _ ↦ false
]
grants approver p = elim p [
  | account_read ↦ true
  | transfer_read ↦ true
  | approve_low_risk ↦ true
  | approve_high_risk ↦ true
  | approve_critical ↦ true
  | _ ↦ false
]
grants compliance_officer p = elim p [
  | account_read ↦ true
  | transfer_read ↦ true
  | audit_read ↦ true
  | report_suspicious ↦ true
  | approve_critical ↦ true
  | _ ↦ false
]
grants admin p = elim p [
  | account_read ↦ true
  | transfer_read ↦ true
  | audit_read ↦ true
  | user_manage ↦ true
  | _ ↦ false
]
grants auditor p = elim p [ audit_read ↦ true | _ ↦ false ]
grants system p = true

unfoldable pub has_permission : List Role → Permission → Bool
has_permission [] p = false
has_permission (r ∷ rs) p = grants r p || has_permission rs p

abbrev pub role_value : Role → String
role_value customer = "customer"
role_value banking_officer = "banking_officer"
role_value approver = "approver"
role_value compliance_officer = "compliance_officer"
role_value admin = "admin"
role_value auditor = "auditor"
role_value system = "system"

-- `Role(r)` if r is the value of a role
unfoldable pub role_of : String → Option Role
role_of r =
    if r == "customer"
    then some customer
    else if r == "banking_officer"
    then some banking_officer
    else if r == "approver"
    then some approver
    else if r == "compliance_officer"
    then some compliance_officer
    else if r == "admin"
    then some admin
    else if r == "auditor"
    then some auditor
    else if r == "system"
    then some system
    else none

abbrev pub cons_some : {A : Type 0} → Option A → List A → List A
cons_some none xs = xs
cons_some (some x) xs = x ∷ xs

unfoldable pub valid_roles : List String → List Role
valid_roles [] = []
valid_roles (r ∷ rs) = cons_some (role_of r) (valid_roles rs)

-- `TrustedRequestContext`, the fields that the policies read.
pub record Context : Type 0 where
  pub subject_id : String
  pub tenant_id : String
  pub roles : List String

pub record ResourceAttributes : Type 0 where
  pub resource_type : String
  pub resource_id : String
  pub tenant_id : String
  pub owner_subject_id : String
  pub risk_level : String
  pub side_effect : Bool

-- A decision without its reason text.
pub data AuthzDecision : Type 0 where
  allow : AuthzDecision
  deny : (error_code : String) → AuthzDecision

-- `_action_to_permission`
unfoldable pub action_to_permission : String → Option Permission
action_to_permission a =
    if a == "read_account"
    then some account_read
    else if a == "read_own_account"
    then some account_read_own
    else if a == "create_transfer"
    then some transfer_create
    else if a == "submit_transfer"
    then some transfer_submit
    else if a == "cancel_transfer"
    then some transfer_cancel
    else if a == "read_transfer"
    then some transfer_read
    else if a == "read_beneficiary"
    then some beneficiary_read
    else if a == "audit_read"
    then some audit_read
    else if a == "report_suspicious"
    then some report_suspicious
    else if a == "approve_low_risk"
    then some approve_low_risk
    else if a == "approve_high_risk"
    then some approve_high_risk
    else if a == "approve_critical"
    then some approve_critical
    else none

-- `TenantScopedPolicy.authorize`
unfoldable pub tenant_scoped : Context → ResourceAttributes → String → AuthzDecision
tenant_scoped ctx res action =
    if is_nonempty res.tenant_id && not (ctx.tenant_id == res.tenant_id)
    then deny "CROSS_TENANT_DENIED"
    else if res.resource_type == "account"
        && is_nonempty res.owner_subject_id
        && not (ctx.subject_id == res.owner_subject_id)
        && not (contains "banking_officer" ctx.roles)
    then deny "ACCOUNT_ACCESS_DENIED"
    else if res.risk_level == "critical" && not (contains "approver" ctx.roles)
    then deny "INSUFFICIENT_ROLE"
    else allow

abbrev pub by_permission : List Role → Option Permission → AuthzDecision
by_permission roles none = deny "UNKNOWN_ACTION"
by_permission roles (some p) =
    if has_permission roles p then allow else deny "INSUFFICIENT_PERMISSION"

abbrev pub by_roles : List Role → String → AuthzDecision
by_roles [] action = deny "NO_ROLES"
by_roles (r ∷ rs) action = by_permission (r ∷ rs) (action_to_permission action)

-- `RBACPolicy.authorize`
unfoldable pub rbac : Context → ResourceAttributes → String → AuthzDecision
rbac ctx res action = by_roles (valid_roles ctx.roles) action

abbrev pub Policy : Type 0
Policy = Context → ResourceAttributes → String → AuthzDecision

abbrev pub is_allowed : AuthzDecision → Bool
is_allowed allow = true
is_allowed (deny e) = false

-- `CompositePolicy.authorize`
unfoldable pub composite : List Policy → Policy
composite [] ctx res action = allow
composite (p ∷ ps) ctx res action =
    let rest = composite ps ctx res action in
    if is_allowed (p ctx res action) then rest else p ctx res action
