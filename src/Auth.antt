-- ===== src/Auth.antt =====
-- auth.py: the authorization gateway and its policies. The arguments of an operation stand for
-- their canonical JSON text, `json.dumps(..., sort_keys=True)`.
pub mod Grant
mod Tests
use fxfill_enterprise_bankin.Common.{
  ℕ, String, Bool, true, false, not, ◌&&◌, Option, none, some, List, [], ◌∷◌, ◌++◌, ◌==◌, ltb,
  if◌then◌else◌,
}

pub data ApprovalDecision : Type 0 where
  approved denied pending : ApprovalDecision

pub data OperationKind : Type 0 where
  read write transfer delete config : OperationKind

-- The details that the grant policy reads, each text empty where the detail is missing.
pub record Details : Type 0 where
  pub args : String
  pub session_id : String
  pub user_id : String
  pub thread_id : String
  pub idempotency_key : String

pub record Operation : Type 0 where
  pub kind : OperationKind
  pub name : String
  pub target : String
  pub details : Details

pub record AuthorizationDecision : Type 0 where
  pub operation : Operation
  pub decision : ApprovalDecision
  pub approver : Option String

abbrev pub decide : Operation → ApprovalDecision → AuthorizationDecision
decide op d = record { operation = op; decision = d; approver = none }

abbrev pub is_read : OperationKind → Bool
is_read read = true
is_read _ = false

-- `ApprovedOperationGrant`
pub record OperationGrant : Type 0 where
  pub session_id : String
  pub approving_user : String
  pub requesting_user : String
  pub thread_id : String
  pub tool_name : String
  pub tool_args : String
  pub idempotency_key : String
  pub decision : String
  pub created_at : ℕ
  pub expires_at : Option ℕ
  pub consumed : Bool
  pub version : ℕ

unfoldable pub is_expired : ℕ → OperationGrant → Bool
is_expired now g = elim g.expires_at [ none ↦ false | some e ↦ ltb e now ]

unfoldable pub can_authorize :
    ℕ → OperationGrant → (session_id user_id thread_id tool_name tool_args key : String) → Bool
unfolding is_expired
can_authorize now g session_id user_id thread_id tool_name tool_args key =
    if not (g.decision == "approved")
    then false
    else if g.consumed
    then false
    else if is_expired now g
    then false
    else if not (g.session_id == session_id)
    then false
    else if not (g.requesting_user == user_id)
    then false
    else if not (g.thread_id == thread_id)
    then false
    else if not (g.tool_name == tool_name)
    then false
    else if not (g.idempotency_key == key)
    then false
    else g.tool_args == tool_args

-- The policies, with the one-shot flag of the grant policy as its state.
pub data Policy : Type 0 where
  auto_approve read_only require_approval : Policy
  granted : OperationGrant → (used : Bool) → Policy

abbrev pub by_grant : ℕ → OperationGrant → Operation → AuthorizationDecision × Policy
by_grant now g op =
    let d = op.details in
    if can_authorize now g d.session_id d.user_id d.thread_id op.name d.args d.idempotency_key
    then (
      record { operation = op; decision = approved; approver = some g.approving_user },
      granted g true,
    )
    else (decide op denied, granted g false)

-- `authorize` of each policy.
unfoldable pub authorize : ℕ → Policy → Operation → AuthorizationDecision × Policy
authorize now auto_approve op = (decide op approved, auto_approve)
authorize now read_only op = (decide op (if is_read op.kind then approved else denied), read_only)
authorize now require_approval op =
    (decide op (if is_read op.kind then approved else pending), require_approval)
authorize now (granted g true) op = (decide op denied, granted g true)
authorize now (granted g false) op = by_grant now g op

-- `AuthorizationGateway`
pub record Gateway : Type 0 where
  pub policy : Policy
  pub audit_trail : List AuthorizationDecision

unfoldable pub gateway_authorize : ℕ → Operation → Gateway → AuthorizationDecision × Gateway
gateway_authorize now op gw =
    let (d, policy') = authorize now gw.policy op in
    (d, record { policy = policy'; audit_trail = gw.audit_trail ++ d ∷ [] })
