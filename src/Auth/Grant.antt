-- ===== src/Auth/Grant.antt =====
-- The grant policy of auth.py authorises one operation, once.
use fxfill_enterprise_bankin.Common.{
  ℕ, ◌+◌, ◌≤◌, ◌≡◌, ◌↔◌, refl, Bool, true, false, List, [], ◌∷◌, eq_iff, if◌then◌else◌, arith,
}
use fxfill_enterprise_bankin.Auth.{
  ApprovalDecision, approved, Operation, OperationGrant, is_expired, can_authorize, Policy, granted,
  authorize,
}

-- The operation that a grant is for.
pub record IsFor (now : ℕ) (g : OperationGrant) (op : Operation) : Type 0 where
  pub decision : g.decision ≡ "approved"
  pub unconsumed : g.consumed ≡ false
  pub in_time : is_expired now g ≡ false
  pub session_id : g.session_id ≡ op.details.session_id
  pub user : g.requesting_user ≡ op.details.user_id
  pub thread : g.thread_id ≡ op.details.thread_id
  pub tool : g.tool_name ≡ op.name
  pub key : g.idempotency_key ≡ op.details.idempotency_key
  pub args : g.tool_args ≡ op.details.args

abbrev pub is_approved : ApprovalDecision → Bool
is_approved approved = true
is_approved _ = false

module _ (now : ℕ) (g : OperationGrant) (op : Operation) where
  IsFor-sound : is_approved (authorize now (granted g false) op).0.decision ≡ true → IsFor now g op
  unfolding authorize can_authorize is_expired
  IsFor-sound h = record {
    decision = ground (arith, eq_iff g.decision "approved");
    unconsumed = ground arith;
    in_time = ground arith;
    session_id = ground (arith, eq_iff g.session_id op.details.session_id);
    user = ground (arith, eq_iff g.requesting_user op.details.user_id);
    thread = ground (arith, eq_iff g.thread_id op.details.thread_id);
    tool = ground (arith, eq_iff g.tool_name op.name);
    key = ground (arith, eq_iff g.idempotency_key op.details.idempotency_key);
    args = ground (arith, eq_iff g.tool_args op.details.args);
  }

  IsFor-complete :
      IsFor now g op → is_approved (authorize now (granted g false) op).0.decision ≡ true
  unfolding authorize can_authorize is_expired
  IsFor-complete f = ground (
    arith,
    eq_iff g.decision "approved",
    eq_iff g.session_id op.details.session_id,
    eq_iff g.requesting_user op.details.user_id,
    eq_iff g.thread_id op.details.thread_id,
    eq_iff g.tool_name op.name,
    eq_iff g.idempotency_key op.details.idempotency_key,
    eq_iff g.tool_args op.details.args,
  )

  -- A fresh grant policy approves an operation exactly when the grant is approved, not consumed,
  -- not expired, and agrees with the operation on session, user, thread, tool, arguments and key.
  pub grant_policy_exact :
      (is_approved (authorize now (granted g false) op).0.decision ≡ true) ↔ IsFor now g op
  grant_policy_exact = (IsFor-sound, IsFor-complete)

-- The operations of a run, each with the time at which it is checked, and how many are approved.
pub approvals : List (ℕ × Operation) → Policy → ℕ
approvals [] p = 0
approvals ((now, op) ∷ ops) p =
    let (d, p') = authorize now p op in (if is_approved d.decision then 1 else 0) + approvals ops p'

used_up : (g : OperationGrant) (ops : List (ℕ × Operation)) → approvals ops (granted g true) ≡ 0
unfolding approvals authorize
used_up g [] = refl
used_up g ((now, op) ∷ ops) = omega (arith, used_up g ops)

-- Over any sequence of operations a grant policy approves at most one, the exact repetition of an
-- approved operation included.
pub grant_approves_once :
    (g : OperationGrant) (used : Bool) (ops : List (ℕ × Operation))
    → approvals ops (granted g used) ≤ 1
unfolding approvals authorize
grant_approves_once g true ops = omega (arith, used_up g ops)
grant_approves_once g false [] = omega arith
grant_approves_once g false ((now, op) ∷ ops) =
    ground (arith, used_up g ops, grant_approves_once g false ops)
