-- ===== src/Approval/Completion.antt =====
-- An approval with nothing against it in approval_executor.py reaches the MCP server.
use fxfill_enterprise_bankin.Common.{
  ℕ, String, ◌≡◌, inl, inr, refl, true, false, none, some, List, [], ◌∷◌, ◌++◌, arith, ◌==◌,
  eq_self, eqb,
}
use fxfill_enterprise_bankin.Sql
use fxfill_enterprise_bankin.Sql.{rowcount-eq-hits}
use fxfill_enterprise_bankin.Hitl
use fxfill_enterprise_bankin.Hitl.{HitlSession, HitlSessionStatus, is_terminal, is_expired}
use fxfill_enterprise_bankin.Hitl.Locking.{update_status_iff}
use fxfill_enterprise_bankin.Idempotency
use fxfill_enterprise_bankin.Grants
use fxfill_enterprise_bankin.Grants.{
  GrantRecord, GrantStatus, is_pending_at, to_approved, to_consuming, grant_key, unexpired,
}
use fxfill_enterprise_bankin.Grants.Statements.{IsTable, get-approve_pending}
use fxfill_enterprise_bankin.Grants.Lifecycle.{do_approve, apply}
use fxfill_enterprise_bankin.Grants.SingleClaim.{apply-IsTable}
use fxfill_enterprise_bankin.Grants.Binding.{Authorises, atomic_consume_iff}
use fxfill_enterprise_bankin.Approval.Exact.{finish_sends}
use fxfill_enterprise_bankin.Approval.{
  Dispatch, World, Env, value_or, persist_event, dispatch, reserve_and_dispatch, idem_key,
  check_idempotency, claim_request, claim, approve_as, after_grant, approve_session, approve,
}

-- Nothing stands against approving the session with its grant: the session is open and in time and
-- has a tool call id, the grant is PENDING at version 1 and was issued for this session's operation,
-- the operation has no idempotency record, and the stored arguments can be read.
pub record IsApprovable (env : Env) (sid actor args : String) (s : HitlSession) (g : GrantRecord)
    (w : World) : Type 0 where
  pub sessions : Sql.IsUnique Hitl.session_key w.sessions
  pub grants : IsTable w.grants
  pub session : Hitl.get sid w.sessions ≡ some s
  pub open_session : is_terminal s.status ≡ false
  pub in_time : is_expired (env.now 0) s ≡ false
  pub tool_call : (s.tool_call_id == "") ≡ false
  pub who : env.actor ≡ some actor
  pub grant : Grants.get_by_session sid w.grants ≡ some g
  pub waiting : g.status ≡ GrantStatus.pending
  pub version : g.version ≡ 1
  pub same_user : g.requesting_user_id ≡ s.user_id
  pub same_thread : g.thread_id ≡ s.thread_id
  pub same_run : g.run_id ≡ some sid
  pub same_call : g.tool_call_id ≡ s.tool_call_id
  pub same_tool : g.tool_name ≡ s.tool_name
  pub same_digest : g.argument_digest ≡ env.sha256 s.tool_args
  pub same_key : g.idempotency_key ≡ value_or s.idempotency_key ""
  pub grant_in_time : unexpired g.expires_at (env.now 5) ≡ true
  pub unused : Idempotency.get (idem_key sid s) w.records ≡ none
  pub readable : env.loads g.canonical_tool_args ≡ some args

approve_pending_outcome :
    (k actor : String) (v now : ℕ) (rows : List GrantRecord)
    → IsTable rows
    → (Grants.approve_pending k actor v now rows).0
      ≡ eqb (Sql.hits (is_pending_at v) (Grants.get_by_session k rows)) 1
unfolding Grants.approve_pending Grants.get_by_session
approve_pending_outcome k actor v now rows u =
    rw (rowcount-eq-hits grant_key k (is_pending_at v) rows u) refl

module _ (env : Env) (sid actor args : String) (s : HitlSession) (g : GrantRecord) (w : World)
    (a : IsApprovable env sid actor args s g w) where
  granted : (Grants.approve_pending sid actor 1 (env.now 3) w.grants).0 ≡ true
  granted = ground (
    arith,
    approve_pending_outcome sid actor 1 (env.now 3) w.grants a.grants,
    a.grant,
    a.waiting,
    a.version,
  )

  updated :
      (Hitl.update_status sid HitlSessionStatus.approved s.version (env.now 4) w.sessions).0 ≡ true
  updated =
      (update_status_iff sid HitlSessionStatus.approved s.version (env.now 4) w.sessions
          a.sessions).1
        (s, a.session, refl)

  approved_grant :
      Grants.get_by_session sid (Grants.approve_pending sid actor 1 (env.now 3) w.grants).1
      ≡ some (to_approved actor (env.now 3) g)
  approved_grant = ground (
    arith,
    get-approve_pending sid sid (env.now 3) w.grants actor 1,
    eq_self sid,
    a.grant,
    a.waiting,
    a.version,
  )

  approved-IsTable : IsTable (Grants.approve_pending sid actor 1 (env.now 3) w.grants).1
  unfolding apply
  approved-IsTable = apply-IsTable env.sha256 (do_approve sid actor 1 (env.now 3)) w.grants a.grants

  approved-Authorises :
      Authorises env.sha256
        (to_approved actor (env.now 3) g)
        (claim_request sid s actor)
        (env.now 5)
  approved-Authorises = record {
    status = refl;
    version = a.version;
    user = a.same_user;
    thread = a.same_thread;
    actor = inl refl;
    run_id = inr (inl a.same_run);
    checkpoint = inr (inr refl);
    tool_call = a.same_call;
    tool_name = a.same_tool;
    digest = a.same_digest;
    key = a.same_key;
    unexpired_at = a.grant_in_time;
  }

  claimed :
      (Grants.atomic_consume env.sha256
        (claim_request sid s actor)
        (env.now 5)
        (Grants.approve_pending sid actor 1 (env.now 3) w.grants).1).0
      ≡ some (to_consuming (env.now 5) (to_approved actor (env.now 3) g))
  claimed =
      (atomic_consume_iff env.sha256 (claim_request sid s actor) (env.now 5)
          (Grants.approve_pending sid actor 1 (env.now 3) w.grants).1
          (to_consuming (env.now 5) (to_approved actor (env.now 3) g)) approved-IsTable).1
        (to_approved actor (env.now 3) g, approved_grant, approved-Authorises, refl)

-- What is on the trace once the call went out.
abbrev pub with_call : String → String → String → List Dispatch → List Dispatch
with_call sid tool args sent_before =
    sent_before ++ record { session_id = sid; call = record { name = tool; arguments = args } } ∷ []

module _ (env : Env) (sid actor args : String) (s : HitlSession) where
  reserve_and_dispatch-goes :
      (c : GrantRecord) (key : String) (v : World)
      → env.loads c.canonical_tool_args ≡ some args
      → (reserve_and_dispatch env sid s c key v).1.dispatched
        ≡ with_call sid c.tool_name args v.dispatched
  unfolding reserve_and_dispatch dispatch persist_event
  reserve_and_dispatch-goes c key v e =
      rw (e, reserve_and_dispatch)
        (finish_sends env sid s key (env.mcp (record { name = c.tool_name; arguments = args })) _)

  check_idempotency-goes :
      (c : GrantRecord) (v : World)
      → env.loads c.canonical_tool_args ≡ some args
      → Idempotency.get (idem_key sid s) v.records ≡ none
      → (check_idempotency env sid s c v).1.dispatched ≡ with_call sid c.tool_name args v.dispatched
  unfolding check_idempotency
  check_idempotency-goes c v e h =
      rw (h, check_idempotency) (reserve_and_dispatch-goes c (idem_key sid s) v e)

  claim-goes :
      (c : GrantRecord) (v : World)
      → (Grants.atomic_consume env.sha256 (claim_request sid s actor) (env.now 5) v.grants).0
        ≡ some c
      → env.loads c.canonical_tool_args ≡ some args
      → Idempotency.get (idem_key sid s) v.records ≡ none
      → (claim env sid s actor v).1.dispatched ≡ with_call sid c.tool_name args v.dispatched
  unfolding claim persist_event
  claim-goes c v won e h = rw (won, claim) (check_idempotency-goes c _ e h)

-- An approval with nothing against it is carried out: if the session is stored, undecided, in time
-- and has a tool call id, an actor is resolved, the session's grant is PENDING at version 1, not
-- expired, and was issued for the session's operation and run, the operation has no idempotency
-- record, and the grant's arguments can be read, then `approve` sends the grant's tool call with
-- these arguments, once.
pub approvable_call_is_sent :
    (env : Env) (sid actor args : String) (s : HitlSession) (g : GrantRecord) (w : World)
    → IsApprovable env sid actor args s g w
    → (approve env sid w).1.dispatched ≡ with_call sid g.tool_name args w.dispatched
unfolding approve approve_session approve_as persist_event
approvable_call_is_sent env sid actor args s g w a = ground (
  arith,
  a.session,
  a.open_session,
  a.in_time,
  a.tool_call,
  a.who,
  granted env sid actor args s g w a,
  updated env sid actor args s g w a,
  claim-goes env sid actor args s (to_consuming (env.now 5) (to_approved actor (env.now 3) g))
      (after_grant env sid s actor w) (claimed env sid actor args s g w a) a.readable a.unused,
)
