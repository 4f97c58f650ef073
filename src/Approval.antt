-- ===== src/Approval.antt =====
-- approval_executor.py, with the resolvers of actor_resolver.py and the insert of persistence.py.
-- A call reads the clock several times: `now i` is the i-th reading. What lies outside the program
-- comes with the environment of a call: the digest, `json.loads` (none if it raises), the MCP
-- server's answer, and the answer of the actor resolver.
pub mod Actor
pub mod State
pub mod AtMostOnce
pub mod Completion
pub mod Exact
pub mod Outcomes
mod Tests
pub use State.{EventKind, AgentEvent, ToolCall, ToolResult, McpOutcome, Dispatch, World, Env}
unfoldable pub use State.{persist_event}
use fxfill_enterprise_bankin.Common.{
  ℕ, ◌+◌, String, Bool, true, false, Option, none, some, List, [], ◌∷◌, ◌++◌, is_nonempty, ◌==◌,
  if◌then◌else◌,
}
use fxfill_enterprise_bankin.Hitl
use fxfill_enterprise_bankin.Hitl.{HitlSession, HitlSessionStatus, is_terminal, is_expired}
use fxfill_enterprise_bankin.Grants
use fxfill_enterprise_bankin.Grants.{GrantRecord}
use fxfill_enterprise_bankin.Idempotency
use fxfill_enterprise_bankin.Idempotency.{IdempotencyRecord, IdempotencyStatus}

pub data Decision : Type 0 where
  approved rejected reconciliation_required error : Decision

-- The error texts, with what is formatted into them.
pub data ApprovalError : Type 0 where
  session_not_found session_expired missing_tool_call_id actor_required grant_approval_failed
        session_update_failed grant_already_consumed outcome_unknown :
      ApprovalError
  already : HitlSessionStatus → ApprovalError
  idempotency_blocked : IdempotencyStatus → ApprovalError
  mcp_failed : Option String → ApprovalError

pub record ApprovalResult : Type 0 where
  pub decision : Decision
  pub session_id : String
  pub answer : Option String
  pub step_count : ℕ
  pub failure : Option ApprovalError
  pub reconciliation_reason : Option String

-- A call returns, or `json.loads` of the stored arguments raises out of it.
pub data Outcome : Type 0 where
  returned : ApprovalResult → Outcome
  raised : Outcome

abbrev pub result : Decision → String → Option String → Option ApprovalError → Outcome
result d sid answer err = returned (record {
  decision = d;
  session_id = sid;
  answer = answer;
  step_count = 0;
  failure = err;
  reconciliation_reason = none;
})

abbrev pub fail_with : String → ApprovalError → Outcome
fail_with sid err = result error sid none (some err)

abbrev pub value_or : Option String → String → String
value_or none d = d
value_or (some v) d = if is_nonempty v then v else d

abbrev pub set_session : String → HitlSessionStatus → ℕ → ℕ → World → World
set_session sid st version now w = record w {
  sessions = (Hitl.update_status sid st version now w.sessions).1;
}

abbrev pub checkpoint : String → ℕ → String → World → World
checkpoint sid seq label = persist_event sid seq EventKind.checkpoint (("kind", label) ∷ [])

-- The end of `approve`, by the answer of the MCP server.
abbrev pub finish : Env → String → HitlSession → String → McpOutcome → World → Outcome × World
finish env sid s key (McpOutcome.raised) w = (
  fail_with sid outcome_unknown,
  checkpoint sid 4 "MCP_EXECUTION_UNKNOWN" (
      set_session sid HitlSessionStatus.failed (s.version + 1) (env.now 12) (record w {
        records = (Idempotency.mark_unknown key w.records).1;
        grants = Grants.mark_unknown sid (env.now 11) w.grants;
      })),
)
finish env sid s key (McpOutcome.returned r) w =
    if r.success
    then (
      result approved sid (some r.content) none,
      checkpoint sid 4 "MCP_EXECUTION_SUCCEEDED" (
          set_session sid HitlSessionStatus.resumed (s.version + 1) (env.now 12) (record w {
            records = (Idempotency.mark_succeeded key r.content (env.now 10) w.records).1;
            grants = Grants.mark_consumed sid (env.now 11) w.grants;
          })),
    )
    else (
      fail_with sid (mcp_failed r.error),
      checkpoint sid 4 "MCP_EXECUTION_FAILED" (
          set_session sid HitlSessionStatus.failed (s.version + 1) (env.now 12) (record w {
            records =
                (Idempotency.mark_failed key (value_or r.error "unknown") (env.now 10) w.records).1;
            grants = Grants.mark_failed sid (env.now 11) w.grants;
          })),
    )

-- The call of the tool: it is written to the trace of dispatched calls.
unfoldable pub dispatch : Env → String → HitlSession → String → ToolCall → World → Outcome × World
dispatch env sid s key call w =
    let started = checkpoint sid 3 "MCP_DISPATCH_STARTED" w in
    finish env sid s key (env.mcp call) (record started {
      dispatched = started.dispatched ++ record { session_id = sid; call = call } ∷ [];
    })

unfoldable pub reserve_and_dispatch :
    Env → String → HitlSession → GrantRecord → String → World → Outcome × World
reserve_and_dispatch env sid s claimed key w =
    let w' = record w {
      records = Idempotency.reserve key s.tool_name s.tool_args (env.now 9) w.records;
    } in
    elim (env.loads claimed.canonical_tool_args) [
      | none ↦ (raised, w')
      | some args ↦
          dispatch env sid s key (record { name = claimed.tool_name; arguments = args }) w'
    ]

-- A key that is RESERVED, EXECUTING or UNKNOWN fails closed.
unfoldable pub deny_replay :
    Env → String → HitlSession → IdempotencyStatus → World → Outcome × World
deny_replay env sid s st w = (
  fail_with sid (idempotency_blocked st),
  checkpoint sid 2 "REPLAY_DENIED" (
      set_session sid HitlSessionStatus.failed (s.version + 1) (env.now 8)
        (record w { grants = Grants.mark_failed sid (env.now 7) w.grants })),
)

abbrev pub by_existing :
    Env
    → String
    → HitlSession
    → GrantRecord
    → String
    → Option IdempotencyRecord
    → World
    → Outcome × World
by_existing env sid s claimed key none w = reserve_and_dispatch env sid s claimed key w
by_existing env sid s claimed key (some r) w = elim r.status [
  | IdempotencyStatus.succeeded ↦ (result approved sid (some (value_or r.result "done")) none, w)
  | IdempotencyStatus.failed ↦ reserve_and_dispatch env sid s claimed key w
  | st ↦ deny_replay env sid s st w
]

unfoldable pub idem_key : String → HitlSession → String
idem_key sid s = value_or s.idempotency_key sid

unfoldable pub check_idempotency :
    Env → String → HitlSession → GrantRecord → World → Outcome × World
unfolding idem_key
check_idempotency env sid s claimed w =
    let key = idem_key sid s in by_existing env sid s claimed key (Idempotency.get key w.records) w

-- The arguments of `atomic_consume`.
abbrev pub claim_request : String → HitlSession → String → Grants.ConsumeRequest
claim_request sid s actor = record {
  session_id = sid;
  user_id = s.user_id;
  approving_actor_id = actor;
  thread_id = s.thread_id;
  run_id = sid;
  checkpoint_id = "";
  tool_call_id = s.tool_call_id;
  tool_name = s.tool_name;
  tool_args = s.tool_args;
  idempotency_key = value_or s.idempotency_key "";
  version = 1;
}

unfoldable pub claim : Env → String → HitlSession → String → World → Outcome × World
claim env sid s actor w =
    let (claimed, grants') =
      Grants.atomic_consume env.sha256 (claim_request sid s actor) (env.now 5) w.grants in
    let w' = record w { grants = grants' } in
    elim claimed [
      | none ↦ (fail_with sid grant_already_consumed, w')
      | some g ↦ check_idempotency env sid s g (checkpoint sid 1 "GRANT_CLAIMED" w')
    ]

-- The grant and the session are approved, and that is logged.
abbrev pub after_grant : Env → String → HitlSession → String → World → World
after_grant env sid s actor w =
    persist_event sid 0 EventKind.checkpoint (("kind", "APPROVAL_GRANTED") ∷ ("actor", actor) ∷ [])
      (record w {
        grants = (Grants.approve_pending sid actor 1 (env.now 3) w.grants).1;
        sessions =
            (Hitl.update_status sid HitlSessionStatus.approved s.version (env.now 4) w.sessions).1;
      })

-- From the resolved actor on.
unfoldable pub approve_as : Env → String → HitlSession → String → World → Outcome × World
approve_as env sid s actor w =
    let (granted, grants') = Grants.approve_pending sid actor 1 (env.now 3) w.grants in
    let (updated, sessions') =
      Hitl.update_status sid HitlSessionStatus.approved s.version (env.now 4) w.sessions in
    let w1 = record w { grants = grants' } in
    let w2 = record w1 { sessions = sessions' } in
    if granted
    then (if updated
        then claim env sid s actor (after_grant env sid s actor w)
        else (fail_with sid session_update_failed, w2))
    else (fail_with sid grant_approval_failed, w1)

-- A historical record without a tool call id.
unfoldable pub require_reconciliation : Env → String → HitlSession → World → Outcome × World
require_reconciliation env sid s w =
    let w' = set_session sid HitlSessionStatus.reconciliation_required s.version (env.now 1) w in
    (
      returned (record {
        decision = reconciliation_required;
        session_id = sid;
        answer = none;
        step_count = 0;
        failure = some missing_tool_call_id;
        reconciliation_reason = some "missing_historical_tool_call_id";
      }),
      persist_event sid 0 EventKind.reconciliation_required
          (("reason", "missing_historical_tool_call_id") ∷ ("session_id", sid) ∷ [])
          (record w' { grants = Grants.mark_reconciliation_required sid (env.now 2) w'.grants }),
    )

unfoldable pub approve_session : Env → String → HitlSession → World → Outcome × World
approve_session env sid s w =
    if is_terminal s.status
    then (fail_with sid (already s.status), w)
    else if is_expired (env.now 0) s
    then (
      fail_with sid session_expired,
      set_session sid HitlSessionStatus.expired s.version (env.now 1) w,
    )
    else if s.tool_call_id == ""
    then require_reconciliation env sid s w
    else (elim env.actor [
      | none ↦ (fail_with sid actor_required, w)
      | some actor ↦ approve_as env sid s actor w
    ])

unfoldable pub approve : Env → String → World → Outcome × World
approve env sid w = elim (Hitl.get sid w.sessions) [
  | none ↦ (fail_with sid session_not_found, w)
  | some s ↦ approve_session env sid s w
]

unfoldable pub reject_session : Env → String → HitlSession → String → World → Outcome × World
reject_session env sid s actor w =
    let (updated, sessions') =
      Hitl.update_status sid HitlSessionStatus.rejected s.version (env.now 0) w.sessions in
    let w1 = record w { sessions = sessions' } in
    if updated
    then (
      result rejected sid (some "Operation was rejected by human operator.") none,
      persist_event sid 0 EventKind.checkpoint
          (("kind", "APPROVAL_REJECTED") ∷ ("actor", actor) ∷ [])
          (record w1 { grants = Grants.mark_rejected sid (env.now 1) w1.grants }),
    )
    else (fail_with sid session_update_failed, w1)

unfoldable pub reject : Env → String → World → Outcome × World
reject env sid w = elim (Hitl.get sid w.sessions) [
  | none ↦ (fail_with sid session_not_found, w)
  | some s ↦
      if is_terminal s.status then (fail_with sid (already s.status), w) else (elim env.actor [
        | none ↦ (fail_with sid actor_required, w)
        | some actor ↦ reject_session env sid s actor w
      ])
]
