-- ===== src/Graph.antt =====
-- graph.py: the tool node. It takes one tool call after the other: validation, the check for a call
-- that was executed, authorization, the human decision, the idempotency record, the MCP call.
-- An interrupt takes the next resume value, or suspends the node when there is none left, which is
-- how LangGraph runs a resumed node again from its start.
pub mod State
pub mod Authorized
pub mod SingleDispatch
pub mod Replay
pub mod Loop
pub mod Runs
mod Tests
pub use State.{
  Proposal, Content, ToolMessage, Resume, Sent, Node, NodeEnv, Progress, node_of, say,
  mark_executed, keeps_records, operation,
}
unfoldable pub use State.{idem_key, operation_kind}
use fxfill_enterprise_bankin.Common.{
  ℕ, String, Bool, true, false, not, ◌&&◌, Option, none, some, List, [], ◌∷◌, ◌++◌, contains,
  is_nonempty, if◌then◌else◌,
}
use fxfill_enterprise_bankin.Auth.{OperationKind, ApprovalDecision, gateway_authorize, is_read}
use fxfill_enterprise_bankin.Approval.State.{ToolCall, ToolResult, McpOutcome}
use fxfill_enterprise_bankin.Idempotency
use fxfill_enterprise_bankin.Idempotency.{IdempotencyRecord, IdempotencyStatus}
use fxfill_enterprise_bankin.Tools.{ToolRegistry}
use fxfill_enterprise_bankin.Tools.Validation.{as_dict, Validation, validate_tool_call}

-- result.error or "unknown error"
abbrev pub error_text : Option String → String
error_text none = "unknown error"
error_text (some e) = if is_nonempty e then e else "unknown error"

-- The record of a call after its result.
abbrev pub settle :
    NodeEnv → Proposal → ToolResult → List IdempotencyRecord → List IdempotencyRecord
settle env tc r records =
    let key = idem_key env tc in
    if r.success
    then (Idempotency.mark_succeeded key r.content (env.now tc 2) records).1
    else (Idempotency.mark_failed key (error_text r.error) (env.now tc 2) records).1

-- What follows the MCP call.
abbrev pub after_call : NodeEnv → Proposal → McpOutcome → Node → Progress
after_call env tc McpOutcome.raised n = Progress.raises n
after_call env tc (McpOutcome.returned r) n =
    let records' = if keeps_records env tc then settle env tc r n.records else n.records in
    Progress.continues (
      mark_executed tc (
        say tc (if r.success then Content.output r.content else Content.failure r.error)
          (record n { records = records' })))

-- The reservation, if there is no record.
abbrev pub reserve_absent :
    NodeEnv → Proposal → Option IdempotencyRecord → List IdempotencyRecord → List IdempotencyRecord
reserve_absent env tc none records =
    Idempotency.reserve (idem_key env tc) tc.name tc.args (env.now tc 1) records
reserve_absent env tc (some _) records = records

abbrev pub call_of : Proposal → ToolCall
call_of tc = record { name = tc.name; arguments = tc.args }

-- `if not tool_already_done`
unfoldable pub run : NodeEnv → Proposal → Node → Progress
run env tc n =
    let records' =
      if keeps_records env tc
      then reserve_absent env tc (Idempotency.get (idem_key env tc) n.records) n.records
      else n.records in
    after_call env tc (env.mcp (call_of tc)) (record n {
      records = records';
      dispatched = n.dispatched ++ record { tool_call_id = tc.id; call = call_of tc } ∷ [];
    })

-- The call is done without being run.
abbrev pub done : Proposal → Content → Node → Progress
done tc c n = Progress.continues (mark_executed tc (say tc c n))

abbrev pub by_record : NodeEnv → OperationKind → Proposal → IdempotencyRecord → Node → Progress
by_record env kind tc r n =
    let started = record n {
      records = (Idempotency.mark_executing (idem_key env tc) n.records).1;
    } in
    elim r.status [
      | IdempotencyStatus.succeeded ↦ done tc (Content.idempotent r.result) n
      | IdempotencyStatus.failed ↦ run env tc started
      | IdempotencyStatus.reserved ↦ run env tc started
      | _ ↦ if is_read kind then run env tc n else done tc Content.outcome_unknown n
    ]

-- Step 5: the idempotency record decides whether the call runs.
unfoldable pub execute : NodeEnv → OperationKind → Proposal → Node → Progress
execute env kind tc n =
    if keeps_records env tc
    then (elim (Idempotency.get (idem_key env tc) n.records) [
      | none ↦ run env tc n
      | some r ↦ by_record env kind tc r n
    ])
    else run env tc n

abbrev pub with_args : Option String → Proposal → Proposal
with_args none tc = tc
with_args (some args) tc = record tc { args = args }

-- The value that the interrupt returns, or the suspension.
abbrev pub by_resume : NodeEnv → OperationKind → Proposal → List Resume → Node → Progress
by_resume env kind tc [] n = Progress.suspends tc n
by_resume env kind tc (Resume.approved_with args ∷ rest) n =
    execute env kind (with_args args tc) (record n { resumes = rest })
by_resume env kind tc (Resume.rejected_by_human ∷ rest) n =
    done tc Content.operation_rejected (record n { resumes = rest })
by_resume env kind tc (Resume.other_value ∷ rest) n =
    done tc Content.invalid_response (record n { resumes = rest })

abbrev pub by_decision : NodeEnv → OperationKind → Proposal → ApprovalDecision → Node → Progress
by_decision env kind tc ApprovalDecision.denied n =
    Progress.continues (say tc Content.authorization_denied n)
by_decision env kind tc ApprovalDecision.pending n = by_resume env kind tc n.resumes n
by_decision env kind tc ApprovalDecision.approved n = execute env kind tc n

-- Steps 3 and 4.
unfoldable pub authorize_call : NodeEnv → Proposal → Node → Progress
authorize_call env tc n =
    let (d, gateway') = gateway_authorize (env.now tc 0) (operation env tc) n.gateway in
    by_decision env (operation_kind env tc.name) tc d.decision (record n { gateway = gateway' })

-- Step 2.
unfoldable pub skip_executed : NodeEnv → Proposal → Node → Progress
skip_executed env tc n =
    if is_nonempty tc.id && contains tc.id n.executed_ids
    then Progress.continues (say tc Content.already_executed n)
    else authorize_call env tc n

abbrev pub by_validation : NodeEnv → Proposal → Validation → Node → Progress
by_validation env tc (Validation.valid args) n = skip_executed env tc n
by_validation env tc (Validation.invalid e) n =
    Progress.continues (say tc (Content.call_rejected e) n)

abbrev pub by_registry : NodeEnv → Proposal → Option ToolRegistry → Node → Progress
by_registry env tc none n = skip_executed env tc n
by_registry env tc (some registry) n =
    by_validation env tc
      (validate_tool_call env.loads tc.name (as_dict (env.dict_of tc.args)) registry) n

-- One pass of the loop.
unfoldable pub tool_call : NodeEnv → Proposal → Node → Progress
tool_call env tc n = by_registry env tc env.registry n

abbrev pub and_then : Progress → (Node → Progress) → Progress
and_then (Progress.continues n) rest = rest n
and_then p rest = p

-- The loop of `_tool_node`: it goes on while a call neither suspends nor raises.
unfoldable pub tool_node : NodeEnv → List Proposal → Node → Progress
tool_node env [] n = Progress.continues n
tool_node env (tc ∷ tcs) n = and_then (tool_call env tc n) (tool_node env tcs)
