-- ===== src/Orchestration/Executor.antt =====
-- orchestration/executor.py and orchestration/verifier.py: one step is run through the
-- authorization gateway, and its result is checked. The MCP server is a parameter that answers by
-- what it was sent before. A result keeps the cause of an error in place of its text.
use Prim.Native.String
use fxfill_enterprise_bankin.Common.{
  ℕ, String, Bool, true, false, not, ◌||◌, Option, none, some, List, [], ◌∷◌, ◌++◌, if◌then◌else◌,
  ltb, is_nonempty,
}
use fxfill_enterprise_bankin.Auth.{
  ApprovalDecision, OperationKind, Operation, Gateway, gateway_authorize,
}
use fxfill_enterprise_bankin.Approval.State.{ToolCall, McpOutcome}
use fxfill_enterprise_bankin.Tools.{RiskLevel, ToolDefinition, ToolRegistry, get}
use fxfill_enterprise_bankin.Orchestration.{PlanStep, ExecutionPlan, StepStatus, is_pending}

pub data StepError : Type 0 where
  no_error no_candidates authorization_denied call_raised : StepError
  not_pending : StepStatus → StepError
  tool_failed : Option String → StepError

pub record StepResult : Type 0 where
  pub step_id : String
  pub success : Bool
  pub tool_name : String
  pub output : String
  pub error : StepError

pub record ExecEnv : Type 0 where
  pub registry : Option ToolRegistry
  pub mcp : List ToolCall → ToolCall → McpOutcome
  pub now : List ToolCall → ℕ

-- What the executor works on: the gateway and the calls that were sent.
pub record Exec : Type 0 where
  pub gateway : Gateway
  pub sent : List ToolCall

abbrev pub kind_of_definition : Option ToolDefinition → OperationKind
kind_of_definition none = OperationKind.read
kind_of_definition (some t) =
    if t.side_effect
    then (elim t.risk_level [
      | RiskLevel.critical ↦ OperationKind.transfer
      | _ ↦ OperationKind.write
    ])
    else OperationKind.read

unfoldable pub step_kind : Option ToolRegistry → String → OperationKind
step_kind none tool = OperationKind.read
step_kind (some registry) tool = kind_of_definition (get tool registry)

-- `details` has the arguments and the plan, none of the fields that a grant is bound to.
unfoldable pub step_operation : Option ToolRegistry → PlanStep → String → String → Operation
unfolding step_kind
step_operation registry step tool args = record {
  kind = step_kind registry tool;
  name = tool;
  target = String.◌++◌ "step:" step.step_id;
  details = record {
    args = args;
    session_id = "";
    user_id = "";
    thread_id = "";
    idempotency_key = "";
  };
}

abbrev pub failed_step : PlanStep → String → StepError → StepResult
failed_step step tool e = record {
  step_id = step.step_id;
  success = false;
  tool_name = tool;
  output = "";
  error = e;
}

abbrev pub result_of : PlanStep → String → McpOutcome → StepResult
result_of step tool McpOutcome.raised = failed_step step tool StepError.call_raised
result_of step tool (McpOutcome.returned r) =
    if r.success
    then record {
      step_id = step.step_id;
      success = true;
      tool_name = tool;
      output = r.content;
      error = StepError.no_error;
    }
    else failed_step step tool (StepError.tool_failed r.error)

unfoldable pub send_call : ExecEnv → PlanStep → String → String → Exec → StepResult × Exec
send_call env step tool args s =
    let call : ToolCall = record { name = tool; arguments = args } in
    (result_of step tool (env.mcp s.sent call), record s { sent = s.sent ++ call ∷ [] })

abbrev pub by_decision :
    ExecEnv → PlanStep → String → String → ApprovalDecision → Exec → StepResult × Exec
by_decision env step tool args ApprovalDecision.denied s =
    (failed_step step tool StepError.authorization_denied, s)
by_decision env step tool args ApprovalDecision.pending s = send_call env step tool args s
by_decision env step tool args ApprovalDecision.approved s = send_call env step tool args s

unfoldable pub authorize_step : ExecEnv → PlanStep → String → String → Exec → StepResult × Exec
authorize_step env step tool args s =
    let (d, gateway') =
      gateway_authorize (env.now s.sent) (step_operation env.registry step tool args) s.gateway in
    by_decision env step tool args d.decision (record s { gateway = gateway' })

abbrev pub args_or_empty : Option String → String
args_or_empty none = "{}"
args_or_empty (some args) = args

abbrev pub by_candidates :
    ExecEnv → PlanStep → Option String → List String → Exec → StepResult × Exec
by_candidates env step args [] s = (failed_step step "" StepError.no_candidates, s)
by_candidates env step args (tool ∷ _) s = authorize_step env step tool (args_or_empty args) s

unfoldable pub execute_step : ExecEnv → PlanStep → Option String → Exec → StepResult × Exec
execute_step env step args s =
    if not (is_pending step.status)
    then (failed_step step "" (StepError.not_pending step.status), s)
    else by_candidates env step args step.tool_candidates s

pub data NextAction : Type 0 where
  go_on retry ask_user replan abort : NextAction

pub record VerificationResult : Type 0 where
  pub passed : Bool
  pub step_id : String
  pub action : NextAction

-- Python's operations on texts: `s.strip()`, `s.lower()` and `t in s`.
pub record Texts : Type 0 where
  pub strip : String → String
  pub lower : String → String
  pub is_in : String → String → Bool

abbrev pub is_critical : RiskLevel → Bool
is_critical RiskLevel.critical = true
is_critical _ = false

unfoldable pub next_action_for_failure : PlanStep → NextAction
next_action_for_failure step =
    if ltb 1 step.max_retries
    then NextAction.retry
    else if is_critical step.risk_level
    then NextAction.ask_user
    else NextAction.abort

module _ (texts : Texts) where
  abbrev pub is_blank : String → Bool
  is_blank t = not (is_nonempty (texts.strip t))

  unfoldable pub check_criterion : StepResult → String → Bool
  check_criterion result criterion =
      let output_lower = texts.lower result.output in
      if texts.is_in "balance" (texts.lower criterion)
      then texts.is_in "balance" output_lower || texts.is_in "amount" output_lower
      else if texts.is_in "status" (texts.lower criterion)
      then texts.is_in "status" output_lower
      else if texts.is_in "draft" (texts.lower criterion)
      then texts.is_in "draft_id" output_lower
      else not (is_blank result.output)

  -- The loop over the criteria stops at the first that is not met.
  unfoldable pub check_criteria : PlanStep → StepResult → List String → VerificationResult
  check_criteria step result [] = record {
    passed = true;
    step_id = step.step_id;
    action = NextAction.go_on;
  }
  check_criteria step result (c ∷ cs) =
      if not (check_criterion result c)
      then record { passed = false; step_id = step.step_id; action = NextAction.retry }
      else check_criteria step result cs

  unfoldable pub verify : PlanStep → StepResult → ExecutionPlan → VerificationResult
  verify step result plan =
      if not result.success
      then record { passed = false; step_id = step.step_id; action = next_action_for_failure step }
      else if is_blank result.output
      then record { passed = true; step_id = step.step_id; action = NextAction.go_on }
      else check_criteria step result plan.completion_criteria
