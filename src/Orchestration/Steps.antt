-- ===== src/Orchestration/Steps.antt =====
-- What orchestration/executor.py sends, what orchestration/verifier.py passes, and what a run of
-- agent.py `_execute_planner` sends in all.
use fxfill_enterprise_bankin.Common.{
  String, ◌≡◌, refl, sym, Bool, true, false, not, ◌&&◌, ◌||◌, Option, List, [], ◌∷◌, ◌++◌, arith,
  inl, inr, Bool-cases, if◌then◌else◌, all,
}
use mathlib.Core.List.{append-nil}
use fxfill_enterprise_bankin.Auth.{
  ApprovalDecision, require_approval, gateway_authorize, authorize, is_read,
}
use fxfill_enterprise_bankin.Approval.State.{ToolCall}
use fxfill_enterprise_bankin.Orchestration.{PlanStep, ExecutionPlan, is_pending}
use fxfill_enterprise_bankin.Orchestration.Executor.{
  Exec, ExecEnv, StepResult, Texts, execute_step, authorize_step, send_call, step_operation,
  step_kind, verify, check_criteria, check_criterion, is_blank, args_or_empty, by_candidates,
  by_decision,
}

-- What the gateway decides on a step's call.
abbrev pub decision_on : ExecEnv → PlanStep → String → String → Exec → ApprovalDecision
decision_on env step tool args s =
    (gateway_authorize (env.now s.sent) (step_operation env.registry step tool args)
      s.gateway).0.decision

abbrev pub is_denied : ApprovalDecision → Bool
is_denied ApprovalDecision.denied = true
is_denied _ = false

-- What a step sends: nothing if it has no candidate.
abbrev pub call_of_step : ExecEnv → PlanStep → Option String → Exec → List String → List ToolCall
call_of_step env step args s [] = []
call_of_step env step args s (tool ∷ _) =
    if is_pending step.status && not (is_denied (decision_on env step tool (args_or_empty args) s))
    then record { name = tool; arguments = args_or_empty args } ∷ []
    else []

by_decision-sends :
    (env : ExecEnv) (step : PlanStep) (tool args : String) (d : ApprovalDecision) (s : Exec)
    → (by_decision env step tool args d s).1.sent
      ≡ s.sent ++ (if not (is_denied d) then record { name = tool; arguments = args } ∷ [] else [])
unfolding send_call
by_decision-sends env step tool args ApprovalDecision.approved s = refl
by_decision-sends env step tool args ApprovalDecision.denied s = sym (append-nil s.sent)
by_decision-sends env step tool args ApprovalDecision.pending s = refl

authorize_step-sends :
    (env : ExecEnv) (step : PlanStep) (tool args : String) (s : Exec)
    → (authorize_step env step tool args s).1.sent
      ≡ s.sent
        ++ (if not (is_denied (decision_on env step tool args s))
            then record { name = tool; arguments = args } ∷ []
            else [])
unfolding authorize_step
authorize_step-sends env step tool args s =
    by_decision-sends env step tool args (decision_on env step tool args s) (record s {
      gateway =
          (gateway_authorize (env.now s.sent) (step_operation env.registry step tool args)
            s.gateway).1;
    })

by_candidates-sends :
    (env : ExecEnv) (step : PlanStep) (args : Option String) (tools : List String) (s : Exec)
    → is_pending step.status ≡ true
    → (by_candidates env step args tools s).1.sent ≡ s.sent ++ call_of_step env step args s tools
by_candidates-sends env step args [] s h = sym (append-nil s.sent)
by_candidates-sends env step args (tool ∷ tools) s h =
    rw h (authorize_step-sends env step tool (args_or_empty args) s)

not_pending_call :
    (env : ExecEnv) (step : PlanStep) (args : Option String) (tools : List String) (s : Exec)
    → is_pending step.status ≡ false
    → call_of_step env step args s tools ≡ []
not_pending_call env step args [] s h = refl
not_pending_call env step args (tool ∷ tools) s h = rw h

-- Executing a step sends the call of its first candidate, and nothing else, exactly if the step is
-- pending, has a candidate, and the gateway's decision is not DENIED.
pub execute_step_sends :
    (env : ExecEnv) (step : PlanStep) (args : Option String) (s : Exec)
    → (execute_step env step args s).1.sent
      ≡ s.sent ++ call_of_step env step args s step.tool_candidates
unfolding execute_step
execute_step_sends env step args s = elim (Bool-cases (is_pending step.status)) [
  | inl e ↦ rw e (by_candidates-sends env step args step.tool_candidates s e)
  | inr e ↦
      rw (e, not_pending_call env step args step.tool_candidates s e) (sym (append-nil s.sent))
]

-- The human's decision is not awaited: where the policy asks for approval, a pending step whose
-- first candidate is a tool with side effects is sent, though the gateway answers PENDING.
pub unapproved_step_is_sent :
    (env : ExecEnv) (step : PlanStep) (tool : String) (tools : List String) (args : Option String)
    (s : Exec)
    → s.gateway.policy ≡ require_approval
    → is_pending step.status ≡ true
    → step.tool_candidates ≡ tool ∷ tools
    → is_read (step_kind env.registry tool) ≡ false
    → (decision_on env step tool (args_or_empty args) s ≡ ApprovalDecision.pending)
      × ((execute_step env step args s).1.sent
          ≡ s.sent ++ record { name = tool; arguments = args_or_empty args } ∷ [])
unfolding gateway_authorize authorize step_operation
unapproved_step_is_sent env step tool tools args s policy pending first writes =
    let asks : decision_on env step tool (args_or_empty args) s ≡ ApprovalDecision.pending =
      ground arith in
    (asks, ground (arith, execute_step_sends env step args s))

verify_passes :
    (texts : Texts) (step : PlanStep) (result : StepResult) (cs : List String)
    → (check_criteria texts step result cs).passed ≡ all (check_criterion texts result) cs
unfolding check_criteria
verify_passes texts step result [] = refl
verify_passes texts step result (c ∷ cs) = ground (arith, verify_passes texts step result cs)

-- A step passes verification exactly if its tool call succeeded and its output is blank or meets
-- every completion criterion of the plan.
pub verify_exact :
    (texts : Texts) (step : PlanStep) (result : StepResult) (plan : ExecutionPlan)
    → (verify texts step result plan).passed ≡ (
        result.success
        && (is_blank texts result.output
            || all (check_criterion texts result) plan.completion_criteria))
unfolding verify
verify_exact texts step result plan =
    ground (arith, verify_passes texts step result plan.completion_criteria)
