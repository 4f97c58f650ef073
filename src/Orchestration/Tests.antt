-- ===== src/Orchestration/Tests.antt =====
-- Runs of the planner, the validator and the executor.
use fxfill_enterprise_bankin.Common.{
  ◌+◌, ◌≤◌, String, ◌≡◌, ◌≢◌, refl, true, false, none, some, List, [], ◌∷◌, ◌++◌, length,
}
use fxfill_enterprise_bankin.Auth.{ApprovalDecision, require_approval, is_read}
use fxfill_enterprise_bankin.Tools.{
  RiskLevel, ToolDefinition, ToolRegistry, ApprovalPolicy, get, has,
}
use fxfill_enterprise_bankin.Orchestration.{PlanStep, PlanStatus, StepStatus, step_count}
use fxfill_enterprise_bankin.Orchestration.Search.{
  Cycles, adjacency, from_index, visit, dfs, detect_cycles,
}
use fxfill_enterprise_bankin.Orchestration.Validator.{
  validate, count_errors, duplicate_errors, candidate_errors, tool_errors, missing_errors,
  dependency_errors, step_warnings,
}
use fxfill_enterprise_bankin.Orchestration.Acyclic.{Chain}
use fxfill_enterprise_bankin.Orchestration.Depth.{detect_cycles_total}
use fxfill_enterprise_bankin.Orchestration.Validity.{only_allowed}
use fxfill_enterprise_bankin.Orchestration.Executor.{Exec, ExecEnv, Texts, execute_step, step_kind}
use fxfill_enterprise_bankin.Orchestration.Planner.{
  PlanEnv, RawStep, generate_plan, attempt, plan_goal, is_rejected, planner_validator,
  execute_planner,
}
use fxfill_enterprise_bankin.Orchestration.Planned.{planned_plan_sound}
use fxfill_enterprise_bankin.Orchestration.Steps.{
  decision_on, call_of_step, execute_step_sends, unapproved_step_is_sent,
}
use fxfill_enterprise_bankin.Orchestration.Runs.{planner_call_bound}
use fxfill_enterprise_bankin.Samples.{mcp_answers}

abbrev in_order : List String → List String
in_order xs = xs

abbrev step : String → List String → PlanStep
step id deps = record {
  step_id = id;
  objective = "";
  tool_candidates = "submit_transfer" ∷ [];
  dependencies = deps;
  risk_level = RiskLevel.low;
  status = StepStatus.pending;
  max_retries = 1;
}

abbrev circular_steps : List PlanStep
circular_steps = step "1" ("2" ∷ []) ∷ step "2" ("1" ∷ []) ∷ []

finds_the_cycle : detect_cycles in_order circular_steps ≡ Cycles.found (("1" ∷ "2" ∷ "1" ∷ []) ∷ [])
unfolding detect_cycles dfs visit adjacency from_index
finds_the_cycle = refl

-- A second root that leads into the found cycle raises ValueError.
abbrev lasso_steps : List PlanStep
lasso_steps = step "1" ("2" ∷ []) ∷ step "2" ("1" ∷ []) ∷ step "3" ("1" ∷ []) ∷ []

lasso_raises : detect_cycles in_order lasso_steps ≡ Cycles.value_error
unfolding detect_cycles dfs visit adjacency from_index
lasso_raises = refl

detect_cycles_total_example : detect_cycles in_order circular_steps ≢ Cycles.out_of_fuel
detect_cycles_total_example = detect_cycles_total in_order (λ x xs. refl) circular_steps

abbrev submit_tool : ToolDefinition
submit_tool = record {
  name = "submit_transfer";
  description = "";
  input_schema = none;
  side_effect = true;
  risk_level = RiskLevel.critical;
  required_permissions = [];
  approval_policy = ApprovalPolicy.always;
  idempotency_required = true;
}

abbrev registry : ToolRegistry
registry = submit_tool ∷ []

abbrev raw_step : String → List String → RawStep
raw_step id deps = record {
  step_id = some id;
  objective = none;
  tool_candidates = some ("submit_transfer" ∷ []);
  dependencies = some deps;
  risk_level = none;
}

abbrev texts : Texts
texts = record { strip = λ t. t; lower = λ t. t; is_in = λ s t. false }

abbrev penv : PlanEnv
penv = record {
  visited = in_order;
  texts = texts;
  show = λ n. "1";
  plan_id = "p1";
  reply = λ n. some (record {
    assumptions = none;
    required_user_inputs = none;
    steps = some (raw_step "1" [] ∷ raw_step "2" ("1" ∷ []) ∷ []);
    completion_criteria = none;
  });
}

abbrev env : ExecEnv
env = record { registry = some registry; mcp = λ sent. mcp_answers; now = λ sent. 100 }

planned : is_rejected (plan_goal penv (planner_validator (some registry)) 3 "pay").status ≡ false
unfolding plan_goal attempt generate_plan validate detect_cycles dfs visit adjacency from_index
    count_errors duplicate_errors candidate_errors tool_errors missing_errors dependency_errors
    step_warnings has get
planned = refl

planned_plan_sound_example :
    ((plan_goal penv (planner_validator (some registry)) 3 "pay").status ≡ PlanStatus.validated)
    × (step_count (plan_goal penv (planner_validator (some registry)) 3 "pay") ≤ 15)
    × (only_allowed
          (planner_validator (some registry))
          (plan_goal penv (planner_validator (some registry)) 3 "pay").steps
        ≡ true)
    × ¬ Chain (plan_goal penv (planner_validator (some registry)) 3 "pay").steps "1" "1"
planned_plan_sound_example =
    planned_plan_sound penv (planner_validator (some registry)) "pay" (λ x xs. refl) 3 "1" planned

abbrev start : Exec
start = record { gateway = record { policy = require_approval; audit_trail = [] }; sent = [] }

planner_call_bound_example :
    length (execute_planner penv env (some 20) "pay" start).1.sent ≤ length start.sent + 30
planner_call_bound_example = planner_call_bound penv env (λ x xs. refl) (some 20) "pay" start

execute_step_sends_example :
    (execute_step env (step "1" []) none start).1.sent
    ≡ [] ++ call_of_step env (step "1" []) none start ("submit_transfer" ∷ [])
execute_step_sends_example = execute_step_sends env (step "1" []) none start

is_write : is_read (step_kind (some registry) "submit_transfer") ≡ false
unfolding step_kind get
is_write = refl

unapproved_step_is_sent_example :
    (decision_on env (step "1" []) "submit_transfer" "{}" start ≡ ApprovalDecision.pending)
    × ((execute_step env (step "1" []) none start).1.sent
        ≡ [] ++ record { name = "submit_transfer"; arguments = "{}" } ∷ [])
unapproved_step_is_sent_example =
    unapproved_step_is_sent env (step "1" []) "submit_transfer" [] none start refl refl refl
      is_write
