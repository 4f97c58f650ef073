-- ===== src/Orchestration/Planner.antt =====
-- orchestration/planner.py, and agent.py `_execute_planner`. The reply of the language model to the
-- i-th attempt, after `_extract_json` and `json.loads`, is a parameter: `none` where the call, the
-- extraction or the reading raises. Its values have the types that the plan declares.
use fxfill_enterprise_bankin.Common.{
  ℕ, zero, suc, ◌+◌, String, Bool, true, false, ◌&&◌, Option, none, some, List, [], ◌∷◌, ◌++◌,
  if◌then◌else◌, ltb, length,
}
use fxfill_enterprise_bankin.Tools.{RiskLevel, ToolRegistry}
use fxfill_enterprise_bankin.Orchestration.{PlanStep, ExecutionPlan, PlanStatus, StepStatus}
use fxfill_enterprise_bankin.Orchestration.Validator.{
  PlanValidator, PlanValidation, Validated, validate,
}
use fxfill_enterprise_bankin.Orchestration.Executor.{
  ExecEnv, Exec, StepResult, Texts, NextAction, execute_step, verify,
}

pub record RawStep : Type 0 where
  pub step_id : Option String
  pub objective : Option String
  pub tool_candidates : Option (List String)
  pub dependencies : Option (List String)
  pub risk_level : Option RiskLevel

pub record RawPlan : Type 0 where
  pub assumptions : Option (List String)
  pub required_user_inputs : Option (List String)
  pub steps : Option (List RawStep)
  pub completion_criteria : Option (List String)

-- d.get(k, default)
abbrev pub get_or {ℓ} : {A : Type ℓ} → A → Option A → A
get_or d none = d
get_or d (some x) = x

-- What planning takes from outside: the texts of numbers, the model's replies, the order of a set.
pub record PlanEnv : Type 0 where
  pub visited : List String → List String
  pub texts : Texts
  pub show : ℕ → String
  pub plan_id : String
  pub reply : ℕ → Option RawPlan

unfoldable pub plan_steps : (ℕ → String) → ℕ → List RawStep → List PlanStep
plan_steps show i [] = []
plan_steps show i (s ∷ ss) =
    record {
      step_id = get_or (show (i + 1)) s.step_id;
      objective = get_or "" s.objective;
      tool_candidates = get_or [] s.tool_candidates;
      dependencies = get_or [] s.dependencies;
      risk_level = get_or RiskLevel.low s.risk_level;
      status = StepStatus.pending;
      max_retries = 1;
    }
    ∷ plan_steps show (i + 1) ss

unfoldable pub generate_plan : PlanEnv → String → RawPlan → ExecutionPlan
unfolding plan_steps
generate_plan env goal raw = record {
  plan_id = env.plan_id;
  goal = goal;
  assumptions = get_or [] raw.assumptions;
  required_user_inputs = get_or [] raw.required_user_inputs;
  steps = plan_steps env.show 0 (get_or [] raw.steps);
  completion_criteria = get_or [] raw.completion_criteria;
  max_replans = 2;
  status = PlanStatus.draft;
}

abbrev pub rejected_plan : PlanEnv → String → ExecutionPlan
rejected_plan env goal = record {
  plan_id = env.plan_id;
  goal = goal;
  assumptions = [];
  required_user_inputs = [];
  steps = [];
  completion_criteria = [];
  max_replans = 2;
  status = PlanStatus.rejected;
}

-- One attempt: the plan, if the validator accepts it. What the validator raises is caught.
abbrev pub if_valid : ExecutionPlan → Validated → Option ExecutionPlan
if_valid plan (Validated.returned r) =
    if r.valid then some (record plan { status = PlanStatus.validated }) else none
if_valid plan Validated.value_error = none
if_valid plan Validated.out_of_fuel = none

unfoldable pub attempt : PlanEnv → PlanValidator → String → Option RawPlan → Option ExecutionPlan
attempt env v goal none = none
attempt env v goal (some raw) =
    let plan = generate_plan env goal raw in
    if_valid plan (validate env.visited env.texts.strip v plan)

-- `for attempt in range(self._max_retries)`: the retries left, and the attempt's number.
unfoldable pub plan_from : PlanEnv → PlanValidator → String → ℕ → ℕ → ExecutionPlan
plan_from env v goal zero i = rejected_plan env goal
plan_from env v goal (suc k) i = elim (attempt env v goal (env.reply i)) [
  | some plan ↦ plan
  | none ↦ plan_from env v goal k (i + 1)
]

-- `Planner.plan`
unfoldable pub plan_goal : PlanEnv → PlanValidator → ℕ → String → ExecutionPlan
unfolding plan_from
plan_goal env v max_retries goal = plan_from env v goal max_retries 0

-- The answer of `_execute_planner`, with its step count; `raises` is a ValueError of the second
-- validation.
pub data Answer : Type 0 where
  no_plan raises : Answer
  invalid : PlanValidation → Answer
  step_failed : String → ℕ → Answer
  completed : List StepResult → Answer

abbrev pub is_retry : NextAction → Bool
is_retry NextAction.retry = true
is_retry _ = false

abbrev pub is_stop : NextAction → Bool
is_stop NextAction.abort = true
is_stop NextAction.ask_user = true
is_stop _ = false

-- What one step of the plan gives: its result, or the end of the run.
pub data StepEnd : Type 0 where
  keeps : StepResult → Exec → StepEnd
  stops : Exec → StepEnd

unfoldable pub run_step : ExecEnv → Texts → ExecutionPlan → PlanStep → Exec → StepEnd
run_step env texts plan step s =
    let (r, s') = execute_step env step none s in
    let verdict = verify texts step r plan in
    if verdict.passed
    then StepEnd.keeps r s'
    else if is_retry verdict.action && ltb 0 step.max_retries
    then (let (r', s'') = execute_step env step none s' in StepEnd.keeps r' s'')
    else if is_stop verdict.action
    then StepEnd.stops s'
    else StepEnd.keeps r s'

abbrev pub after_step :
    PlanStep → List StepResult → StepEnd → (List StepResult → Exec → Answer × Exec) → Answer × Exec
after_step step results (StepEnd.keeps r s) rest = rest (results ++ r ∷ []) s
after_step step results (StepEnd.stops s) rest =
    (Answer.step_failed step.objective (length results + 1), s)

unfoldable pub run_steps :
    ExecEnv → Texts → ExecutionPlan → List PlanStep → List StepResult → Exec → Answer × Exec
run_steps env texts plan [] results s = (Answer.completed results, s)
run_steps env texts plan (step ∷ steps) results s =
    after_step step results (run_step env texts plan step s)
      (λ rs s'. run_steps env texts plan steps rs s')

abbrev pub by_validation : ExecEnv → Texts → ExecutionPlan → Validated → Exec → Answer × Exec
by_validation env texts plan (Validated.returned r) s =
    if r.valid then run_steps env texts plan plan.steps [] s else (Answer.invalid r, s)
by_validation env texts plan Validated.value_error s = (Answer.raises, s)
by_validation env texts plan Validated.out_of_fuel s = (Answer.raises, s)

abbrev pub is_rejected : PlanStatus → Bool
is_rejected PlanStatus.rejected = true
is_rejected _ = false

-- `Planner(self.llm, self.tool_registry)` has a validator of its own with at most 15 steps, and
-- makes at most 3 attempts.
abbrev pub planner_validator : Option ToolRegistry → PlanValidator
planner_validator registry = record { registry = registry; max_steps = 15; forbidden = [] }

-- route.max_steps or 15
abbrev pub steps_or_default : Option ℕ → ℕ
steps_or_default none = 15
steps_or_default (some zero) = 15
steps_or_default (some (suc n)) = suc n

abbrev pub agent_validator : Option ToolRegistry → Option ℕ → PlanValidator
agent_validator registry max_steps = record {
  registry = registry;
  max_steps = steps_or_default max_steps;
  forbidden = [];
}

-- `_execute_planner`
unfoldable pub execute_planner :
    PlanEnv → ExecEnv → Option ℕ → (user_message : String) → Exec → Answer × Exec
execute_planner penv env max_steps message s =
    let plan = plan_goal penv (planner_validator env.registry) 3 message in
    if is_rejected plan.status
    then (Answer.no_plan, s)
    else by_validation env penv.texts plan
        (validate penv.visited penv.texts.strip (agent_validator env.registry max_steps) plan) s
