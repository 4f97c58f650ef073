-- ===== src/Orchestration/Validator.antt =====
-- orchestration/validator.py: PlanValidator.validate. An error is a constructor with the values
-- that its text shows; `validate` raises what `_detect_cycles` raises. `strip` is that of Python's
-- str.
use fxfill_enterprise_bankin.Common.{
  ℕ, String, Bool, true, false, not, ◌&&◌, Option, none, some, List, [], ◌∷◌, ◌++◌, if◌then◌else◌,
  length, contains, eqb, ltb, is_nonempty,
}
use fxfill_enterprise_bankin.Tools.{ToolRegistry, has, is_elevated}
use fxfill_enterprise_bankin.Orchestration.{PlanStep, ExecutionPlan, step_count}
use fxfill_enterprise_bankin.Orchestration.Search.{Cycles, ids_of, set_of, detect_cycles}

pub data PlanError : Type 0 where
  no_steps duplicate_ids no_goal : PlanError
  too_many_steps : ℕ → ℕ → PlanError
  forbidden_tool unknown_tool : String → String → PlanError
  self_dependency : String → PlanError
  unknown_dependency : String → String → PlanError
  circular : List String → PlanError

pub data PlanWarning : Type 0 where
  no_criteria : PlanWarning
  no_user_inputs : String → PlanWarning

pub record PlanValidation : Type 0 where
  pub valid : Bool
  pub errors : List PlanError
  pub warnings : List PlanWarning

pub record PlanValidator : Type 0 where
  pub registry : Option ToolRegistry
  pub max_steps : ℕ
  pub forbidden : List String

abbrev pub is_empty {ℓ} : {A : Type ℓ} → List A → Bool
is_empty [] = true
is_empty (x ∷ xs) = false

abbrev pub error_if : Bool → PlanError → List PlanError
error_if true e = e ∷ []
error_if false e = []

abbrev pub is_unknown : Option ToolRegistry → String → Bool
is_unknown none tool = false
is_unknown (some registry) tool = not (has tool registry)

unfoldable pub count_errors : PlanValidator → ExecutionPlan → List PlanError
unfolding step_count
count_errors v plan =
    error_if (eqb (step_count plan) 0) PlanError.no_steps
    ++ error_if (ltb v.max_steps (step_count plan))
        (PlanError.too_many_steps (step_count plan) v.max_steps)

unfoldable pub duplicate_errors : ExecutionPlan → List PlanError
duplicate_errors plan =
    let step_ids = ids_of plan.steps in
    error_if (not (eqb (length step_ids) (length (set_of step_ids)))) PlanError.duplicate_ids

unfoldable pub candidate_errors : PlanValidator → String → List String → List PlanError
candidate_errors v sid [] = []
candidate_errors v sid (tool ∷ tools) =
    (if contains tool v.forbidden
      then PlanError.forbidden_tool sid tool ∷ []
      else error_if (is_unknown v.registry tool) (PlanError.unknown_tool sid tool))
    ++ candidate_errors v sid tools

unfoldable pub tool_errors : PlanValidator → List PlanStep → List PlanError
tool_errors v [] = []
tool_errors v (s ∷ ss) = candidate_errors v s.step_id s.tool_candidates ++ tool_errors v ss

unfoldable pub missing_errors : List String → String → List String → List PlanError
missing_errors step_ids sid [] = []
missing_errors step_ids sid (dep ∷ deps) =
    error_if (not (contains dep step_ids)) (PlanError.unknown_dependency sid dep)
    ++ missing_errors step_ids sid deps

unfoldable pub dependency_errors : List String → List PlanStep → List PlanError
dependency_errors step_ids [] = []
dependency_errors step_ids (s ∷ ss) =
    error_if (contains s.step_id s.dependencies) (PlanError.self_dependency s.step_id)
    ++ (missing_errors step_ids s.step_id s.dependencies ++ dependency_errors step_ids ss)

abbrev pub circular_errors : List (List String) → List PlanError
circular_errors [] = []
circular_errors (p ∷ ps) = PlanError.circular p ∷ circular_errors ps

unfoldable pub step_warnings : ExecutionPlan → List PlanStep → List PlanWarning
step_warnings plan [] = []
step_warnings plan (s ∷ ss) =
    (if is_elevated s.risk_level && is_empty plan.required_user_inputs
      then PlanWarning.no_user_inputs s.step_id ∷ []
      else [])
    ++ step_warnings plan ss

-- `validate` returns, or raises ValueError; the last outcome does not occur.
pub data Validated : Type 0 where
  returned : PlanValidation → Validated
  value_error out_of_fuel : Validated

abbrev pub errors_of :
    (String → String) → PlanValidator → ExecutionPlan → List (List String) → List PlanError
errors_of strip v plan cycles =
    count_errors v plan
    ++ (duplicate_errors plan
        ++ (tool_errors v plan.steps
            ++ (dependency_errors (ids_of plan.steps) plan.steps
                ++ (circular_errors cycles
                    ++ error_if (not (is_nonempty (strip plan.goal))) PlanError.no_goal))))

abbrev pub warnings_of : ExecutionPlan → List PlanWarning
warnings_of plan =
    (if is_empty plan.completion_criteria then PlanWarning.no_criteria ∷ [] else [])
    ++ step_warnings plan plan.steps

abbrev pub report : (String → String) → PlanValidator → ExecutionPlan → Cycles → Validated
report strip v plan (Cycles.found cycles) =
    let errors = errors_of strip v plan cycles in
    Validated.returned
      (record { valid = is_empty errors; errors = errors; warnings = warnings_of plan })
report strip v plan Cycles.value_error = Validated.value_error
report strip v plan Cycles.out_of_fuel = Validated.out_of_fuel

unfoldable pub validate :
    (List String → List String) → (String → String) → PlanValidator → ExecutionPlan → Validated
validate visited strip v plan = report strip v plan (detect_cycles visited plan.steps)
