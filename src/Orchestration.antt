-- ===== src/Orchestration.antt =====
-- orchestration/models.py: plans, their steps, and the results of validation, execution and
-- verification. Texts that only explain a result are left out.
pub mod Search
pub mod Validator
pub mod Acyclic
pub mod Depth
pub mod Validity
pub mod Executor
pub mod Planner
pub mod Planned
pub mod Steps
pub mod Runs
mod Tests
use fxfill_enterprise_bankin.Common.{
  ℕ, String, Bool, true, false, ◌||◌, Option, List, length, all, keep,
}
use fxfill_enterprise_bankin.Tools.{RiskLevel}

pub data PlanStatus : Type 0 where
  draft validated rejected executing completed failed replanning : PlanStatus

pub data StepStatus : Type 0 where
  pending running done failed blocked : StepStatus

pub record PlanStep : Type 0 where
  pub step_id : String
  pub objective : String
  pub tool_candidates : List String
  pub dependencies : List String
  pub risk_level : RiskLevel
  pub status : StepStatus
  pub max_retries : ℕ

abbrev pub is_pending : StepStatus → Bool
is_pending StepStatus.pending = true
is_pending _ = false

abbrev pub is_done : StepStatus → Bool
is_done StepStatus.done = true
is_done _ = false

abbrev pub is_failed : StepStatus → Bool
is_failed StepStatus.failed = true
is_failed _ = false

unfoldable pub is_ready : PlanStep → Bool
is_ready s = is_pending s.status

unfoldable pub is_terminal : PlanStep → Bool
is_terminal s = is_done s.status || is_failed s.status

pub record ExecutionPlan : Type 0 where
  pub plan_id : String
  pub goal : String
  pub assumptions : List String
  pub required_user_inputs : List String
  pub steps : List PlanStep
  pub completion_criteria : List String
  pub max_replans : ℕ
  pub status : PlanStatus

unfoldable pub pending_steps : ExecutionPlan → List PlanStep
unfolding is_ready
pending_steps p = keep is_ready p.steps

unfoldable pub done_steps : ExecutionPlan → List PlanStep
done_steps p = keep (λ s. is_done s.status) p.steps

unfoldable pub failed_steps : ExecutionPlan → List PlanStep
failed_steps p = keep (λ s. is_failed s.status) p.steps

unfoldable pub step_count : ExecutionPlan → ℕ
step_count p = length p.steps

unfoldable pub is_complete : ExecutionPlan → Bool
is_complete p = all (λ s. is_done s.status) p.steps
