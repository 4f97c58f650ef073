-- ===== src/Orchestration/Planned.antt =====
-- What the plans of orchestration/planner.py have in common.
use fxfill_enterprise_bankin.Common.{
  ℕ, zero, suc, ◌+◌, ◌≤◌, String, ◌≡◌, refl, true, false, Option, none, some, List, ◌⊎◌, contains,
  arith, inl, inr, Bool-cases, Option-cases,
}
use fxfill_enterprise_bankin.Orchestration.{ExecutionPlan, PlanStatus, step_count}
use fxfill_enterprise_bankin.Orchestration.Validator.{
  PlanValidator, PlanValidation, Validated, validate,
}
use fxfill_enterprise_bankin.Orchestration.Acyclic.{Chain}
use fxfill_enterprise_bankin.Orchestration.Validity.{
  valid_plan_acyclic, valid_plan_tools, only_allowed, valid_plan_size,
}
use fxfill_enterprise_bankin.Orchestration.Planner.{
  RawPlan, PlanEnv, generate_plan, if_valid, attempt, plan_from, plan_goal, is_rejected,
  rejected_plan,
}

module _ (env : PlanEnv) (v : PlanValidator) (goal : String) where
  -- A draft with the plan's steps that the validator accepts.
  record Source (plan : ExecutionPlan) : Type 0 where
    draft : ExecutionPlan
    verdict : PlanValidation
    checked : validate env.visited env.texts.strip v draft ≡ Validated.returned verdict
    accepted : verdict.valid ≡ true
    promoted : plan ≡ record draft { status = PlanStatus.validated }

  if_valid-Source :
      (draft plan : ExecutionPlan) (o : Validated)
      → validate env.visited env.texts.strip v draft ≡ o
      → if_valid draft o ≡ some plan
      → Source plan
  if_valid-Source draft plan (Validated.returned r) e h = elim (Bool-cases r.valid) [
    | inl ok ↦ record {
      draft = draft;
      verdict = r;
      checked = e;
      accepted = ok;
      promoted = ground arith;
    }
    | inr bad ↦ absurd (ground arith)
  ]
  if_valid-Source draft plan Validated.value_error e h = absurd (cc)
  if_valid-Source draft plan Validated.out_of_fuel e h = absurd (cc)

  attempt-Source :
      (o : Option RawPlan) (plan : ExecutionPlan) → attempt env v goal o ≡ some plan → Source plan
  unfolding attempt
  attempt-Source none plan h = absurd (cc)
  attempt-Source (some raw) plan h =
      let draft = generate_plan env goal raw in
      if_valid-Source draft plan (validate env.visited env.texts.strip v draft) refl h

  rejected_false :
      (plan : ExecutionPlan) → plan ≡ rejected_plan env goal → is_rejected plan.status ≡ false → ⊥
  rejected_false plan e h = ground arith

  plan_from-cases :
      (k i : ℕ)
      → (plan_from env v goal k i ≡ rejected_plan env goal) ⊎ Source (plan_from env v goal k i)
  unfolding plan_from
  plan_from-cases zero i = inl refl
  plan_from-cases (suc k) i = elim (Option-cases (attempt env v goal (env.reply i))) [
    | inl e ↦
        let again : plan_from env v goal (suc k) i ≡ plan_from env v goal k (i + 1) =
          ground arith in
        rw again (plan_from-cases k (i + 1))
    | inr (plan, e) ↦
        let done : plan_from env v goal (suc k) i ≡ plan = ground arith in
        rw done (inr (attempt-Source (env.reply i) plan e))
  ]

  plan_goal-cases :
      (k : ℕ) → (plan_goal env v k goal ≡ rejected_plan env goal) ⊎ Source (plan_goal env v k goal)
  unfolding plan_goal
  plan_goal-cases k = plan_from-cases k 0

  abbrev Sound : ExecutionPlan → String → Type 0
  Sound plan x =
      (plan.status ≡ PlanStatus.validated)
      × (step_count plan ≤ v.max_steps)
      × (only_allowed v plan.steps ≡ true)
      × ¬ Chain plan.steps x x

  Source-Sound :
      ((x : String) (xs : List String) → contains x (env.visited xs) ≡ contains x xs)
      → (x : String) (plan : ExecutionPlan) → Source plan
      → Sound plan x
  unfolding step_count
  Source-Sound same x plan s =
      let size =
        valid_plan_size env.visited env.texts.strip v s.draft s.verdict s.checked s.accepted in
      let tools =
        valid_plan_tools env.visited env.texts.strip v s.draft s.verdict s.checked s.accepted in
      let acyclic =
        valid_plan_acyclic env.visited env.texts.strip v s.draft same s.verdict s.checked s.accepted
          x in
      rw s.promoted (refl, size, tools, acyclic)

  -- Whatever the language model replies, in however many attempts: if the planner's plan is not
  -- REJECTED, then it is VALIDATED, it has no more steps than the planner's validator allows, each
  -- tool that it proposes is not forbidden and registered where there is a registry, and no step of
  -- it depends on itself, directly or through other steps.
  pub planned_plan_sound :
      ((x : String) (xs : List String) → contains x (env.visited xs) ≡ contains x xs)
      → (k : ℕ) (x : String) → is_rejected (plan_goal env v k goal).status ≡ false
      → ((plan_goal env v k goal).status ≡ PlanStatus.validated)
        × (step_count (plan_goal env v k goal) ≤ v.max_steps)
        × (only_allowed v (plan_goal env v k goal).steps ≡ true)
        × ¬ Chain (plan_goal env v k goal).steps x x
  planned_plan_sound same k x h = elim (plan_goal-cases k) [
    | inl e ↦ absurd (rejected_false (plan_goal env v k goal) e h)
    | inr s ↦ Source-Sound same x (plan_goal env v k goal) s
  ]
