-- ===== src/Orchestration/Runs.antt =====
-- Bounds on a whole run of agent.py `_execute_planner`: the calls that it sends, and the results of
-- which it reports.
use fxfill_enterprise_bankin.Common.{
  ℕ, ◌+◌, ◌*◌, ◌≤◌, String, ◌≡◌, ap, Option, none, List, [], ◌∷◌, ◌++◌, contains, arith, inl, inr,
  Bool-cases, length, length-append,
}
use fxfill_enterprise_bankin.Orchestration.{PlanStep, ExecutionPlan, step_count}
use fxfill_enterprise_bankin.Orchestration.Validator.{Validated, validate}
use fxfill_enterprise_bankin.Orchestration.Executor.{Exec, ExecEnv, StepResult, Texts, execute_step}
use fxfill_enterprise_bankin.Orchestration.Planner.{
  PlanEnv, Answer, StepEnd, run_step, run_steps, after_step, by_validation, execute_planner,
  is_rejected, plan_goal, planner_validator, agent_validator,
}
use fxfill_enterprise_bankin.Orchestration.Steps.{call_of_step, execute_step_sends}
use fxfill_enterprise_bankin.Orchestration.Planned.{planned_plan_sound}

module _ (env : ExecEnv) (texts : Texts) (plan : ExecutionPlan) where
  call_of_step-le :
      (step : PlanStep) (args : Option String) (s : Exec) (tools : List String)
      → length (call_of_step env step args s tools) ≤ 1
  call_of_step-le step args s [] = ground arith
  call_of_step-le step args s (t ∷ ts) = ground arith

  execute_step-le :
      (step : PlanStep) (s : Exec)
      → length (execute_step env step none s).1.sent ≤ length s.sent + 1
  execute_step-le step s =
      let calls = call_of_step env step none s step.tool_candidates in
      omega (
        arith,
        ap length (execute_step_sends env step none s),
        length-append s.sent calls,
        call_of_step-le step none s step.tool_candidates,
      )

  abbrev exec_of : StepEnd → Exec
  exec_of (StepEnd.keeps r s) = s
  exec_of (StepEnd.stops s) = s

  run_step-le :
      (step : PlanStep) (s : Exec)
      → length (exec_of (run_step env texts plan step s)).sent ≤ length s.sent + 2
  unfolding run_step
  run_step-le step s =
      ground (arith, execute_step-le step s, execute_step-le step (execute_step env step none s).1)

  after_step-le :
      (step : PlanStep) (n m : ℕ) (results : List StepResult) (e : StepEnd)
      → (rest : List StepResult → Exec → Answer × Exec) → length (exec_of e).sent ≤ n
      → ((rs : List StepResult) (s : Exec) → length s.sent ≤ n → length (rest rs s).1.sent ≤ n + m)
      → length (after_step step results e rest).1.sent ≤ n + m
  after_step-le step n m results (StepEnd.keeps r s) rest h k = k (results ++ r ∷ []) s h
  after_step-le step n m results (StepEnd.stops s) rest h k = omega arith

  run_steps-le :
      (steps : List PlanStep) (n : ℕ) (results : List StepResult) (s : Exec)
      → length s.sent ≤ n
      → length (run_steps env texts plan steps results s).1.sent ≤ n + 2 * length steps
  unfolding run_steps
  run_steps-le [] n results s h = omega arith
  run_steps-le (step ∷ steps) n results s h = omega (
    arith,
    after_step-le step (n + 2) (2 * length steps) results (run_step env texts plan step s)
        (λ rs s'. run_steps env texts plan steps rs s') (omega (arith, run_step-le step s))
        (λ rs s' k. run_steps-le steps (n + 2) rs s' k),
  )

  by_validation-le :
      (o : Validated) (s : Exec)
      → length (by_validation env texts plan o s).1.sent ≤ length s.sent + 2 * length plan.steps
  by_validation-le (Validated.returned r) s =
      ground (arith, run_steps-le plan.steps (length s.sent) [] s (omega arith))
  by_validation-le Validated.value_error s = omega arith
  by_validation-le Validated.out_of_fuel s = omega arith

-- A request that is routed to the planner sends at most 30 tool calls, whatever the language model
-- replies and the MCP server answers: at most two for each of at most 15 steps.
pub planner_call_bound :
    (penv : PlanEnv) (env : ExecEnv)
    → ((x : String) (xs : List String) → contains x (penv.visited xs) ≡ contains x xs)
    → (max_steps : Option ℕ) (message : String) (s : Exec)
    → length (execute_planner penv env max_steps message s).1.sent ≤ length s.sent + 30
unfolding execute_planner step_count
planner_call_bound penv env same max_steps message s =
    let v = planner_validator env.registry in
    let plan = plan_goal penv v 3 message in
    elim (Bool-cases (is_rejected plan.status)) [
      | inl e ↦ rw e (omega arith)
      | inr e ↦ rw e (
          omega (
            arith,
            by_validation-le env penv.texts plan
                (validate penv.visited penv.texts.strip (agent_validator env.registry max_steps)
                  plan)
                s,
            (planned_plan_sound penv v message same 3 "" e).1,
          ))
    ]
