-- ===== src/Orchestration/Validity.antt =====
-- What PlanValidator.validate of orchestration/validator.py guarantees of a plan that it accepts.
use fxfill_enterprise_bankin.Common.{
  ◌≤◌, String, ◌≡◌, refl, ◌∙◌, Bool, true, false, not, ◌&&◌, List, [], ◌∷◌, ◌++◌, eq_iff, contains,
  all, arith, ap,
}
use fxfill_enterprise_bankin.Orchestration.{PlanStep, ExecutionPlan, step_count}
use fxfill_enterprise_bankin.Orchestration.Search.{Cycles, ids_of, detect_cycles}
use fxfill_enterprise_bankin.Orchestration.Validator.{
  PlanError, PlanWarning, PlanValidator, PlanValidation, Validated, validate, errors_of,
  warnings_of, report, is_empty, is_unknown, candidate_errors, tool_errors, missing_errors,
  dependency_errors, duplicate_errors, circular_errors, count_errors, error_if,
}
use fxfill_enterprise_bankin.Orchestration.Acyclic.{
  Chain, link, more, depends, has_duplicates, set_of_duplicates, detect_cycles-Grounded,
  Grounded-acyclic,
}

append_empty {ℓ} : {A : Type ℓ} (xs ys : List A) → xs ++ ys ≡ [] → (xs ≡ []) × (ys ≡ [])
append_empty [] ys h = (refl, h)
append_empty (x ∷ xs) ys h = absurd (cc)

-- The tool is not forbidden, and known if there is a registry.
abbrev pub is_allowed : PlanValidator → String → Bool
is_allowed v tool = not (contains tool v.forbidden) && not (is_unknown v.registry tool)

abbrev pub only_allowed : PlanValidator → List PlanStep → Bool
only_allowed v [] = true
only_allowed v (s ∷ ss) = all (is_allowed v) s.tool_candidates && only_allowed v ss

candidates_allowed :
    (v : PlanValidator) (sid : String) (tools : List String)
    → candidate_errors v sid tools ≡ []
    → all (is_allowed v) tools ≡ true
unfolding candidate_errors
candidates_allowed v sid [] h = refl
candidates_allowed v sid (t ∷ ts) h = ground (arith, candidates_allowed v sid ts)

tools_allowed :
    (v : PlanValidator) (steps : List PlanStep)
    → tool_errors v steps ≡ []
    → only_allowed v steps ≡ true
unfolding tool_errors
tools_allowed v [] h = refl
tools_allowed v (s ∷ ss) h =
    let (a, b) =
      append_empty (candidate_errors v s.step_id s.tool_candidates) (tool_errors v ss) h in
    ground (arith, candidates_allowed v s.step_id s.tool_candidates, tools_allowed v ss)

not_missing :
    (ids : List String) (sid d : String) (deps : List String)
    → missing_errors ids sid deps ≡ []
    → contains d deps ≡ true
    → contains d ids ≡ true
unfolding missing_errors
not_missing ids sid d [] h c = absurd (cc)
not_missing ids sid d (e ∷ es) h c = ground (arith, eq_iff e d, not_missing ids sid d es)

dependency_known :
    (ids : List String) (x d : String) (steps : List PlanStep)
    → dependency_errors ids steps ≡ []
    → depends steps x d ≡ true
    → contains d ids ≡ true
unfolding dependency_errors
dependency_known ids x d [] h c = absurd (cc)
dependency_known ids x d (s ∷ ss) h c =
    let (a, b) =
      append_empty
        (error_if (contains s.step_id s.dependencies) (PlanError.self_dependency s.step_id))
        (missing_errors ids s.step_id s.dependencies ++ dependency_errors ids ss) h in
    let (a', b') =
      append_empty (missing_errors ids s.step_id s.dependencies) (dependency_errors ids ss) b in
    ground (arith, not_missing ids s.step_id d s.dependencies, dependency_known ids x d ss)

no_duplicates :
    (plan : ExecutionPlan) → duplicate_errors plan ≡ [] → has_duplicates (ids_of plan.steps) ≡ false
unfolding duplicate_errors
no_duplicates plan h = set_of_duplicates (ids_of plan.steps) (ground arith)

no_cycles : (cycles : List (List String)) → circular_errors cycles ≡ [] → cycles ≡ []
no_cycles [] h = refl
no_cycles (c ∷ cs) h = absurd (cc)

bounded_size :
    (v : PlanValidator) (plan : ExecutionPlan)
    → count_errors v plan ≡ []
    → step_count plan ≤ v.max_steps
unfolding count_errors
bounded_size v plan h = ground arith

-- What no error means.
record Accepted (visited : List String → List String) (v : PlanValidator) (plan : ExecutionPlan)
    : Type 0 where
  size : step_count plan ≤ v.max_steps
  duplicates : has_duplicates (ids_of plan.steps) ≡ false
  tools : tool_errors v plan.steps ≡ []
  dependencies : dependency_errors (ids_of plan.steps) plan.steps ≡ []
  acyclic : detect_cycles visited plan.steps ≡ Cycles.found []

is_empty-eq {ℓ} : {A : Type ℓ} (xs : List A) → is_empty xs ≡ true → xs ≡ []
is_empty-eq [] h = refl
is_empty-eq (x ∷ xs) h = absurd (cc)

valid-inj :
    (r : PlanValidation) (errors : List PlanError) (warnings : List PlanWarning)
    → Validated.returned (record { valid = is_empty errors; errors = errors; warnings = warnings })
      ≡ Validated.returned r
    → r.valid ≡ true
    → errors ≡ []
valid-inj r errors warnings h ok = is_empty-eq errors (ground arith)

depends_on_step :
    (x d : String) (steps : List PlanStep)
    → depends steps x d ≡ true
    → contains x (ids_of steps) ≡ true
depends_on_step x d [] h = cc
depends_on_step x d (s ∷ ss) h = ground (arith, depends_on_step x d ss)

Chain-from_step :
    (steps : List PlanStep) (x y : String) → Chain steps x y → contains x (ids_of steps) ≡ true
Chain-from_step steps x y (link h) = depends_on_step x y steps h
Chain-from_step steps x y (more h c) = depends_on_step x _ steps h

module _ (visited : List String → List String) (strip : String → String) (v : PlanValidator)
    (plan : ExecutionPlan) where
  no_errors :
      (cycles : List (List String))
      → detect_cycles visited plan.steps ≡ Cycles.found cycles
      → errors_of strip v plan cycles ≡ []
      → Accepted visited v plan
  no_errors cycles e h =
      let (a, h1) = append_empty (count_errors v plan) _ h in
      let (b, h2) = append_empty (duplicate_errors plan) _ h1 in
      let (c, h3) = append_empty (tool_errors v plan.steps) _ h2 in
      let (d, h4) = append_empty (dependency_errors (ids_of plan.steps) plan.steps) _ h3 in
      let (f, h5) = append_empty (circular_errors cycles) _ h4 in
      record {
        size = bounded_size v plan a;
        duplicates = no_duplicates plan b;
        tools = c;
        dependencies = d;
        acyclic = e ∙ ap Cycles.found (no_cycles cycles f);
      }

  reported :
      (o : Cycles) (r : PlanValidation)
      → detect_cycles visited plan.steps ≡ o
      → report strip v plan o ≡ Validated.returned r
      → r.valid ≡ true
      → Accepted visited v plan
  reported (Cycles.found cycles) r e h ok =
      no_errors cycles e (valid-inj r (errors_of strip v plan cycles) (warnings_of plan) h ok)
  reported Cycles.value_error r e h ok = absurd (cc)
  reported Cycles.out_of_fuel r e h ok = absurd (cc)

  accepted :
      (r : PlanValidation)
      → validate visited strip v plan ≡ Validated.returned r
      → r.valid ≡ true
      → Accepted visited v plan
  unfolding validate
  accepted r h ok = reported (detect_cycles visited plan.steps) r refl h ok

  -- A plan that the validator accepts has no circular dependency: no step of it depends, directly or
  -- through other steps, on itself.
  pub valid_plan_acyclic :
      ((x : String) (xs : List String) → contains x (visited xs) ≡ contains x xs)
      → (r : PlanValidation) → validate visited strip v plan ≡ Validated.returned r
      → r.valid ≡ true
      → (x : String) → ¬ Chain plan.steps x x
  valid_plan_acyclic same r h ok x c =
      let a = accepted r h ok in
      Grounded-acyclic plan.steps a.duplicates
        (λ y d k. dependency_known (ids_of plan.steps) y d plan.steps a.dependencies k)
        (detect_cycles-Grounded visited same plan.steps a.acyclic x
          (Chain-from_step plan.steps x x c))
        c

  -- Each tool that an accepted plan proposes is not forbidden, and is registered if the validator
  -- has a registry.
  pub valid_plan_tools :
      (r : PlanValidation)
      → validate visited strip v plan ≡ Validated.returned r
      → r.valid ≡ true
      → only_allowed v plan.steps ≡ true
  valid_plan_tools r h ok = let a = accepted r h ok in tools_allowed v plan.steps a.tools

  pub valid_plan_size :
      (r : PlanValidation)
      → validate visited strip v plan ≡ Validated.returned r
      → r.valid ≡ true
      → step_count plan ≤ v.max_steps
  valid_plan_size r h ok = let a = accepted r h ok in a.size
