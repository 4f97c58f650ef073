-- ===== src/Routing.antt =====
-- routing/intent.py and routing/policies.py: intents, and the execution route of each.
pub mod Routes
mod Tests
use fxfill_enterprise_bankin.Common.{
  ℕ, String, Bool, true, false, Option, none, some, List, [], ◌∷◌,
}

pub data Intent : Type 0 where
  account_query transaction_query beneficiary_query transfer_create transfer_submit transfer_cancel
        transfer_status policy_question form_assistance product_question suspicious_activity_report
        complex_task multi_account_task general_unsupported :
      Intent

pub data IntentConfidence : Type 0 where
  high medium low : IntentConfidence

pub record IntentResult : Type 0 where
  pub intent : Intent
  pub confidence : IntentConfidence
  pub sub_intents : List Intent
  pub suggested_tools : List String

unfoldable pub is_simple_read : IntentResult → Bool
is_simple_read r = elim r.intent [
  | account_query ↦ true
  | transaction_query ↦ true
  | beneficiary_query ↦ true
  | transfer_status ↦ true
  | _ ↦ false
]

unfoldable pub is_transfer_workflow : IntentResult → Bool
is_transfer_workflow r = elim r.intent [
  | transfer_create ↦ true
  | transfer_submit ↦ true
  | transfer_cancel ↦ true
  | _ ↦ false
]

unfoldable pub is_knowledge_question : IntentResult → Bool
is_knowledge_question r = elim r.intent [
  | policy_question ↦ true
  | form_assistance ↦ true
  | product_question ↦ true
  | _ ↦ false
]

unfoldable pub is_complex : IntentResult → Bool
is_complex r = elim r.intent [ complex_task ↦ true | multi_account_task ↦ true | _ ↦ false ]

unfoldable pub is_high_risk : IntentResult → Bool
is_high_risk r = elim r.intent [
  | suspicious_activity_report ↦ true
  | transfer_submit ↦ true
  | _ ↦ false
]

pub data RouteKind : Type 0 where
  direct rag planner transfer_state_machine reject : RouteKind

-- A route without its reason text.
pub record Route : Type 0 where
  pub kind : RouteKind
  pub intent : Intent
  pub max_steps : Option ℕ
  pub require_approval : Bool
  pub suggested_tools : Option (List String)

-- `_ROUTES`
unfoldable pub route_kind : Intent → RouteKind
route_kind account_query = direct
route_kind transaction_query = direct
route_kind beneficiary_query = direct
route_kind transfer_status = direct
route_kind transfer_create = transfer_state_machine
route_kind transfer_submit = transfer_state_machine
route_kind transfer_cancel = transfer_state_machine
route_kind policy_question = rag
route_kind form_assistance = rag
route_kind product_question = rag
route_kind complex_task = planner
route_kind multi_account_task = planner
route_kind suspicious_activity_report = planner
route_kind general_unsupported = reject

abbrev pub tools_or_none : List String → Option (List String)
tools_or_none [] = none
tools_or_none (t ∷ ts) = some (t ∷ ts)

-- The cap on the steps of a planned route.
abbrev pub step_cap : RouteKind → Option ℕ
step_cap planner = some 20
step_cap _ = none

unfoldable pub route : IntentResult → Route
route r = record {
  kind = route_kind r.intent;
  intent = r.intent;
  max_steps = step_cap (route_kind r.intent);
  require_approval = is_high_risk r;
  suggested_tools = tools_or_none r.suggested_tools;
}
