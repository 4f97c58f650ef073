-- ===== src/Routing/Tests.antt =====
-- Runs of the routing policy.
use fxfill_enterprise_bankin.Common.{◌≡◌, refl, true, false, not, ◌&&◌, ◌||◌, none, some, [], ◌∷◌}
use fxfill_enterprise_bankin.Routing.{
  Intent, IntentConfidence, IntentResult, route, is_simple_read, is_transfer_workflow,
  is_knowledge_question, is_complex, is_high_risk,
}
use fxfill_enterprise_bankin.Routing.Routes.{
  is_direct, is_rag, is_state_machine, is_planner, route_exact,
}

abbrev report : IntentResult
report = record {
  intent = Intent.suspicious_activity_report;
  confidence = IntentConfidence.high;
  sub_intents = [];
  suggested_tools = "report_suspicious_transaction" ∷ [];
}

report_needs_approval : (route report).require_approval ≡ true
unfolding route is_high_risk
report_needs_approval = refl

route_exact_example :
    (is_direct (route report).kind ≡ is_simple_read report)
    × (is_state_machine (route report).kind ≡ is_transfer_workflow report)
    × (is_rag (route report).kind ≡ is_knowledge_question report)
    × (is_planner (route report).kind
        ≡ (is_complex report || (is_high_risk report && not (is_transfer_workflow report))))
    × ((route report).max_steps
        ≡ (elim (is_planner (route report).kind) [ true ↦ some 20 | false ↦ none ]))
route_exact_example = route_exact report
