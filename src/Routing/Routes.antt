-- ===== src/Routing/Routes.antt =====
-- The route table of routing/policies.py against the classes of intents of routing/intent.py.
use fxfill_enterprise_bankin.Common.{◌≡◌, Bool, true, false, not, ◌&&◌, ◌||◌, none, some, arith}
use fxfill_enterprise_bankin.Routing.{
  IntentResult, RouteKind, route, route_kind, is_simple_read, is_transfer_workflow,
  is_knowledge_question, is_complex, is_high_risk,
}

abbrev pub is_direct : RouteKind → Bool
is_direct RouteKind.direct = true
is_direct _ = false

abbrev pub is_rag : RouteKind → Bool
is_rag RouteKind.rag = true
is_rag _ = false

abbrev pub is_state_machine : RouteKind → Bool
is_state_machine RouteKind.transfer_state_machine = true
is_state_machine _ = false

abbrev pub is_planner : RouteKind → Bool
is_planner RouteKind.planner = true
is_planner _ = false

-- An intent takes the direct route exactly when it is a simple read, the transfer state machine
-- exactly when it belongs to the transfer workflow, retrieval exactly when it is a knowledge
-- question, and the planner exactly when it is complex or of high risk outside the transfer
-- workflow; only planned routes have a step limit.
pub route_exact :
    (r : IntentResult)
    → (is_direct (route r).kind ≡ is_simple_read r)
      × (is_state_machine (route r).kind ≡ is_transfer_workflow r)
      × (is_rag (route r).kind ≡ is_knowledge_question r)
      × (is_planner (route r).kind
          ≡ (is_complex r || (is_high_risk r && not (is_transfer_workflow r))))
      × ((route r).max_steps ≡ (elim (is_planner (route r).kind) [ true ↦ some 20 | false ↦ none ]))
unfolding route route_kind is_simple_read is_transfer_workflow is_knowledge_question is_complex
    is_high_risk
route_exact r = ground arith
