-- ===== src/Graph/Tests.antt =====
-- Runs of the tool node of graph.py.
use fxfill_enterprise_bankin.Common.{
  ◌+◌, ◌≤◌, ◌≡◌, refl, arith, true, false, none, some, List, [], ◌∷◌,
}
use fxfill_enterprise_bankin.Sql
use fxfill_enterprise_bankin.Auth.{OperationKind, auto_approve, require_approval, Policy}
use fxfill_enterprise_bankin.Idempotency
use fxfill_enterprise_bankin.Tools.Validation.{Fields}
use fxfill_enterprise_bankin.Graph.{Proposal, Resume, Node, NodeEnv, tool_call, idem_key}
use fxfill_enterprise_bankin.Graph.State.{classify_tool_kind}
use fxfill_enterprise_bankin.Graph.Authorized.{
  Sends, Cleared, validated, no_dispatch_without_permission,
}
use fxfill_enterprise_bankin.Graph.SingleDispatch.{sends}
use fxfill_enterprise_bankin.Graph.Loop.{AgentState, GraphEnv, Message, Visit, run_graph}
use fxfill_enterprise_bankin.Graph.Runs.{state_of, is_limit, run_graph-sends_once, run_graph_ends}
use fxfill_enterprise_bankin.Samples.{mcp_answers}

abbrev transfer : Proposal
transfer = record { id = "c1"; name = "submit_transfer"; args = "{draft: 7}" }

abbrev env : NodeEnv
env = record {
  registry = none;
  has_store = true;
  session_id = "s1";
  loads = λ t. none;
  dict_of = λ t. Fields.no_fields;
  lower = λ t. t;
  mcp = mcp_answers;
  now = λ tc i. 100;
}

abbrev node : Policy → List Resume → Node
node policy resumes = record {
  records = [];
  gateway = record { policy = policy; audit_trail = [] };
  executed_ids = [];
  results = [];
  resumes = resumes;
  dispatched = [];
}

by_name : classify_tool_kind (λ t. t) "submit_transfer" ≡ OperationKind.transfer
unfolding classify_tool_kind
by_name = refl

no_dispatch_without_permission_example :
    Sends
      (λ args.
        (validated env none transfer ≡ true)
        × Cleared env transfer (node require_approval (Resume.approved_with none ∷ [])) args)
      transfer
      (node require_approval (Resume.approved_with none ∷ []))
      (tool_call env transfer (node require_approval (Resume.approved_with none ∷ [])))
no_dispatch_without_permission_example =
    no_dispatch_without_permission env transfer
      (node require_approval (Resume.approved_with none ∷ []))

-- A model that proposes the same transfer over and over.
abbrev stubborn : GraphEnv
stubborn = record {
  tools = env;
  max_agent_steps = 3;
  llm = λ h. some (record { content = ""; tool_calls = transfer ∷ [] });
}

abbrev begun : AgentState
begun = record {
  messages = Message.human "pay" ∷ [];
  step_count = 0;
  final_answer = none;
  node = node auto_approve [];
}

run_graph-sends_once_example :
    sends "c1" (state_of (run_graph stubborn 25 Visit.think begun)).node.dispatched
    ≤ sends "c1" [] + 1
run_graph-sends_once_example = run_graph-sends_once stubborn "c1" refl 25 Visit.think begun

run_graph_ends_example : is_limit (run_graph stubborn 25 Visit.think begun) ≡ false
run_graph_ends_example = run_graph_ends stubborn 25 begun (omega arith)

no_record : Idempotency.get (idem_key env transfer) (node auto_approve []).records ≡ none
unfolding Idempotency.get Sql.find
no_record = refl
