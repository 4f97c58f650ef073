-- ===== src/Agent/Tests.antt =====
-- Runs of the agent: a direct call of a known user, and the service after an approval.
use fxfill_enterprise_bankin.Common.{◌≡◌, refl, true, false, none, some, [], ◌∷◌}
use fxfill_enterprise_bankin.Iam.{Context}
use fxfill_enterprise_bankin.Tools.Validation.{Json, Fields}
use fxfill_enterprise_bankin.Approval.State.{McpOutcome}
use fxfill_enterprise_bankin.Graph.{Proposal, NodeEnv}
use fxfill_enterprise_bankin.Graph.Loop.{AgentState, Reply}
use fxfill_enterprise_bankin.Agent.Direct.{
  DirectEnv, DirectCall, is_identity_tool, inject, call_direct, execute_direct,
}
use fxfill_enterprise_bankin.Agent.Identity.{MadeBy, direct_call_carries_subject}
use fxfill_enterprise_bankin.Agent.Run.{AgentEnv}
use fxfill_enterprise_bankin.Hitl
use fxfill_enterprise_bankin.Hitl.{HitlSessionStatus}
use fxfill_enterprise_bankin.Sql
use fxfill_enterprise_bankin.Approval.{Decision, ApprovalResult}
use fxfill_enterprise_bankin.Graph.SingleDispatch.{sends}
use fxfill_enterprise_bankin.Agent.Resumption.{
  build_resume_state, resume_state, resume_and_respond, decided_call_is_not_repeated,
}
use fxfill_enterprise_bankin.Samples.{answer, mcp_answers, session_at}

abbrev alice : Context
alice = record { subject_id = "alice"; tenant_id = "t"; roles = [] }

-- A language model that claims to be someone else.
abbrev direct_env : DirectEnv
direct_env = record {
  extract = λ tool message.
      some (Json.object (Fields.field "user_id" (Json.text "mallory") Fields.no_fields));
  mcp = λ c. McpOutcome.returned answer;
}

abbrev balance_call : DirectCall
balance_call = record {
  tool = "get_balance";
  args = Json.object (
      Fields.field "user_id" (Json.text "alice")
        (Fields.field "tenant_id" (Json.text "t") Fields.no_fields));
}

sends_balance_call :
    (execute_direct direct_env (some ("get_balance" ∷ [])) "balance?" (some alice)).1
    ≡ balance_call ∷ []
unfolding execute_direct call_direct is_identity_tool inject
sends_balance_call = refl

is_identity : is_identity_tool "get_balance" ≡ true
unfolding is_identity_tool
is_identity = refl

direct_call_carries_subject_example : MadeBy (some alice) balance_call
direct_call_carries_subject_example =
    direct_call_carries_subject direct_env (some ("get_balance" ∷ [])) "balance?" (some alice)
      balance_call sends_balance_call is_identity

abbrev transfer : Proposal
transfer = record { id = "c1"; name = "submit_transfer"; args = "{}" }

abbrev reply : Reply
reply = record { content = ""; tool_calls = transfer ∷ [] }

abbrev tools : NodeEnv
tools = record {
  registry = none;
  has_store = false;
  session_id = "s1";
  loads = λ t. none;
  dict_of = λ t. Fields.no_fields;
  lower = λ t. t;
  mcp = mcp_answers;
  now = λ tc i. 100;
}

abbrev env : AgentEnv
env = record {
  classify = none;
  direct = direct_env;
  planning = record {
    visited = λ xs. xs;
    texts = record { strip = λ t. t; lower = λ t. t; is_in = λ s t. false };
    show = λ n. "1";
    plan_id = "p";
    reply = λ n. none;
  };
  steps = record { registry = none; mcp = λ sent. mcp_answers; now = λ sent. 100 };
  graph = record { tools = tools; max_agent_steps = 5; llm = λ h. some reply };
  recursion_limit = 25;
  inform = λ m. none;
  transfer = λ m. some reply;
}

abbrev outcome : ApprovalResult
outcome = record {
  decision = Decision.approved;
  session_id = "s1";
  answer = some "done";
  step_count = 0;
  failure = none;
  reconciliation_reason = none;
}

abbrev after_approval : AgentState
after_approval =
    resume_state (session_at HitlSessionStatus.resumed)
      "Tool 'submit_transfer' executed successfully.\nResult: done"

builds :
    build_resume_state (session_at HitlSessionStatus.resumed ∷ []) outcome ≡ some after_approval
unfolding build_resume_state Hitl.get Sql.find
builds = refl

-- The language model proposes the approved call again.
decided_call_is_not_repeated_example :
    sends "c1" (resume_and_respond env.graph 25 "s1" after_approval).1 ≡ 0
unfolding Hitl.get Sql.find
decided_call_is_not_repeated_example =
    decided_call_is_not_repeated env.graph 25 (session_at HitlSessionStatus.resumed ∷ []) outcome
      (session_at HitlSessionStatus.resumed) after_approval refl refl builds
