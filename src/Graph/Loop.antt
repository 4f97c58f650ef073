-- ===== src/Graph/Loop.antt =====
-- graph.py: `_agent_node`, `_has_tool_calls` and the graph that `build_agent_graph` makes. The
-- language model is a parameter that answers a history or raises. LangGraph visits the nodes one
-- after the other, and gives up after a number of visits, its recursion limit.
use fxfill_enterprise_bankin.Common.{
  ℕ, zero, suc, ◌+◌, String, Option, none, some, List, [], ◌∷◌, ◌++◌, leb, if◌then◌else◌,
}
use fxfill_enterprise_bankin.Graph.State.{Proposal, ToolMessage, Node, NodeEnv, Progress}
use fxfill_enterprise_bankin.Graph.{tool_node}

pub data Message : Type 0 where
  human : String → Message
  ai : (content : String) → List Proposal → Message
  tool : ToolMessage → Message

-- `AgentState`, where the node has the executed ids and what the tool node writes outside. Its
-- results are those of the last visit.
pub record AgentState : Type 0 where
  pub messages : List Message
  pub step_count : ℕ
  pub final_answer : Option String
  pub node : Node

pub record Reply : Type 0 where
  pub content : String
  pub tool_calls : List Proposal

pub record GraphEnv : Type 0 where
  pub tools : NodeEnv
  pub max_agent_steps : ℕ
  pub llm : List Message → Option Reply

pub data GraphEnd : Type 0 where
  finished : AgentState → GraphEnd
  suspended : Proposal → AgentState → GraphEnd
  -- RuntimeError of the agent node, and what the language model or the MCP client raises
  steps_exceeded llm_raised mcp_raised : AgentState → GraphEnd
  recursion_limit : AgentState → GraphEnd

-- The node to visit next.
pub data Visit : Type 0 where
  think : Visit
  act : List Proposal → Visit

abbrev pub answer_of : Reply → Option String → Option String
answer_of r old = elim r.tool_calls [ [] ↦ some r.content | _ ∷ _ ↦ old ]

abbrev pub with_reply : Reply → AgentState → AgentState
with_reply r s = record s {
  messages = s.messages ++ Message.ai r.content r.tool_calls ∷ [];
  step_count = s.step_count + 1;
  final_answer = answer_of r s.final_answer;
}

-- The conditional edge `_has_tool_calls`.
abbrev pub route_reply : List Proposal → AgentState → (Visit → AgentState → GraphEnd) → GraphEnd
route_reply [] s go = GraphEnd.finished s
route_reply (tc ∷ tcs) s go = go (Visit.act (tc ∷ tcs)) s

abbrev pub after_llm : Option Reply → AgentState → (Visit → AgentState → GraphEnd) → GraphEnd
after_llm none s go = GraphEnd.llm_raised s
after_llm (some r) s go = route_reply r.tool_calls (with_reply r s) go

unfoldable pub agent_node : GraphEnv → AgentState → (Visit → AgentState → GraphEnd) → GraphEnd
agent_node env s go =
    if leb env.max_agent_steps s.step_count
    then GraphEnd.steps_exceeded s
    else after_llm (env.llm s.messages) s go

abbrev pub tool_messages : List ToolMessage → List Message
tool_messages [] = []
tool_messages (t ∷ ts) = Message.tool t ∷ tool_messages ts

abbrev pub with_node : Node → AgentState → AgentState
with_node n s = record s { messages = s.messages ++ tool_messages n.results; node = n }

abbrev pub after_tools : Progress → AgentState → (Visit → AgentState → GraphEnd) → GraphEnd
after_tools (Progress.continues n) s go = go Visit.think (with_node n s)
after_tools (Progress.suspends tc n) s go = GraphEnd.suspended tc (record s { node = n })
after_tools (Progress.raises n) s go = GraphEnd.mcp_raised (record s { node = n })

-- The tool node starts with no results.
unfoldable pub act_on :
    GraphEnv → List Proposal → AgentState → (Visit → AgentState → GraphEnd) → GraphEnd
act_on env tcs s go = after_tools (tool_node env.tools tcs (record s.node { results = [] })) s go

-- `ainvoke`: the number of visits left, the node to visit, the state.
unfoldable pub run_graph : GraphEnv → ℕ → Visit → AgentState → GraphEnd
run_graph env zero v s = GraphEnd.recursion_limit s
run_graph env (suc n) Visit.think s = agent_node env s (λ v s'. run_graph env n v s')
run_graph env (suc n) (Visit.act tcs) s = act_on env tcs s (λ v s'. run_graph env n v s')
