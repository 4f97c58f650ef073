-- ===== src/Agent/Run.antt =====
-- agent.py, `run` with `_execute_rag` and `_execute_transfer_workflow`. The metrics
-- and the events are left out, so is the retriever, which the runtime never has.
use fxfill_enterprise_bankin.Common.{
  ℕ, String, Bool, true, false, Option, none, some, List, [], ◌∷◌, ◌++◌, is_nonempty, if◌then◌else◌,
}
use fxfill_enterprise_bankin.Iam.{Context}
use fxfill_enterprise_bankin.Routing.{IntentResult, Route, RouteKind, route}
use fxfill_enterprise_bankin.Graph.State.{Proposal, Node}
use fxfill_enterprise_bankin.Graph.Loop.{
  AgentState, GraphEnv, GraphEnd, Message, Reply, Visit, run_graph,
}
use fxfill_enterprise_bankin.Graph.Runs.{state_of}
use fxfill_enterprise_bankin.Orchestration.Executor.{Exec, ExecEnv}
use fxfill_enterprise_bankin.Orchestration.Planner.{PlanEnv, Answer, execute_planner}
use fxfill_enterprise_bankin.Approval.State.{ToolCall}
use fxfill_enterprise_bankin.Agent.Direct.{DirectEnv, DirectEnd, DirectCall, execute_direct}

pub record AgentEnv : Type 0 where
  pub classify : Option (String → IntentResult)
  pub direct : DirectEnv
  pub planning : PlanEnv
  pub steps : ExecEnv
  pub graph : GraphEnv
  pub recursion_limit : ℕ
  -- replies to a question without tools, and to the transfer prompt
  pub inform : String → Option String
  pub transfer : String → Option Reply

-- What a runtime keeps: the gateway and the tables with the node, and the calls of each path.
pub record Runtime : Type 0 where
  pub node : Node
  pub direct_sent : List DirectCall
  pub planned_sent : List ToolCall

-- The text of an answer of the transfer workflow.
pub data FinalText : Type 0 where
  given : String → FinalText
  of_message : Message → FinalText
  transfer_processed : FinalText

pub data RunEnd : Type 0 where
  direct : DirectEnd → RunEnd
  planned : Answer → RunEnd
  informed : String → RunEnd
  rejected transfer_failed llm_raised : RunEnd
  transferred : FinalText → ℕ → RunEnd
  -- what the graph returns, and the interrupt for which the caller stores a session
  answered : AgentState → RunEnd
  interrupted : Proposal → AgentState → RunEnd
  graph_raised : GraphEnd → RunEnd

unfoldable pub execute_rag : AgentEnv → String → RunEnd
execute_rag env message = elim (env.inform message) [
  | none ↦ RunEnd.llm_raised
  | some a ↦ RunEnd.informed a
]

abbrev pub last_message : List Message → Option Message
last_message [] = none
last_message (m ∷ []) = some m
last_message (m ∷ (n ∷ ms)) = last_message (n ∷ ms)

abbrev pub text_of_last : Option Message → FinalText
text_of_last none = FinalText.transfer_processed
text_of_last (some m) = FinalText.of_message m

abbrev pub final_text : Option String → List Message → FinalText
final_text none ms = text_of_last (last_message ms)
final_text (some a) ms = if is_nonempty a then FinalText.given a else text_of_last (last_message ms)

-- A suspended graph returns its state too, with the interrupt beside it, which is not looked at.
abbrev pub transfer_end : GraphEnd → RunEnd
transfer_end (GraphEnd.finished s) =
    RunEnd.transferred (final_text s.final_answer s.messages) s.step_count
transfer_end (GraphEnd.suspended tc s) =
    RunEnd.transferred (final_text s.final_answer s.messages) s.step_count
transfer_end e = RunEnd.graph_raised e

abbrev pub ended : Runtime → GraphEnd → (GraphEnd → RunEnd) → RunEnd × Runtime
ended rt e answer = (answer e, record rt { node = (state_of e).node })

abbrev pub after_reply : AgentEnv → String → Option Reply → Runtime → RunEnd × Runtime
after_reply env message none rt = (RunEnd.transfer_failed, rt)
after_reply env message (some r) rt =
    ended rt
      (run_graph env.graph env.recursion_limit Visit.think (record {
        messages = Message.human message ∷ Message.ai r.content r.tool_calls ∷ [];
        step_count = 1;
        final_answer = none;
        node = record rt.node { executed_ids = [] };
      }))
      transfer_end

unfoldable pub execute_transfer_workflow : AgentEnv → String → Runtime → RunEnd × Runtime
execute_transfer_workflow env message rt = after_reply env message (env.transfer message) rt

abbrev pub graph_answer : GraphEnd → RunEnd
graph_answer (GraphEnd.finished s) = RunEnd.answered s
graph_answer (GraphEnd.suspended tc s) = RunEnd.interrupted tc s
graph_answer e = RunEnd.graph_raised e

unfoldable pub run_in_graph : AgentEnv → AgentState → Runtime → RunEnd × Runtime
run_in_graph env s rt =
    ended rt (run_graph env.graph env.recursion_limit Visit.think s) graph_answer

abbrev pub begun : String → Runtime → AgentState
begun message rt = record {
  messages = Message.human message ∷ [];
  step_count = 0;
  final_answer = none;
  node = record rt.node { executed_ids = [] };
}

abbrev pub if_answered : DirectEnd → RunEnd × Runtime → RunEnd × Runtime → RunEnd × Runtime
if_answered DirectEnd.no_tool answer otherwise = otherwise
if_answered _ answer otherwise = answer

unfoldable pub run_direct : AgentEnv → Route → String → Option Context → Runtime → RunEnd × Runtime
run_direct env r message ctx rt =
    let (e, sent) = execute_direct env.direct r.suggested_tools message ctx in
    if_answered e (RunEnd.direct e, record rt { direct_sent = rt.direct_sent ++ sent })
      (run_in_graph env (begun message rt) rt)

unfoldable pub run_planned : AgentEnv → Route → String → Runtime → RunEnd × Runtime
run_planned env r message rt =
    let exec : Exec = record { gateway = rt.node.gateway; sent = rt.planned_sent } in
    let (a, exec') = execute_planner env.planning env.steps r.max_steps message exec in
    (
      RunEnd.planned a,
      record rt { node = record rt.node { gateway = exec'.gateway }; planned_sent = exec'.sent },
    )

-- A stored state, on the runtime's gateway and tables.
abbrev pub continued : AgentState → Runtime → AgentState
continued s rt = record s { node = record rt.node { executed_ids = s.node.executed_ids } }

-- A run that does not continue a stored state.
unfoldable pub run_route : AgentEnv → Route → String → Option Context → Runtime → RunEnd × Runtime
run_route env r message ctx rt = elim r.kind [
  | RouteKind.direct ↦ run_direct env r message ctx rt
  | RouteKind.planner ↦ run_planned env r message rt
  | RouteKind.rag ↦ (execute_rag env message, rt)
  | RouteKind.reject ↦ (RunEnd.rejected, rt)
  | RouteKind.transfer_state_machine ↦ execute_transfer_workflow env message rt
]

abbrev pub is_reject : RouteKind → Bool
is_reject RouteKind.reject = true
is_reject _ = false

abbrev pub run_classified :
    AgentEnv
    → Option (String → IntentResult)
    → String
    → Option Context
    → Option AgentState
    → Runtime
    → RunEnd × Runtime
run_classified env none message ctx none rt = run_in_graph env (begun message rt) rt
run_classified env none message ctx (some s) rt = run_in_graph env (continued s rt) rt
run_classified env (some classify) message ctx none rt =
    run_route env (route (classify message)) message ctx rt
run_classified env (some classify) message ctx (some s) rt =
    if is_reject (route (classify message)).kind
    then (RunEnd.rejected, rt)
    else run_in_graph env (continued s rt) rt

-- `run`
unfoldable pub run_agent :
    AgentEnv
    → String
    → Option Context
    → (resume_from_state : Option AgentState) → Runtime
    → RunEnd × Runtime
run_agent env message ctx from rt = run_classified env env.classify message ctx from rt
