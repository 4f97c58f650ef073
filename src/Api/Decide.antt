-- ===== src/Api/Decide.antt =====
-- api.py, `approve_endpoint` with `_map_executor_result`, and `resume` of agent.py. LangGraph keeps the
-- threads: a thread waits at an interrupt of its tool node, or continuing it ends as LangGraph says.
use fxfill_enterprise_bankin.Common.{
  String, Bool, true, false, Option, none, some, List, [], ◌∷◌, ◌++◌, is_nonempty, if◌then◌else◌,
}
use fxfill_enterprise_bankin.Hitl
use fxfill_enterprise_bankin.Hitl.{HitlSession, HitlSessionStatus, is_terminal}
use fxfill_enterprise_bankin.Approval.{
  World, Env, Decision, ApprovalError, ApprovalResult, Outcome, returned, raised, approve, reject,
}
use fxfill_enterprise_bankin.Graph.State.{Proposal, Resume}
use fxfill_enterprise_bankin.Graph.Loop.{AgentState, GraphEnd, Visit, run_graph}
use fxfill_enterprise_bankin.Graph.Runs.{state_of}
use fxfill_enterprise_bankin.Agent.Run.{AgentEnv, Runtime, continued}
use fxfill_enterprise_bankin.Api.{ApiState}

-- A thread that waits: its state before the tool node, the calls of the node, and the values that
-- earlier interrupts of the node were resumed with.
pub data Thread : Type 0 where
  waits : (state : AgentState) (calls : List Proposal) (given : List Resume) → Thread
  ends : GraphEnd → Thread

pub record DecideEnv : Type 0 where
  pub executor : Env
  pub agent : AgentEnv
  pub threads : String → Thread
  -- whether a stored status or an MCP error has "Already" in it
  pub mentions_already : Option String → Bool
  pub has_executor : Bool

pub data Verdict : Type 0 where
  approve_it reject_it : Verdict

-- ApprovalRequest, without the field `approver` that nothing reads.
pub record ApprovalRequest : Type 0 where
  pub session_id : String
  pub verdict : Verdict

pub record ApprovalResponse : Type 0 where
  pub session_id : String
  pub decision : Decision
  pub answer : Option String

pub data ApprovalAnswer : Type 0 where
  -- 501, 409, 500, and 500 for what is raised
  not_configured : ApprovalAnswer
  conflict failed : ApprovalError → ApprovalAnswer
  broken : ApprovalAnswer
  decided : ApprovalResponse → ApprovalAnswer

-- The stored arguments, of which the graph gets a copy.
abbrev pub approved_args : Option HitlSession → Resume
approved_args none = Resume.approved_with (some "{}")
approved_args (some s) = Resume.approved_with (some s.tool_args)

-- `resume`: the tool node starts again, and its interrupts return the values given so far.
unfoldable pub resume : DecideEnv → String → Resume → Runtime → GraphEnd × Runtime
resume env thread_id value rt = elim (env.threads thread_id) [
  | Thread.ends e ↦ (e, rt)
  | Thread.waits s calls given ↦
      let graph = env.agent.graph in
      let tools = graph.tools in
      let start = continued s rt in
      let e =
        run_graph (record graph { tools = record tools { session_id = thread_id } })
          env.agent.recursion_limit (Visit.act calls)
          (record start { node = record start.node { resumes = given ++ value ∷ [] } }) in
      (e, record rt { node = (state_of e).node })
]

-- "Already" in result.error
abbrev pub has_already : DecideEnv → ApprovalError → Bool
has_already env (ApprovalError.already s) = true
has_already env (ApprovalError.mcp_failed e) = env.mentions_already e
has_already env _ = false

abbrev pub is_reconciliation : Decision → Bool
is_reconciliation Decision.reconciliation_required = true
is_reconciliation _ = false

-- `_map_executor_result`, none where it does not raise.
unfoldable pub map_executor_result : DecideEnv → ApprovalResult → Option ApprovalAnswer
map_executor_result env r = elim r.failure [
  | none ↦ none
  | some e ↦ some (
      if is_reconciliation r.decision
      then ApprovalAnswer.conflict e
      else if has_already env e
      then ApprovalAnswer.conflict e
      else ApprovalAnswer.failed e)
]

-- final_answer or result.answer
abbrev pub answer_or : Option String → Option String → Option String
answer_or none other = other
answer_or (some a) other = if is_nonempty a then some a else other

-- A graph that suspends again returns its state, and its interrupt is not looked at.
abbrev pub resumed_answer : ApprovalResult → GraphEnd → ApprovalAnswer
resumed_answer r (GraphEnd.finished s) = ApprovalAnswer.decided (record {
  session_id = r.session_id;
  decision = r.decision;
  answer = answer_or s.final_answer r.answer;
})
resumed_answer r (GraphEnd.suspended tc s) = ApprovalAnswer.decided (record {
  session_id = r.session_id;
  decision = r.decision;
  answer = answer_or s.final_answer r.answer;
})
resumed_answer r _ = ApprovalAnswer.broken

-- The tables of the executor and the runtime have the idempotency records in common.
abbrev pub with_resumed : DecideEnv → ApprovalResult → Resume → ApiState → ApprovalAnswer × ApiState
with_resumed env r value st =
    let rt = st.runtime in
    let shared = record rt { node = record rt.node { records = st.world.records } } in
    let (e, rt') = resume env r.session_id value shared in
    (
      resumed_answer r e,
      record { world = record st.world { records = rt'.node.records }; runtime = rt' },
    )

abbrev pub unless_failed :
    DecideEnv
    → ApprovalResult
    → Resume
    → Option ApprovalAnswer
    → ApiState
    → ApprovalAnswer × ApiState
unless_failed env r value (some a) st = (a, st)
unless_failed env r value none st = with_resumed env r value st

abbrev pub after_executor :
    DecideEnv → (World → Resume) → Outcome × World → Runtime → ApprovalAnswer × ApiState
after_executor env value (raised, w) rt =
    (ApprovalAnswer.broken, record { world = w; runtime = rt })
after_executor env value (returned r, w) rt =
    unless_failed env r (value w) (map_executor_result env r) (record { world = w; runtime = rt })

abbrev pub decide : DecideEnv → String → Verdict → ApiState → ApprovalAnswer × ApiState
decide env sid Verdict.reject_it st =
    after_executor env (λ w. Resume.rejected_by_human) (reject env.executor sid st.world) st.runtime
decide env sid Verdict.approve_it st =
    after_executor env (λ w. approved_args (Hitl.get sid w.sessions))
      (approve env.executor sid st.world) st.runtime

-- `approve_endpoint`
unfoldable pub approve_endpoint : DecideEnv → ApprovalRequest → ApiState → ApprovalAnswer × ApiState
approve_endpoint env req st =
    if env.has_executor
    then decide env req.session_id req.verdict st
    else (ApprovalAnswer.not_configured, st)
