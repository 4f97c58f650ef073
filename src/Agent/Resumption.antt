-- ===== src/Agent/Resumption.antt =====
-- resume_service.py: GraphResumeService. It runs a graph of its own after an approval, which approves
-- every call, validates none and keeps no records. Of `metrics_collector` it makes no use.
use Prim.Native.String
use fxfill_enterprise_bankin.Common.{
  ℕ, String, ◌≡◌, ap, ◌∙◌, true, false, Option, none, some, List, [], ◌∷◌, contains, is_nonempty,
  if◌then◌else◌, eq_self, arith, inl, inr, Option-cases,
}
use fxfill_enterprise_bankin.Auth.{auto_approve}
use fxfill_enterprise_bankin.Hitl
use fxfill_enterprise_bankin.Hitl.{HitlSession}
use fxfill_enterprise_bankin.Approval.{Decision, ApprovalResult, value_or}
use fxfill_enterprise_bankin.Graph.State.{Sent, Content}
use fxfill_enterprise_bankin.Graph.SingleDispatch.{sends}
use fxfill_enterprise_bankin.Graph.Loop.{AgentState, GraphEnv, GraphEnd, Message, Visit, run_graph}
use fxfill_enterprise_bankin.Graph.Runs.{state_of, run_skips}

abbrev pub resumed_text : ApprovalResult → HitlSession → Option String
resumed_text r s = elim r.decision [
  | Decision.approved ↦ some (
      String.◌++◌ "Tool '" (
        String.◌++◌ s.tool_name
          (String.◌++◌ "' executed successfully.\nResult: " (value_or r.answer "done"))))
  | Decision.rejected ↦ some (
      String.◌++◌ "Tool '" (
        String.◌++◌ s.tool_name (
          String.◌++◌ "' was rejected by human operator.\nReason: "
            (value_or r.answer "Operation rejected"))))
  | _ ↦ none
]

-- The state that has the outcome of the call as its only message, on a gateway that approves all.
abbrev pub resume_state : HitlSession → String → AgentState
resume_state s text = record {
  messages =
      Message.tool (record {
        content = Content.output text;
        tool_call_id = s.tool_call_id;
        name = s.tool_name;
      })
      ∷ [];
  step_count = 0;
  final_answer = none;
  node = record {
    records = [];
    gateway = record { policy = auto_approve; audit_trail = [] };
    executed_ids = if is_nonempty s.tool_call_id then s.tool_call_id ∷ [] else [];
    results = [];
    resumes = [];
    dispatched = [];
  };
}

abbrev pub state_for : Option HitlSession → Option String → Option AgentState
state_for none text = none
state_for (some s) none = none
state_for (some s) (some text) = some (resume_state s text)

abbrev pub text_for : Option HitlSession → ApprovalResult → Option String
text_for none r = none
text_for (some s) r = resumed_text r s

unfoldable pub build_resume_state : List HitlSession → ApprovalResult → Option AgentState
build_resume_state sessions r = let s = Hitl.get r.session_id sessions in state_for s (text_for s r)

-- The last AI message that has a text.
abbrev pub last_text : List Message → Option String
last_text [] = none
last_text (m ∷ ms) =
    let later = last_text ms in
    elim later [
      | some t ↦ some t
      | none ↦ elim m [
        | Message.ai content calls ↦ if is_nonempty content then some content else none
        | _ ↦ none
      ]
    ]

abbrev pub text_of : AgentState → Option String
text_of s = elim s.final_answer [
  | none ↦ last_text s.messages
  | some a ↦ if is_nonempty a then some a else last_text s.messages
]

-- What is raised is logged.
abbrev pub answer_of_end : GraphEnd → Option String
answer_of_end (GraphEnd.finished s) = text_of s
answer_of_end (GraphEnd.suspended tc s) = text_of s
answer_of_end _ = none

-- The graph of the service: at most five steps, no registry and no idempotency store.
abbrev pub service_graph : GraphEnv → String → GraphEnv
service_graph env sid = record env {
  tools = record env.tools { registry = none; has_store = false; session_id = sid };
  max_agent_steps = 5;
}

-- `resume_and_respond`: its answer, and the calls that it sends.
unfoldable pub resume_and_respond :
    GraphEnv
    → (recursion_limit : ℕ) → (session_id : String) → AgentState
    → Option String × List Sent
resume_and_respond env limit sid s =
    let e = run_graph (service_graph env sid) limit Visit.think s in
    (answer_of_end e, (state_of e).node.dispatched)

executed_in :
    (s : HitlSession) (text : String)
    → is_nonempty s.tool_call_id ≡ true
    → contains s.tool_call_id (resume_state s text).node.executed_ids ≡ true
executed_in s text h = ground (arith, eq_self s.tool_call_id)

-- What the service sends from the state of a session has no call with the session's id.
sends_nothing :
    (env : GraphEnv) (limit : ℕ) (sid : String) (s : HitlSession) (text : String)
    → is_nonempty s.tool_call_id ≡ true
    → sends s.tool_call_id (resume_and_respond env limit sid (resume_state s text)).1 ≡ 0
unfolding resume_and_respond sends
sends_nothing env limit sid s text given =
    run_skips (service_graph env sid) s.tool_call_id given limit Visit.think (resume_state s text)
      (executed_in s text given)

built_from :
    (sessions : List HitlSession) (r : ApprovalResult) (s : HitlSession) (st : AgentState)
    → Hitl.get r.session_id sessions ≡ some s
    → build_resume_state sessions r ≡ some st
    → (text : String) × (st ≡ resume_state s text)
unfolding build_resume_state
built_from sessions r s st found built = elim (Option-cases (resumed_text r s)) [
  | inl e ↦ absurd (ground arith)
  | inr (text, e) ↦ (text, ground arith)
]

-- The service never repeats the call that was decided: for every session with a tool call id, and
-- every result for which it builds a state, the calls that it then sends, whatever the language model
-- proposes and however long the graph runs, have none with the id of that call.
pub decided_call_is_not_repeated :
    (env : GraphEnv) (limit : ℕ) (sessions : List HitlSession) (r : ApprovalResult)
    (s : HitlSession) (st : AgentState)
    → Hitl.get r.session_id sessions ≡ some s
    → is_nonempty s.tool_call_id ≡ true
    → build_resume_state sessions r ≡ some st
    → sends s.tool_call_id (resume_and_respond env limit r.session_id st).1 ≡ 0
decided_call_is_not_repeated env limit sessions r s st found given built =
    let (text, e) = built_from sessions r s st found built in
    ap (λ (m : AgentState). sends s.tool_call_id (resume_and_respond env limit r.session_id m).1) e
    ∙ sends_nothing env limit r.session_id s text given
