-- ===== src/Api/Verdicts.antt =====
-- What `approve_endpoint` of api.py answers, and when it resumes the graph.
use fxfill_enterprise_bankin.Common.{
  String, ◌≡◌, refl, ap, ◌∙◌, Bool, true, false, Option, none, some, is_nonempty, if◌then◌else◌,
  arith, inl, inr, Option-cases,
}
use fxfill_enterprise_bankin.Hitl
use fxfill_enterprise_bankin.Hitl.{HitlSession, HitlSessionStatus, is_terminal}
use fxfill_enterprise_bankin.Approval
use fxfill_enterprise_bankin.Approval.{
  World, Env, Decision, ApprovalError, ApprovalResult, Outcome, returned, raised, approve, reject,
  approved,
}
use fxfill_enterprise_bankin.Approval.Outcomes.{is_approval}
use fxfill_enterprise_bankin.Graph.State.{Proposal, Resume}
use fxfill_enterprise_bankin.Graph.Loop.{AgentState, GraphEnd}
use fxfill_enterprise_bankin.Agent.Run.{Runtime}
use fxfill_enterprise_bankin.Api.{ApiState}
use fxfill_enterprise_bankin.Api.Decide.{
  DecideEnv, Verdict, ApprovalRequest, ApprovalAnswer, approve_endpoint, map_executor_result,
  approved_args, with_resumed, resume, after_executor,
}

-- A session that is approved, rejected, expired, failed or under reconciliation cannot be decided: the
-- endpoint answers 409 with its status, leaves the tables and the trace of calls as they are, and
-- does not resume the graph, whatever the verdict.
pub decided_session_conflicts :
    (env : DecideEnv) (req : ApprovalRequest) (s : HitlSession) (st : ApiState)
    → env.has_executor ≡ true
    → Hitl.get req.session_id st.world.sessions ≡ some s
    → is_terminal s.status ≡ true
    → approve_endpoint env req st ≡ (ApprovalAnswer.conflict (ApprovalError.already s.status), st)
unfolding approve_endpoint approve reject Approval.approve_session map_executor_result
decided_session_conflicts env req s st on found ended = ground arith

-- The executor returned without an error, so the endpoint goes on.
abbrev passes : Outcome → Bool
passes raised = false
passes (returned r) = elim r.failure [ none ↦ true | some e ↦ false ]

passes-approve :
    (env : Env) (sid : String) (w : World)
    → passes (approve env sid w).0 ≡ is_approval (approve env sid w).0
unfolding approve Approval.approve_session Approval.approve_as Approval.claim
    Approval.check_idempotency Approval.deny_replay Approval.dispatch
    Approval.require_reconciliation Approval.reserve_and_dispatch
passes-approve env sid w = ground arith

-- The call returned a rejection.
abbrev pub is_rejection : Outcome → Bool
is_rejection raised = false
is_rejection (returned r) = elim r.decision [ Decision.rejected ↦ true | _ ↦ false ]

passes-reject :
    (env : Env) (sid : String) (w : World)
    → passes (reject env sid w).0 ≡ is_rejection (reject env sid w).0
unfolding reject Approval.reject_session
passes-reject env sid w = ground arith

-- What the executor does for a verdict, and whether it reports to have carried it out.
abbrev pub executed : Env → String → Verdict → World → Outcome × World
executed env sid Verdict.approve_it w = approve env sid w
executed env sid Verdict.reject_it w = reject env sid w

abbrev pub carries_out : Verdict → Outcome → Bool
carries_out Verdict.approve_it o = is_approval o
carries_out Verdict.reject_it o = is_rejection o

passes-executed :
    (env : Env) (sid : String) (v : Verdict) (w : World)
    → passes (executed env sid v w).0 ≡ carries_out v (executed env sid v w).0
passes-executed env sid Verdict.approve_it w = passes-approve env sid w
passes-executed env sid Verdict.reject_it w = passes-reject env sid w

abbrev pub is_decided : ApprovalAnswer → Bool
is_decided (ApprovalAnswer.decided r) = true
is_decided _ = false

abbrev pub asks_approval : String → ApprovalRequest
asks_approval sid = record { session_id = sid; verdict = Verdict.approve_it }

-- Only a verdict that the executor carried out is reported and resumed, be it an approval or a
-- rejection: where an executor is configured, and does not report an approval for a request to
-- approve, or does not report a rejection for a request to reject, the endpoint does not answer with
-- a decision, the tables are those that the executor left, and the graph is not resumed.
pub unconfirmed_is_not_resumed :
    (env : DecideEnv) (req : ApprovalRequest) (st : ApiState)
    → env.has_executor ≡ true
    → let (o, w) = executed env.executor req.session_id req.verdict st.world in
      carries_out req.verdict o ≡ false
      → let (a, st') = approve_endpoint env req st in
        (is_decided a ≡ false) × (st' ≡ record { world = w; runtime = st.runtime })
unfolding approve_endpoint map_executor_result
unconfirmed_is_not_resumed env req st on h =
    ground (arith, passes-executed env.executor req.session_id req.verdict st.world)

same_sid :
    (env : Env) (sid : String) (w : World) (r : ApprovalResult)
    → (approve env sid w).0 ≡ returned r
    → r.session_id ≡ sid
unfolding approve Approval.approve_session Approval.approve_as Approval.claim
    Approval.check_idempotency Approval.deny_replay Approval.dispatch
    Approval.require_reconciliation Approval.reserve_and_dispatch
same_sid env sid w r h = ground arith

-- A runtime on the tables that the executor left.
abbrev pub shared_with : World → Runtime → Runtime
shared_with w rt = record rt { node = record rt.node { records = w.records } }

abbrev pub answer_in : Outcome → Option String
answer_in raised = none
answer_in (returned r) = r.answer

-- The approval of a session, with the answer of the graph or, where that is missing or empty, the
-- answer of the tool.
abbrev pub approval_with : String → Option String → Option String → ApprovalAnswer
approval_with sid final tool = ApprovalAnswer.decided (record {
  session_id = sid;
  decision = Decision.approved;
  answer = elim final [ none ↦ tool | some a ↦ if is_nonempty a then some a else tool ];
})

module _ (env : DecideEnv) (sid : String) (tc : Proposal) (s : AgentState) where
  -- The answer is the approval, and the tables of the sessions and grants stay.
  abbrev Dropped : Option String → World → ApprovalAnswer × ApiState → Type 0
  Dropped tool w (a, st) =
      (a ≡ approval_with sid s.final_answer tool)
      × (st.world.sessions ≡ w.sessions)
      × (st.world.grants ≡ w.grants)

  resumed-Dropped :
      (value : Resume) (r : ApprovalResult) (w : World) (rt rt' : Runtime)
      → r.session_id ≡ sid
      → r.decision ≡ approved
      → resume env sid value (shared_with w rt) ≡ (GraphEnd.suspended tc s, rt')
      → Dropped r.answer w (with_resumed env r value (record { world = w; runtime = rt }))
  resumed-Dropped value r w rt rt' same done e =
      let again = ap (λ (k : String). resume env k value (shared_with w rt)) same ∙ e in
      rw again (ground (arith), refl, refl)

  executor-Dropped :
      (value : World → Resume) (o : Outcome) (w : World) (rt rt' : Runtime)
      → passes o ≡ true
      → is_approval o ≡ true
      → ((r : ApprovalResult) → o ≡ returned r → r.session_id ≡ sid)
      → resume env sid (value w) (shared_with w rt) ≡ (GraphEnd.suspended tc s, rt')
      → Dropped (answer_in o) w (after_executor env value (o, w) rt)
  unfolding map_executor_result
  executor-Dropped value raised w rt rt' h done same e = absurd (cc)
  executor-Dropped value (returned r) w rt rt' h done same e = elim (Option-cases r.failure) [
    | inl none_failed ↦
        rw none_failed (resumed-Dropped (value w) r w rt rt' (same r refl) (ground (arith)) e)
    | inr (f, failed) ↦ absurd (ground arith)
  ]

-- A second approval is never asked for: where an executor is configured and reports an approval for
-- a request to approve a session, and the resumed graph stops at a further call that needs one, the
-- endpoint answers with the approval of that session, with the answer of the graph's state or, where
-- that is missing or empty, of the tool, and it stores neither a session nor a grant for the further
-- call.
pub second_interrupt_is_dropped :
    (env : DecideEnv) (sid : String) (st : ApiState) (tc : Proposal) (s : AgentState) (rt : Runtime)
    → env.has_executor ≡ true
    → let (o, w) = approve env.executor sid st.world in
      is_approval o ≡ true
      → resume env sid (approved_args (Hitl.get sid w.sessions)) (shared_with w st.runtime)
        ≡ (GraphEnd.suspended tc s, rt)
      → let (a, st') = approve_endpoint env (asks_approval sid) st in
        (a ≡ approval_with sid s.final_answer (answer_in o))
        × (st'.world.sessions ≡ w.sessions)
        × (st'.world.grants ≡ w.grants)
unfolding approve_endpoint resume map_executor_result
second_interrupt_is_dropped env sid st tc s rt on h e = rw on (
    executor-Dropped env sid tc s (λ w. approved_args (Hitl.get sid w.sessions))
      (approve env.executor sid st.world).0 (approve env.executor sid st.world).1 st.runtime rt
      (passes-approve env.executor sid st.world ∙ h) h (same_sid env.executor sid st.world) e)
