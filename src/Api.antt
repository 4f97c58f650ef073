-- ===== src/Api.antt =====
-- api.py: the agent endpoint. It authorizes the request, runs the agent, and stores a session and a
-- grant for an interrupt. The identity comes from the middleware, the length of a text is Python's
-- `len`, and the idempotency table is the one of the approval workflow.
pub mod Approved
pub mod Decide
pub mod Verdicts
pub mod RateLimit
pub mod Transfers
pub mod Twice
mod Samples
mod Tests
use Prim.Native.String
use fxfill_enterprise_bankin.Common.{
  ℕ, String, Bool, true, false, not, ◌||◌, Option, none, some, List, [], ◌==◌, ltb, is_nonempty,
  if◌then◌else◌,
}
use fxfill_enterprise_bankin.Auth.{ApprovalDecision, OperationKind, Operation, gateway_authorize}
use fxfill_enterprise_bankin.Iam.{Context}
use fxfill_enterprise_bankin.Hitl
use fxfill_enterprise_bankin.Hitl.{HitlSession, HitlSessionStatus}
use fxfill_enterprise_bankin.Grants
use fxfill_enterprise_bankin.Grants.{GrantRecord, GrantStatus}
use fxfill_enterprise_bankin.Approval.State.{World}
use fxfill_enterprise_bankin.Graph.State.{Proposal, Node}
use fxfill_enterprise_bankin.Agent.Direct.{DirectEnd}
use fxfill_enterprise_bankin.Agent.Run.{AgentEnv, Runtime, RunEnd, run_agent}
use fxfill_enterprise_bankin.Orchestration.Planner.{Answer}

pub record AgentRequest : Type 0 where
  pub message : String
  pub session_id : Option String

pub data Response : Type 0 where
  -- 401, 403, 401, 422 and 500
  unauthenticated denied needs_approval too_long execution_failed : Response
  -- 202, and the session that waits for approval
  requires_approval : (session_id : String) → Response
  complete : RunEnd → Response

pub record ApiEnv : Type 0 where
  pub agent : AgentEnv
  pub sha256 : String → String
  pub len : String → ℕ
  pub now : ℕ
  -- the uuid that names a run without a session
  pub fresh_id : String
  -- whether the stores are configured
  pub has_sessions : Bool
  pub has_grants : Bool

-- The value that the graph interrupts with.
pub record Interrupt : Type 0 where
  pub session_id : String
  pub call : Proposal

abbrev pub interrupt_key : Interrupt → String
interrupt_key i = String.◌++◌ i.session_id (String.◌++◌ ":" i.call.id)

-- payload.session_id or interrupt_info["session_id"]
abbrev pub session_or : Option String → Interrupt → String
session_or none i = i.session_id
session_or (some s) i = if is_nonempty s then s else i.session_id

unfoldable pub session_for : ApiEnv → String → String → Interrupt → HitlSession
session_for env sid subject i = record {
  session_id = sid;
  user_id = subject;
  thread_id = i.session_id;
  status = HitlSessionStatus.pending;
  tool_name = i.call.name;
  tool_args = i.call.args;
  authorization_decision = some "PENDING";
  approval_requirement = some "required";
  idempotency_key = some (interrupt_key i);
  version = 1;
  created_at = env.now;
  updated_at = env.now;
  expires_at = none;
  tool_call_id = i.call.id;
}

unfoldable pub grant_for : ApiEnv → String → String → Interrupt → GrantRecord
grant_for env sid subject i = record {
  session_id = sid;
  requesting_user_id = subject;
  approving_actor_id = "";
  thread_id = i.session_id;
  run_id = some sid;
  checkpoint_id = some "";
  tool_call_id = i.call.id;
  tool_name = i.call.name;
  canonical_tool_args = i.call.args;
  argument_digest = env.sha256 i.call.args;
  idempotency_key = interrupt_key i;
  decision = "PENDING";
  status = GrantStatus.pending;
  created_at = env.now;
  approved_at = none;
  expires_at = none;
  consuming_at = none;
  consumed_at = none;
  failed_at = none;
  version = 1;
}

-- An insert that fails raises out of the endpoint.
abbrev pub with_sessions : World → Option (List HitlSession) → Option World
with_sessions w none = none
with_sessions w (some rows) = some (record w { sessions = rows })

abbrev pub with_grants : World → Option (List GrantRecord) → Option World
with_grants w none = none
with_grants w (some rows) = some (record w { grants = rows })

unfoldable pub store_session : ApiEnv → HitlSession → World → Option World
store_session env s w =
    if env.has_sessions then with_sessions w (Hitl.insert s w.sessions) else some w

unfoldable pub store_grant : ApiEnv → GrantRecord → World → Option World
store_grant env g w =
    if env.has_grants then with_grants w (Grants.insert_pending g w.grants) else some w

abbrev pub after_session : ApiEnv → GrantRecord → World → Option World → Response × World
after_session env g w none = (Response.execution_failed, w)
after_session env g w (some w') = elim (store_grant env g w') [
  | none ↦ (Response.execution_failed, w')
  | some w'' ↦ (Response.requires_approval g.session_id, w'')
]

-- The end of the endpoint for an interrupt.
unfoldable pub store_interrupt :
    ApiEnv → Option String → (subject : String) → Interrupt → World → Response × World
store_interrupt env payload_session subject i w =
    let sid = session_or payload_session i in
    after_session env (grant_for env sid subject i) w
      (store_session env (session_for env sid subject i) w)

abbrev pub direct_raises : DirectEnd → Bool
direct_raises DirectEnd.type_error = true
direct_raises DirectEnd.mcp_raised = true
direct_raises _ = false

abbrev pub plan_raises : Answer → Bool
plan_raises Answer.raises = true
plan_raises _ = false

-- run_id or str(uuid.uuid4())
abbrev pub run_id_for : ApiEnv → AgentRequest → String
run_id_for env req = elim req.session_id [
  | none ↦ env.fresh_id
  | some s ↦ if is_nonempty s then s else env.fresh_id
]

-- The agent with the graph's session set to the run.
abbrev pub agent_for : ApiEnv → AgentRequest → AgentEnv
agent_for env req =
    let a = env.agent in
    let g = a.graph in
    record a { graph = record g { tools = record g.tools { session_id = run_id_for env req } } }

-- The endpoint's answer to the end of a run.
abbrev pub respond : ApiEnv → AgentRequest → Context → RunEnd → World → Response × World
respond env req ctx (RunEnd.interrupted tc s) w =
    store_interrupt env req.session_id ctx.subject_id
      (record { session_id = run_id_for env req; call = tc }) w
respond env req ctx (RunEnd.graph_raised e) w = (Response.execution_failed, w)
respond env req ctx RunEnd.llm_raised w = (Response.execution_failed, w)
respond env req ctx (RunEnd.direct e) w =
    (if direct_raises e then Response.execution_failed else Response.complete (RunEnd.direct e), w)
respond env req ctx (RunEnd.planned a) w =
    (if plan_raises a then Response.execution_failed else Response.complete (RunEnd.planned a), w)
respond env req ctx e w = (Response.complete e, w)

pub record ApiState : Type 0 where
  pub world : World
  pub runtime : Runtime

unfoldable pub run_request : ApiEnv → AgentRequest → Context → ApiState → Response × ApiState
run_request env req ctx st =
    let rt = st.runtime in
    let shared = record rt { node = record rt.node { records = st.world.records } } in
    let (e, rt') = run_agent (agent_for env req) req.message (some ctx) none shared in
    let (answer, w') = respond env req ctx e (record st.world { records = rt'.node.records }) in
    (answer, record { world = w'; runtime = rt' })

abbrev pub request_operation : AgentRequest → Operation
request_operation req = record {
  kind = OperationKind.read;
  name = "agent_request";
  target = elim req.session_id [
    | none ↦ "session:new"
    | some s ↦ if is_nonempty s then String.◌++◌ "session:" s else "session:new"
  ];
  details = record {
    args = "{}";
    session_id = "";
    user_id = "";
    thread_id = "";
    idempotency_key = "";
  };
}

abbrev pub by_gateway :
    ApiEnv → AgentRequest → Context → ApprovalDecision → ApiState → Response × ApiState
by_gateway env req ctx ApprovalDecision.denied st = (Response.denied, st)
by_gateway env req ctx ApprovalDecision.pending st = (Response.needs_approval, st)
by_gateway env req ctx ApprovalDecision.approved st =
    if ltb 10000 (env.len req.message) then (Response.too_long, st) else run_request env req ctx st

-- `agent_endpoint`
unfoldable pub agent_endpoint : ApiEnv → AgentRequest → Context → ApiState → Response × ApiState
agent_endpoint env req ctx st =
    if ctx.subject_id == "anonymous" || ctx.subject_id == ""
    then (Response.unauthenticated, st)
    else (let (d, gateway') =
          gateway_authorize env.now (request_operation req) st.runtime.node.gateway in
        let rt = st.runtime in
        by_gateway env req ctx d.decision
          (record st { runtime = record rt { node = record rt.node { gateway = gateway' } } }))
