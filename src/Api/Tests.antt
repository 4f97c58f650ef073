-- ===== src/Api/Tests.antt =====
-- A transfer that waits for approval, is stored, approved, and handled again by the resumed graph.
use fxfill_enterprise_bankin.Common.{◌≤◌, ◌≡◌, arith, refl, true, false, none, some, [], ◌∷◌}
use fxfill_enterprise_bankin.Sql
use fxfill_enterprise_bankin.Auth.{require_approval, gateway_authorize, authorize}
use fxfill_enterprise_bankin.Hitl
use fxfill_enterprise_bankin.Grants
use fxfill_enterprise_bankin.Grants.{GrantRecord}
use fxfill_enterprise_bankin.Hitl.{HitlSession, HitlSessionStatus, is_terminal, is_expired}
use fxfill_enterprise_bankin.Idempotency
use fxfill_enterprise_bankin.Approval
use fxfill_enterprise_bankin.Approval.{World, Env, approve, reject}
use fxfill_enterprise_bankin.Approval.Completion.{with_call}
use fxfill_enterprise_bankin.Approval.Outcomes.{is_approval}
use fxfill_enterprise_bankin.Graph.{
  Proposal, Resume, Node, NodeEnv, node_of, tool_call, operation_kind,
}
use fxfill_enterprise_bankin.Graph.Authorized.{sent_with, validated}
use fxfill_enterprise_bankin.Api.{
  ApiEnv, Response, Interrupt, session_for, grant_for, store_session, store_grant, store_interrupt,
}
use fxfill_enterprise_bankin.Api.Approved.{
  CanApprove, Stored, stored-IsApprovable, approved_interrupt_is_sent,
}
use fxfill_enterprise_bankin.Api.Twice.{approved_call_is_sent_twice}
use fxfill_enterprise_bankin.Graph.Loop.{AgentState, GraphEnd}
use fxfill_enterprise_bankin.Graph.Runs.{state_of}
use fxfill_enterprise_bankin.Agent.Run.{Runtime}
use fxfill_enterprise_bankin.Api.{ApiState}
use fxfill_enterprise_bankin.Api.Decide.{
  DecideEnv, Thread, Verdict, ApprovalRequest, approve_endpoint, resume, approved_args,
}
use fxfill_enterprise_bankin.Api.Verdicts.{
  unconfirmed_is_not_resumed, approval_with, answer_in, second_interrupt_is_dropped, is_decided,
  shared_with, asks_approval,
}
use fxfill_enterprise_bankin.Api.RateLimit.{Limits, Hit, passed, in_window}
use fxfill_enterprise_bankin.Api.RateLimit.Window.{passed_in_window_bound}
use fxfill_enterprise_bankin.Routing.{IntentResult, Intent, IntentConfidence, RouteKind, route}
use fxfill_enterprise_bankin.Graph.Loop.{Message, Visit, run_graph, agent_node, act_on}
use fxfill_enterprise_bankin.Api.{AgentRequest, agent_endpoint}
use fxfill_enterprise_bankin.Api.Transfers.{is_waiting, transfer_stores_no_approval}
use fxfill_enterprise_bankin.Api.Samples.{
  transfer, tools, api, asked, empty, waiting, bob, other, to_transfer, transfer_api, pay, alice,
  hit_at, hits, two_a_minute,
}

stores : store_interrupt api none "alice" asked empty ≡ (Response.requires_approval "s1", waiting)
unfolding store_interrupt store_session store_grant session_for grant_for Hitl.insert
    Grants.insert_pending Sql.insert
stores = refl

abbrev can_approve : CanApprove api bob "s1" "bob" "{draft: 7}" asked empty
unfolding Idempotency.get Sql.find
can_approve = record {
  sessions = tt;
  grants = tt;
  digest = refl;
  tool_call = refl;
  who = refl;
  unused = refl;
  readable = refl;
}

approved_interrupt_is_sent_example :
    (approve bob "s1" waiting).1.dispatched ≡ with_call "s1" "submit_transfer" "{draft: 7}" []
approved_interrupt_is_sent_example =
    approved_interrupt_is_sent api bob none "alice" "s1" "bob" "{draft: 7}" asked empty waiting refl
      refl stores can_approve

abbrev stored : Stored api "s1" "alice" asked empty waiting
unfolding session_for grant_for Hitl.insert Grants.insert_pending Sql.insert
stored = record {
  sessions = session_for api "s1" "alice" asked ∷ [];
  grants = grant_for api "s1" "alice" asked ∷ [];
  session_in = refl;
  grant_in = refl;
  result = refl;
}

is_approved : is_approval (approve bob "s1" waiting).0 ≡ true
unfolding approve session_for grant_for Hitl.get Hitl.update_status Sql.find Sql.first Sql.update
    Sql.update_all Sql.insert Sql.insert_or_ignore Sql.rowcount Sql.rowcount_all is_terminal
    is_expired Approval.approve_session Approval.approve_as Approval.claim
    Approval.check_idempotency Approval.deny_replay Approval.dispatch Approval.idem_key
    Approval.require_reconciliation Approval.reserve_and_dispatch Approval.persist_event
    Grants.approve_pending Grants.atomic_consume Grants.claims Grants.mark_consumed
    Grants.mark_failed Grants.mark_reconciliation_required Grants.mark_unknown Idempotency.get
    Idempotency.mark_failed Idempotency.mark_succeeded Idempotency.mark_unknown Idempotency.reserve
is_approved = refl

abbrev resumed : Node
resumed = record {
  executed_ids = [];
  gateway = record { policy = require_approval; audit_trail = [] };
  resumes = Resume.approved_with (some "{draft: 7}") ∷ [];
  results = [];
  dispatched = [];
  records = (approve bob "s1" waiting).1.records;
}

approved_call_is_sent_twice_example :
    ((approve bob "s1" waiting).1.dispatched ≡ with_call "s1" "submit_transfer" "{draft: 7}" [])
    × ((node_of (tool_call tools transfer resumed)).dispatched
        ≡ sent_with transfer "{draft: 7}" resumed)
unfolding session_for grant_for Approval.idem_key fxfill_enterprise_bankin.Graph.idem_key validated
    operation_kind gateway_authorize authorize
    fxfill_enterprise_bankin.Graph.State.classify_tool_kind
approved_call_is_sent_twice_example =
    approved_call_is_sent_twice bob "s1" "bob" "{draft: 7}" (session_for api "s1" "alice" asked)
      (Grants.as_pending (grant_for api "s1" "alice" asked)) waiting tools transfer resumed
      "{draft: 7}" []
      (stored-IsApprovable api bob "s1" "alice" "bob" "{draft: 7}" asked empty waiting stored
        can_approve)
      is_approved refl refl refl refl refl refl refl

abbrev before_tools : AgentState
before_tools = record {
  messages = [];
  step_count = 1;
  final_answer = none;
  node = record resumed { resumes = []; records = [] };
}

abbrev runtime : Runtime
runtime = record { node = before_tools.node; direct_sent = []; planned_sent = [] }

abbrev decide_env : DecideEnv
decide_env = record {
  executor = bob;
  agent = api.agent;
  threads = λ t. Thread.waits before_tools (transfer ∷ other ∷ []) [];
  mentions_already = λ e. false;
  has_executor = true;
}

abbrev st : ApiState
st = record { world = waiting; runtime = runtime }

abbrev executed : World
executed = (approve bob "s1" waiting).1

abbrev again : GraphEnd × Runtime
again =
    resume decide_env "s1" (approved_args (Hitl.get "s1" executed.sessions))
      (shared_with executed runtime)

stops_again : again ≡ (GraphEnd.suspended other (state_of again.0), again.1)
unfolding resume approve session_for grant_for Hitl.get Hitl.update_status Sql.find Sql.first
    Sql.update Sql.update_all Sql.insert Sql.insert_or_ignore Sql.rowcount Sql.rowcount_all
    is_terminal is_expired Approval.approve_session Approval.approve_as Approval.claim
    Approval.check_idempotency Approval.deny_replay Approval.dispatch Approval.idem_key
    Approval.require_reconciliation Approval.reserve_and_dispatch Approval.persist_event
    Grants.approve_pending Grants.atomic_consume Grants.claims Grants.mark_consumed
    Grants.mark_failed Grants.mark_reconciliation_required Grants.mark_unknown Idempotency.get
    Idempotency.mark_failed Idempotency.mark_succeeded Idempotency.mark_unknown Idempotency.reserve
    run_graph act_on tool_call fxfill_enterprise_bankin.Graph.tool_node
    fxfill_enterprise_bankin.Graph.skip_executed fxfill_enterprise_bankin.Graph.authorize_call
    gateway_authorize authorize operation_kind
    fxfill_enterprise_bankin.Graph.State.classify_tool_kind fxfill_enterprise_bankin.Graph.execute
    fxfill_enterprise_bankin.Graph.idem_key fxfill_enterprise_bankin.Graph.run
stops_again = refl

second_interrupt_is_dropped_example :
    let (a, st') = approve_endpoint decide_env (asks_approval "s1") st in
    (a
      ≡ approval_with "s1" (state_of again.0).final_answer (answer_in (approve bob "s1" waiting).0))
    × (st'.world.sessions ≡ executed.sessions)
    × (st'.world.grants ≡ executed.grants)
second_interrupt_is_dropped_example =
    second_interrupt_is_dropped decide_env "s1" st other (state_of again.0) again.1 refl is_approved
      stops_again

abbrev rejects : ApprovalRequest
rejects = record { session_id = "s2"; verdict = Verdict.reject_it }

unconfirmed_is_not_resumed_example :
    let (a, st') = approve_endpoint decide_env rejects st in
    (is_decided a ≡ false)
    × (st' ≡ record { world = (reject bob "s2" waiting).1; runtime = runtime })
unfolding reject Hitl.get Sql.find session_for
unconfirmed_is_not_resumed_example = unconfirmed_is_not_resumed decide_env rejects st refl refl

abbrev fresh : ApiState
fresh = record { world = empty; runtime = runtime }

is_transfer : (route to_transfer).kind ≡ RouteKind.transfer_state_machine
unfolding route fxfill_enterprise_bankin.Routing.route_kind
is_transfer = refl

abbrev started : AgentState
started = record {
  messages = Message.human "pay" ∷ Message.ai "" (transfer ∷ []) ∷ [];
  step_count = 1;
  final_answer = none;
  node = runtime.node;
}

abbrev stopped : GraphEnd
stopped = run_graph transfer_api.agent.graph 25 Visit.think started

waits_for_human : stopped ≡ GraphEnd.suspended transfer (state_of stopped)
unfolding run_graph agent_node act_on tool_call fxfill_enterprise_bankin.Graph.tool_node
    fxfill_enterprise_bankin.Graph.skip_executed fxfill_enterprise_bankin.Graph.authorize_call
    gateway_authorize authorize operation_kind
    fxfill_enterprise_bankin.Graph.State.classify_tool_kind
waits_for_human = refl

-- The graph stops at the transfer, for which nothing is stored.
transfer_stores_no_approval_example :
    let (a, st') = agent_endpoint transfer_api pay alice fresh in
    (is_waiting a ≡ false) × (st'.world.sessions ≡ []) × (st'.world.grants ≡ [])
transfer_stores_no_approval_example =
    transfer_stores_no_approval transfer_api pay alice fresh (λ m. to_transfer) refl is_transfer

passes_some : passed two_a_minute hits [] ≡ hit_at 1 ∷ hit_at 2 ∷ hit_at 61 ∷ hit_at 62 ∷ []
unfolding passed fxfill_enterprise_bankin.Api.RateLimit.dispatch
    fxfill_enterprise_bankin.Api.RateLimit.recent fxfill_enterprise_bankin.Dict.lookup
    fxfill_enterprise_bankin.Dict.assign fxfill_enterprise_bankin.Api.RateLimit.counter_key
passes_some = refl

passed_in_window_bound_example : in_window 60 "bank:/agent" 2 (passed two_a_minute hits []) ≤ 2
passed_in_window_bound_example =
    passed_in_window_bound two_a_minute "bank:/agent" 2 hits
      (omega arith, (omega arith, (omega arith, (omega arith, (omega arith, tt)))))
