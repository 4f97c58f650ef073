-- ===== src/Api/Transfers.antt =====
-- What the agent endpoint of api.py stores for a message that agent.py takes for a transfer.
use fxfill_enterprise_bankin.Common.{
  String, ◌≡◌, refl, ap, ◌∙◌, Bool, true, false, Option, none, some, ◌||◌, ◌==◌, ltb, inl, inr,
  Bool-cases, arith,
}
use fxfill_enterprise_bankin.Iam.{Context}
use fxfill_enterprise_bankin.Auth.{ApprovalDecision}
use fxfill_enterprise_bankin.Routing.{IntentResult, RouteKind, route}
use fxfill_enterprise_bankin.Graph.Loop.{GraphEnd, Reply}
use fxfill_enterprise_bankin.Approval.State.{World}
use fxfill_enterprise_bankin.Agent.Run.{
  AgentEnv, Runtime, RunEnd, transfer_end, after_reply, execute_transfer_workflow, run_route,
  run_agent, run_classified,
}
use fxfill_enterprise_bankin.Api.{
  ApiEnv, ApiState, AgentRequest, Response, respond, run_request, agent_for, by_gateway,
  agent_endpoint,
}

abbrev pub is_interrupt : RunEnd → Bool
is_interrupt (RunEnd.interrupted tc s) = true
is_interrupt _ = false

abbrev pub is_waiting : Response → Bool
is_waiting (Response.requires_approval sid) = true
is_waiting _ = false

end_of_transfer : (e : GraphEnd) → is_interrupt (transfer_end e) ≡ false
end_of_transfer e = ground arith

transfer_run :
    (env : AgentEnv) (message : String) (rt : Runtime)
    → is_interrupt (execute_transfer_workflow env message rt).0 ≡ false
unfolding execute_transfer_workflow
transfer_run env message rt = go (env.transfer message)
  where
    go : (o : Option Reply) → is_interrupt (after_reply env message o rt).0 ≡ false
    go none = refl
    go (some r) = end_of_transfer _

-- The endpoint stores nothing for a run that is not interrupted.
respond_keeps :
    (env : ApiEnv) (req : AgentRequest) (ctx : Context) (e : RunEnd) (w : World)
    → is_interrupt e ≡ false
    → (is_waiting (respond env req ctx e w).0 ≡ false) × ((respond env req ctx e w).1 ≡ w)
respond_keeps env req ctx e w h = ground arith

-- No session waits, and the tables of the sessions and grants are as before.
abbrev Keeps : ApiState → Response × ApiState → Type 0
Keeps st (a, st') =
    (is_waiting a ≡ false)
    × (st'.world.sessions ≡ st.world.sessions)
    × (st'.world.grants ≡ st.world.grants)

module _ (env : ApiEnv) (req : AgentRequest) (ctx : Context) (classify : String → IntentResult)
    (routed : env.agent.classify ≡ some classify)
    (k : (route (classify req.message)).kind ≡ RouteKind.transfer_state_machine) where
  run_ends :
      (rt : Runtime)
      → is_interrupt (run_agent (agent_for env req) req.message (some ctx) none rt).0 ≡ false
  unfolding run_agent run_route
  run_ends rt =
      ap (λ c. is_interrupt (run_classified (agent_for env req) c req.message (some ctx) none rt).0)
        routed
      ∙ rw (k, run_route) (transfer_run (agent_for env req) req.message rt)

  request-Keeps : (st : ApiState) → Keeps st (run_request env req ctx st)
  unfolding run_request
  request-Keeps st =
      let rt = st.runtime in
      let shared = record rt { node = record rt.node { records = st.world.records } } in
      let (e, rt') = run_agent (agent_for env req) req.message (some ctx) none shared in
      let (a, w) =
        respond_keeps env req ctx e (record st.world { records = rt'.node.records })
          (run_ends shared) in
      (a, ap (λ (u : World). u.sessions) w, ap (λ (u : World). u.grants) w)

  gateway-Keeps : (d : ApprovalDecision) (st : ApiState) → Keeps st (by_gateway env req ctx d st)
  gateway-Keeps ApprovalDecision.denied st = (refl, refl, refl)
  gateway-Keeps ApprovalDecision.pending st = (refl, refl, refl)
  gateway-Keeps ApprovalDecision.approved st = elim (Bool-cases (ltb 10000 (env.len req.message))) [
    | inl long ↦ rw long (refl, refl, refl)
    | inr e ↦ rw e (request-Keeps st)
  ]

-- No approval is ever asked for on the route of transfers: whatever the language model proposes and
-- however the graph ends, also where it stops to ask a human about the transfer, a request whose
-- message the router takes for a transfer is not answered with a session that waits for approval, and
-- the endpoint stores neither a session nor a grant.
pub transfer_stores_no_approval :
    (env : ApiEnv) (req : AgentRequest) (ctx : Context) (st : ApiState)
    (classify : String → IntentResult)
    → env.agent.classify ≡ some classify
    → (route (classify req.message)).kind ≡ RouteKind.transfer_state_machine
    → let (a, st') = agent_endpoint env req ctx st in
      (is_waiting a ≡ false)
      × (st'.world.sessions ≡ st.world.sessions)
      × (st'.world.grants ≡ st.world.grants)
unfolding agent_endpoint
transfer_stores_no_approval env req ctx st classify routed k =
    let unknown = ctx.subject_id == "anonymous" || ctx.subject_id == "" in
    elim (Bool-cases unknown) [
      | inl e ↦ rw e (refl, refl, refl)
      | inr e ↦ rw e (gateway-Keeps env req ctx classify routed k _ _)
    ]
