-- ===== src/Graph/Runs.antt =====
-- Whole runs of the graph of graph.py: that they end, and what they send.
use fxfill_enterprise_bankin.Common.{
  ℕ, zero, suc, ◌+◌, ◌-◌, ◌*◌, ◌≤◌, String, ◌≡◌, refl, ap, ◌∙◌, Bool, true, false, Option, none,
  some, List, [], ◌∷◌, leb, if◌then◌else◌, arith, contains, is_nonempty, inl, inr, Bool-cases,
}
use fxfill_enterprise_bankin.Graph.State.{Proposal, Node, Progress, node_of}
use fxfill_enterprise_bankin.Graph.{tool_node, tool_call, and_then}
use fxfill_enterprise_bankin.Graph.SingleDispatch.{
  sends, goes_on, Effects, tool_call-Effects, node_skips, sends_once_per_id,
}
use fxfill_enterprise_bankin.Graph.Loop.{
  AgentState, Reply, GraphEnv, GraphEnd, Visit, after_llm, route_reply, with_reply, agent_node,
  after_tools, with_node, act_on, run_graph,
}

abbrev pub is_limit : GraphEnd → Bool
is_limit (GraphEnd.recursion_limit s) = true
is_limit _ = false

-- The visits that a state needs at most: two for each step left, and the one that finds none left.
abbrev pub visits_left : GraphEnv → AgentState → ℕ
visits_left env s = 2 * (env.max_agent_steps - s.step_count) + 1

module _ (env : GraphEnv) where
  tools_end :
      (p : Progress) (s : AgentState) (go : Visit → AgentState → GraphEnd)
      → ((n : Node) → is_limit (go Visit.think (with_node n s)) ≡ false)
      → is_limit (after_tools p s go) ≡ false
  tools_end (Progress.continues n) s go h = h n
  tools_end (Progress.suspends tc n) s go h = refl
  tools_end (Progress.raises n) s go h = refl

  reply_ends :
      (calls : List Proposal) (s : AgentState) (go : Visit → AgentState → GraphEnd)
      → ((tcs : List Proposal) → is_limit (go (Visit.act tcs) s) ≡ false)
      → is_limit (route_reply calls s go) ≡ false
  reply_ends [] s go h = refl
  reply_ends (tc ∷ tcs) s go h = h (tc ∷ tcs)

  llm_ends :
      (o : Option Reply) (s : AgentState) (go : Visit → AgentState → GraphEnd)
      → ((r : Reply) (tcs : List Proposal) → is_limit (go (Visit.act tcs) (with_reply r s)) ≡ false)
      → is_limit (after_llm o s go) ≡ false
  llm_ends none s go h = refl
  llm_ends (some r) s go h = reply_ends r.tool_calls (with_reply r s) go (h r)

  -- With enough visits allowed, the graph ends by itself: if the recursion limit is at least one
  -- more than twice the agent steps that are left, a run of the graph never ends at the limit,
  -- whatever the language model proposes.
  pub run_graph_ends :
      (n : ℕ) (s : AgentState)
      → visits_left env s ≤ n
      → is_limit (run_graph env n Visit.think s) ≡ false
  unfolding run_graph agent_node act_on
  run_graph_ends zero s h = absurd (omega arith)
  run_graph_ends (suc zero) s h = elim (Bool-cases (leb env.max_agent_steps s.step_count)) [
    | inl e ↦ rw e refl
    | inr e ↦ absurd (ground arith)
  ]
  run_graph_ends (suc (suc n)) s h = elim (Bool-cases (leb env.max_agent_steps s.step_count)) [
    | inl e ↦ rw e refl
    | inr e ↦ rw e (
        llm_ends (env.llm s.messages) s (λ v s'. run_graph env (suc n) v s')
          (λ r tcs.
            tools_end (tool_node env.tools tcs (record s.node { results = [] })) (with_reply r s)
              (λ v s'. run_graph env n v s')
              (λ m. run_graph_ends n (with_node m (with_reply r s)) (ground arith))))
  ]

abbrev pub state_of : GraphEnd → AgentState
state_of (GraphEnd.finished s) = s
state_of (GraphEnd.suspended tc s) = s
state_of (GraphEnd.steps_exceeded s) = s
state_of (GraphEnd.llm_raised s) = s
state_of (GraphEnd.mcp_raised s) = s
state_of (GraphEnd.recursion_limit s) = s

module _ (env : GraphEnv) (x : String) (given : is_nonempty x ≡ true) where
  -- What one visit of the tool node does to the calls with the id x.
  record Passed (n : Node) (p : Progress) : Type 0 where
    kept : contains x n.executed_ids ≡ true → contains x (node_of p).executed_ids ≡ true
    marked :
        goes_on p ≡ true
        → contains x (node_of p).executed_ids ≡ false
        → sends x (node_of p).dispatched ≡ sends x n.dispatched

  then-Passed :
      (i : String) (n : Node) (p : Progress) (rest : Node → Progress)
      → Effects x i n.executed_ids n.dispatched p
      → ((m : Node) → Passed m (rest m))
      → Passed n (and_then p rest)
  then-Passed i n (Progress.continues m) rest f h =
      let q = h m in
      record {
        kept = λ k. q.kept (f.kept k);
        marked = λ g k. elim (Bool-cases (contains x m.executed_ids)) [
          | inl e ↦ (let still = q.kept e in absurd (cc))
          | inr e ↦ q.marked g k ∙ f.marked refl e
        ];
      }
  then-Passed i n (Progress.suspends tc m) rest f h = record {
    kept = f.kept;
    marked = λ g k. absurd (cc);
  }
  then-Passed i n (Progress.raises m) rest f h = record {
    kept = f.kept;
    marked = λ g k. absurd (cc);
  }

  node-Passed : (tcs : List Proposal) (n : Node) → Passed n (tool_node env.tools tcs n)
  unfolding tool_node
  node-Passed [] n = record { kept = λ k. k; marked = λ g k. refl }
  node-Passed (tc ∷ tcs) n =
      then-Passed tc.id n (tool_call env.tools tc n) (tool_node env.tools tcs)
        (tool_call-Effects env.tools x given tc n) (node-Passed tcs)

  -- What holds of a run after the agent node, if it holds of each of its ends.
  agent_node_ind :
      (Q : GraphEnd → Type 0) (s : AgentState) (go : Visit → AgentState → GraphEnd)
      → ((m : AgentState) → m.node ≡ s.node → Q (GraphEnd.finished m))
      → Q (GraphEnd.llm_raised s)
      → Q (GraphEnd.steps_exceeded s)
      → ((tcs : List Proposal) (m : AgentState) → m.node ≡ s.node → Q (go (Visit.act tcs) m))
      → Q (agent_node env s go)
  unfolding agent_node
  agent_node_ind Q s go f l e g = pick (leb env.max_agent_steps s.step_count) (env.llm s.messages)
    where
      calls : (r : Reply) (tcs : List Proposal) → Q (route_reply tcs (with_reply r s) go)
      calls r [] = f (with_reply r s) refl
      calls r (tc ∷ tcs) = g (tc ∷ tcs) (with_reply r s) refl

      answers : (o : Option Reply) → Q (after_llm o s go)
      answers none = l
      answers (some r) = calls r r.tool_calls

      pick :
          (b : Bool) (o : Option Reply)
          → Q (if b then GraphEnd.steps_exceeded s else after_llm o s go)
      pick true o = e
      pick false o = answers o

  -- The calls with the id x that were sent when a run ends.
  abbrev pub sent_in : GraphEnd → ℕ
  sent_in e = sends x (state_of e).node.dispatched

  -- The node with which the tool node starts.
  abbrev start : AgentState → Node
  start s = record s.node { results = [] }

  from_start : (s : AgentState) (p : Progress) → Passed (start s) p → Passed s.node p
  from_start s p f = record { kept = f.kept; marked = f.marked }

  tools_skip :
      (p : Progress) (s : AgentState) (go : Visit → AgentState → GraphEnd)
      → sends x (node_of p).dispatched ≡ sends x s.node.dispatched
      → contains x (node_of p).executed_ids ≡ true
      → ((m : AgentState)
          → contains x m.node.executed_ids ≡ true
          → sent_in (go Visit.think m) ≡ sends x m.node.dispatched)
      → sent_in (after_tools p s go) ≡ sends x s.node.dispatched
  tools_skip (Progress.continues m) s go e k h = h (with_node m s) k ∙ e
  tools_skip (Progress.suspends tc m) s go e k h = e
  tools_skip (Progress.raises m) s go e k h = e

  pub run_skips :
      (n : ℕ) (v : Visit) (s : AgentState)
      → contains x s.node.executed_ids ≡ true
      → sent_in (run_graph env n v s) ≡ sends x s.node.dispatched
  unfolding run_graph act_on
  run_skips zero v s h = refl
  run_skips (suc n) Visit.think s h =
      agent_node_ind (λ e. sent_in e ≡ sends x s.node.dispatched) s (λ v m. run_graph env n v m)
        (λ m e. ap (λ k. sends x k.dispatched) e) refl refl
        (λ tcs m e. run_skips n (Visit.act tcs) m (rw e h) ∙ ap (λ k. sends x k.dispatched) e)
  run_skips (suc n) (Visit.act tcs) s h =
      tools_skip (tool_node env.tools tcs (start s)) s (λ v m. run_graph env n v m)
        (node_skips env.tools x given tcs (start s) h) ((node-Passed tcs (start s)).kept h)
        (λ m k. run_skips n Visit.think m k)

  tools_once :
      (p : Progress) (s : AgentState) (go : Visit → AgentState → GraphEnd)
      → Passed s.node p
      → sends x (node_of p).dispatched ≤ sends x s.node.dispatched + 1
      → ((m : AgentState)
          → contains x m.node.executed_ids ≡ true
          → sent_in (go Visit.think m) ≡ sends x m.node.dispatched)
      → ((m : AgentState) → sent_in (go Visit.think m) ≤ sends x m.node.dispatched + 1)
      → sent_in (after_tools p s go) ≤ sends x s.node.dispatched + 1
  tools_once (Progress.continues m) s go f l skip once =
      elim (Bool-cases (contains x m.executed_ids)) [
        | inl e ↦ omega (arith, skip (with_node m s) e)
        | inr e ↦ omega (arith, once (with_node m s), f.marked refl e)
      ]
  tools_once (Progress.suspends tc m) s go f l skip once = l
  tools_once (Progress.raises m) s go f l skip once = l

  -- However long the graph runs, and however often the language model proposes a call with a given
  -- non-empty id, in one message or in several, the run sends it at most once.
  pub run_graph-sends_once :
      (n : ℕ) (v : Visit) (s : AgentState)
      → sends x (state_of (run_graph env n v s)).node.dispatched ≤ sends x s.node.dispatched + 1
  unfolding run_graph act_on
  run_graph-sends_once zero v s = omega arith
  run_graph-sends_once (suc n) Visit.think s =
      agent_node_ind (λ e. sent_in e ≤ sends x s.node.dispatched + 1) s (λ v m. run_graph env n v m)
        (λ m e. rw e (omega arith)) (omega arith) (omega arith)
        (λ tcs m e.
          omega (arith, run_graph-sends_once n (Visit.act tcs) m, ap (λ k. sends x k.dispatched) e))
  run_graph-sends_once (suc n) (Visit.act tcs) s =
      tools_once (tool_node env.tools tcs (start s)) s (λ v m. run_graph env n v m)
        (from_start s (tool_node env.tools tcs (start s)) (node-Passed tcs (start s)))
        (sends_once_per_id env.tools x given tcs (start s)) (λ m k. run_skips n Visit.think m k)
        (λ m. run_graph-sends_once n Visit.think m)
