-- ===== src/Graph/SingleDispatch.antt =====
-- What the tool node of graph.py sends to the MCP client.
use fxfill_enterprise_bankin.Common.{
  ℕ, ◌+◌, ◌≤◌, String, ◌≡◌, inl, inr, refl, ◌∙◌, Bool, Bool-cases, Option-cases, true, false, ◌&&◌,
  Option, none, some, List, [], ◌∷◌, ◌++◌, contains, is_nonempty, ◌==◌, eq_iff, if◌then◌else◌,
  arith,
}
use fxfill_enterprise_bankin.Auth.{OperationKind, ApprovalDecision, gateway_authorize, is_read}
use fxfill_enterprise_bankin.Idempotency
use fxfill_enterprise_bankin.Idempotency.{IdempotencyRecord, IdempotencyStatus}
use fxfill_enterprise_bankin.Tools.{ToolRegistry}
use fxfill_enterprise_bankin.Tools.Validation.{as_dict, Validation, validate_tool_call}
use fxfill_enterprise_bankin.Graph.{
  Proposal, Resume, Content, say, done, by_record, by_resume, by_decision, by_validation,
  by_registry, and_then, Sent, Node, NodeEnv, Progress, node_of, keeps_records, operation, idem_key,
  operation_kind, run, execute, authorize_call, skip_executed, tool_call, tool_node, call_of,
}

abbrev pub goes_on : Progress → Bool
goes_on (Progress.continues n) = true
goes_on _ = false

-- How often a call with the id was sent.
unfoldable pub sends : String → List Sent → ℕ
sends x [] = 0
sends x (s ∷ ss) = (if s.tool_call_id == x then 1 else 0) + sends x ss

sends-append :
    (x : String) (s : Sent) (ss : List Sent)
    → sends x (ss ++ s ∷ []) ≡ sends x ss + (if s.tool_call_id == x then 1 else 0)
unfolding sends
sends-append x s [] = omega arith
sends-append x s (t ∷ ss) = omega (arith, sends-append x s ss)

-- What handling a call with the id `i` does to the calls with the id x.
pub record Effects (x : String) (i : String) (executed : List String) (sent : List Sent)
    (p : Progress) : Type 0 where
  pub kept : contains x executed ≡ true → contains x (node_of p).executed_ids ≡ true
  pub once : sends x (node_of p).dispatched ≤ sends x sent + (if i == x then 1 else 0)
  pub grows : sends x sent ≤ sends x (node_of p).dispatched
  pub marked :
      goes_on p ≡ true
      → contains x (node_of p).executed_ids ≡ false
      → sends x (node_of p).dispatched ≡ sends x sent

module _ (env : NodeEnv) (x : String) (given : is_nonempty x ≡ true) where
  run-counts :
      (tc : Proposal) (n : Node)
      → sends x (node_of (run env tc n)).dispatched
        ≡ sends x n.dispatched + (if tc.id == x then 1 else 0)
  unfolding run
  run-counts tc n =
      ground
        (arith, sends-append x (record { tool_call_id = tc.id; call = call_of tc }) n.dispatched)

  run-Effects :
      (tc : Proposal) (n : Node) → Effects x tc.id n.executed_ids n.dispatched (run env tc n)
  unfolding run
  run-Effects tc n = record {
    kept = λ h. ground arith;
    once = omega (arith, run-counts tc n);
    grows = omega (arith, run-counts tc n);
    marked = λ h k. ground (arith, eq_iff tc.id x, run-counts tc n);
  }

  still :
      (tc : Proposal) (c : Content) (n : Node)
      → Effects x tc.id n.executed_ids n.dispatched (Progress.continues (say tc c n))
  still tc c n = record {
    kept = λ h. h;
    once = omega arith;
    grows = omega arith;
    marked = λ h k. refl;
  }

  done-Effects :
      (tc : Proposal) (c : Content) (n : Node)
      → Effects x tc.id n.executed_ids n.dispatched (done tc c n)
  done-Effects tc c n = record {
    kept = λ h. ground arith;
    once = ground arith;
    grows = ground arith;
    marked = λ h k. ground arith;
  }

  record-Effects :
      (kind : OperationKind) (tc : Proposal) (st : IdempotencyStatus) (r : IdempotencyRecord)
      (n : Node)
      → Effects x tc.id n.executed_ids n.dispatched
          (by_record env kind tc (record r { status = st }) n)
  record-Effects kind tc IdempotencyStatus.succeeded r n =
      done-Effects tc (Content.idempotent r.result) n
  record-Effects kind tc IdempotencyStatus.failed r n =
      run-Effects tc
        (record n { records = (Idempotency.mark_executing (idem_key env tc) n.records).1 })
  record-Effects kind tc IdempotencyStatus.reserved r n =
      run-Effects tc
        (record n { records = (Idempotency.mark_executing (idem_key env tc) n.records).1 })
  record-Effects kind tc IdempotencyStatus.executing r n = elim (Bool-cases (is_read kind)) [
    | inl e ↦ rw e (run-Effects tc n)
    | inr e ↦ rw e (done-Effects tc Content.outcome_unknown n)
  ]
  record-Effects kind tc IdempotencyStatus.unknown r n = elim (Bool-cases (is_read kind)) [
    | inl e ↦ rw e (run-Effects tc n)
    | inr e ↦ rw e (done-Effects tc Content.outcome_unknown n)
  ]

  execute-Effects :
      (kind : OperationKind) (tc : Proposal) (n : Node)
      → Effects x tc.id n.executed_ids n.dispatched (execute env kind tc n)
  unfolding execute
  execute-Effects kind tc n = elim (Bool-cases (keeps_records env tc)) [
    | inl e ↦
        rw (e, execute)
          (elim (Option-cases (Idempotency.get (idem_key env tc) n.records)) [
            | inl e' ↦ rw e' (run-Effects tc n)
            | inr (r, e') ↦ rw e' (record-Effects kind tc r.status r n)
          ])
    | inr e ↦ rw (e, execute) (run-Effects tc n)
  ]

  resume-Effects :
      (kind : OperationKind) (tc : Proposal) (rs : List Resume) (n : Node)
      → Effects x tc.id n.executed_ids n.dispatched (by_resume env kind tc rs n)
  resume-Effects kind tc [] n = record {
    kept = λ h. h;
    once = omega arith;
    grows = omega arith;
    marked = λ h k. refl;
  }
  resume-Effects kind tc (Resume.approved_with none ∷ rest) n =
      execute-Effects kind tc (record n { resumes = rest })
  resume-Effects kind tc (Resume.approved_with (some args) ∷ rest) n =
      execute-Effects kind (record tc { args = args }) (record n { resumes = rest })
  resume-Effects kind tc (Resume.rejected_by_human ∷ rest) n =
      done-Effects tc Content.operation_rejected (record n { resumes = rest })
  resume-Effects kind tc (Resume.other_value ∷ rest) n =
      done-Effects tc Content.invalid_response (record n { resumes = rest })

  decision-Effects :
      (kind : OperationKind) (tc : Proposal) (d : ApprovalDecision) (n : Node)
      → Effects x tc.id n.executed_ids n.dispatched (by_decision env kind tc d n)
  decision-Effects kind tc ApprovalDecision.denied n = still tc Content.authorization_denied n
  decision-Effects kind tc ApprovalDecision.pending n = resume-Effects kind tc n.resumes n
  decision-Effects kind tc ApprovalDecision.approved n = execute-Effects kind tc n

  authorize_call-Effects :
      (tc : Proposal) (n : Node)
      → Effects x tc.id n.executed_ids n.dispatched (authorize_call env tc n)
  unfolding authorize_call
  authorize_call-Effects tc n =
      let answer = gateway_authorize (env.now tc 0) (operation env tc) n.gateway in
      decision-Effects (operation_kind env tc.name) tc answer.0.decision
        (record n { gateway = answer.1 })

  skip_executed-Effects :
      (tc : Proposal) (n : Node)
      → Effects x tc.id n.executed_ids n.dispatched (skip_executed env tc n)
  unfolding skip_executed
  skip_executed-Effects tc n =
      elim (Bool-cases (is_nonempty tc.id && contains tc.id n.executed_ids)) [
        | inl e ↦ rw (e, skip_executed) (still tc Content.already_executed n)
        | inr e ↦ rw (e, skip_executed) (authorize_call-Effects tc n)
      ]

  skip_executed-skips :
      (tc : Proposal) (n : Node)
      → contains x n.executed_ids ≡ true
      → sends x (node_of (skip_executed env tc n)).dispatched ≡ sends x n.dispatched
  unfolding skip_executed
  skip_executed-skips tc n h = elim (Bool-cases (tc.id == x)) [
    | inl e ↦
        (let skip : (is_nonempty tc.id && contains tc.id n.executed_ids) ≡ true =
            rw ((eq_iff tc.id x).0 e, given, h) refl in
          rw (skip, skip_executed) refl)
    | inr e ↦
        (let f = skip_executed-Effects tc n in
          let o = (rw e at f.once) in omega (arith, o, f.grows))
  ]

  by_registry-Effects :
      (tc : Proposal) (o : Option ToolRegistry) (n : Node)
      → Effects x tc.id n.executed_ids n.dispatched (by_registry env tc o n)
  by_registry-Effects tc none n = skip_executed-Effects tc n
  by_registry-Effects tc (some r) n =
      go (validate_tool_call env.loads tc.name (as_dict (env.dict_of tc.args)) r)
    where
      go : (v : Validation) → Effects x tc.id n.executed_ids n.dispatched (by_validation env tc v n)
      go (Validation.valid args) = skip_executed-Effects tc n
      go (Validation.invalid c) = still tc (Content.call_rejected c) n

  by_registry-skips :
      (tc : Proposal) (o : Option ToolRegistry) (n : Node)
      → contains x n.executed_ids ≡ true
      → sends x (node_of (by_registry env tc o n)).dispatched ≡ sends x n.dispatched
  by_registry-skips tc none n h = skip_executed-skips tc n h
  by_registry-skips tc (some r) n h =
      go (validate_tool_call env.loads tc.name (as_dict (env.dict_of tc.args)) r)
    where
      go :
          (v : Validation)
          → sends x (node_of (by_validation env tc v n)).dispatched ≡ sends x n.dispatched
      go (Validation.valid args) = skip_executed-skips tc n h
      go (Validation.invalid c) = refl

  pub tool_call-Effects :
      (tc : Proposal) (n : Node) → Effects x tc.id n.executed_ids n.dispatched (tool_call env tc n)
  unfolding tool_call
  tool_call-Effects tc n = by_registry-Effects tc env.registry n

  tool_call-skips :
      (tc : Proposal) (n : Node)
      → contains x n.executed_ids ≡ true
      → sends x (node_of (tool_call env tc n)).dispatched ≡ sends x n.dispatched
  unfolding tool_call
  tool_call-skips tc n h = by_registry-skips tc env.registry n h

  pub and_then-skips :
      (rest : Node → Progress)
      → ((n : Node)
          → contains x n.executed_ids ≡ true
          → sends x (node_of (rest n)).dispatched ≡ sends x n.dispatched)
      → (p : Progress) → contains x (node_of p).executed_ids ≡ true
      → sends x (node_of (and_then p rest)).dispatched ≡ sends x (node_of p).dispatched
  and_then-skips rest skips (Progress.continues n) h = skips n h
  and_then-skips rest skips (Progress.suspends t n) h = refl
  and_then-skips rest skips (Progress.raises n) h = refl

  pub node_skips :
      (tcs : List Proposal) (n : Node)
      → contains x n.executed_ids ≡ true
      → sends x (node_of (tool_node env tcs n)).dispatched ≡ sends x n.dispatched
  unfolding tool_node
  node_skips [] n h = refl
  node_skips (tc ∷ tcs) n h =
      and_then-skips (tool_node env tcs) (node_skips tcs) (tool_call env tc n)
        ((tool_call-Effects tc n).kept h)
      ∙ tool_call-skips tc n h

  one_more : (i : String) → (if i == x then 1 else 0) ≤ 1
  one_more i = ground arith

  and_then-once :
      (tcs : List Proposal)
      → ((n : Node) → sends x (node_of (tool_node env tcs n)).dispatched ≤ sends x n.dispatched + 1)
      → (p : Progress) (executed : List String) (sent : List Sent) (i : String)
      → Effects x i executed sent p
      → sends x (node_of (and_then p (tool_node env tcs))).dispatched ≤ sends x sent + 1
  and_then-once tcs once (Progress.continues n) ids sent i f =
      elim (Bool-cases (contains x n.executed_ids)) [
        | inl e ↦ omega (arith, node_skips tcs n e, f.once, one_more i)
        | inr e ↦ omega (arith, once n, f.marked refl e)
      ]
  and_then-once tcs once (Progress.suspends t n) ids sent i f = omega (arith, f.once, one_more i)
  and_then-once tcs once (Progress.raises n) ids sent i f = omega (arith, f.once, one_more i)

  -- However often a tool call with a given non-empty id occurs among the tool calls of a message,
  -- one pass of the tool node over them sends it at most once.
  pub sends_once_per_id :
      (tcs : List Proposal) (n : Node)
      → sends x (node_of (tool_node env tcs n)).dispatched ≤ sends x n.dispatched + 1
  unfolding tool_node
  sends_once_per_id [] n = omega arith
  sends_once_per_id (tc ∷ tcs) n =
      and_then-once tcs (sends_once_per_id tcs) (tool_call env tc n) n.executed_ids n.dispatched
        tc.id (tool_call-Effects tc n)
