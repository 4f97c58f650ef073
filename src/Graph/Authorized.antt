-- ===== src/Graph/Authorized.antt =====
-- What the tool node of graph.py requires of a call before it sends it.
use fxfill_enterprise_bankin.Common.{
  String, ◌≡◌, ◌⊎◌, inl, inr, refl, Bool, Bool-cases, Option-cases, true, false, Option, none, some,
  List, [], ◌∷◌, ◌++◌, contains, is_nonempty, ◌&&◌, if◌then◌else◌,
}
use fxfill_enterprise_bankin.Auth.{
  OperationKind, ApprovalDecision, Gateway, gateway_authorize, is_read,
}
use fxfill_enterprise_bankin.Idempotency
use fxfill_enterprise_bankin.Idempotency.{IdempotencyRecord, IdempotencyStatus}
use fxfill_enterprise_bankin.Approval.State.{McpOutcome}
use fxfill_enterprise_bankin.Tools.{ToolRegistry}
use fxfill_enterprise_bankin.Tools.Validation.{as_dict, Validation, validate_tool_call}
use fxfill_enterprise_bankin.Graph.{
  Proposal, Resume, Content, done, by_record, by_resume, by_decision, by_validation, by_registry,
  Sent, Node, NodeEnv, Progress, node_of, keeps_records, operation, idem_key, operation_kind, run,
  execute, authorize_call, skip_executed, tool_call, call_of, with_args, after_call,
}

-- The trace after a call was sent with these arguments.
abbrev pub sent_with : Proposal → String → Node → List Sent
sent_with tc args n =
    n.dispatched
    ++ record { tool_call_id = tc.id; call = record { name = tc.name; arguments = args } } ∷ []

-- A status under which a call of the kind may be sent.
abbrev pub may_run : OperationKind → IdempotencyStatus → Bool
may_run kind IdempotencyStatus.succeeded = false
may_run kind IdempotencyStatus.reserved = true
may_run kind IdempotencyStatus.failed = true
may_run kind IdempotencyStatus.executing = is_read kind
may_run kind IdempotencyStatus.unknown = is_read kind

-- The record of the call, if one is kept and there is one, lets it run.
abbrev pub record_allows : NodeEnv → OperationKind → Proposal → Node → Bool
record_allows env kind tc n =
    if keeps_records env tc
    then (elim (Idempotency.get (idem_key env tc) n.records) [
      | none ↦ true
      | some r ↦ may_run kind r.status
    ])
    else true

abbrev pub decision_on : NodeEnv → Proposal → Node → ApprovalDecision
decision_on env tc n = (gateway_authorize (env.now tc 0) (operation env tc) n.gateway).0.decision

-- Who allowed the call, and with which arguments.
pub data Allowed (env : NodeEnv) (tc : Proposal) (n : Node) (args : String) : Type 0 where
  by_gateway :
      decision_on env tc n ≡ ApprovalDecision.approved → args ≡ tc.args → Allowed env tc n args
  by_human :
      (canonical : Option String)
      → (rest : List Resume) → decision_on env tc n ≡ ApprovalDecision.pending
      → n.resumes ≡ Resume.approved_with canonical ∷ rest
      → args ≡ (with_args canonical tc).args
      → Allowed env tc n args

pub record Cleared (env : NodeEnv) (tc : Proposal) (n : Node) (args : String) : Type 0 where
  pub allowed : Allowed env tc n args
  pub by_its_record : record_allows env (operation_kind env tc.name) tc n ≡ true
  pub not_executed : (is_nonempty tc.id && contains tc.id n.executed_ids) ≡ false

-- What a step did to the trace.
abbrev pub Sends : (String → Type 0) → Proposal → Node → Progress → Type 0
Sends ok tc n p =
    ((node_of p).dispatched ≡ n.dispatched)
    ⊎ ((args : String) × ok args × ((node_of p).dispatched ≡ sent_with tc args n))

module _ (env : NodeEnv) where
  after_call-sent :
      (tc : Proposal) (o : McpOutcome) (n : Node)
      → (node_of (after_call env tc o n)).dispatched ≡ n.dispatched
  after_call-sent tc McpOutcome.raised n = refl
  after_call-sent tc (McpOutcome.returned r) n = elim (Bool-cases (is_nonempty tc.id)) [
    | inl e ↦ rw e refl
    | inr e ↦ rw e refl
  ]

  pub run_sends :
      (tc : Proposal) (n : Node) → (node_of (run env tc n)).dispatched ≡ sent_with tc tc.args n
  unfolding run
  run_sends tc n = after_call-sent tc (env.mcp (call_of tc)) _

  done_sends :
      (tc : Proposal) (c : Content) (n : Node) → (node_of (done tc c n)).dispatched ≡ n.dispatched
  done_sends tc c n = elim (Bool-cases (is_nonempty tc.id)) [
    | inl e ↦ rw e refl
    | inr e ↦ rw e refl
  ]

  record_runs :
      (kind : OperationKind) (tc : Proposal) (st : IdempotencyStatus) (r : IdempotencyRecord)
      (n : Node)
      → ((node_of (by_record env kind tc (record r { status = st }) n)).dispatched ≡ n.dispatched)
        ⊎ ((may_run kind st ≡ true)
            × ((node_of (by_record env kind tc (record r { status = st }) n)).dispatched
                ≡ sent_with tc tc.args n))
  record_runs kind tc IdempotencyStatus.succeeded r n =
      inl (done_sends tc (Content.idempotent r.result) n)
  record_runs kind tc IdempotencyStatus.failed r n = inr (
    refl,
    run_sends tc
        (record n { records = (Idempotency.mark_executing (idem_key env tc) n.records).1 }),
  )
  record_runs kind tc IdempotencyStatus.reserved r n = inr (
    refl,
    run_sends tc
        (record n { records = (Idempotency.mark_executing (idem_key env tc) n.records).1 }),
  )
  record_runs kind tc IdempotencyStatus.executing r n = elim (Bool-cases (is_read kind)) [
    | inl e ↦ rw e (inr (refl, run_sends tc n))
    | inr e ↦ rw e (inl (done_sends tc Content.outcome_unknown n))
  ]
  record_runs kind tc IdempotencyStatus.unknown r n = elim (Bool-cases (is_read kind)) [
    | inl e ↦ rw e (inr (refl, run_sends tc n))
    | inr e ↦ rw e (inl (done_sends tc Content.outcome_unknown n))
  ]

  execute_runs :
      (kind : OperationKind) (tc : Proposal) (n : Node)
      → ((node_of (execute env kind tc n)).dispatched ≡ n.dispatched)
        ⊎ ((record_allows env kind tc n ≡ true)
            × ((node_of (execute env kind tc n)).dispatched ≡ sent_with tc tc.args n))
  unfolding execute
  execute_runs kind tc n = elim (Bool-cases (keeps_records env tc)) [
    | inl e ↦
        rw (e, execute)
          (elim (Option-cases (Idempotency.get (idem_key env tc) n.records)) [
            | inl e' ↦ rw e' (inr (refl, run_sends tc n))
            | inr (r, e') ↦ rw e' (record_runs kind tc r.status r n)
          ])
    | inr e ↦ rw (e, execute) (inr (refl, run_sends tc n))
  ]

  -- With a value for the interrupt.
  resume_runs :
      (kind : OperationKind) (tc : Proposal) (rs : List Resume) (n : Node)
      → ((node_of (by_resume env kind tc rs n)).dispatched ≡ n.dispatched)
        ⊎ ((record_allows env kind tc n ≡ true)
            × ((o : Option String) × ((rest : List Resume) × (rs ≡ Resume.approved_with o ∷ rest))
                × ((node_of (by_resume env kind tc rs n)).dispatched
                    ≡ sent_with tc (with_args o tc).args n)))
  unfolding idem_key
  resume_runs kind tc [] n = inl refl
  resume_runs kind tc (Resume.approved_with none ∷ rest) n =
      elim (execute_runs kind tc (record n { resumes = rest })) [
        | inl e ↦ inl e
        | inr (a, e) ↦ inr (a, (none, (rest, refl), e))
      ]
  resume_runs kind tc (Resume.approved_with (some args) ∷ rest) n =
      elim (execute_runs kind (record tc { args = args }) (record n { resumes = rest })) [
        | inl e ↦ inl e
        | inr (a, e) ↦ inr (a, (some args, (rest, refl), e))
      ]
  resume_runs kind tc (Resume.rejected_by_human ∷ rest) n =
      inl (done_sends tc Content.operation_rejected (record n { resumes = rest }))
  resume_runs kind tc (Resume.other_value ∷ rest) n =
      inl (done_sends tc Content.invalid_response (record n { resumes = rest }))

  -- With the answer of the gateway.
  module _ (tc : Proposal) (n : Node)
      (fresh : (is_nonempty tc.id && contains tc.id n.executed_ids) ≡ false) where
    decided :
        (d : ApprovalDecision) (g : Gateway)
        → decision_on env tc n ≡ d
        → Sends
            (Cleared env tc n)
            tc
            n
            (by_decision env (operation_kind env tc.name) tc d (record n { gateway = g }))
    decided ApprovalDecision.denied g e = inl refl
    decided ApprovalDecision.pending g e =
        elim (resume_runs (operation_kind env tc.name) tc n.resumes (record n { gateway = g })) [
          | inl same ↦ inl same
          | inr (a, (o, (rest, r), t)) ↦ inr (
            _,
            record { allowed = by_human o rest e r refl; by_its_record = a; not_executed = fresh },
            t,
          )
        ]
    decided ApprovalDecision.approved g e =
        elim (execute_runs (operation_kind env tc.name) tc (record n { gateway = g })) [
          | inl same ↦ inl same
          | inr (a, t) ↦ inr (
            _,
            record { allowed = by_gateway e refl; by_its_record = a; not_executed = fresh },
            t,
          )
        ]

  skip_executed-Sends :
      (tc : Proposal) (n : Node) → Sends (Cleared env tc n) tc n (skip_executed env tc n)
  unfolding skip_executed authorize_call
  skip_executed-Sends tc n =
      let d = gateway_authorize (env.now tc 0) (operation env tc) n.gateway in
      elim (Bool-cases (is_nonempty tc.id && contains tc.id n.executed_ids)) [
        | inl e ↦ rw (e, skip_executed) (inl refl)
        | inr e ↦ rw (e, skip_executed) (decided tc n e d.0.decision d.1 refl)
      ]

  -- The registry, if there is one, knows the call and takes its arguments.
  unfoldable pub validated : Option ToolRegistry → Proposal → Bool
  validated none tc = true
  validated (some r) tc =
      elim (validate_tool_call env.loads tc.name (as_dict (env.dict_of tc.args)) r) [
        | Validation.valid args ↦ true
        | Validation.invalid c ↦ false
      ]

  by_registry-Sends :
      (o : Option ToolRegistry) (tc : Proposal) (n : Node)
      → Sends
          (λ args. (validated o tc ≡ true) × Cleared env tc n args)
          tc
          n
          (by_registry env tc o n)
  unfolding validated
  by_registry-Sends none tc n = elim (skip_executed-Sends tc n) [
    | inl e ↦ inl e
    | inr (args, c, t) ↦ inr (args, (refl, c), t)
  ]
  by_registry-Sends (some r) tc n =
      go (validate_tool_call env.loads tc.name (as_dict (env.dict_of tc.args)) r)
    where
      go :
          (v : Validation)
          → Sends
              (λ args.
                ((elim v [ Validation.valid args ↦ true | Validation.invalid c ↦ false ]) ≡ true)
                × Cleared env tc n args)
              tc
              n
              (by_validation env tc v n)
      go (Validation.valid fs) = elim (skip_executed-Sends tc n) [
        | inl e ↦ inl e
        | inr (args, c, t) ↦ inr (args, (refl, c), t)
      ]
      go (Validation.invalid c) = inl refl

  -- Handling a tool call either sends nothing, or sends it once, and then the registry took the
  -- proposed arguments, its id was not executed before, its idempotency record (if one is kept)
  -- is none, RESERVED or FAILED, or EXECUTING or UNKNOWN with a read operation, and either the
  -- gateway approved it and the arguments sent are the proposed ones, or the gateway left it
  -- pending, a human approved it, and the arguments are the ones that came with the approval, or
  -- the proposed ones if none came.
  pub no_dispatch_without_permission :
      (tc : Proposal) (n : Node)
      → Sends
          (λ args. (validated env.registry tc ≡ true) × Cleared env tc n args)
          tc
          n
          (tool_call env tc n)
  unfolding tool_call
  no_dispatch_without_permission tc n = by_registry-Sends env.registry tc n
