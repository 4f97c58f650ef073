-- ===== src/Api/Twice.antt =====
-- What follows an approval in api.py: the executor has sent the call, and the resumed graph of
-- graph.py handles it with the arguments of the approval.
use fxfill_enterprise_bankin.Common.{
  String, ◌≡◌, refl, ap, ◌∙◌, true, false, Option, none, some, List, ◌∷◌, arith, contains,
}
use fxfill_enterprise_bankin.Auth.{ApprovalDecision, OperationKind, gateway_authorize}
use fxfill_enterprise_bankin.Hitl.{HitlSession}
use fxfill_enterprise_bankin.Grants.{GrantRecord}
use fxfill_enterprise_bankin.Idempotency
use fxfill_enterprise_bankin.Idempotency.{IdempotencyRecord, IdempotencyStatus, fresh_record}
use fxfill_enterprise_bankin.Approval
use fxfill_enterprise_bankin.Approval.{World, Env, approve}
use fxfill_enterprise_bankin.Approval.Completion.{IsApprovable, approvable_call_is_sent, with_call}
use fxfill_enterprise_bankin.Approval.Outcomes.{is_approval, approval_leaves_reserved}
use fxfill_enterprise_bankin.Tools.{ToolRegistry}
use fxfill_enterprise_bankin.Tools.Validation.{as_dict, Validation, validate_tool_call}
use fxfill_enterprise_bankin.Graph
use fxfill_enterprise_bankin.Graph.{
  Proposal, Resume, Node, NodeEnv, node_of, keeps_records, operation, operation_kind, run, execute,
  by_record, by_resume, by_decision, by_registry, by_validation, authorize_call, skip_executed,
  tool_call,
}
use fxfill_enterprise_bankin.Graph.Authorized.{decision_on, validated, sent_with, run_sends}

module _ (env : NodeEnv) (kind : OperationKind) (tc : Proposal)
    (keeps : keeps_records env tc ≡ true) where
  -- A call whose record is RESERVED is sent.
  execute_reserved :
      (n : Node) (r : IdempotencyRecord)
      → Idempotency.get (Graph.idem_key env tc) n.records ≡ some r
      → r.status ≡ IdempotencyStatus.reserved
      → (node_of (execute env kind tc n)).dispatched ≡ sent_with tc tc.args n
  unfolding execute
  execute_reserved n r e s =
      let m = record n {
        records = (Idempotency.mark_executing (Graph.idem_key env tc) n.records).1;
      } in
      let runs : execute env kind tc n ≡ run env tc m = ground arith in
      ap (λ p. (node_of p).dispatched) runs ∙ run_sends env tc m

module _ (env : NodeEnv) (tc : Proposal) (n : Node) where
  past_registry :
      (o : Option ToolRegistry)
      → validated env o tc ≡ true
      → by_registry env tc o n ≡ skip_executed env tc n
  unfolding validated
  past_registry none h = refl
  past_registry (some r) h =
      go (validate_tool_call env.loads tc.name (as_dict (env.dict_of tc.args)) r) h
    where
      go :
          (v : Validation)
          → (elim v [ Validation.valid args ↦ true | Validation.invalid c ↦ false ]) ≡ true
          → by_validation env tc v n ≡ skip_executed env tc n
      go (Validation.valid args) h = refl
      go (Validation.invalid c) h = absurd (cc)

  past_executed :
      contains tc.id n.executed_ids ≡ false → skip_executed env tc n ≡ authorize_call env tc n
  unfolding skip_executed
  past_executed h = ground arith

  asks_human :
      (rs : List Resume)
      → decision_on env tc n ≡ ApprovalDecision.pending
      → n.resumes ≡ rs
      → authorize_call env tc n
        ≡ by_resume env (operation_kind env tc.name) tc rs (record n {
          gateway = (gateway_authorize (env.now tc 0) (operation env tc) n.gateway).1;
        })
  unfolding authorize_call
  asks_human rs d e =
      rw (d, authorize_call)
        (ap
          (λ (l : List Resume). by_resume env (operation_kind env tc.name) tc l (record n {
            gateway = (gateway_authorize (env.now tc 0) (operation env tc) n.gateway).1;
          }))
          e)

-- An approved call is sent twice: if a session can be approved and the executor reports the
-- approval, then it has sent the call, and when the graph of that session is resumed with the
-- approval, on the table of records that the executor left, the tool node sends the call again (where
-- records are kept under the session's key, the call passes the registry, was not executed in the
-- graph, and the gateway leaves it to a human).
pub approved_call_is_sent_twice :
    (env : Env) (sid actor args : String) (s : HitlSession) (g : GrantRecord) (w : World)
    → (nenv : NodeEnv) (tc : Proposal) (n : Node) (canonical : String) (rest : List Resume)
    → IsApprovable env sid actor args s g w
    → is_approval (approve env sid w).0 ≡ true
    → keeps_records nenv tc ≡ true
    → Graph.idem_key nenv tc ≡ Approval.idem_key sid s
    → n.records ≡ (approve env sid w).1.records
    → validated nenv nenv.registry tc ≡ true
    → contains tc.id n.executed_ids ≡ false
    → decision_on nenv tc n ≡ ApprovalDecision.pending
    → n.resumes ≡ Resume.approved_with (some canonical) ∷ rest
    → ((approve env sid w).1.dispatched ≡ with_call sid g.tool_name args w.dispatched)
      × ((node_of (tool_call nenv tc n)).dispatched ≡ sent_with tc canonical n)
unfolding tool_call Graph.idem_key
approved_call_is_sent_twice env sid actor args s g w nenv tc n canonical rest a done keeps key
      shared valid fresh asks resumes =
    let reserved = approval_leaves_reserved env sid s w a.session a.unused done in
    let found =
      ap (Idempotency.get (Graph.idem_key nenv tc)) shared
      ∙ ap (λ (k : String). Idempotency.get k (approve env sid w).1.records) key
      ∙ reserved in
    let m = record n {
      gateway = (gateway_authorize (nenv.now tc 0) (operation nenv tc) n.gateway).1;
      resumes = rest;
    } in
    let reached =
      past_registry nenv tc n nenv.registry valid
      ∙ past_executed nenv tc n fresh
      ∙ asks_human nenv tc n (Resume.approved_with (some canonical) ∷ rest) asks resumes in
    (
      approvable_call_is_sent env sid actor args s g w a,
      ap (λ p. (node_of p).dispatched) reached
          ∙ execute_reserved nenv (operation_kind nenv tc.name) (record tc { args = canonical })
              keeps m (fresh_record (Approval.idem_key sid s) s.tool_name s.tool_args (env.now 9))
              found refl,
    )
