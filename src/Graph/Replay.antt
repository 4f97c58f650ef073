-- ===== src/Graph/Replay.antt =====
-- What graph.py leaves in the idempotency table after a call, and what a second run makes of it.
use fxfill_enterprise_bankin.Common.{
  ◌≡◌, refl, true, none, some, [], ◌∷◌, ◌++◌, ap, ◌∙◌, arith, eq_self,
}
use fxfill_enterprise_bankin.Auth.{OperationKind}
use fxfill_enterprise_bankin.Approval.State.{ToolResult, McpOutcome}
use fxfill_enterprise_bankin.Idempotency
use fxfill_enterprise_bankin.Idempotency.{IdempotencyRecord, IdempotencyStatus, fresh_record}
use fxfill_enterprise_bankin.Idempotency.Lifecycle.{get-reserve, get-mark_succeeded}
use fxfill_enterprise_bankin.Graph.{
  Proposal, Node, NodeEnv, node_of, keeps_records, idem_key, run, execute, after_call, call_of,
}
use fxfill_enterprise_bankin.Graph.Authorized.{sent_with, run_sends}

module _ (env : NodeEnv) (kind : OperationKind) (tc : Proposal) (n : Node) (r : ToolResult)
    (keeps : keeps_records env tc ≡ true) where
  after_call-records :
      (m : Node)
      → Idempotency.get (idem_key env tc) m.records
        ≡ some (fresh_record (idem_key env tc) tc.name tc.args (env.now tc 1))
      → r.success ≡ true
      → Idempotency.get
          (idem_key env tc)
          (node_of (after_call env tc (McpOutcome.returned r) m)).records
        ≡ some (fresh_record (idem_key env tc) tc.name tc.args (env.now tc 1))
  after_call-records m h ok = ground (
    arith,
    get-mark_succeeded (idem_key env tc) (idem_key env tc) m.records r.content (env.now tc 2),
  )

  -- A call without a record leaves the RESERVED one, though the call succeeded.
  run-reserved :
      Idempotency.get (idem_key env tc) n.records ≡ none
      → env.mcp (call_of tc) ≡ McpOutcome.returned r
      → r.success ≡ true
      → Idempotency.get (idem_key env tc) (node_of (run env tc n)).records
        ≡ some (fresh_record (idem_key env tc) tc.name tc.args (env.now tc 1))
  unfolding run
  run-reserved absent answer ok =
      let key = idem_key env tc in
      let m = record n {
        records = Idempotency.reserve key tc.name tc.args (env.now tc 1) n.records;
        dispatched = n.dispatched ++ record { tool_call_id = tc.id; call = call_of tc } ∷ [];
      } in
      let runs : run env tc n ≡ after_call env tc (McpOutcome.returned r) m =
        rw (run, answer, keeps, absent) refl in
      let now_reserved : Idempotency.get key m.records
          ≡ some (fresh_record key tc.name tc.args (env.now tc 1)) =
        ground (arith, get-reserve key key tc.name tc.args (env.now tc 1) n.records, eq_self key) in
      ap (λ p. Idempotency.get key (node_of p).records) runs ∙ after_call-records m now_reserved ok

  execute_absent :
      Idempotency.get (idem_key env tc) n.records ≡ none → execute env kind tc n ≡ run env tc n
  unfolding execute
  execute_absent absent = ground arith

  execute_reserved :
      (m : Node)
      → Idempotency.get (idem_key env tc) m.records
        ≡ some (fresh_record (idem_key env tc) tc.name tc.args (env.now tc 1))
      → (node_of (execute env kind tc m)).dispatched ≡ sent_with tc tc.args m
  unfolding execute
  execute_reserved m h =
      let m' = record m { records = (Idempotency.mark_executing (idem_key env tc) m.records).1 } in
      let runs : execute env kind tc m ≡ run env tc m' = ground arith in
      ap (λ p. (node_of p).dispatched) runs ∙ run_sends env tc m'

  -- A successful call is sent again: where records are kept, a tool call whose key has no record and
  -- that the MCP server answers with success is sent a second time when it is executed again on the
  -- node that the first execution left.
  pub replay_sends_twice :
      Idempotency.get (idem_key env tc) n.records ≡ none
      → env.mcp (call_of tc) ≡ McpOutcome.returned r
      → r.success ≡ true
      → (node_of (execute env kind tc (node_of (execute env kind tc n)))).dispatched
        ≡ sent_with tc tc.args n ++ record { tool_call_id = tc.id; call = call_of tc } ∷ []
  replay_sends_twice absent answer ok =
      ap (λ p. (node_of (execute env kind tc (node_of p))).dispatched) (execute_absent absent)
      ∙ execute_reserved (node_of (run env tc n)) (run-reserved absent answer ok)
      ∙ ap (λ d. d ++ record { tool_call_id = tc.id; call = call_of tc } ∷ []) (run_sends env tc n)
