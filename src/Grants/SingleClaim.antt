-- ===== src/Grants/SingleClaim.antt =====
-- `atomic_consume` under concurrent approvers: their statements reach the table in some order.
use fxfill_enterprise_bankin.Common.{
  ℕ, ◌+◌, ◌≤◌, String, ◌≡◌, refl, Option, none, some, List, [], ◌∷◌, arith, eq_iff, if◌then◌else◌,
  inl, inr, Option-cases,
}
use fxfill_enterprise_bankin.Sql.{update-IsUnique}
use fxfill_enterprise_bankin.Grants.{
  GrantRecord, ConsumeRequest, failed, rejected, reconciliation_required, unknown, grant_key,
  is_pending, is_consuming, is_unspent, insert_pending, get_by_session, claims, to_consuming,
  to_consumed, to_failure, to_approved, is_pending_at, atomic_consume, mark_consumed, mark_failed,
  mark_rejected, mark_reconciliation_required, mark_unknown, approve_pending,
}
use fxfill_enterprise_bankin.Grants.Statements.{
  IsTable, get-mark_consumed, get-mark_failed, get-mark_unknown, get-mark_rejected,
  get-mark_reconciliation_required, get-approve_pending, get-atomic_consume, atomic_consume_outcome,
  get-insert_pending, insert_pending-IsTable,
}
use fxfill_enterprise_bankin.Grants.Lifecycle.{
  Op, do_insert, do_approve, do_consume, do_consumed, do_failed, do_rejected, do_reconciliation,
  do_unknown, apply, wins, claims_won, claims-approved,
}

-- How many claims the grant at an id can still win.
abbrev pub room : Option GrantRecord → ℕ
room none = 1
room (some g) = if is_unspent g then 1 else 0

module _ (sha256 : String → String) where
  pub apply-IsTable :
      (op : Op) (rows : List GrantRecord) → IsTable rows → IsTable (apply sha256 op rows)
  unfolding apply approve_pending atomic_consume mark_consumed mark_failed mark_rejected
      mark_reconciliation_required mark_unknown
  apply-IsTable (do_insert g) rows u = elim (Option-cases (insert_pending g rows)) [
    | inl e ↦ rw e u
    | inr (rows', e) ↦ rw e (insert_pending-IsTable g rows rows' e u)
  ]
  apply-IsTable (do_approve j actor v now) rows u =
      update-IsUnique grant_key (to_approved actor now) (λ r. refl) j (is_pending_at v) rows u
  apply-IsTable (do_consume q now) rows u =
      update-IsUnique grant_key (to_consuming now) (λ r. refl) q.session_id
        (claims (sha256 q.tool_args) q now) rows u
  apply-IsTable (do_consumed j now) rows u =
      update-IsUnique grant_key (to_consumed now) (λ r. refl) j is_consuming rows u
  apply-IsTable (do_failed j now) rows u =
      update-IsUnique grant_key (to_failure failed now) (λ r. refl) j is_consuming rows u
  apply-IsTable (do_rejected j now) rows u =
      update-IsUnique grant_key (to_failure rejected now) (λ r. refl) j is_unspent rows u
  apply-IsTable (do_reconciliation j now) rows u =
      update-IsUnique grant_key (to_failure reconciliation_required now) (λ r. refl) j is_pending
        rows u
  apply-IsTable (do_unknown j now) rows u =
      update-IsUnique grant_key (to_failure unknown now) (λ r. refl) j is_consuming rows u

  module _ (k : String) where
    consume_room :
        (q : ConsumeRequest) (now : ℕ) (rows : List GrantRecord) (o : Option GrantRecord)
        → IsTable rows
        → get_by_session k rows ≡ o
        → wins sha256 k (do_consume q now) rows
            + room (get_by_session k (apply sha256 (do_consume q now) rows))
          ≤ room o
    unfolding apply wins
    consume_room q now rows none u e = ground (
      arith,
      get-atomic_consume sha256 q now rows k,
      atomic_consume_outcome sha256 q now rows u,
      eq_iff q.session_id k,
    )
    consume_room q now rows (some g) u e = ground (
      arith,
      get-atomic_consume sha256 q now rows k,
      atomic_consume_outcome sha256 q now rows u,
      eq_iff q.session_id k,
      claims-approved (sha256 q.tool_args) q now g,
    )

    pub step_room :
        (op : Op) (rows : List GrantRecord)
        → IsTable rows
        → wins sha256 k op rows + room (get_by_session k (apply sha256 op rows))
          ≤ room (get_by_session k rows)
    unfolding apply wins
    step_room (do_insert g) rows u = elim (Option-cases (insert_pending g rows)) [
      | inl e ↦ ground arith
      | inr (rows', e) ↦ ground (arith, get-insert_pending g k rows rows' e, eq_iff g.session_id k)
    ]
    step_room (do_approve j actor v now) rows u =
        ground (arith, get-approve_pending j k now rows actor v)
    step_room (do_consume q now) rows u = consume_room q now rows (get_by_session k rows) u refl
    step_room (do_consumed j now) rows u = ground (arith, get-mark_consumed j k now rows)
    step_room (do_failed j now) rows u = ground (arith, get-mark_failed j k now rows)
    step_room (do_rejected j now) rows u = ground (arith, get-mark_rejected j k now rows)
    step_room (do_reconciliation j now) rows u =
        ground (arith, get-mark_reconciliation_required j k now rows)
    step_room (do_unknown j now) rows u = ground (arith, get-mark_unknown j k now rows)

    run_room :
        (ops : List Op) (rows : List GrantRecord)
        → IsTable rows
        → claims_won sha256 k ops rows ≤ room (get_by_session k rows)
    unfolding claims_won
    run_room [] rows u = omega arith
    run_room (op ∷ ops) rows u =
        omega (
          arith,
          step_room op rows u,
          run_room ops (apply sha256 op rows) (apply-IsTable op rows u),
        )

    -- However many approvers race for the grant of a session, and in whatever order their
    -- statements (and inserts, marks and retries) reach the table, at most one claim hands the
    -- grant out, from any table whose session ids are unique.
    pub at_most_one_claim :
        (ops : List Op) (rows : List GrantRecord) → IsTable rows → claims_won sha256 k ops rows ≤ 1
    at_most_one_claim ops rows u = ground (arith, run_room ops rows u)
