-- ===== src/Grants/Lifecycle.antt =====
-- The life of a grant over any sequence of the operations of grant_repo.py. Approvers that run at
-- the same time make such a sequence: each statement of the repository is atomic.
use fxfill_enterprise_bankin.Common.{
  ℕ, ◌+◌, String, ◌≡◌, Bool, true, false, ◌||◌, not, Option, none, some, List, [], ◌∷◌, arith, ◌==◌,
  eq_iff, if◌then◌else◌, inl, inr, Option-cases,
}
use fxfill_enterprise_bankin.Sql
use fxfill_enterprise_bankin.Sql.{update-IsUnique}
use fxfill_enterprise_bankin.Grants.{
  GrantStatus, GrantRecord, ConsumeRequest, pending, approved, consuming, consumed, failed,
  rejected, reconciliation_required, unknown, is_approved, is_consuming, is_unspent, insert_pending,
  get_by_session, claims, to_consuming, atomic_consume, mark_consumed, mark_failed, mark_rejected,
  mark_reconciliation_required, mark_unknown, approve_pending,
}
use fxfill_enterprise_bankin.Grants.Statements.{
  get-mark_consumed, get-mark_failed, get-mark_unknown, get-mark_rejected,
  get-mark_reconciliation_required, get-approve_pending, get-atomic_consume, get-insert_pending,
}

pub data Op : Type 0 where
  do_insert : GrantRecord → Op
  do_approve : (session_id actor : String) → (expected_version now : ℕ) → Op
  do_consume : ConsumeRequest → (now : ℕ) → Op
  do_consumed do_failed do_rejected do_reconciliation do_unknown :
      (session_id : String) → (now : ℕ) → Op

abbrev pub or_same : List GrantRecord → Option (List GrantRecord) → List GrantRecord
or_same rows none = rows
or_same rows (some rows') = rows'

module _ (sha256 : String → String) where
  unfoldable pub apply : Op → List GrantRecord → List GrantRecord
  apply (do_insert g) rows = or_same rows (insert_pending g rows)
  apply (do_approve k actor v now) rows = (approve_pending k actor v now rows).1
  apply (do_consume q now) rows = (atomic_consume sha256 q now rows).1
  apply (do_consumed k now) rows = mark_consumed k now rows
  apply (do_failed k now) rows = mark_failed k now rows
  apply (do_rejected k now) rows = mark_rejected k now rows
  apply (do_reconciliation k now) rows = mark_reconciliation_required k now rows
  apply (do_unknown k now) rows = mark_unknown k now rows

  unfoldable pub run : List Op → List GrantRecord → List GrantRecord
  run [] rows = rows
  run (op ∷ ops) rows = run ops (apply op rows)

  abbrev pub won : String → ConsumeRequest → Option GrantRecord → ℕ
  won k q none = 0
  won k q (some _) = if q.session_id == k then 1 else 0

  -- 1 if the operation is a claim of the session's grant that hands the grant out, else 0.
  unfoldable pub wins : String → Op → List GrantRecord → ℕ
  wins k (do_consume q now) rows = won k q (atomic_consume sha256 q now rows).0
  wins k _ rows = 0

  -- How many claims of the session's grant a sequence of operations hands out.
  unfoldable pub claims_won : String → List Op → List GrantRecord → ℕ
  claims_won k [] rows = 0
  claims_won k (op ∷ ops) rows = wins k op rows + claims_won k ops (apply op rows)

-- The transitions that a grant's status may make, staying included.
abbrev pub can_move : GrantStatus → GrantStatus → Bool
can_move pending pending = true
can_move pending approved = true
can_move pending rejected = true
can_move pending reconciliation_required = true
can_move approved approved = true
can_move approved consuming = true
can_move approved rejected = true
can_move consuming consuming = true
can_move consuming consumed = true
can_move consuming failed = true
can_move consuming unknown = true
can_move consumed consumed = true
can_move failed failed = true
can_move rejected rejected = true
can_move reconciliation_required reconciliation_required = true
can_move unknown unknown = true
can_move _ _ = false

-- What the approver saw, and the claim is checked against.
pub record SameBinding (g g' : GrantRecord) : Type 0 where
  pub requesting_user_id : g'.requesting_user_id ≡ g.requesting_user_id
  pub thread_id : g'.thread_id ≡ g.thread_id
  pub tool_call_id : g'.tool_call_id ≡ g.tool_call_id
  pub tool_name : g'.tool_name ≡ g.tool_name
  pub canonical_tool_args : g'.canonical_tool_args ≡ g.canonical_tool_args
  pub argument_digest : g'.argument_digest ≡ g.argument_digest
  pub idempotency_key : g'.idempotency_key ≡ g.idempotency_key
  pub version : g'.version ≡ g.version

abbrev pub Follows : Option GrantRecord → Option GrantRecord → Type 0
Follows none after = Unit
Follows (some g) none = ⊥
Follows (some g) (some g') = (can_move g.status g'.status ≡ true) × SameBinding g g'

pub claims-approved :
    (d : String) (q : ConsumeRequest) (now : ℕ) (g : GrantRecord)
    → claims d q now g ≡ true
    → is_approved g ≡ true
unfolding claims
claims-approved d q now g h = ground arith

consume-Follows :
    (d : String) (q : ConsumeRequest) (now : ℕ) (b : Bool) (o : Option GrantRecord)
    → Follows o (if b then Sql.touched (claims d q now) (to_consuming now) o else o)
consume-Follows d q now b none = ground arith
consume-Follows d q now b (some g) = ground (arith, claims-approved d q now g)

module _ (sha256 : String → String) (k : String) where
  insert-Follows :
      (g : GrantRecord) (rows : List GrantRecord)
      → Follows (get_by_session k rows) (get_by_session k (or_same rows (insert_pending g rows)))
  insert-Follows g rows = elim (Option-cases (insert_pending g rows)) [
    | inl e ↦ ground arith
    | inr (rows', e) ↦ ground (arith, get-insert_pending g k rows rows' e, eq_iff g.session_id k)
  ]

  -- Whatever operation runs, a stored grant stays stored, its status stays or makes a legal
  -- transition, and what it binds (user, thread, call, tool, arguments, digest, key, version) is
  -- as before.
  pub apply-Follows :
      (op : Op) (rows : List GrantRecord)
      → Follows (get_by_session k rows) (get_by_session k (apply sha256 op rows))
  unfolding apply
  apply-Follows (do_insert g) rows = insert-Follows g rows
  apply-Follows (do_approve j actor v now) rows =
      ground (arith, get-approve_pending j k now rows actor v)
  apply-Follows (do_consume q now) rows =
      rw (get-atomic_consume sha256 q now rows k)
        (consume-Follows (sha256 q.tool_args) q now (q.session_id == k) (get_by_session k rows))
  apply-Follows (do_consumed j now) rows = ground (arith, get-mark_consumed j k now rows)
  apply-Follows (do_failed j now) rows = ground (arith, get-mark_failed j k now rows)
  apply-Follows (do_rejected j now) rows = ground (arith, get-mark_rejected j k now rows)
  apply-Follows (do_reconciliation j now) rows =
      ground (arith, get-mark_reconciliation_required j k now rows)
  apply-Follows (do_unknown j now) rows = ground (arith, get-mark_unknown j k now rows)

  -- A grant that is spent, that is, neither PENDING nor APPROVED nor CONSUMING.
  abbrev pub is_final : GrantRecord → Bool
  is_final g = not (is_unspent g || is_consuming g)

  apply_final :
      (op : Op) (rows : List GrantRecord) (g : GrantRecord)
      → get_by_session k rows ≡ some g
      → is_final g ≡ true
      → get_by_session k (apply sha256 op rows) ≡ some g
  unfolding apply
  apply_final (do_insert n) rows g e f = elim (Option-cases (insert_pending n rows)) [
    | inl none_in ↦ ground arith
    | inr (rows', some_in) ↦
        ground (arith, get-insert_pending n k rows rows' some_in, eq_iff n.session_id k)
  ]
  apply_final (do_approve j actor v now) rows g e f =
      ground (arith, get-approve_pending j k now rows actor v)
  apply_final (do_consume q now) rows g e f =
      ground (
        arith,
        get-atomic_consume sha256 q now rows k,
        claims-approved (sha256 q.tool_args) q now g,
      )
  apply_final (do_consumed j now) rows g e f = ground (arith, get-mark_consumed j k now rows)
  apply_final (do_failed j now) rows g e f = ground (arith, get-mark_failed j k now rows)
  apply_final (do_rejected j now) rows g e f = ground (arith, get-mark_rejected j k now rows)
  apply_final (do_reconciliation j now) rows g e f =
      ground (arith, get-mark_reconciliation_required j k now rows)
  apply_final (do_unknown j now) rows g e f = ground (arith, get-mark_unknown j k now rows)

  -- A grant that is CONSUMED, FAILED, REJECTED, UNKNOWN or up for reconciliation stays the same
  -- row through any sequence of repository operations, inserts under its id included.
  pub run_final :
      (ops : List Op) (rows : List GrantRecord) (g : GrantRecord)
      → get_by_session k rows ≡ some g
      → is_final g ≡ true
      → get_by_session k (run sha256 ops rows) ≡ some g
  unfolding run
  run_final [] rows g e f = e
  run_final (op ∷ ops) rows g e f =
      run_final ops (apply sha256 op rows) g (apply_final op rows g e f) f
