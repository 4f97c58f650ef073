-- ===== src/Idempotency/Lifecycle.antt =====
-- The status of an idempotency record under the operations of idempotency_store.py.
use fxfill_enterprise_bankin.Common.{
  ℕ, String, ◌≡◌, ◌≢◌, refl, Option, none, some, List, [], ◌∷◌, arith, ◌==◌, eq_iff, if◌then◌else◌,
}
use fxfill_enterprise_bankin.Sql
use fxfill_enterprise_bankin.Sql.{find-update, find-insert_or_ignore, rowcount-eq-hits}
use fxfill_enterprise_bankin.Idempotency.{
  IdempotencyRecord, executing, succeeded, record_key, is_reserved, is_executing, fresh_record,
  reserve, get, to_executing, to_succeeded, to_failed, to_unknown, always, is_open, mark_executing,
  mark_succeeded, mark_failed, mark_unknown,
}

module _ (k j : String) (rows : List IdempotencyRecord) where
  -- What is found after each operation.
  pub get-mark_executing :
      get j (mark_executing k rows).1
      ≡ (if k == j then Sql.touched is_reserved to_executing (get j rows) else get j rows)
  unfolding get mark_executing
  get-mark_executing = find-update record_key to_executing (λ r. refl) k j is_reserved rows

  pub get-mark_succeeded :
      (res : String) (now : ℕ)
      → get j (mark_succeeded k res now rows).1 ≡ (
          if k == j
          then Sql.touched is_executing (to_succeeded res now) (get j rows)
          else get j rows)
  unfolding get mark_succeeded
  get-mark_succeeded res now =
      find-update record_key (to_succeeded res now) (λ r. refl) k j is_executing rows

  pub get-mark_failed :
      (err : String) (now : ℕ)
      → get j (mark_failed k err now rows).1
        ≡ (if k == j then Sql.touched always (to_failed err now) (get j rows) else get j rows)
  unfolding get mark_failed
  get-mark_failed err now = find-update record_key (to_failed err now) (λ r. refl) k j always rows

  pub get-mark_unknown :
      get j (mark_unknown k rows).1
      ≡ (if k == j then Sql.touched is_open to_unknown (get j rows) else get j rows)
  unfolding get mark_unknown
  get-mark_unknown = find-update record_key to_unknown (λ r. refl) k j is_open rows

-- `reserve` keeps the record that is there, and stores a RESERVED one where there is none.
pub get-reserve :
    (k j name args : String) (now : ℕ) (rows : List IdempotencyRecord)
    → get j (reserve k name args now rows) ≡ (
        if k == j
        then some (elim (get j rows) [ none ↦ fresh_record k name args now | some r ↦ r ])
        else get j rows)
unfolding get reserve
get-reserve k j name args now rows =
    find-insert_or_ignore record_key j (fresh_record k name args now) rows

-- The operations of the store, and what each makes of the table.
pub data Op : Type 0 where
  do_reserve : (key tool_name tool_args : String) → ℕ → Op
  do_executing : (key : String) → Op
  do_succeeded : (key result : String) → ℕ → Op
  do_failed : (key error : String) → ℕ → Op
  do_unknown : (key : String) → Op

pub apply : Op → List IdempotencyRecord → List IdempotencyRecord
apply (do_reserve k name args now) rows = reserve k name args now rows
apply (do_executing k) rows = (mark_executing k rows).1
apply (do_succeeded k res now) rows = (mark_succeeded k res now rows).1
apply (do_failed k err now) rows = (mark_failed k err now rows).1
apply (do_unknown k) rows = (mark_unknown k rows).1

pub run : List Op → List IdempotencyRecord → List IdempotencyRecord
run [] rows = rows
run (op ∷ ops) rows = run ops (apply op rows)

-- A property of every operation of a sequence.
abbrev pub Each : (Op → Type 0) → List Op → Type 0
Each P [] = Unit
Each P (op ∷ ops) = P op × Each P ops

-- The operation does not mark the key EXECUTING.
abbrev pub IsNoStart : String → Op → Type 0
IsNoStart k (do_executing j) = j ≢ k
IsNoStart k _ = Unit

-- The record, if there is one, is neither EXECUTING nor SUCCEEDED.
abbrev pub IsUnstarted : Option IdempotencyRecord → Type 0
IsUnstarted none = Unit
IsUnstarted (some r) = (r.status ≢ executing) × (r.status ≢ succeeded)

apply-IsUnstarted :
    (k : String) (op : Op) (rows : List IdempotencyRecord)
    → IsNoStart k op
    → IsUnstarted (get k rows)
    → IsUnstarted (get k (apply op rows))
unfolding apply
apply-IsUnstarted k (do_reserve j name args now) rows n h =
    ground (arith, get-reserve j k name args now rows)
apply-IsUnstarted k (do_executing j) rows n h =
    ground (arith, get-mark_executing j k rows, eq_iff j k)
apply-IsUnstarted k (do_succeeded j res now) rows n h =
    ground (arith, get-mark_succeeded j k rows res now)
apply-IsUnstarted k (do_failed j err now) rows n h =
    ground (arith, get-mark_failed j k rows err now)
apply-IsUnstarted k (do_unknown j) rows n h = ground (arith, get-mark_unknown j k rows)

-- A key that is never marked EXECUTING is never SUCCEEDED: from a table where its record, if there
-- is one, is neither EXECUTING nor SUCCEEDED, it is neither after any sequence of operations that
-- does not mark it EXECUTING, however often `mark_succeeded` is called.
pub run-IsUnstarted :
    (k : String) (ops : List Op) (rows : List IdempotencyRecord)
    → Each (IsNoStart k) ops
    → IsUnstarted (get k rows)
    → IsUnstarted (get k (run ops rows))
unfolding run
run-IsUnstarted k [] rows n h = h
run-IsUnstarted k (op ∷ ops) rows n h =
    run-IsUnstarted k ops (apply op rows) n.1 (apply-IsUnstarted k op rows n.0 h)

-- The operation does not mark the key FAILED.
abbrev pub IsNoFailure : String → Op → Type 0
IsNoFailure k (do_failed j _ _) = j ≢ k
IsNoFailure k _ = Unit

apply_succeeded :
    (k : String) (op : Op) (rows : List IdempotencyRecord) (r : IdempotencyRecord)
    → IsNoFailure k op
    → get k rows ≡ some r
    → r.status ≡ succeeded
    → get k (apply op rows) ≡ some r
unfolding apply
apply_succeeded k (do_reserve j name args now) rows r n h st =
    ground (arith, get-reserve j k name args now rows)
apply_succeeded k (do_executing j) rows r n h st = ground (arith, get-mark_executing j k rows)
apply_succeeded k (do_succeeded j res now) rows r n h st =
    ground (arith, get-mark_succeeded j k rows res now)
apply_succeeded k (do_failed j err now) rows r n h st =
    ground (arith, get-mark_failed j k rows err now, eq_iff j k)
apply_succeeded k (do_unknown j) rows r n h st = ground (arith, get-mark_unknown j k rows)

-- A SUCCEEDED record, its result included, survives any sequence of operations that does not mark
-- its key FAILED.
pub run_succeeded :
    (k : String) (ops : List Op) (rows : List IdempotencyRecord) (r : IdempotencyRecord)
    → Each (IsNoFailure k) ops
    → get k rows ≡ some r
    → r.status ≡ succeeded
    → get k (run ops rows) ≡ some r
unfolding run
run_succeeded k [] rows r n h st = h
run_succeeded k (op ∷ ops) rows r n h st =
    run_succeeded k ops (apply op rows) r n.1 (apply_succeeded k op rows r n.0 h st) st
