-- ===== src/Idempotency.antt =====
-- idempotency_store.py: the table of idempotency records.
pub mod Lifecycle
mod Tests
use fxfill_enterprise_bankin.Common.{
  ℕ, String, Bool, true, false, ◌||◌, Option, none, some, List, ◌==◌, eqb,
}
use fxfill_enterprise_bankin.Sql

pub data IdempotencyStatus : Type 0 where
  reserved executing succeeded failed unknown : IdempotencyStatus

pub record IdempotencyRecord : Type 0 where
  pub idempotency_key : String
  pub status : IdempotencyStatus
  pub tool_name : String
  pub tool_args : String
  pub result : Option String
  pub error : Option String
  pub created_at : ℕ
  pub completed_at : Option ℕ

-- `is_terminal` and `can_retry` of a record, by its status.
is_terminal : IdempotencyStatus → Bool
is_terminal succeeded = true
is_terminal failed = true
is_terminal _ = false

can_retry : IdempotencyStatus → Bool
can_retry reserved = true
can_retry failed = true
can_retry _ = false

abbrev pub record_key : IdempotencyRecord → String
record_key r = r.idempotency_key

abbrev pub is_reserved : IdempotencyRecord → Bool
is_reserved r = elim r.status [ reserved ↦ true | _ ↦ false ]

abbrev pub is_executing : IdempotencyRecord → Bool
is_executing r = elim r.status [ executing ↦ true | _ ↦ false ]

abbrev pub fresh_record : String → String → String → ℕ → IdempotencyRecord
fresh_record key tool_name tool_args now = record {
  idempotency_key = key;
  status = reserved;
  tool_name = tool_name;
  tool_args = tool_args;
  result = none;
  error = none;
  created_at = now;
  completed_at = none;
}

-- INSERT OR IGNORE. The SELECT that follows is `get`.
unfoldable pub reserve :
    String → String → String → ℕ → List IdempotencyRecord → List IdempotencyRecord
reserve key tool_name tool_args now =
    Sql.insert_or_ignore record_key (fresh_record key tool_name tool_args now)

unfoldable pub get : String → List IdempotencyRecord → Option IdempotencyRecord
get = Sql.find record_key

abbrev pub to_executing : IdempotencyRecord → IdempotencyRecord
to_executing r = record r { status = executing }

abbrev pub to_succeeded : String → ℕ → IdempotencyRecord → IdempotencyRecord
to_succeeded result now r = record r {
  status = succeeded;
  result = some result;
  completed_at = some now;
}

abbrev pub to_failed : String → ℕ → IdempotencyRecord → IdempotencyRecord
to_failed error now r = record r { status = failed; error = some error; completed_at = some now }

abbrev pub to_unknown : IdempotencyRecord → IdempotencyRecord
to_unknown r = record r { status = unknown }

abbrev pub always : IdempotencyRecord → Bool
always r = true

-- status IN ('RESERVED', 'EXECUTING')
abbrev pub is_open : IdempotencyRecord → Bool
is_open r = is_reserved r || is_executing r

-- UPDATE ... WHERE idempotency_key = key AND cond, and whether it changed one row
abbrev pub transition :
    (IdempotencyRecord → Bool)
    → (IdempotencyRecord → IdempotencyRecord)
    → String
    → List IdempotencyRecord
    → Bool × List IdempotencyRecord
transition cond set key rows =
    (eqb (Sql.rowcount record_key key cond rows) 1, Sql.update record_key key cond set rows)

unfoldable pub mark_executing : String → List IdempotencyRecord → Bool × List IdempotencyRecord
mark_executing = transition is_reserved to_executing

unfoldable pub mark_succeeded :
    String → String → ℕ → List IdempotencyRecord → Bool × List IdempotencyRecord
mark_succeeded key result now = transition is_executing (to_succeeded result now) key

unfoldable pub mark_failed :
    String → String → ℕ → List IdempotencyRecord → Bool × List IdempotencyRecord
mark_failed key error now = transition always (to_failed error now) key

unfoldable pub mark_unknown : String → List IdempotencyRecord → Bool × List IdempotencyRecord
mark_unknown = transition is_open to_unknown
