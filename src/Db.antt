-- ===== src/Db.antt =====
-- db.py: the schema version and the migrations. A table is there or not; of the grants the rows are
-- kept, of the sessions whether the table has the column `tool_call_id`. sqlite3 commits each CREATE
-- and ALTER outside a transaction at once, and an INSERT opens a transaction that is lost if the
-- migration raises before its commit. Other names of tables, and the indexes, are left out.
pub mod Migrations
mod Tests
use fxfill_enterprise_bankin.Common.{
  ℕ, zero, suc, String, Bool, true, false, not, ◌&&◌, ◌||◌, Option, none, some, List, [], ◌∷◌, ◌++◌,
  ◌==◌, ltb, leb, any, is_nonempty, if◌then◌else◌,
}
use fxfill_enterprise_bankin.Sql
use fxfill_enterprise_bankin.Grants.{GrantRecord, GrantStatus, clashes}

pub record Db : Type 0 where
  -- the greatest row of _schema_version, 0 if there is none
  pub version : ℕ
  -- events, checkpoints and idempotency_records
  pub core : Bool
  -- hitl_sessions, and whether it has tool_call_id
  pub sessions : Option Bool
  pub grants : Option (List GrantRecord)
  -- approved_operation_grants_v3 and approved_operation_grants_v5
  pub scratch_v3 : Bool
  pub scratch_v5 : Bool
  pub channel_writes : Bool

-- A migration returns, raises RuntimeError, or raises an error of SQLite; what it has committed
-- stays.
pub data Outcome : Type 0 where
  ok runtime_error sql_error : Db → Outcome

infixl 5 ◌>>=◌
abbrev pub ◌>>=◌ : Outcome → (Db → Outcome) → Outcome
ok db >>= f = f db
runtime_error db >>= f = runtime_error db
sql_error db >>= f = sql_error db

-- CREATE TABLE IF NOT EXISTS
abbrev pub or_new {ℓ} : {A : Type ℓ} → A → Option A → Option A
or_new x none = some x
or_new x (some y) = some y

unfoldable pub migrate_v1 : Db → Outcome
migrate_v1 db = ok (record db { core = true; sessions = or_new false db.sessions })

unfoldable pub migrate_v2 : Db → Outcome
migrate_v2 db = ok (record db { grants = or_new [] db.grants })

-- SELECT session_id ... GROUP BY session_id HAVING cnt > 1
unfoldable pub duplicate_sessions : List GrantRecord → Bool
duplicate_sessions [] = false
duplicate_sessions (g ∷ gs) = any (λ h. h.session_id == g.session_id) gs || duplicate_sessions gs

-- The same for the idempotency keys that are not empty.
unfoldable pub duplicate_keys : List GrantRecord → Bool
duplicate_keys [] = false
duplicate_keys (g ∷ gs) =
    is_nonempty g.idempotency_key && any (λ h. h.idempotency_key == g.idempotency_key) gs
    || duplicate_keys gs

-- The CHECK constraints of the two rebuilt tables.
abbrev pub is_decision : GrantRecord → Bool
is_decision g = g.decision == "PENDING" || (g.decision == "approved" || g.decision == "rejected")

unfoldable pub fits_v3 : GrantRecord → Bool
fits_v3 g =
    is_decision g && elim g.status [ GrantStatus.reconciliation_required ↦ false | _ ↦ true ]

unfoldable pub fits_v5 : GrantRecord → Bool
fits_v5 g = is_decision g

abbrev pub and_copy :
    Option (List GrantRecord)
    → (List GrantRecord → Option (List GrantRecord))
    → Option (List GrantRecord)
and_copy none rest = none
and_copy (some rows) rest = rest rows

-- INSERT INTO ... SELECT *: it fails if a row does.
unfoldable pub copy_rows :
    (GrantRecord → Bool) → List GrantRecord → List GrantRecord → Option (List GrantRecord)
copy_rows fits [] rows = some rows
copy_rows fits (g ∷ gs) rows =
    and_copy (if fits g then Sql.insert clashes g rows else none) (copy_rows fits gs)

abbrev pub replace_v3 : Db → Option (List GrantRecord) → Outcome
replace_v3 db none = sql_error (record db { scratch_v3 = true })
replace_v3 db (some rows) = ok (record db { grants = some rows })

abbrev pub rebuild_v3 : Db → Option (List GrantRecord) → Outcome
rebuild_v3 db none = sql_error db
rebuild_v3 db (some rows) =
    if duplicate_sessions rows
    then runtime_error db
    else if duplicate_keys rows
    then runtime_error db
    else if db.scratch_v3
    then sql_error db
    else replace_v3 db (copy_rows fits_v3 rows [])

unfoldable pub migrate_v3 : Db → Outcome
migrate_v3 db = rebuild_v3 db db.grants

-- ALTER TABLE hitl_sessions ADD COLUMN
abbrev pub add_column : Db → Option Bool → Outcome
add_column db none = sql_error db
add_column db (some true) = sql_error db
add_column db (some false) = ok (record db { sessions = some true })

unfoldable pub migrate_v4 : Db → Outcome
migrate_v4 db = add_column db db.sessions

abbrev pub replace_v5 : Db → Option (List GrantRecord) → Outcome
replace_v5 db none = sql_error (record db { scratch_v5 = true })
replace_v5 db (some rows) = ok (record db { grants = some rows })

-- Where the old table is missing, the new one has been created before the SELECT fails.
abbrev pub rebuild_v5 : Db → Option (List GrantRecord) → Outcome
rebuild_v5 db none = sql_error (record db { scratch_v5 = true })
rebuild_v5 db (some rows) =
    if db.scratch_v5 then sql_error db else replace_v5 db (copy_rows fits_v5 rows [])

unfoldable pub migrate_v5 : Db → Outcome
migrate_v5 db = rebuild_v5 db db.grants

unfoldable pub migrate_v6 : Db → Outcome
migrate_v6 db = ok (record db { channel_writes = true })

-- `if current < n and schema_version >= n`
abbrev pub step : ℕ → ℕ → ℕ → (Db → Outcome) → Db → Outcome
step current schema_version n migrate db =
    if ltb current n && leb n schema_version then migrate db else ok db

abbrev pub write_version : ℕ → ℕ → Db → Outcome
write_version current schema_version db =
    if ltb current schema_version then ok (record db { version = schema_version }) else ok db

unfoldable pub init_database : ℕ → Db → Outcome
init_database schema_version db =
    let current = db.version in
    if ltb schema_version current
    then runtime_error db
    else step current schema_version 1 migrate_v1 db
      >>= step current schema_version 2 migrate_v2
      >>= step current schema_version 3 migrate_v3
      >>= step current schema_version 4 migrate_v4
      >>= step current schema_version 5 migrate_v5
      >>= step current schema_version 6 migrate_v6
      >>= write_version current schema_version

-- A new database file.
abbrev pub new_file : Db
new_file = record {
  version = 0;
  core = false;
  sessions = none;
  grants = none;
  scratch_v3 = false;
  scratch_v5 = false;
  channel_writes = false;
}
