-- ===== src/Hitl.antt =====
-- hitl_store.py: the table of human-in-the-loop sessions. A timestamp is a number of microseconds,
-- and a dict of tool arguments stands for its canonical JSON text.
pub mod Locking
mod Tests
use fxfill_enterprise_bankin.Common.{
  ℕ, ◌+◌, String, Bool, true, false, ◌&&◌, ◌||◌, Option, none, some, List, ◌==◌, ltb, eqb,
  is_nonempty, if◌then◌else◌,
}
use fxfill_enterprise_bankin.Sql

pub data HitlSessionStatus : Type 0 where
  pending approved rejected expired resumed failed reconciliation_required : HitlSessionStatus

pub record HitlSession : Type 0 where
  pub session_id : String
  pub user_id : String
  pub thread_id : String
  pub status : HitlSessionStatus
  pub tool_name : String
  pub tool_args : String
  pub authorization_decision : Option String
  pub approval_requirement : Option String
  pub idempotency_key : Option String
  pub version : ℕ
  pub created_at : ℕ
  pub updated_at : ℕ
  pub expires_at : Option ℕ
  pub tool_call_id : String

-- The tuple of `HITLSession.is_terminal`.
unfoldable pub is_terminal : HitlSessionStatus → Bool
is_terminal approved = true
is_terminal rejected = true
is_terminal expired = true
is_terminal failed = true
is_terminal reconciliation_required = true
is_terminal _ = false

-- now > expires_at, and False where there is none
unfoldable pub is_expired : ℕ → HitlSession → Bool
is_expired now s = elim s.expires_at [ none ↦ false | some e ↦ ltb e now ]

abbrev pub session_key : HitlSession → String
session_key s = s.session_id

-- Two values of a UNIQUE column that may be NULL.
abbrev pub same_value : Option String → Option String → Bool
same_value (some a) (some b) = a == b
same_value _ _ = false

-- PRIMARY KEY (session_id), UNIQUE (idempotency_key)
abbrev pub clashes : HitlSession → HitlSession → Bool
clashes new old =
    old.session_id == new.session_id || same_value old.idempotency_key new.idempotency_key

-- `none` is an IntegrityError.
unfoldable pub insert : HitlSession → List HitlSession → Option (List HitlSession)
insert = Sql.insert clashes

unfoldable pub get : String → List HitlSession → Option HitlSession
get = Sql.find session_key

abbrev pub has_version : ℕ → HitlSession → Bool
has_version expected s = eqb s.version expected

abbrev pub with_status : HitlSessionStatus → ℕ → HitlSession → HitlSession
with_status status now s = record s { status = status; updated_at = now; version = s.version + 1 }

unfoldable pub update_status :
    String → HitlSessionStatus → ℕ → ℕ → List HitlSession → Bool × List HitlSession
update_status session_id status expected_version now rows = (
  eqb (Sql.rowcount session_key session_id (has_version expected_version) rows) 1,
  Sql.update session_key session_id (has_version expected_version) (with_status status now) rows,
)

abbrev pub is_pending : HitlSessionStatus → Bool
is_pending pending = true
is_pending _ = false

-- `if user_id:` takes neither None nor the empty text.
abbrev pub pending_for : Option String → HitlSession → Bool
pending_for none s = is_pending s.status
pending_for (some user) s =
    if is_nonempty user then is_pending s.status && s.user_id == user else is_pending s.status

list_pending : Option String → List HitlSession → List HitlSession
list_pending user_id = Sql.select (pending_for user_id)

-- status='PENDING' AND expires_at IS NOT NULL AND expires_at < now
abbrev pub is_stale : ℕ → HitlSession → Bool
is_stale now s = is_pending s.status && (elim s.expires_at [ none ↦ false | some e ↦ ltb e now ])

abbrev pub to_expired : ℕ → HitlSession → HitlSession
to_expired now s = record s { status = expired; updated_at = now }

unfoldable pub expire_stale_sessions : ℕ → List HitlSession → ℕ × List HitlSession
expire_stale_sessions now rows =
    (Sql.rowcount_all (is_stale now) rows, Sql.update_all (is_stale now) (to_expired now) rows)
