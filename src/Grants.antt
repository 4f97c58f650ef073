-- ===== src/Grants.antt =====
-- grant_repo.py: the table of approved-operation grants. A dict of tool arguments stands for its
-- canonical JSON text, and `sha256` of the library for the digest of a text.
pub mod Statements
pub mod Lifecycle
pub mod SingleClaim
pub mod Binding
mod Tests
use fxfill_enterprise_bankin.Common.{
  ℕ, String, Bool, true, false, ◌&&◌, ◌||◌, Option, none, some, List, ◌==◌, ltb, eqb, if◌then◌else◌,
}
use fxfill_enterprise_bankin.Sql

pub data GrantStatus : Type 0 where
  pending approved consuming consumed failed rejected reconciliation_required unknown : GrantStatus

pub record GrantRecord : Type 0 where
  pub session_id : String
  pub requesting_user_id : String
  pub approving_actor_id : String
  pub thread_id : String
  pub run_id : Option String
  pub checkpoint_id : Option String
  pub tool_call_id : String
  pub tool_name : String
  pub canonical_tool_args : String
  pub argument_digest : String
  pub idempotency_key : String
  pub decision : String
  pub status : GrantStatus
  pub created_at : ℕ
  pub approved_at : Option ℕ
  pub expires_at : Option ℕ
  pub consuming_at : Option ℕ
  pub consumed_at : Option ℕ
  pub failed_at : Option ℕ
  pub version : ℕ

-- The keyword arguments of `atomic_consume`.
pub record ConsumeRequest : Type 0 where
  pub session_id : String
  pub user_id : String
  pub approving_actor_id : String
  pub thread_id : String
  pub run_id : String
  pub checkpoint_id : String
  pub tool_call_id : String
  pub tool_name : String
  pub tool_args : String
  pub idempotency_key : String
  pub version : ℕ

abbrev pub grant_key : GrantRecord → String
grant_key g = g.session_id

abbrev pub is_pending : GrantRecord → Bool
is_pending g = elim g.status [ pending ↦ true | _ ↦ false ]

abbrev pub is_approved : GrantRecord → Bool
is_approved g = elim g.status [ approved ↦ true | _ ↦ false ]

abbrev pub is_consuming : GrantRecord → Bool
is_consuming g = elim g.status [ consuming ↦ true | _ ↦ false ]

-- status IN ('PENDING', 'APPROVED')
abbrev pub is_unspent : GrantRecord → Bool
is_unspent g = is_pending g || is_approved g

-- session_id PRIMARY KEY, idempotency_key UNIQUE
abbrev pub clashes : GrantRecord → GrantRecord → Bool
clashes new old = old.session_id == new.session_id || old.idempotency_key == new.idempotency_key

-- The row that the INSERT writes: PENDING, at version 1, with the later times left NULL.
abbrev pub as_pending : GrantRecord → GrantRecord
as_pending g = record g {
  status = pending;
  approved_at = none;
  consuming_at = none;
  consumed_at = none;
  failed_at = none;
  version = 1;
}

-- CHECK(decision IN (...))
abbrev pub is_decision : String → Bool
is_decision d = d == "PENDING" || d == "approved" || d == "rejected"

-- `none` is an IntegrityError.
unfoldable pub insert_pending : GrantRecord → List GrantRecord → Option (List GrantRecord)
insert_pending g rows =
    if is_decision g.decision then Sql.insert clashes (as_pending g) rows else none

unfoldable pub get_by_session : String → List GrantRecord → Option GrantRecord
get_by_session = Sql.find grant_key

-- column = arg OR column IS NULL OR arg = ''
abbrev pub matches_optional : Option String → String → Bool
matches_optional none arg = true
matches_optional (some value) arg = value == arg || arg == ""

abbrev pub unexpired : Option ℕ → ℕ → Bool
unexpired none now = true
unexpired (some e) now = ltb now e

-- The WHERE clause of `atomic_consume` but for the session id, at the digest of the arguments.
unfoldable pub claims : String → ConsumeRequest → ℕ → GrantRecord → Bool
claims digest q now g =
    is_approved g
    && (eqb g.version q.version
        && (g.requesting_user_id == q.user_id
            && (g.thread_id == q.thread_id
                && ((g.approving_actor_id == q.approving_actor_id
                      || (g.approving_actor_id == "" || q.approving_actor_id == ""))
                    && (matches_optional g.run_id q.run_id
                        && (matches_optional g.checkpoint_id q.checkpoint_id
                            && (g.tool_call_id == q.tool_call_id
                                && (g.tool_name == q.tool_name
                                    && (g.argument_digest == digest
                                        && (g.idempotency_key == q.idempotency_key
                                            && unexpired g.expires_at now))))))))))

abbrev pub to_consuming : ℕ → GrantRecord → GrantRecord
to_consuming now g = record g { status = consuming; consuming_at = some now }

abbrev pub to_consumed : ℕ → GrantRecord → GrantRecord
to_consumed now g = record g { status = consumed; consumed_at = some now }

-- SET status = ?, failed_at = ?
abbrev pub to_failure : GrantStatus → ℕ → GrantRecord → GrantRecord
to_failure st now g = record g { status = st; failed_at = some now }

abbrev pub to_approved : String → ℕ → GrantRecord → GrantRecord
to_approved actor now g = record g {
  status = approved;
  approving_actor_id = actor;
  approved_at = some now;
}

-- status='PENDING' AND version=?
abbrev pub is_pending_at : ℕ → GrantRecord → Bool
is_pending_at expected g = is_pending g && eqb g.version expected

-- The row read back after the claim, if the claim changed a row.
unfoldable pub atomic_consume :
    (String → String)
    → ConsumeRequest
    → ℕ
    → List GrantRecord
    → Option GrantRecord × List GrantRecord
atomic_consume sha256 q now rows =
    let cond = claims (sha256 q.tool_args) q now in
    let rows' = Sql.update grant_key q.session_id cond (to_consuming now) rows in
    (
      if eqb (Sql.rowcount grant_key q.session_id cond rows) 0
          then none
          else Sql.first (λ g. g.session_id == q.session_id && is_consuming g) rows',
      rows',
    )

unfoldable pub mark_consumed : String → ℕ → List GrantRecord → List GrantRecord
mark_consumed session_id now = Sql.update grant_key session_id is_consuming (to_consumed now)

unfoldable pub mark_failed : String → ℕ → List GrantRecord → List GrantRecord
mark_failed session_id now = Sql.update grant_key session_id is_consuming (to_failure failed now)

unfoldable pub mark_rejected : String → ℕ → List GrantRecord → List GrantRecord
mark_rejected session_id now = Sql.update grant_key session_id is_unspent (to_failure rejected now)

unfoldable pub mark_reconciliation_required : String → ℕ → List GrantRecord → List GrantRecord
mark_reconciliation_required session_id now =
    Sql.update grant_key session_id is_pending (to_failure reconciliation_required now)

unfoldable pub mark_unknown : String → ℕ → List GrantRecord → List GrantRecord
mark_unknown session_id now = Sql.update grant_key session_id is_consuming (to_failure unknown now)

unfoldable pub approve_pending :
    String → String → ℕ → ℕ → List GrantRecord → Bool × List GrantRecord
approve_pending session_id actor expected_version now rows = (
  eqb (Sql.rowcount grant_key session_id (is_pending_at expected_version) rows) 1,
  Sql.update grant_key session_id (is_pending_at expected_version) (to_approved actor now) rows,
)
