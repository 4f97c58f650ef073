-- ===== src/Grants/Statements.antt =====
-- What each statement of grant_repo.py makes of the row at a session id.
use fxfill_enterprise_bankin.Common.{
  eq_iff, none, true, ℕ, String, ◌≡◌, refl, some, List, arith, ◌==◌, eq_self, eqb, if◌then◌else◌,
}
use fxfill_enterprise_bankin.Sql
use fxfill_enterprise_bankin.Sql.{
  find-insert, insert_fresh, insert-IsUnique, find-update, update-IsUnique, rowcount-eq-hits,
  first-eq-passing,
}
use fxfill_enterprise_bankin.Grants.{
  clashes, as_pending, insert_pending, GrantRecord, ConsumeRequest, failed, rejected,
  reconciliation_required, unknown, grant_key, is_pending, is_consuming, is_unspent, get_by_session,
  claims, to_consuming, to_consumed, to_failure, to_approved, is_pending_at, atomic_consume,
  mark_consumed, mark_failed, mark_rejected, mark_reconciliation_required, mark_unknown,
  approve_pending,
}

abbrev pub IsTable : List GrantRecord → Type 0
IsTable = Sql.IsUnique grant_key

module _ (k j : String) (now : ℕ) (rows : List GrantRecord) where
  pub get-mark_consumed : get_by_session j (mark_consumed k now rows) ≡ (
      if k == j
      then Sql.touched is_consuming (to_consumed now) (get_by_session j rows)
      else get_by_session j rows)
  unfolding get_by_session mark_consumed
  get-mark_consumed = find-update grant_key (to_consumed now) (λ r. refl) k j is_consuming rows

  pub get-mark_failed : get_by_session j (mark_failed k now rows) ≡ (
      if k == j
      then Sql.touched is_consuming (to_failure failed now) (get_by_session j rows)
      else get_by_session j rows)
  unfolding get_by_session mark_failed
  get-mark_failed = find-update grant_key (to_failure failed now) (λ r. refl) k j is_consuming rows

  pub get-mark_unknown : get_by_session j (mark_unknown k now rows) ≡ (
      if k == j
      then Sql.touched is_consuming (to_failure unknown now) (get_by_session j rows)
      else get_by_session j rows)
  unfolding get_by_session mark_unknown
  get-mark_unknown =
      find-update grant_key (to_failure unknown now) (λ r. refl) k j is_consuming rows

  pub get-mark_rejected : get_by_session j (mark_rejected k now rows) ≡ (
      if k == j
      then Sql.touched is_unspent (to_failure rejected now) (get_by_session j rows)
      else get_by_session j rows)
  unfolding get_by_session mark_rejected
  get-mark_rejected =
      find-update grant_key (to_failure rejected now) (λ r. refl) k j is_unspent rows

  pub get-mark_reconciliation_required :
      get_by_session j (mark_reconciliation_required k now rows) ≡ (
        if k == j
        then Sql.touched is_pending (to_failure reconciliation_required now) (get_by_session j rows)
        else get_by_session j rows)
  unfolding get_by_session mark_reconciliation_required
  get-mark_reconciliation_required =
      find-update grant_key (to_failure reconciliation_required now) (λ r. refl) k j is_pending rows

  pub get-approve_pending :
      (actor : String) (v : ℕ)
      → get_by_session j (approve_pending k actor v now rows).1 ≡ (
          if k == j
          then Sql.touched (is_pending_at v) (to_approved actor now) (get_by_session j rows)
          else get_by_session j rows)
  unfolding get_by_session approve_pending
  get-approve_pending actor v =
      find-update grant_key (to_approved actor now) (λ r. refl) k j (is_pending_at v) rows

pub approve_pending_outcome :
    (k actor : String) (v now : ℕ) (rows : List GrantRecord)
    → IsTable rows
    → (approve_pending k actor v now rows).0
      ≡ eqb (Sql.hits (is_pending_at v) (get_by_session k rows)) 1
unfolding approve_pending get_by_session
approve_pending_outcome k actor v now rows u =
    rw (rowcount-eq-hits grant_key k (is_pending_at v) rows u)

module _ (sha256 : String → String) (q : ConsumeRequest) (now : ℕ) (rows : List GrantRecord) where
  pub get-atomic_consume :
      (j : String)
      → get_by_session j (atomic_consume sha256 q now rows).1 ≡ (
          if q.session_id == j
          then Sql.touched
              (claims (sha256 q.tool_args) q now)
              (to_consuming now)
              (get_by_session j rows)
          else get_by_session j rows)
  unfolding get_by_session atomic_consume
  get-atomic_consume j =
      find-update grant_key (to_consuming now) (λ r. refl) q.session_id j
        (claims (sha256 q.tool_args) q now) rows

  -- The claim hands out the row at the session id, as it stands afterwards, exactly if that row
  -- met the conditions.
  pub atomic_consume_outcome :
      IsTable rows
      → (atomic_consume sha256 q now rows).0
        ≡ elim (Sql.passing
            (claims (sha256 q.tool_args) q now)
            (get_by_session q.session_id rows)) [ none ↦ none | some g ↦ some (to_consuming now g) ]
  unfolding get_by_session atomic_consume
  atomic_consume_outcome u =
      let cond = claims (sha256 q.tool_args) q now in
      let rows' = Sql.update grant_key q.session_id cond (to_consuming now) rows in
      ground (
        arith,
        rowcount-eq-hits grant_key q.session_id cond rows u,
        first-eq-passing grant_key q.session_id is_consuming rows'
            (update-IsUnique grant_key (to_consuming now) (λ r. refl) q.session_id cond rows u),
        find-update grant_key (to_consuming now) (λ r. refl) q.session_id q.session_id cond rows,
        eq_self q.session_id,
      )

clash_of_key : (new old : GrantRecord) → old.session_id ≡ new.session_id → clashes new old ≡ true
clash_of_key new old e = ground (arith, eq_iff old.session_id new.session_id)

-- An insert that succeeds passed the check of its decision.
inserts :
    (g : GrantRecord) (rows rows' : List GrantRecord)
    → insert_pending g rows ≡ some rows'
    → Sql.insert clashes (as_pending g) rows ≡ some rows'
unfolding insert_pending
inserts g rows rows' h = ground arith

pub insert_pending-IsTable :
    (g : GrantRecord) (rows rows' : List GrantRecord)
    → insert_pending g rows ≡ some rows'
    → IsTable rows
    → IsTable rows'
insert_pending-IsTable g rows rows' inserted u =
    let h = inserts g rows rows' inserted in
    insert-IsUnique grant_key clashes (as_pending g) rows rows' h
      (insert_fresh grant_key clashes clash_of_key (as_pending g) rows rows' h) u

-- An insert stores the pending row at its id and leaves every other id alone.
pub get-insert_pending :
    (g : GrantRecord) (j : String) (rows rows' : List GrantRecord)
    → insert_pending g rows ≡ some rows'
    → (get_by_session g.session_id rows ≡ none)
      × (get_by_session j rows'
          ≡ (if g.session_id == j then some (as_pending g) else get_by_session j rows))
unfolding get_by_session
get-insert_pending g j rows rows' inserted =
    let h = inserts g rows rows' inserted in
    let fresh = insert_fresh grant_key clashes clash_of_key (as_pending g) rows rows' h in
    (fresh, find-insert grant_key clashes j (as_pending g) rows rows' h fresh)
