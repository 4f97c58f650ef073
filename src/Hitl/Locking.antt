-- ===== src/Hitl/Locking.antt =====
-- The optimistic locking of hitl_store.py.
use fxfill_enterprise_bankin.Common.{
  ℕ, ◌+◌, inl, inr, eqb, Option-cases, eq_self, String, ◌≡◌, ◌↔◌, refl, true, false, some, List,
  arith, ◌==◌, if◌then◌else◌,
}
use fxfill_enterprise_bankin.Sql
use fxfill_enterprise_bankin.Sql.{
  update_none, find-update_all, update_all-IsUnique, find-update, rowcount-eq-hits, update-IsUnique,
}
use fxfill_enterprise_bankin.Hitl.{
  HitlSessionStatus, HitlSession, expired, session_key, has_version, with_status, get,
  update_status, is_stale, to_expired, expire_stale_sessions,
}

abbrev pub IsTable : List HitlSession → Type 0
IsTable = Sql.IsUnique session_key

module _ (k : String) (st : HitlSessionStatus) (v now : ℕ) (rows : List HitlSession) where
  -- The row that another reader finds after the update.
  pub get-update_status :
      (j : String)
      → get j (update_status k st v now rows).1 ≡ (
          if k == j
          then Sql.touched (has_version v) (with_status st now) (get j rows)
          else get j rows)
  unfolding get update_status
  get-update_status j =
      find-update session_key (with_status st now) (λ r. refl) k j (has_version v) rows

  pub update_status-IsTable : IsTable rows → IsTable (update_status k st v now rows).1
  unfolding update_status
  update_status-IsTable u =
      update-IsUnique session_key (with_status st now) (λ r. refl) k (has_version v) rows u

  pub update_status_count :
      IsTable rows
      → Sql.rowcount session_key k (has_version v) rows ≡ Sql.hits (has_version v) (get k rows)
  unfolding get
  update_status_count u = rowcount-eq-hits session_key k (has_version v) rows u

module _ (k : String) (st : HitlSessionStatus) (v now : ℕ) (rows : List HitlSession) where
  pub update_status_outcome :
      IsTable rows
      → (update_status k st v now rows).0 ≡ eqb (Sql.hits (has_version v) (get k rows)) 1
  unfolding update_status
  update_status_outcome u = rw (update_status_count k st v now rows u)

  -- In a table with unique session ids, an update succeeds exactly when a session with that id is
  -- stored at the expected version.
  pub update_status_iff :
      IsTable rows
      → ((update_status k st v now rows).0 ≡ true)
        ↔ ((s : HitlSession) × (get k rows ≡ some s) × (s.version ≡ v))
  update_status_iff u = (
    λ h. elim (Option-cases (get k rows)) [
      | inl e ↦ absurd (ground (arith, update_status_outcome u))
      | inr (s, e) ↦ (s, e, ground (arith, update_status_outcome u))
    ],
    λ (s, e, same). ground (arith, update_status_outcome u),
  )

  -- A failed update leaves the table as it was.
  pub update_status_failed :
      IsTable rows
      → (update_status k st v now rows).0 ≡ false
      → (update_status k st v now rows).1 ≡ rows
  unfolding update_status get
  update_status_failed u h =
      update_none session_key (with_status st now) k (has_version v) rows u
        (ground (arith, update_status_outcome u))

-- Two updates were prepared from one reading of a session. Once the first has succeeded, the second
-- is refused, whatever statuses they write and whenever they run, and the table keeps what the
-- first one wrote, if its session ids are unique.
pub update_status_race :
    (k : String) (st st' : HitlSessionStatus) (v now now' : ℕ) (rows : List HitlSession)
    → IsTable rows
    → (update_status k st v now rows).0 ≡ true
    → update_status k st' v now' (update_status k st v now rows).1
      ≡ (false, (update_status k st v now rows).1)
update_status_race k st st' v now now' rows u h =
    let rows' = (update_status k st v now rows).1 in
    let u' : IsTable rows' = update_status-IsTable k st v now rows u in
    let late : (update_status k st' v now' rows').0 ≡ false = ground (
      arith,
      update_status_outcome k st' v now' rows' u',
      update_status_outcome k st v now rows u,
      get-update_status k st v now rows k,
      eq_self k,
    ) in
    λ i. (late i, update_status_failed k st' v now' rows' u' late i)

-- Expiring stale sessions leaves their versions alone. So an update that was prepared before the
-- expiry still succeeds after it, and overwrites the EXPIRED status: for every stale session of a
-- table with unique session ids, and whatever status is written.
pub expired_session_is_overwritten :
    (k : String) (st : HitlSessionStatus) (now later : ℕ) (rows : List HitlSession)
    (s : HitlSession)
    → IsTable rows
    → get k rows ≡ some s
    → is_stale now s ≡ true
    → let rows' = (expire_stale_sessions now rows).1 in
      (get k rows' ≡ some (record s { status = expired; updated_at = now }))
      × ((update_status k st s.version later rows').0 ≡ true)
      × (get k (update_status k st s.version later rows').1
          ≡ some (record s { status = st; updated_at = later; version = s.version + 1 }))
unfolding expire_stale_sessions get
expired_session_is_overwritten k st now later rows s u found stale =
    let rows' = Sql.update_all (is_stale now) (to_expired now) rows in
    let u' : IsTable rows' =
      update_all-IsUnique session_key (to_expired now) (λ r. refl) (is_stale now) rows u in
    let seen = find-update_all session_key (to_expired now) (λ r. refl) k (is_stale now) rows in
    (
      ground arith,
      ground (arith, update_status_outcome k st s.version later rows' u'),
      ground (arith, get-update_status k st s.version later rows' k, eq_self k),
    )
