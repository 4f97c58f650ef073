-- ===== src/Db/Migrations.antt =====
-- What the migrations of db.py keep, and when they cannot be run again.
use fxfill_enterprise_bankin.Common.{
  ℕ, ◌≤◌, ◌<◌, ◌≡◌, refl, sym, ap, ◌∙◌, Bool, true, false, ◌&&◌, Option, none, some, List, [], ◌∷◌,
  ◌++◌, ltb, leb, if◌then◌else◌, arith, inl, inr, Bool-cases, Option-cases,
}
use mathlib.Core.List.{append-nil, append_assoc}
use fxfill_enterprise_bankin.Sql
use fxfill_enterprise_bankin.Grants.{GrantRecord}
use fxfill_enterprise_bankin.Db.{
  Db, Outcome, ok, runtime_error, sql_error, ◌>>=◌, migrate_v1, migrate_v2, migrate_v3, migrate_v4,
  migrate_v5, migrate_v6, copy_rows, fits_v3, fits_v5, rebuild_v3, rebuild_v5, replace_v3,
  replace_v5, add_column, step, write_version, init_database, duplicate_sessions, duplicate_keys,
  new_file,
}

abbrev pub is_ok : Outcome → Bool
is_ok (ok db) = true
is_ok (runtime_error db) = false
is_ok (sql_error db) = false

abbrev pub db_of : Outcome → Db
db_of (ok db) = db
db_of (runtime_error db) = db
db_of (sql_error db) = db

abbrev pub rows_or_empty : Option (List GrantRecord) → List GrantRecord
rows_or_empty none = []
rows_or_empty (some rows) = rows

abbrev pub grant_rows : Db → List GrantRecord
grant_rows db = rows_or_empty db.grants

-- Whatever the outcome, the rows of the grants, the version, are as before.
abbrev Keeps : Db → Outcome → Type 0
Keeps db o = (grant_rows (db_of o) ≡ grant_rows db) × ((db_of o).version ≡ db.version)

bind-Keeps :
    (db : Db) (o : Outcome) (f : Db → Outcome)
    → Keeps db o
    → ((d : Db) → Keeps d (f d))
    → Keeps db (o >>= f)
bind-Keeps db (ok d) f k h = ((h d).0 ∙ k.0, (h d).1 ∙ k.1)
bind-Keeps db (runtime_error d) f k h = k
bind-Keeps db (sql_error d) f k h = k

copied :
    (fits : GrantRecord → Bool) (gs rows out : List GrantRecord)
    → copy_rows fits gs rows ≡ some out
    → out ≡ rows ++ gs
unfolding copy_rows Sql.insert
copied fits [] rows out h = ground (arith, append-nil rows)
copied fits (g ∷ gs) rows out h =
    let ih : out ≡ (rows ++ g ∷ []) ++ gs = ground (arith, copied fits gs (rows ++ g ∷ []) out) in
    ih ∙ append_assoc rows (g ∷ []) gs

replace_v3-Keeps :
    (db : Db) (rows : List GrantRecord) (o : Option (List GrantRecord))
    → db.grants ≡ some rows
    → copy_rows fits_v3 rows [] ≡ o
    → Keeps db (replace_v3 db o)
replace_v3-Keeps db rows none g e = (refl, refl)
replace_v3-Keeps db rows (some out) g e =
    (copied fits_v3 rows [] out e ∙ sym (ap rows_or_empty g), refl)

replace_v5-Keeps :
    (db : Db) (rows : List GrantRecord) (o : Option (List GrantRecord))
    → db.grants ≡ some rows
    → copy_rows fits_v5 rows [] ≡ o
    → Keeps db (replace_v5 db o)
replace_v5-Keeps db rows none g e = (refl, refl)
replace_v5-Keeps db rows (some out) g e =
    (copied fits_v5 rows [] out e ∙ sym (ap rows_or_empty g), refl)

if-Keeps :
    (db : Db) (b : Bool) (o p : Outcome) → Keeps db o → Keeps db p → Keeps db (if b then o else p)
if-Keeps db true o p h k = h
if-Keeps db false o p h k = k

rebuild_v3-Keeps :
    (db : Db) (o : Option (List GrantRecord)) → db.grants ≡ o → Keeps db (rebuild_v3 db o)
rebuild_v3-Keeps db none e = (refl, refl)
rebuild_v3-Keeps db (some rows) e =
    if-Keeps db (duplicate_sessions rows) _ _ (refl, refl)
      (if-Keeps db (duplicate_keys rows) _ _ (refl, refl)
        (if-Keeps db db.scratch_v3 _ _ (refl, refl)
          (replace_v3-Keeps db rows (copy_rows fits_v3 rows []) e refl)))

rebuild_v5-Keeps :
    (db : Db) (o : Option (List GrantRecord)) → db.grants ≡ o → Keeps db (rebuild_v5 db o)
rebuild_v5-Keeps db none e = (refl, refl)
rebuild_v5-Keeps db (some rows) e =
    if-Keeps db db.scratch_v5 _ _ (refl, refl)
      (replace_v5-Keeps db rows (copy_rows fits_v5 rows []) e refl)

add_column-Keeps : (db : Db) (o : Option Bool) → Keeps db (add_column db o)
add_column-Keeps db none = (refl, refl)
add_column-Keeps db (some true) = (refl, refl)
add_column-Keeps db (some false) = (refl, refl)

migrate_v2-Keeps : (db : Db) → Keeps db (migrate_v2 db)
unfolding migrate_v2
migrate_v2-Keeps db = elim (Option-cases db.grants) [
  | inl e ↦ (ground arith, refl)
  | inr (rows, e) ↦ (ground arith, refl)
]

step-Keeps :
    (current v n : ℕ) (f : Db → Outcome)
    → ((d : Db) → Keeps d (f d))
    → (db : Db) → Keeps db (step current v n f db)
step-Keeps current v n f h db =
    if-Keeps db (ltb current n && leb n v) (f db) (ok db) (h db) (refl, refl)

-- The migrations up to the version, without the version's row.
migrate : ℕ → ℕ → Db → Outcome
migrate current v db =
    step current v 1 migrate_v1 db
    >>= step current v 2 migrate_v2
    >>= step current v 3 migrate_v3
    >>= step current v 4 migrate_v4
    >>= step current v 5 migrate_v5
    >>= step current v 6 migrate_v6

migrate-Keeps : (current v : ℕ) (db : Db) → Keeps db (migrate current v db)
unfolding migrate migrate_v1 migrate_v3 migrate_v4 migrate_v5 migrate_v6
migrate-Keeps current v db =
    let m1 : Outcome = step current v 1 migrate_v1 db in
    let m2 : Outcome = m1 >>= step current v 2 migrate_v2 in
    let m3 : Outcome = m2 >>= step current v 3 migrate_v3 in
    let m4 : Outcome = m3 >>= step current v 4 migrate_v4 in
    let m5 : Outcome = m4 >>= step current v 5 migrate_v5 in
    let k1 = step-Keeps current v 1 migrate_v1 (λ d. (refl, refl)) db in
    let k2 =
      bind-Keeps db m1 (step current v 2 migrate_v2) k1
        (step-Keeps current v 2 migrate_v2 migrate_v2-Keeps) in
    let k3 =
      bind-Keeps db m2 (step current v 3 migrate_v3) k2
        (step-Keeps current v 3 migrate_v3 (λ d. rebuild_v3-Keeps d d.grants refl)) in
    let k4 =
      bind-Keeps db m3 (step current v 4 migrate_v4) k3
        (step-Keeps current v 4 migrate_v4 (λ d. add_column-Keeps d d.sessions)) in
    let k5 =
      bind-Keeps db m4 (step current v 5 migrate_v5) k4
        (step-Keeps current v 5 migrate_v5 (λ d. rebuild_v5-Keeps d d.grants refl)) in
    bind-Keeps db m5 (step current v 6 migrate_v6) k5
      (step-Keeps current v 6 migrate_v6 (λ d. (refl, refl)))

written :
    (current v : ℕ) (db db' : Db) (o : Outcome)
    → db.version ≡ current
    → ltb v current ≡ false
    → Keeps db o
    → (o >>= write_version current v) ≡ ok db'
    → (db'.version ≡ v) × (grant_rows db' ≡ grant_rows db)
written current v db db' (ok d) e l k h = ground arith
written current v db db' (runtime_error d) e l k h = absurd (cc)
written current v db db' (sql_error d) e l k h = absurd (cc)

init_again : (v : ℕ) (db : Db) → db.version ≡ v → init_database v db ≡ ok db
unfolding init_database
init_again v db e = ground arith

-- If initialising a database succeeds, then it is at the asked version, its grants are the rows that
-- it had, in their order, and initialising it again succeeds and changes nothing.
pub init_database_settles :
    (v : ℕ) (db db' : Db)
    → init_database v db ≡ ok db'
    → (db'.version ≡ v) × (grant_rows db' ≡ grant_rows db) × (init_database v db' ≡ ok db')
unfolding init_database migrate
init_database_settles v db db' h = elim (Bool-cases (ltb v db.version)) [
  | inl e ↦ absurd (ground arith)
  | inr e ↦
      let w =
        written db.version v db db' (migrate db.version v db) refl e (migrate-Keeps db.version v db)
          (ground arith) in
      (w.0, w.1, init_again v db' w.0)
]

-- The tables of the sessions after a step, if it returns.
abbrev Altered : Outcome → Type 0
Altered (ok db) = db.sessions ≡ some true
Altered (runtime_error db) = Unit
Altered (sql_error db) = Unit

bind_sql_error : (o : Outcome) (f : Db → Outcome) → is_ok o ≡ false → is_ok (o >>= f) ≡ false
bind_sql_error (ok db) f h = absurd (cc)
bind_sql_error (runtime_error db) f h = refl
bind_sql_error (sql_error db) f h = refl

bind-Altered :
    (o : Outcome) (f : Db → Outcome)
    → Altered o
    → ((db : Db) → db.sessions ≡ some true → Altered (f db))
    → Altered (o >>= f)
bind-Altered (ok db) f a h = h db a
bind-Altered (runtime_error db) f a h = tt
bind-Altered (sql_error db) f a h = tt

Altered-not_ok :
    (o : Outcome) (f : Db → Outcome)
    → Altered o
    → ((db : Db) → db.sessions ≡ some true → is_ok (f db) ≡ false)
    → is_ok (o >>= f) ≡ false
Altered-not_ok (ok db) f a h = h db a
Altered-not_ok (runtime_error db) f a h = refl
Altered-not_ok (sql_error db) f a h = refl

if-Altered : (b : Bool) (o p : Outcome) → Altered o → Altered p → Altered (if b then o else p)
if-Altered true o p h k = h
if-Altered false o p h k = k

replaced-Altered :
    (db : Db) (o : Option (List GrantRecord)) → db.sessions ≡ some true → Altered (replace_v3 db o)
replaced-Altered db none e = tt
replaced-Altered db (some rows) e = e

rebuilt-Altered :
    (db : Db) (o : Option (List GrantRecord)) → db.sessions ≡ some true → Altered (rebuild_v3 db o)
rebuilt-Altered db none e = tt
rebuilt-Altered db (some rows) e = if-Altered (duplicate_sessions rows) (runtime_error db) _ tt (
    if-Altered (duplicate_keys rows) (runtime_error db) _ tt (
      if-Altered db.scratch_v3 (sql_error db) _ tt
        (replaced-Altered db (copy_rows fits_v3 rows []) e)))

step-Altered :
    (current v n : ℕ) (f : Db → Outcome) (db : Db)
    → db.sessions ≡ some true
    → Altered (f db)
    → Altered (step current v n f db)
step-Altered current v n f db e h = if-Altered (ltb current n && leb n v) (f db) (ok db) h e

add_column_twice :
    (current v : ℕ) (db : Db)
    → current < 4
    → 4 ≤ v
    → db.sessions ≡ some true
    → is_ok (step current v 4 migrate_v4 db) ≡ false
unfolding migrate_v4
add_column_twice current v db c h e = ground arith

if_not_ok :
    (b : Bool) (db : Db) (o : Outcome)
    → is_ok o ≡ false
    → is_ok (if b then runtime_error db else o) ≡ false
if_not_ok true db o h = refl
if_not_ok false db o h = h

interrupted_migrate :
    (current v : ℕ) (db : Db)
    → current < 4
    → 4 ≤ v
    → db.sessions ≡ some true
    → is_ok (migrate current v db) ≡ false
unfolding migrate migrate_v1 migrate_v2 migrate_v3
interrupted_migrate current v db c h e =
    let m1 : Outcome = step current v 1 migrate_v1 db in
    let m2 : Outcome = m1 >>= step current v 2 migrate_v2 in
    let m3 : Outcome = m2 >>= step current v 3 migrate_v3 in
    let m4 : Outcome = m3 >>= step current v 4 migrate_v4 in
    let a1 : Altered m1 = step-Altered current v 1 migrate_v1 db e (ground arith) in
    let a2 =
      bind-Altered m1 (step current v 2 migrate_v2) a1
        (λ d k. step-Altered current v 2 migrate_v2 d k k) in
    let a3 =
      bind-Altered m2 (step current v 3 migrate_v3) a2
        (λ d k. step-Altered current v 3 migrate_v3 d k (rebuilt-Altered d d.grants k)) in
    let a4 =
      Altered-not_ok m3 (step current v 4 migrate_v4) a3
        (λ d k. add_column_twice current v d c h k) in
    bind_sql_error (m4 >>= step current v 5 migrate_v5) (step current v 6 migrate_v6)
      (bind_sql_error m4 (step current v 5 migrate_v5) a4)

-- An initialisation that was cut off after the fourth migration can never be completed: if the
-- sessions already have the column and the stored version is below 4, then initialising to version
-- 4 or more does not succeed.
pub interrupted_migration_is_stuck :
    (v : ℕ) (db : Db)
    → db.version < 4
    → 4 ≤ v
    → db.sessions ≡ some true
    → is_ok (init_database v db) ≡ false
unfolding init_database
interrupted_migration_is_stuck v db c h e =
    let m =
      bind_sql_error (migrate db.version v db) (write_version db.version v)
        (interrupted_migrate db.version v db c h e) in
    unfold migrate in
    if_not_ok (ltb v db.version) db (migrate db.version v db >>= write_version db.version v) m

-- A new database file is initialised to whatever version is asked for.
pub new_file_initialises : (v : ℕ) → is_ok (init_database v new_file) ≡ true
unfolding init_database migrate_v1 migrate_v2 migrate_v3 migrate_v4 migrate_v5 migrate_v6 copy_rows
    duplicate_sessions duplicate_keys
new_file_initialises v = ground arith
