-- ===== src/Hitl/Tests.antt =====
-- Runs of hitl_store.py on one stored session.
use Prim.{tt}
use fxfill_enterprise_bankin.Common.{◌≡◌, ◌↔◌, refl, true, false, none, some, List, [], ◌∷◌}
use fxfill_enterprise_bankin.Sql
use fxfill_enterprise_bankin.Hitl.{
  HitlSession, HitlSessionStatus, list_pending, update_status, get, is_terminal, insert,
}
use fxfill_enterprise_bankin.Hitl.Locking.{IsTable, update_status_iff, update_status_race}
use fxfill_enterprise_bankin.Samples.{session_at}

abbrev rows : List HitlSession
rows = session_at HitlSessionStatus.pending ∷ []

rows-IsTable : IsTable rows
unfolding Sql.find
rows-IsTable = (refl, tt)

stored_row : get "s1" rows ≡ some (session_at HitlSessionStatus.pending)
unfolding get Sql.find
stored_row = refl

first_update : (update_status "s1" HitlSessionStatus.approved 1 20 rows).0 ≡ true
unfolding update_status Sql.rowcount Sql.rowcount_all
first_update = refl

listed : list_pending (some "alice") rows ≡ rows
unfolding list_pending Sql.select
listed = refl

not_listed : list_pending (some "bob") rows ≡ []
unfolding list_pending Sql.select
not_listed = refl

key_is_unique : insert (session_at HitlSessionStatus.pending) rows ≡ none
unfolding insert Sql.insert
key_is_unique = refl

stays_open : is_terminal HitlSessionStatus.resumed ≡ false
unfolding is_terminal
stays_open = refl

update_status_iff_example :
    ((update_status "s1" HitlSessionStatus.approved 1 20 rows).0 ≡ true)
    ↔ ((s : HitlSession) × (get "s1" rows ≡ some s) × (s.version ≡ 1))
update_status_iff_example = update_status_iff "s1" HitlSessionStatus.approved 1 20 rows rows-IsTable

update_status_race_example :
    update_status "s1" HitlSessionStatus.rejected 1 21
      (update_status "s1" HitlSessionStatus.approved 1 20 rows).1
    ≡ (false, (update_status "s1" HitlSessionStatus.approved 1 20 rows).1)
update_status_race_example =
    update_status_race "s1" HitlSessionStatus.approved HitlSessionStatus.rejected 1 20 21 rows
      rows-IsTable first_update
