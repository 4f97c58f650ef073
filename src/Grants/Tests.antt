-- ===== src/Grants/Tests.antt =====
-- Runs of grant_repo.py on one stored grant.
use Prim.{tt}
use fxfill_enterprise_bankin.Common.{◌≤◌, ◌≡◌, ◌↔◌, refl, some, List, [], ◌∷◌}
use fxfill_enterprise_bankin.Sql
use fxfill_enterprise_bankin.Grants.{
  GrantRecord, GrantStatus, claims, get_by_session, atomic_consume, to_consuming,
}
use fxfill_enterprise_bankin.Grants.Statements.{IsTable}
use fxfill_enterprise_bankin.Grants.Lifecycle.{
  Op, do_consume, do_approve, do_rejected, apply, run, claims_won, wins, run_final,
}
use fxfill_enterprise_bankin.Grants.SingleClaim.{at_most_one_claim}
use fxfill_enterprise_bankin.Grants.Binding.{Authorises, atomic_consume_iff}
use fxfill_enterprise_bankin.Samples.{digest, grant_at, claim_of}

abbrev rows : List GrantRecord
rows = grant_at GrantStatus.approved ∷ []

rows-IsTable : IsTable rows
unfolding Sql.find
rows-IsTable = (refl, tt)

-- Two approvers claim, and one of them retries.
abbrev race : List Op
race =
    do_consume (claim_of "bob") 20
    ∷ do_consume (claim_of "carol") 20
    ∷ do_consume (claim_of "bob") 21
    ∷ []

race_is_won_once : claims_won digest "s1" race rows ≡ 1
unfolding claims_won wins atomic_consume Sql.rowcount claims Sql.first Sql.update apply
race_is_won_once = refl

at_most_one_claim_example : claims_won digest "s1" race rows ≤ 1
at_most_one_claim_example = at_most_one_claim digest "s1" race rows rows-IsTable

atomic_consume_iff_example :
    ((atomic_consume digest (claim_of "bob") 20 rows).0 ≡ some (grant_at GrantStatus.consuming)) ↔ (
      (g : GrantRecord) × (get_by_session "s1" rows ≡ some g)
      × Authorises digest g (claim_of "bob") 20
      × (grant_at GrantStatus.consuming ≡ to_consuming 20 g))
atomic_consume_iff_example =
    atomic_consume_iff digest (claim_of "bob") 20 rows (grant_at GrantStatus.consuming) rows-IsTable

abbrev spent : List GrantRecord
spent = grant_at GrantStatus.consumed ∷ []

spent_found : get_by_session "s1" spent ≡ some (grant_at GrantStatus.consumed)
unfolding get_by_session Sql.find
spent_found = refl

run_final_example :
    get_by_session "s1" (run digest (do_rejected "s1" 30 ∷ do_approve "s1" "bob" 1 31 ∷ race) spent)
    ≡ some (grant_at GrantStatus.consumed)
run_final_example =
    run_final digest "s1" (do_rejected "s1" 30 ∷ do_approve "s1" "bob" 1 31 ∷ race) spent
      (grant_at GrantStatus.consumed) spent_found refl
