-- ===== src/Idempotency/Tests.antt =====
-- Runs of idempotency_store.py.
use Prim.{tt}
use fxfill_enterprise_bankin.Common.{◌≡◌, refl, true, some, List, [], ◌∷◌}
use fxfill_enterprise_bankin.Sql
use fxfill_enterprise_bankin.Idempotency.{
  IdempotencyRecord, IdempotencyStatus, get, is_terminal, can_retry,
}
use fxfill_enterprise_bankin.Idempotency.Lifecycle.{
  Op, do_reserve, do_succeeded, do_unknown, run, IsUnstarted, run_succeeded,
}
use fxfill_enterprise_bankin.Samples.{record_at}

terminal_retry :
    (is_terminal IdempotencyStatus.failed ≡ true) × (can_retry IdempotencyStatus.failed ≡ true)
unfolding is_terminal can_retry
terminal_retry = (refl, refl)

abbrev executor_calls : List Op
executor_calls = do_reserve "s1:c1" "submit_transfer" "{}" 1 ∷ do_succeeded "s1:c1" "sent" 2 ∷ []

empty-IsUnstarted : IsUnstarted (get "s1:c1" [])
unfolding get Sql.find
empty-IsUnstarted = tt

abbrev done : IdempotencyRecord
done = record_at IdempotencyStatus.succeeded

done_found : get "s1:c1" (done ∷ []) ≡ some done
unfolding get Sql.find
done_found = refl

run_succeeded_example :
    get "s1:c1" (run (do_reserve "s1:c1" "pay" "{}" 5 ∷ do_unknown "s1:c1" ∷ []) (done ∷ []))
    ≡ some done
run_succeeded_example =
    run_succeeded "s1:c1" (do_reserve "s1:c1" "pay" "{}" 5 ∷ do_unknown "s1:c1" ∷ []) (done ∷ [])
      done (tt, (tt, tt)) done_found refl
