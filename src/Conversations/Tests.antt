-- ===== src/Conversations/Tests.antt =====
-- Runs of the thread registry.
use fxfill_enterprise_bankin.Common.{◌≡◌, refl, some, List, [], ◌∷◌}
use fxfill_enterprise_bankin.Dict.{lookup}
use fxfill_enterprise_bankin.Conversations.{Threads, new_thread}
use fxfill_enterprise_bankin.Conversations.Lifecycle.{
  Command, create, touches, delete, run, thread_run, run_refines_threads,
}

abbrev threads : Threads
threads = ("t1", new_thread "t1" 5) ∷ []

abbrev commands : List Command
commands = create "t1" 5 ∷ create "t2" 6 ∷ touches "t1" 7 ∷ delete "t2" ∷ []

run_refines_threads_example :
    lookup "t1" (run commands []) ≡ thread_run "t1" commands (lookup "t1" [])
run_refines_threads_example = run_refines_threads "t1" commands []

stored : lookup "t1" threads ≡ some (new_thread "t1" 5)
unfolding lookup
stored = refl
