-- ===== src/Conversations/Lifecycle.antt =====
-- The life of a thread in conversation_service.py.
use fxfill_enterprise_bankin.Common.{
  ℕ, ◌+◌, String, ◌≡◌, refl, ap, ◌∙◌, true, Option, none, some, List, [], ◌∷◌, eq_iff,
  if◌then◌else◌, arith, eq_self, ◌==◌,
}
use fxfill_enterprise_bankin.Dict.{lookup, lookup-assign}
use fxfill_enterprise_bankin.Conversations.{
  ThreadInfo, Threads, ThreadStatus, archived, deleted, create_thread, create_over, get_thread,
  touch_thread, touch, archive_thread, delete_thread, mark, unless_deleted, is_deleted, new_thread,
}

pub data Command : Type 0 where
  create touches : String → (now : ℕ) → Command
  archive delete : String → Command

abbrev pub or_same : Threads → Option Threads → Threads
or_same ts none = ts
or_same ts (some ts') = ts'

unfoldable pub apply : Command → Threads → Threads
apply (create k now) ts = or_same ts (create_thread k now ts)
apply (touches k now) ts = (touch_thread k now ts).1
apply (archive k) ts = (archive_thread k ts).1
apply (delete k) ts = (delete_thread k ts).1

unfoldable pub run : List Command → Threads → Threads
run [] ts = ts
run (c ∷ cs) ts = run cs (apply c ts)

-- The specification: one thread, and what a command on it does, whatever the other threads are.
abbrev pub created : String → ℕ → Option ThreadInfo → Option ThreadInfo
created k now none = some (new_thread k now)
created k now (some t) = if is_deleted t.status then some (new_thread k now) else some t

abbrev pub touched : ℕ → Option ThreadInfo → Option ThreadInfo
touched now none = none
touched now (some t) =
    if is_deleted t.status
    then some t
    else some (record t { updated_at = now; message_count = t.message_count + 1 })

abbrev pub marked : ThreadStatus → Option ThreadInfo → Option ThreadInfo
marked st none = none
marked st (some t) = some (record t { status = st })

abbrev pub thread_step : String → Command → Option ThreadInfo → Option ThreadInfo
thread_step j (create k now) o = if k == j then created k now o else o
thread_step j (touches k now) o = if k == j then touched now o else o
thread_step j (archive k) o = if k == j then marked archived o else o
thread_step j (delete k) o = if k == j then marked deleted o else o

unfoldable pub thread_run : String → List Command → Option ThreadInfo → Option ThreadInfo
thread_run j [] o = o
thread_run j (c ∷ cs) o = thread_run j cs (thread_step j c o)

lookup-mark :
    (k j : String) (st : ThreadStatus) (o : Option ThreadInfo) (ts : Threads)
    → lookup k ts ≡ o
    → lookup j (mark k st o ts).1 ≡ (if k == j then marked st o else lookup j ts)
lookup-mark k j st none ts e = ground (arith, eq_iff k j)
lookup-mark k j st (some t) ts e = lookup-assign k j (record t { status = st }) ts

lookup-create :
    (k j : String) (now : ℕ) (o : Option ThreadInfo) (ts : Threads)
    → lookup k ts ≡ o
    → lookup j (or_same ts (create_over k now o ts))
      ≡ (if k == j then created k now o else lookup j ts)
lookup-create k j now none ts e = lookup-assign k j (new_thread k now) ts
lookup-create k j now (some t) ts e =
    ground (arith, eq_iff k j, lookup-assign k j (new_thread k now) ts)

lookup-touch :
    (k j : String) (now : ℕ) (o : Option ThreadInfo) (ts : Threads)
    → lookup k ts ≡ o
    → lookup j (touch k now (unless_deleted o) ts).1
      ≡ (if k == j then touched now o else lookup j ts)
lookup-touch k j now none ts e = ground (arith, eq_iff k j)
lookup-touch k j now (some t) ts e = ground (
  arith,
  eq_iff k j,
  lookup-assign k j (record t { updated_at = now; message_count = t.message_count + 1 }) ts,
)

apply-thread_step :
    (j : String) (c : Command) (ts : Threads)
    → lookup j (apply c ts) ≡ thread_step j c (lookup j ts)
unfolding apply create_thread touch_thread archive_thread delete_thread
apply-thread_step j (create k now) ts =
    ground (arith, eq_iff k j, lookup-create k j now (lookup k ts) ts)
apply-thread_step j (touches k now) ts =
    ground (arith, eq_iff k j, lookup-touch k j now (lookup k ts) ts)
apply-thread_step j (archive k) ts =
    ground (arith, eq_iff k j, lookup-mark k j archived (lookup k ts) ts)
apply-thread_step j (delete k) ts =
    ground (arith, eq_iff k j, lookup-mark k j deleted (lookup k ts) ts)

-- The registry refines one state machine for each thread: after any sequence of commands, a thread
-- is where its own machine is after the same commands, in which those on other threads do nothing.
pub run_refines_threads :
    (j : String) (cs : List Command) (ts : Threads)
    → lookup j (run cs ts) ≡ thread_run j cs (lookup j ts)
unfolding run thread_run
run_refines_threads j [] ts = refl
run_refines_threads j (c ∷ cs) ts =
    run_refines_threads j cs (apply c ts) ∙ ap (thread_run j cs) (apply-thread_step j c ts)

-- A deleted thread comes back by archiving: if a thread is stored, then after it is deleted it is
-- not found, and archiving it after that succeeds and makes it found again, as archived and with its
-- old messages.
pub archived_after_delete_returns :
    (k : String) (ts : Threads) (t : ThreadInfo)
    → lookup k ts ≡ some t
    → (get_thread k (delete_thread k ts).1 ≡ none)
      × ((archive_thread k (delete_thread k ts).1).0 ≡ true)
      × (get_thread k (archive_thread k (delete_thread k ts).1).1
          ≡ some (record t { status = archived }))
unfolding get_thread delete_thread archive_thread
archived_after_delete_returns k ts t h = (
  ground (arith, lookup-mark k k deleted (lookup k ts) ts refl, eq_self k),
  ground (arith, lookup-mark k k deleted (lookup k ts) ts refl, eq_self k),
  ground (
    arith,
    lookup-mark k k deleted (lookup k ts) ts refl,
    lookup-mark k k archived (lookup k (mark k deleted (lookup k ts) ts).1)
        (mark k deleted (lookup k ts) ts).1 refl,
    eq_self k,
  ),
)
