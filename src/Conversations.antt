-- ===== src/Conversations.antt =====
-- conversation_service.py: the registry of conversation threads. The clock is an argument.
pub mod Lifecycle
mod Tests
use fxfill_enterprise_bankin.Common.{
  ℕ, ◌+◌, String, Bool, true, false, not, ◌||◌, Option, none, some, List, [], ◌∷◌, length, keep,
  if◌then◌else◌,
}
use fxfill_enterprise_bankin.Dict
use fxfill_enterprise_bankin.Dict.{lookup, assign, values}

pub data ThreadStatus : Type 0 where
  active archived deleted : ThreadStatus

pub record ThreadInfo : Type 0 where
  pub thread_id : String
  pub created_at : ℕ
  pub updated_at : ℕ
  pub message_count : ℕ
  pub status : ThreadStatus

abbrev pub Threads : Type 0
Threads = List (String × ThreadInfo)

abbrev pub is_deleted : ThreadStatus → Bool
is_deleted deleted = true
is_deleted _ = false

abbrev pub is_listed : ThreadInfo → Bool
is_listed t = elim t.status [ active ↦ true | archived ↦ false | deleted ↦ false ]

abbrev pub new_thread : String → ℕ → ThreadInfo
new_thread thread_id now = record {
  thread_id = thread_id;
  created_at = now;
  updated_at = now;
  message_count = 0;
  status = active;
}

abbrev pub create_over : String → ℕ → Option ThreadInfo → Threads → Option Threads
create_over k now none ts = some (assign k (new_thread k now) ts)
create_over k now (some t) ts =
    if is_deleted t.status then some (assign k (new_thread k now) ts) else none

-- `none` is the ValueError.
unfoldable pub create_thread : String → ℕ → Threads → Option Threads
create_thread k now ts = create_over k now (lookup k ts) ts

abbrev pub unless_deleted : Option ThreadInfo → Option ThreadInfo
unless_deleted none = none
unless_deleted (some t) = if is_deleted t.status then none else some t

unfoldable pub get_thread : String → Threads → Option ThreadInfo
get_thread k ts = unless_deleted (lookup k ts)

abbrev pub touch : String → ℕ → Option ThreadInfo → Threads → Bool × Threads
touch k now none ts = (false, ts)
touch k now (some t) ts =
    (true, assign k (record t { updated_at = now; message_count = t.message_count + 1 }) ts)

unfoldable pub touch_thread : String → ℕ → Threads → Bool × Threads
touch_thread k now ts = touch k now (unless_deleted (lookup k ts)) ts

abbrev pub mark : String → ThreadStatus → Option ThreadInfo → Threads → Bool × Threads
mark k st none ts = (false, ts)
mark k st (some t) ts = (true, assign k (record t { status = st }) ts)

unfoldable pub archive_thread : String → Threads → Bool × Threads
archive_thread k ts = mark k archived (lookup k ts) ts

unfoldable pub delete_thread : String → Threads → Bool × Threads
delete_thread k ts = mark k deleted (lookup k ts) ts

unfoldable pub list_active_threads : Threads → List ThreadInfo
list_active_threads ts = keep is_listed (values ts)

unfoldable pub active_count : Threads → ℕ
unfolding list_active_threads
active_count ts = length (list_active_threads ts)
