-- ===== src/Db/Tests.antt =====
-- Initialisations of a new file, and of one that was left after the fourth migration.
use fxfill_enterprise_bankin.Common.{◌≡◌, refl, true, false, some, [], arith}
use fxfill_enterprise_bankin.Db.{
  Db, ok, new_file, init_database, migrate_v1, migrate_v2, migrate_v3, migrate_v4, migrate_v5,
  migrate_v6, copy_rows, duplicate_sessions, duplicate_keys, ◌>>=◌,
}
use fxfill_enterprise_bankin.Db.Migrations.{
  is_ok, grant_rows, init_database_settles, interrupted_migration_is_stuck, new_file_initialises,
}

abbrev initialised : Db
initialised = record {
  version = 6;
  core = true;
  sessions = some true;
  grants = some [];
  scratch_v3 = false;
  scratch_v5 = false;
  channel_writes = true;
}

initialises : init_database 6 new_file ≡ ok initialised
unfolding init_database migrate_v1 migrate_v2 migrate_v3 migrate_v4 migrate_v5 migrate_v6 copy_rows
    duplicate_sessions duplicate_keys
initialises = refl

init_database_settles_example :
    (initialised.version ≡ 6)
    × (grant_rows initialised ≡ grant_rows new_file)
    × (init_database 6 initialised ≡ ok initialised)
init_database_settles_example = init_database_settles 6 new_file initialised initialises

new_file_initialises_example : is_ok (init_database 6 new_file) ≡ true
new_file_initialises_example = new_file_initialises 6

-- What the first four migrations leave of a new file.
abbrev interrupted : Db
interrupted = record initialised { version = 0; channel_writes = false }

reaches_interrupted :
    (migrate_v1 new_file >>= migrate_v2 >>= migrate_v3 >>= migrate_v4) ≡ ok interrupted
unfolding migrate_v1 migrate_v2 migrate_v3 migrate_v4 copy_rows duplicate_sessions duplicate_keys
reaches_interrupted = refl

interrupted_migration_is_stuck_example : is_ok (init_database 6 interrupted) ≡ false
interrupted_migration_is_stuck_example =
    interrupted_migration_is_stuck 6 interrupted (omega arith) (omega arith) refl
