-- ===== src/Store/Migrations/Tests.antt =====
-- The theorems about RunMigrations at two files, the second of which is listed first.
use pingachock.Base.{
  refl, false, ◌≡◌, ◌-◌, ◌++◌, none, codes, some, ◌∷◌, [], cut, Option, split_on, ℕ, sort_by,
  String, Bytes, List,
}
use pingachock.Store.Migrations.{
  apply, version_of, Migration, Entry, find_migrations, run_migrations, Schema,
}
use pingachock.Store.Migrations.Laws.{run_migrations_again, run_migrations-IsProgress, IsProgress}

abbrev number : Bytes → Option ℕ
number [] = none
number (c ∷ s) = some (last_digit c s)
  where
    last_digit : ℕ → Bytes → ℕ
    last_digit c [] = c - b'0'
    last_digit c (d ∷ s) = last_digit d s

abbrev file : String → ℕ → Entry
file name b = record { name = codes name; is_dir = false; body = some (b ∷ []) }

abbrev files : List Entry
files = file "0002_runs.up.sql" 20 ∷ file "0001_init.up.sql" 10 ∷ file "0001_init.down.sql" 0 ∷ []

abbrev found : List Migration
found =
    record { version = 2; body = some (20 ∷ []) }
    ∷ record { version = 1; body = some (10 ∷ []) }
    ∷ []

-- The tables are the statements that were run.
abbrev run_file : Bytes → List ℕ → Option (List ℕ)
run_file b t = some (t ++ b)

abbrev fresh : Schema (List ℕ)
fresh = record { tables = []; applied = []; failing = [] }

finds : find_migrations number files ≡ some found
unfolding find_migrations split_on cut
finds = refl

abbrev migrated : Schema (List ℕ)
migrated = record { tables = 10 ∷ 20 ∷ []; applied = 1 ∷ 2 ∷ []; failing = [] }

runs_in_order :
    run_migrations run_file number (some files) fresh
    ≡ (none, record { tables = 10 ∷ 20 ∷ []; applied = 1 ∷ 2 ∷ []; failing = [] })
unfolding run_migrations find_migrations split_on sort_by apply
runs_in_order = refl

run_migrations-IsProgress_example :
    IsProgress run_file fresh
      (sort_by version_of found)
      (run_migrations run_file number (some files) fresh)
run_migrations-IsProgress_example =
    run_migrations-IsProgress run_file number files found finds fresh

run_migrations_again_example :
    ((run_migrations run_file number (some files) migrated).1.tables ≡ migrated.tables)
    × ((run_migrations run_file number (some files) migrated).1.applied ≡ migrated.applied)
unfolding run_migrations find_migrations split_on sort_by apply
run_migrations_again_example = run_migrations_again run_file number files found finds fresh refl
