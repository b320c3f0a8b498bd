-- ===== src/Store/Migrations.antt =====
-- internal/store/store.go: RunMigrations. What an SQL file does to the database is a parameter, and so is
-- strconv.ParseInt, here on prefixes that are not negative. Files with one version number are taken in
-- the order of the directory.
pub mod Laws
mod Tests
use pingachock.Base.{
  has_suffix, member, sort_by, [], ◌∷◌, ◌&&◌, none, reverse, if◌then◌else◌, codes, not, has_prefix,
  split_on, ◌++◌, some, Option, ℕ, List, Bool, Bytes,
}
use pingachock.Store.Db.{later_faults, next_fault}

-- A directory entry; `body` is what ReadFile gives, `none` its error.
pub record Entry : Type 0 where
  pub name : Bytes
  pub is_dir : Bool
  pub body : Option Bytes

pub record Migration : Type 0 where
  pub version : ℕ
  pub body : Option Bytes

-- `tables` is all that the SQL files change, `applied` the table `schema_migrations`; `failing` says
-- which of the coming steps on the database fail.
pub record Schema (S : Type 0) : Type 0 where
  pub tables : S
  pub applied : List ℕ
  pub failing : List Bool

pub data Failure : Type 0 where
  no_schema_table no_dir no_numeric_prefix not_checked not_read not_applied : Failure

abbrev pub Run : Type 0 → Type 0
Run S = Option Failure × Schema S

abbrev pub up_suffix : Bytes
up_suffix = codes ".up.sql"

-- `strings.SplitN(name, "_", 2)[0]`
abbrev pub version_prefix : Bytes → Bytes
version_prefix name = elim (split_on b'_' name) [ [] ↦ [] | p ∷ ps ↦ p ]

abbrev pub is_migration : Entry → Bool
is_migration e = not e.is_dir && has_suffix up_suffix e.name

abbrev pub version_of : Migration → ℕ
version_of m = m.version

module _ (parse_int : Bytes → Option ℕ) where
  abbrev pub add_migration :
      Option Bytes → Option ℕ → Option (List Migration) → Option (List Migration)
  add_migration b (some v) (some ms) = some (record { version = v; body = b } ∷ ms)
  add_migration b _ _ = none

  -- The first loop; `none` is a file without a numeric prefix.
  unfoldable pub find_migrations : List Entry → Option (List Migration)
  find_migrations [] = some []
  find_migrations (e ∷ es) =
      let rest = find_migrations es in
      if is_migration e then add_migration e.body (parse_int (version_prefix e.name)) rest else rest

module _ {S : Type 0} (exec : Bytes → S → Option S) where
  -- The next step on the database fails.
  abbrev pub fails_now : Schema S → Bool
  fails_now s = next_fault s.failing

  abbrev pub step : Schema S → Schema S
  step s = record s { failing = later_faults s.failing }

  abbrev pub recorded : ℕ → S → Schema S → Schema S
  recorded v t s = record s { tables = t; applied = s.applied ++ (v ∷ []) }

  -- The file's statements and the INSERT, in one transaction.
  unfoldable pub apply_one : ℕ → Option S → Schema S → Run S
  apply_one v none s = (some not_applied, step s)
  apply_one v (some t) s =
      if fails_now s then (some not_applied, step s) else (none, recorded v t (step s))

  unfoldable pub apply_body : ℕ → Option Bytes → Schema S → Run S
  unfolding apply_one
  apply_body v none s = (some not_read, s)
  apply_body v (some b) s = apply_one v (exec b s.tables) s

  -- One round of the second loop.
  unfoldable pub apply : Migration → Schema S → Run S
  unfolding apply_body
  apply m s =
      if fails_now s
      then (some not_checked, step s)
      else if member m.version s.applied
      then (none, step s)
      else apply_body m.version m.body (step s)

  abbrev pub go_on : Run S → (Schema S → Run S) → Run S
  go_on (some e, s) k = (some e, s)
  go_on (none, s) k = k s

  -- The second loop, which stops at the first error.
  unfoldable pub apply_all : List Migration → Schema S → Run S
  apply_all [] s = (none, s)
  apply_all (m ∷ ms) s = go_on (apply m s) (apply_all ms)

  unfoldable pub apply_found : Option (List Migration) → Schema S → Run S
  unfolding apply_all
  apply_found none s = (some no_numeric_prefix, s)
  apply_found (some ms) s = apply_all (sort_by version_of ms) s

  unfoldable pub apply_dir : (Bytes → Option ℕ) → Option (List Entry) → Schema S → Run S
  unfolding apply_found
  apply_dir parse_int none s = (some no_dir, s)
  apply_dir parse_int (some es) s = apply_found (find_migrations parse_int es) s

  -- `RunMigrations`; `none` is a directory that cannot be read.
  unfoldable pub run_migrations : (Bytes → Option ℕ) → Option (List Entry) → Schema S → Run S
  unfolding apply_dir
  run_migrations parse_int dir s =
      if fails_now s then (some no_schema_table, step s) else apply_dir parse_int dir (step s)
