-- ===== src/Agent/Setup/Install.antt =====
-- cmd/agent/main.go: where the agent is installed, and how its binary is moved and replaced. The paths of
-- the operating system are `Paths`; the service manager's answers are arguments.
pub mod Laws
use pingachock.Base.{
  ◌++◌, to_lower, any_where, has_prefix, none, equal_fold, true, ◌||◌, is_empty, some, false, ◌&&◌,
  [], not, codes, equal_codes, ◌∷◌, Option, if◌then◌else◌, Bytes, List, Bool,
}
use pingachock.Agent.Setup.CommandLine.{Paths}

-- The names that `riskyDir` knows.
abbrev pub risky_names : List Bytes
risky_names =
    codes "Documents"
    ∷ codes "Desktop"
    ∷ codes "Downloads"
    ∷ codes "Pictures"
    ∷ codes "Movies"
    ∷ codes "Music"
    ∷ []

-- A directory, or one below it.
abbrev pub is_at_or_below : Bytes → Bytes → Bytes → Bool
is_at_or_below separator risky dir = equal_codes dir risky || has_prefix (risky ++ separator) dir

-- What is on the disk, where it may be written, and whether the service runs.
pub record Machine : Type 0 where
  pub files : Bytes → Option Bytes
  pub can_write : Bytes → Bool
  pub running : Bool

abbrev pub write_file : Machine → Bytes → Bytes → Machine
write_file m path b = record m { files = λ q. if equal_codes q path then some b else m.files q }

-- `copyFile`; `none` is its error.
abbrev pub write_copy : Machine → Bytes → Option Bytes → Option Machine
write_copy m dst none = none
write_copy m dst (some b) = if m.can_write dst then some (write_file m dst b) else none

unfoldable pub copy_file : Machine → Bytes → Bytes → Option Machine
copy_file m src dst = write_copy m dst (m.files src)

-- An entry of a directory.
pub record DirEntry : Type 0 where
  pub name : Bytes
  pub is_dir : Bool

-- `startService`, by what `service.Control` and `darwinBootstrapRecover` answer.
unfoldable pub start_service : Bool → Bool → Bool → Bool
start_service control is_darwin recovers = if control then true else is_darwin && recovers

pub data Relocation : Type 0 where
  stays : Relocation
  problem : Relocation
  relocated : Bytes → Bytes → Machine → Relocation

pub data UpdateFailure : Type 0 where
  not_configured no_path not_copied not_started : UpdateFailure

module _ (paths : Paths) where
  -- `riskyDir`; `home` is what `os.UserHomeDir` gives, `none` its error.
  unfoldable pub risky_dir : Bytes → Option Bytes → Bytes → Bool
  risky_dir separator none dir = false
  risky_dir separator (some home) dir =
      any_where (λ name. is_at_or_below separator (to_lower (paths.join home name)) (to_lower dir))
        risky_names

  abbrev pub has_other_ext : Bytes → Bytes → Bool
  has_other_ext ext name = not (is_empty ext) && not (equal_fold (paths.ext name) ext)

  abbrev pub found_or : Bytes → Bytes → Bytes → Bytes
  found_or dir fallback [] = fallback
  found_or dir fallback (c ∷ name) = paths.join dir (c ∷ name)

  -- The loop of `installedBinaryPathIn`, on the entries that are left and on `found`.
  unfoldable pub find_binary : Bytes → Bytes → Bytes → List DirEntry → Bytes → Bytes
  find_binary dir fallback ext [] found = found_or dir fallback found
  find_binary dir fallback ext (e ∷ es) found =
      let skipped = find_binary dir fallback ext es found in
      let taken = find_binary dir fallback ext es e.name in
      if e.is_dir || has_other_ext ext e.name
      then skipped
      else if not (is_empty found)
      then fallback
      else taken

  -- `installedBinaryPathIn`; `entries` is what `os.ReadDir` gives, `none` its error.
  unfoldable pub installed_binary_path_in : Bytes → Option (List DirEntry) → Bytes → Bytes
  unfolding find_binary
  installed_binary_path_in dir none exe = paths.join dir (paths.base exe)
  installed_binary_path_in dir (some es) exe =
      find_binary dir (paths.join dir (paths.base exe)) (paths.ext (paths.base exe)) es []

  -- A copy of the configuration whose failure is ignored.
  abbrev pub copied_or_same : Machine → Option Machine → Machine
  copied_or_same m none = m
  copied_or_same m (some m') = m'

  abbrev pub bring_config : Bytes → Bytes → Option Machine → Bytes → Relocation
  bring_config config new_config none new_exe = problem
  bring_config config new_config (some m) new_exe =
      relocated new_exe new_config (copied_or_same m (copy_file m config new_config))

  -- `relocateIfRisky`; `is_risky` is `riskyDir` of the binary's directory, `writable` is
  -- `canWriteDir`, `made` whether `os.MkdirAll` succeeds. `problem` is the end of the process.
  unfoldable pub relocate_if_risky :
      Bool → Bool → Bool → Bytes → Bytes → Bytes → Machine → Relocation
  unfolding copy_file
  relocate_if_risky is_risky writable made dest exe config m =
      if not is_risky && writable
      then stays
      else if equal_codes (paths.clean (paths.dir exe)) (paths.clean dest)
      then problem
      else if not made
      then problem
      else bring_config config (paths.join dest (paths.base config))
          (copy_file m exe (paths.join dest (paths.base exe))) (paths.join dest (paths.base exe))

  -- The end of `runUpdate`.
  abbrev pub start_updated : Bool → Option Machine → Machine → Option UpdateFailure × Machine
  start_updated started none m = (some not_copied, m)
  start_updated started (some m') m =
      if started then (none, record m' { running = true }) else (some not_started, m')

  -- The new binary is copied, unless it is the one that is installed.
  unfoldable pub bring_binary : Bytes → Bytes → Machine → Option Machine
  unfolding copy_file
  bring_binary exe dest m =
      if equal_codes (paths.clean exe) (paths.clean dest) then some m else copy_file m exe dest

  -- `runUpdate`; `stops` is whether the service manager stops the service, `started` the answer of
  -- `startService`. The service may be running or not before.
  unfoldable pub run_update :
      Bool
      → Bool
      → Bool
      → Option Bytes
      → Bytes
      → Option (List DirEntry)
      → Machine
      → Option UpdateFailure × Machine
  unfolding bring_binary installed_binary_path_in
  run_update configured stops started none safe_dir entries m =
      (some (if configured then no_path else not_configured), m)
  run_update configured stops started (some exe) safe_dir entries m =
      let stopped_machine = record m { running = if stops then false else m.running } in
      if configured
      then start_updated started
          (bring_binary exe (installed_binary_path_in safe_dir entries exe) stopped_machine)
          stopped_machine
      else (some not_configured, m)
