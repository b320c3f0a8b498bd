-- ===== src/Agent/Log/Laws.antt =====
-- What a write to the log of internal/agentlog leaves alone in the folder, and which file it is to.
use pingachock.Agent.Log.{Writer, FolderEntry, log_name, Moment}
use pingachock.Base.{
  map, has_suffix, ltb, codes, has_prefix, ◌||◌, none, some, Option, [], any_where, ◌&&◌, ◌++◌,
  equal_codes, true, false, select, not, Bytes, ◌≡◌, List, Bool,
}

-- What logging has no business with: a folder, a file that is not named like a log, or one that was
-- changed after the cutoff; but today's file.
abbrev pub is_other : Moment → FolderEntry → Bool
is_other m e =
    (e.is_dir
      || not (has_prefix (codes "agent-") e.name)
      || not (has_suffix (codes ".log") e.name)
      || ltb m.cutoff e.mod_time)
    && not (equal_codes (log_name m.today) e.name)

abbrev opened : Moment → FolderEntry
opened m = record { name = log_name m.today; is_dir = false; mod_time = m.now; content = [] }

-- The file that is open is named after the date that goes with it.
unfoldable pub IsNamed : Option Bytes → Bytes → Type 0
IsNamed none date = Unit {0}
IsNamed (some name) date = name ≡ log_name date

-- What a step of the writer leaves: the other entries as they are and in their order, the open file
-- named after its date, and where the step succeeds this is today's.
abbrev pub IsKept : Moment → List FolderEntry → Bool × Writer × List FolderEntry → Type 0
IsKept m es r =
    (select (is_other m) r.2 ≡ select (is_other m) es)
    × IsNamed r.1.current r.1.date
    × (r.0 ≡ true → r.1.current ≡ some (log_name m.today))

abbrev pub is_today : Moment → FolderEntry → Bool
is_today m e = equal_codes (log_name m.today) e.name

abbrev pub appended : Moment → Bytes → FolderEntry → FolderEntry
appended m p e = record e { mod_time = m.now; content = e.content ++ p }

-- A success has appended the bytes to today's file, and a failure nothing to any.
abbrev pub IsWritten : Moment → Bytes → List FolderEntry → Bool × Writer × List FolderEntry → Type 0
IsWritten m p before r =
    (r.0 ≡ true → select (is_today m) r.2 ≡ map (appended m p) (select (is_today m) before))
    × (r.0 ≡ false → r.2 ≡ before)

abbrev pub HasToday : Moment → Bool × Writer × List FolderEntry → Type 0
HasToday m r = r.0 ≡ true → any_where (is_today m) r.2 ≡ true
