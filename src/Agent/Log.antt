-- ===== src/Agent/Log.antt =====
-- internal/agentlog: the agent's log files, one a day, and the removal of old ones.
pub mod Laws
mod Tests
use pingachock.Base.{
  has_suffix, ltb, has_prefix, [], ◌&&◌, ◌∷◌, false, some, equal_codes, any_where, none, true,
  is_some, ◌++◌, select, not, codes, update_where, if◌then◌else◌, Bool, Bytes, Option, List,
}
use pingachock.Store.Models.{Time}

-- A file or a folder in the folder of the logs.
pub record FolderEntry : Type 0 where
  pub name : Bytes
  pub is_dir : Bool
  pub mod_time : Time
  pub content : Bytes

-- `dailyWriter`: the file that was opened last, whether it still is open, and its date.
pub record Writer : Type 0 where
  pub current : Option Bytes
  pub is_open : Bool
  pub date : Bytes

-- One moment: the date as it is written, the time, the time `keepDays` days before it, and whether the
-- folder can be read, an entry be looked up and removed, today's file be opened and be written to; a
-- write that fails adds nothing.
pub record Moment : Type 0 where
  pub today : Bytes
  pub now : Time
  pub cutoff : Time
  pub reads : Bool
  pub removes : FolderEntry → Bool
  pub opens : Bool
  pub writes : Bool

unfoldable pub log_name : Bytes → Bytes
log_name date = codes "agent-" ++ (date ++ codes ".log")

-- What `pruneOld` removes: a log file that was not changed after the cutoff.
unfoldable pub is_old : Time → FolderEntry → Bool
is_old cutoff e =
    not e.is_dir
    && (has_prefix (codes "agent-") e.name && has_suffix (codes ".log") e.name)
    && not (ltb cutoff e.mod_time)

unfoldable pub prune_old : Moment → List FolderEntry → List FolderEntry
prune_old m es = if m.reads then select (λ e. not (is_old m.cutoff e && m.removes e)) es else es

-- Opening a file to append to it makes it where it is missing.
unfoldable pub open_append : Bytes → Time → List FolderEntry → List FolderEntry
open_append name now es =
    if any_where (λ e. equal_codes name e.name) es
    then es
    else es ++ (record { name = name; is_dir = false; mod_time = now; content = [] } ∷ [])

unfoldable pub reopen : Moment → Writer → List FolderEntry → Bool × Writer × List FolderEntry
reopen m w es =
    if m.opens
    then (
      true,
      record { current = some (log_name m.today); is_open = true; date = m.today },
      open_append (log_name m.today) m.now (prune_old m es),
    )
    else (false, record w { is_open = false }, prune_old m es)

unfoldable pub rotate : Moment → Writer → List FolderEntry → Bool × Writer × List FolderEntry
rotate m w es =
    if is_some w.current && equal_codes w.date m.today then (true, w, es) else reopen m w es

unfoldable pub append_to : Bytes → Time → Bytes → List FolderEntry → List FolderEntry
append_to name now p es =
    update_where (λ e. equal_codes name e.name)
      (λ e. record e { mod_time = now; content = e.content ++ p }) es

unfoldable pub write_current :
    Moment → Bytes → Writer → List FolderEntry → Option Bytes → Bool × Writer × List FolderEntry
write_current m p w es none = (false, w, es)
write_current m p w es (some name) =
    if w.is_open && m.writes then (true, w, append_to name m.now p es) else (false, w, es)

unfoldable pub write_rotated :
    Moment → Bytes → Bool × Writer × List FolderEntry → Bool × Writer × List FolderEntry
write_rotated m p (true, w, es) = write_current m p w es w.current
write_rotated m p (false, w, es) = (false, w, es)

-- `dailyWriter.Write`: whether it succeeds, the writer and the folder after it.
unfoldable pub write : Moment → Bytes → Writer → List FolderEntry → Bool × Writer × List FolderEntry
write m p w es = write_rotated m p (rotate m w es)
