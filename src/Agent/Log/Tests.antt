-- ===== src/Agent/Log/Tests.antt =====
-- A folder with an old log, a recent one and a file of the user, where the day has changed.
use pingachock.Agent.Log.{
  append_to, write_current, write_rotated, open_append, is_old, prune_old, reopen, rotate,
  FolderEntry, Moment, Writer, log_name, write,
}
use pingachock.Base.{◌≡◌, refl, [], false, true, ◌∷◌, Bytes, some, List, codes}
use pingachock.Store.Models.{Time}

abbrev file : Bytes → Time → FolderEntry
file name time = record { name = name; is_dir = false; mod_time = time; content = codes "{}" }

abbrev folder : List FolderEntry
folder =
    file (log_name (codes "2025-01-01")) 10
    ∷ file (codes "notes.txt") 10
    ∷ file (log_name (codes "2025-01-08")) 80
    ∷ []

abbrev morning : Moment
morning = record {
  today = codes "2025-01-09";
  now = 90;
  cutoff = 20;
  reads = true;
  removes = λ e. true;
  opens = true;
  writes = true;
}

abbrev of_yesterday : Writer
of_yesterday = record {
  current = some (log_name (codes "2025-01-08"));
  is_open = true;
  date = codes "2025-01-08";
}

abbrev folder_after : List FolderEntry
folder_after =
    file (codes "notes.txt") 10
    ∷ file (log_name (codes "2025-01-08")) 80
    ∷ file (log_name (codes "2025-01-09")) 90
    ∷ []

writes_today : (write morning (codes "{}") of_yesterday folder).2 ≡ folder_after
unfolding write rotate reopen prune_old is_old open_append write_rotated write_current append_to
    log_name
writes_today = refl
