-- ===== src/Store/Runs.antt =====
-- internal/store/check_runs.go: the columns that its statements test, and CreateCheckRuns.
use pingachock.Base.{
  Bool, true, false, ◌&&◌, Option, none, List, [], ◌∷◌, ◌++◌, map, any_where, find_where, member,
  ◌==◌, if◌then◌else◌,
}
use pingachock.Store.Models.{Time, Uuid, Node, Check, CheckStatus, CheckRun, RunStatus}
use pingachock.Store.Db.{
  Db, db_error, unique_violation, ok, err, M, pure, ◌>>=◌, Sql, stmt, transaction,
}

-- `status IN ('queued','dispatched','running')`
abbrev pub is_open : RunStatus → Bool
is_open RunStatus.queued = true
is_open RunStatus.dispatched = true
is_open RunStatus.running = true
is_open _ = false

abbrev pub is_queued : RunStatus → Bool
is_queued RunStatus.queued = true
is_queued _ = false

abbrev pub is_done : RunStatus → Bool
is_done RunStatus.done = true
is_done _ = false

-- `status IN ('error','timeout')`
abbrev pub is_errored : RunStatus → Bool
is_errored RunStatus.error = true
is_errored RunStatus.timeout = true
is_errored _ = false

abbrev pub is_pending : CheckStatus → Bool
is_pending CheckStatus.pending = true
is_pending _ = false

abbrev pub is_cancelled : CheckStatus → Bool
is_cancelled CheckStatus.cancelled = true
is_cancelled _ = false

-- The columns by which the statements find rows.
abbrev pub run_id : CheckRun → Uuid
run_id r = r.id

abbrev pub run_ids : List CheckRun → List Uuid
run_ids = map run_id

abbrev pub check_id : Check → Uuid
check_id c = c.id

abbrev pub check_ids : List Check → List Uuid
check_ids = map check_id

abbrev pub run_check : CheckRun → Uuid
run_check r = r.check_id

abbrev pub has_check : Db → Uuid → Bool
has_check d cid = member cid (check_ids d.checks)

abbrev pub has_node : Db → Uuid → Bool
has_node d nid = any_where (λ (n : Node). n.id == nid) d.nodes

abbrev pub find_check : Uuid → List Check → Option Check
find_check cid = find_where (λ c. c.id == cid)

abbrev pub queued_run : Uuid → Uuid → Uuid → Time → CheckRun
queued_run cid nid u now = record {
  id = u;
  check_id = cid;
  node_id = nid;
  status = RunStatus.queued;
  dispatched_at = none;
  completed_at = none;
  created_at = now;
}

-- `INSERT INTO check_runs … RETURNING …`, with the primary key and the two references of the table.
abbrev pub insert_run : Uuid → Uuid → Sql CheckRun
insert_run cid nid u now d =
    if member u (run_ids d.runs)
    then err unique_violation
    else if has_check d cid && has_node d nid
    then ok
        (queued_run cid nid u now, record d { runs = d.runs ++ (queued_run cid nid u now ∷ []) })
    else err db_error

unfoldable pub insert_runs : Uuid → List Uuid → M (List CheckRun)
insert_runs cid [] = pure []
insert_runs cid (nid ∷ nids) =
    stmt (insert_run cid nid) >>= λ r. insert_runs cid nids >>= λ rs. pure (r ∷ rs)

-- `CreateCheckRuns`
unfoldable pub create_check_runs : Uuid → List Uuid → M (List CheckRun)
unfolding insert_runs
create_check_runs cid [] = pure []
create_check_runs cid (nid ∷ nids) = transaction (insert_runs cid (nid ∷ nids))
