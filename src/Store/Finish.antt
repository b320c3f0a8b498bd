-- ===== src/Store/Finish.antt =====
-- internal/store/check_runs.go: CompleteCheckRun, TimeoutStaleRuns and finalizeCheckStatusTx, which
-- record the end of runs and derive the status of their check.
pub mod Laws
use pingachock.Base.{
  ℕ, ◌+◌, String, Bool, ◌&&◌, not, Option, none, some, List, [], ◌∷◌, ◌++◌, map, length, select,
  update_where, count_where, find_where, member, distinct_from, ltb, ◌==◌, if◌then◌else◌,
}
use pingachock.Store.Models.{Uuid, Time, Json, Check, CheckStatus, CheckRun, RunStatus, Result}
use pingachock.Store.Db.{
  Outcome, Db, not_found, unique_violation, ok, err, M, pure, ◌>>=◌, ◌>>◌, Sql, stmt, transaction,
}
use pingachock.Store.Runs.{run_check, is_open, is_done, is_errored, is_cancelled}

-- `count(*) FILTER (…) FROM check_runs WHERE check_id = $1`
abbrev pub count_runs : (RunStatus → Bool) → Uuid → List CheckRun → ℕ
count_runs p cid = count_where (λ (r : CheckRun). r.check_id == cid && p r.status)

-- The `switch` of `finalizeCheckStatusTx`, on the numbers of runs done and errored.
unfoldable pub final_status : ℕ → ℕ → CheckStatus
final_status done errored =
    if errored == 0
    then CheckStatus.completed
    else if done == 0
    then CheckStatus.failed
    else CheckStatus.partial

abbrev pub finish_check : CheckStatus → Time → Check → Check
finish_check st now c = record c { status = st; completed_at = some now }

abbrev pub select_counts : Uuid → Sql (ℕ × ℕ × ℕ)
select_counts cid u now d = ok (
  (count_runs is_open cid d.runs, count_runs is_done cid d.runs, count_runs is_errored cid d.runs),
  d,
)

-- `UPDATE checks SET status = $2 … WHERE id = $1 AND status <> 'cancelled'`
abbrev pub set_final : Uuid → CheckStatus → Sql (Unit {0})
set_final cid st u now d = ok (
  tt,
  record d {
    checks =
        update_where (λ c. c.id == cid && not (is_cancelled c.status)) (finish_check st now)
          d.checks;
  },
)

-- `finalizeCheckStatusTx`
unfoldable pub finalize_check_status : Uuid → M (Unit {0})
finalize_check_status cid = do
  n ← stmt (select_counts cid)
  if ltb 0 n.0 then pure tt else stmt (set_final cid (final_status n.1 n.2))

-- What a node reports of one run.
pub record Report : Type 0 where
  pub success : Bool
  pub latency_ms : Option ℕ
  pub status_code : Option String
  pub error_message : Option String
  pub raw : Json

abbrev pub report_status : Report → RunStatus
report_status p = if p.success then RunStatus.done else RunStatus.error

abbrev pub finish_run : RunStatus → Time → CheckRun → CheckRun
finish_run st now r = record r { status = st; completed_at = some now }

abbrev pub is_run_of : Uuid → Uuid → CheckRun → Bool
is_run_of rid nid r = r.id == rid && r.node_id == nid

-- The row that the UPDATE returns, if there is one; none is ErrNotFound.
abbrev pub update_found :
    Uuid → Uuid → RunStatus → Time → Db → Option CheckRun → Outcome (Uuid × Db)
update_found rid nid st now d none = err not_found
update_found rid nid st now d (some r) =
    ok (r.check_id, record d { runs = update_where (is_run_of rid nid) (finish_run st now) d.runs })

-- `UPDATE check_runs … WHERE id = $1 AND node_id = $2 RETURNING check_id`
abbrev pub update_run : Uuid → Uuid → RunStatus → Sql Uuid
update_run rid nid st u now d =
    update_found rid nid st now d (find_where (is_run_of rid nid) d.runs)

abbrev pub result_id : Result → Uuid
result_id r = r.id

abbrev pub new_result : Uuid → Report → Uuid → Time → Result
new_result rid p u now = record {
  id = u;
  check_run_id = rid;
  success = p.success;
  latency_ms = p.latency_ms;
  status_code = p.status_code;
  error_message = p.error_message;
  raw = p.raw;
  created_at = now;
}

-- `INSERT INTO results …`
abbrev pub insert_result : Uuid → Report → Sql (Unit {0})
insert_result rid p u now d =
    if member u (map result_id d.results)
    then err unique_violation
    else ok (tt, record d { results = d.results ++ (new_result rid p u now ∷ []) })

unfoldable pub complete_body : Uuid → Uuid → Report → M (Unit {0})
complete_body rid nid p = do
  cid ← stmt (update_run rid nid (report_status p))
  stmt (insert_result rid p)
  finalize_check_status cid

-- `CompleteCheckRun`
unfoldable pub complete_check_run : Uuid → Uuid → Report → M (Unit {0})
unfolding complete_body
complete_check_run rid nid p = transaction (complete_body rid nid p)

-- `created_at < now() - grace`, written without a subtraction
abbrev pub is_stale : ℕ → Time → CheckRun → Bool
is_stale grace now r = is_open r.status && ltb (r.created_at + grace) now

-- `UPDATE check_runs SET status = 'timeout' … RETURNING check_id`
abbrev pub time_out_runs : ℕ → Sql (List Uuid)
time_out_runs grace u now d = ok (
  map run_check (select (is_stale grace now) d.runs),
  record d { runs = update_where (is_stale grace now) (finish_run RunStatus.timeout now) d.runs },
)

unfoldable pub finalize_all : List Uuid → M (Unit {0})
finalize_all [] = pure tt
finalize_all (cid ∷ cids) = finalize_check_status cid >> finalize_all cids

unfoldable pub timeout_body : (List Uuid → List Uuid) → ℕ → M ℕ
timeout_body order grace = do
  cids ← stmt (time_out_runs grace)
  finalize_all (order (distinct_from [] cids))
  pure (length cids)

-- `TimeoutStaleRuns`; `order` is the order in which Go ranges over the set of the check ids.
unfoldable pub timeout_stale_runs : (List Uuid → List Uuid) → ℕ → M ℕ
unfolding finalize_all timeout_body
timeout_stale_runs order grace = transaction (timeout_body order grace)
