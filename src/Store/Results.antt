-- ===== src/Store/Results.antt =====
-- internal/store/results.go: the runs of checks, each with its node and its results.
-- `LEFT JOIN results`: a run with no result gives one row, a run with several gives one for each.
use pingachock.Store.Db.{◌>>=◌, ok, stmt, pure, M, Db}
use pingachock.Store.Models.{Result, RunWithResult, Time, Node, Uuid, CheckRun}
use pingachock.Base.{
  some, ◌==◌, ◌++◌, if◌then◌else◌, map, find_where, [], none, ◌∷◌, Option, sort_by, select, List,
}

abbrev pub left_join : CheckRun → Node → List Result → List RunWithResult
left_join r n [] = record { run = r; node = n; result = none } ∷ []
left_join r n (x ∷ xs) = map (λ p. record { run = r; node = n; result = some p }) (x ∷ xs)

abbrev pub results_of : Uuid → List Result → List Result
results_of rid = select (λ p. p.check_run_id == rid)

-- `JOIN nodes`: a run with no node gives no row.
join_node : List Result → CheckRun → Option Node → List RunWithResult
join_node ps r none = []
join_node ps r (some n) = left_join r n (results_of r.id ps)

abbrev pub find_node : Uuid → List Node → Option Node
find_node nid = find_where (λ n. n.id == nid)

unfoldable pub join_rows : Db → List CheckRun → List RunWithResult
unfolding join_node
join_rows d [] = []
join_rows d (r ∷ rs) = join_node d.results r (find_node r.node_id d.nodes) ++ join_rows d rs

abbrev pub run_created : CheckRun → Time
run_created r = r.created_at

-- The rows of one check, in the order of the query.
unfoldable pub rows_of : Db → Uuid → List RunWithResult
rows_of d cid = join_rows d (sort_by run_created (select (λ r. r.check_id == cid) d.runs))

-- `ListRunsForChecks`: the rows grouped by check, for each id that was asked for.
unfoldable pub list_runs_for_checks : List Uuid → M (List (Uuid × List RunWithResult))
list_runs_for_checks [] = pure []
list_runs_for_checks (cid ∷ cids) =
    stmt (λ u now d. ok (map (λ c. (c, rows_of d c)) (cid ∷ cids), d))

-- `byCheck[checkID]`, where a missing key is the empty slice.
abbrev pub runs_at : Uuid → List (Uuid × List RunWithResult) → List RunWithResult
runs_at cid [] = []
runs_at cid ((c, rows) ∷ m) = let rest = runs_at cid m in if c == cid then rows else rest

-- `ListRunsForCheck`
unfoldable pub list_runs_for_check : Uuid → M (List RunWithResult)
list_runs_for_check cid = do m ← list_runs_for_checks (cid ∷ []); pure (runs_at cid m)
