-- ===== src/Store/Claim.antt =====
-- internal/store/check_runs.go: ClaimQueuedRuns, which hands a node its queued runs.
pub mod Laws
pub mod HandedOut
pub mod Once
use pingachock.Base.{
  ℕ, Bool, ◌&&◌, not, Option, none, some, List, [], ◌∷◌, ◌++◌, map, take, select, update_where,
  any_where, member, sort_by, ◌==◌, if◌then◌else◌,
}
use pingachock.Base.Int.{ℤ, not_positive, exceeds, to_nat}
use pingachock.Store.Models.{Uuid, Time, Check, CheckStatus, CheckRun, RunStatus, CheckRunJob}
use pingachock.Store.Db.{Db, ok, M, pure, ◌>>=◌, ◌>>◌, Sql, stmt, transaction}
use pingachock.Store.Runs.{is_queued, is_pending, has_check, find_check}

-- `if limit <= 0 || limit > 100 { limit = 50 }`
unfoldable pub claim_limit : ℤ → ℕ
claim_limit n = if not_positive n then 50 else if exceeds n 100 then 50 else to_nat n

-- The rows of the first query before its LIMIT. `locked` says which rows another transaction
-- holds: SKIP LOCKED leaves them out.
abbrev pub is_claimable : (Uuid → Bool) → Uuid → Db → CheckRun → Bool
is_claimable locked nid d r =
    r.node_id == nid && is_queued r.status && has_check d r.check_id && not (locked r.id)

abbrev pub created : CheckRun → Time
created r = r.created_at

unfoldable pub claimed_rows : (Uuid → Bool) → Uuid → ℕ → Db → List CheckRun
unfolding sort_by
claimed_rows locked nid limit d =
    take limit (sort_by created (select (is_claimable locked nid d) d.runs))

-- The columns that the query returns, joined with the check.
unfoldable pub job_of : CheckRun → Option Check → List CheckRunJob
job_of r none = []
job_of r (some c) =
    record {
      check_run_id = r.id;
      check_id = c.id;
      type = c.type;
      target = c.target;
      params = c.params;
    }
    ∷ []

unfoldable pub jobs_of : List Check → List CheckRun → List CheckRunJob
unfolding job_of
jobs_of cs [] = []
jobs_of cs (r ∷ rs) = job_of r (find_check r.check_id cs) ++ jobs_of cs rs

abbrev pub mark_dispatched : Time → CheckRun → CheckRun
mark_dispatched now r = record r { status = RunStatus.dispatched; dispatched_at = some now }

-- `UPDATE check_runs SET status = 'dispatched' … WHERE id = ANY(ids)`
abbrev pub dispatch_runs : List Uuid → Sql (Unit {0})
dispatch_runs ids u now d =
    ok (tt, record d { runs = update_where (λ r. member r.id ids) (mark_dispatched now) d.runs })

abbrev pub mark_running : Check → Check
mark_running c = record c { status = CheckStatus.running }

abbrev pub has_run_among : List Uuid → List CheckRun → Check → Bool
has_run_among ids rs c = any_where (λ (r : CheckRun). member r.id ids && r.check_id == c.id) rs

-- `UPDATE checks SET status = 'running' WHERE status = 'pending' AND id IN (…)`
abbrev pub start_checks : List Uuid → Sql (Unit {0})
start_checks ids u now d = ok (
  tt,
  record d {
    checks =
        update_where (λ c. is_pending c.status && has_run_among ids d.runs c) mark_running d.checks;
  },
)

abbrev pub job_id : CheckRunJob → Uuid
job_id j = j.check_run_id

abbrev pub select_claimed : (Uuid → Bool) → Uuid → ℕ → Sql (List CheckRunJob)
select_claimed locked nid limit u now d = ok (jobs_of d.checks (claimed_rows locked nid limit d), d)

-- The two UPDATEs, made only `if len(idStrs) > 0`.
unfoldable pub mark_claimed : List Uuid → M (Unit {0})
mark_claimed [] = pure tt
mark_claimed (i ∷ ids) = stmt (dispatch_runs (i ∷ ids)) >> stmt (start_checks (i ∷ ids))

unfoldable pub claim_body : (Uuid → Bool) → Uuid → ℕ → M (List CheckRunJob)
claim_body locked nid limit = do
  jobs ← stmt (select_claimed locked nid limit)
  mark_claimed (map job_id jobs)
  pure jobs

-- `ClaimQueuedRuns`
unfoldable pub claim_queued_runs : (Uuid → Bool) → Uuid → ℤ → M (List CheckRunJob)
unfolding mark_claimed claim_body
claim_queued_runs locked nid limit = transaction (claim_body locked nid (claim_limit limit))
