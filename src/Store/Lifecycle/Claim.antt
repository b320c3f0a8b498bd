-- ===== src/Store/Lifecycle/Claim.antt =====
-- internal/store/check_runs.go: ClaimQueuedRuns and the invariant of the tables.
-- What the query selects, by id.
use pingachock.Store.Claim.{
  mark_running, created, claim_limit, mark_dispatched, dispatch_runs, start_checks, is_claimable,
  job_id, claimed_rows, claim_body, mark_claimed, jobs_of, claim_queued_runs,
}
use pingachock.Base.{
  member-take, All-zip, ◌&&◌, refl, All-update_where, member-sort_by, count_where-update_where,
  All-imp, [], member-select, sym, arith, ◌==◌, update_where, false, select, true, ◌∷◌, map, Unique,
  ◌≡◌, member, ℕ, All, Bool, List,
}
use pingachock.Store.Models.{Time, Check, CheckRun, CheckStatus, RunStatus, Uuid}
use pingachock.Store.Triple.{Triple-stmt, transaction-Keeps, SqlPost, Keeps, Triple->>=, Triple}
use pingachock.Store.Runs.{is_errored, run_id, is_done, is_open, is_queued, is_pending, run_ids}
use pingachock.Base.Int.{ℤ}
use pingachock.Store.Db.{Db}
use pingachock.Store.Lifecycle.{
  IsKeyed-update_runs, IsKeyed-update_checks, StatusAgrees, IsValid, Agrees,
}
use pingachock.Store.Finish.{count_runs}

jobs_of-ids :
    (a : Uuid) (cs : List Check) (rs : List CheckRun)
    → member a (map job_id (jobs_of cs rs)) ≡ true
    → member a (run_ids rs) ≡ true
unfolding jobs_of
jobs_of-ids a cs [] h = cc
jobs_of-ids a cs (r ∷ rs) h = ground (arith, jobs_of-ids a cs rs)

absent_ne :
    (a : Uuid) (rs : List CheckRun)
    → member a (run_ids rs) ≡ false
    → All (λ x. (a == x.id) ≡ false) rs
absent_ne a [] h = tt
absent_ne a (r ∷ rs) h = (ground arith, absent_ne a rs (ground arith))

-- Under unique ids a row with a selected id is selected.
select_by_id :
    (p : CheckRun → Bool) (rs : List CheckRun)
    → Unique (run_ids rs)
    → All (λ r. member r.id (run_ids (select p rs)) ≡ true → p r ≡ true) rs
select_by_id p [] u = tt
select_by_id p (r ∷ rs) u = (
  λ h. ground (arith, member-select run_id r.id p rs),
  All-imp (λ x. (r.id == x.id) ≡ false × (member x.id (run_ids (select p rs)) ≡ true → p x ≡ true))
      _ rs (λ x e h. ground (arith, e.1))
      (All-zip _ _ rs (absent_ne r.id rs u.0) (select_by_id p rs u.1)),
)

module _ (locked : Uuid → Bool) (nid : Uuid) (limit : ℕ) (d : Db) where
  abbrev pub claimed_ids : List Uuid
  claimed_ids = map job_id (jobs_of d.checks (claimed_rows locked nid limit d))

  -- A run whose id is handed out was claimable: queued, of this node, and not locked.
  pub claimed_ids-claimable :
      Unique (run_ids d.runs)
      → All (λ r. member r.id claimed_ids ≡ true → is_claimable locked nid d r ≡ true) d.runs
  unfolding claimed_rows
  claimed_ids-claimable u =
      All-imp
        (λ r.
          member r.id (run_ids (select (is_claimable locked nid d) d.runs)) ≡ true
          → is_claimable locked nid d r ≡ true)
        _ d.runs
        (λ r f h. f (
          rw (← member-sort_by created run_id r.id (select (is_claimable locked nid d) d.runs))
            (member-take run_id r.id limit _ (jobs_of-ids r.id d.checks _ h))))
        (select_by_id (is_claimable locked nid d) d.runs u)

-- Dispatching queued runs moves no count.
same_class :
    (p : RunStatus → Bool) (st : RunStatus)
    → p RunStatus.queued ≡ p RunStatus.dispatched
    → is_queued st ≡ true
    → p RunStatus.dispatched ≡ p st
same_class p RunStatus.queued e h = sym e
same_class p RunStatus.dispatched e h = cc
same_class p RunStatus.running e h = cc
same_class p RunStatus.done e h = cc
same_class p RunStatus.error e h = cc
same_class p RunStatus.timeout e h = cc

abbrev AreQueued : List Uuid → List CheckRun → Type 0
AreQueued ids rs = All (λ r. member r.id ids ≡ true → is_queued r.status ≡ true) rs

count_runs-dispatch :
    (p : RunStatus → Bool) (cid : Uuid) (ids : List Uuid) (now : Time) (rs : List CheckRun)
    → p RunStatus.queued ≡ p RunStatus.dispatched
    → AreQueued ids rs
    → count_runs p cid (update_where (λ r. member r.id ids) (mark_dispatched now) rs)
      ≡ count_runs p cid rs
count_runs-dispatch p cid ids now rs e h =
    count_where-update_where (λ r. r.check_id == cid && p r.status) _ (mark_dispatched now) rs
      (All-imp _ _ rs (λ r q t. rw (same_class p r.status e (q t))) h)

Agrees-dispatch :
    (ids : List Uuid) (now : Time) (rs : List CheckRun) (c : Check)
    → AreQueued ids rs
    → Agrees rs c
    → Agrees (update_where (λ r. member r.id ids) (mark_dispatched now) rs) c
Agrees-dispatch ids now rs c h a =
    rw
      (
        count_runs-dispatch is_open c.id ids now rs refl h,
        count_runs-dispatch is_done c.id ids now rs refl h,
        count_runs-dispatch is_errored c.id ids now rs refl h,
      )
      a

dispatch_runs-IsValid :
    (ids : List Uuid) (u : Uuid) (now : Time) (d : Db)
    → IsValid d × AreQueued ids d.runs
    → SqlPost (λ _. IsValid) (dispatch_runs ids u now d)
dispatch_runs-IsValid ids u now d (v, q) = record {
  keyed = IsKeyed-update_runs d _ _ (λ r. refl) (λ r. refl) v.keyed;
  agreeing =
      All-imp (Agrees d.runs) _ d.checks (λ c. Agrees-dispatch ids now d.runs c q) v.agreeing;
}

started_agrees :
    (st : CheckStatus) (o f e : ℕ)
    → is_pending st ≡ true
    → StatusAgrees st o f e
    → StatusAgrees CheckStatus.running o f e
started_agrees CheckStatus.pending o f e h a = a
started_agrees CheckStatus.running o f e h a = cc
started_agrees CheckStatus.completed o f e h a = cc
started_agrees CheckStatus.partial o f e h a = cc
started_agrees CheckStatus.failed o f e h a = cc
started_agrees CheckStatus.cancelled o f e h a = cc

start_checks-IsValid :
    (ids : List Uuid) (u : Uuid) (now : Time) (d : Db)
    → IsValid d
    → SqlPost (λ _. IsValid) (start_checks ids u now d)
start_checks-IsValid ids u now d v = record {
  keyed = IsKeyed-update_checks d _ _ (λ c. refl) v.keyed;
  agreeing =
      All-update_where (Agrees d.runs) (Agrees d.runs) _ mark_running d.checks
        (λ c t a. started_agrees c.status _ _ _ (ground arith) a) (λ c t a. a) v.agreeing;
}

mark_claimed-Triple :
    (ids : List Uuid)
    → Triple (λ d. IsValid d × AreQueued ids d.runs) (mark_claimed ids) (λ _. IsValid)
unfolding mark_claimed
mark_claimed-Triple [] = λ w h. h.0
mark_claimed-Triple (i ∷ ids) =
    Triple->>= _ (λ _. IsValid) (λ _. IsValid) _ _
      (Triple-stmt _ _ _ (dispatch_runs-IsValid (i ∷ ids)))
      (λ _. Triple-stmt _ _ _ (start_checks-IsValid (i ∷ ids)))

claim_body-Triple :
    (locked : Uuid → Bool) (nid : Uuid) (limit : ℕ)
    → Triple IsValid (claim_body locked nid limit) (λ _. IsValid)
unfolding claim_body
claim_body-Triple locked nid limit =
    Triple->>= IsValid (λ jobs d. IsValid d × AreQueued (map job_id jobs) d.runs) (λ _. IsValid) _ _
      (Triple-stmt _ _ _ (λ u now d v. (
        v,
        All-imp _ _ d.runs (λ r f t. ground (arith, f t))
            (claimed_ids-claimable locked nid limit d v.keyed.unique_runs),
      )))
      (λ jobs.
        Triple->>= _ (λ _. IsValid) (λ _. IsValid) _ _ (mark_claimed-Triple (map job_id jobs))
          (λ _ w v. v))

-- A poll keeps the invariant.
pub claim_queued_runs-IsValid :
    (locked : Uuid → Bool) (nid : Uuid) (limit : ℤ)
    → Keeps IsValid (claim_queued_runs locked nid limit)
unfolding claim_queued_runs
claim_queued_runs-IsValid locked nid limit =
    transaction-Keeps IsValid _ (claim_body-Triple locked nid (claim_limit limit))
