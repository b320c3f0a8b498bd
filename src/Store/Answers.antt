-- ===== src/Store/Answers.antt =====
-- The two calls that loops make, ClaimQueuedRuns and TimeoutStaleRuns, while the database answers.
use pingachock.Base.{
  refl, inr, arith, ltb, inl, ◌∙◌, update_where, distinct_from, select, Bool-cases, count_where,
  length, [], ◌≡◌, map, ◌∷◌, Bool, List, ℕ,
}
use pingachock.Store.Models.{RunStatus, Time, CheckRun, CheckRunJob, Uuid}
use pingachock.Store.Claim.{
  claim_limit, job_id, start_checks, select_claimed, dispatch_runs, mark_claimed, claim_body,
  claim_queued_runs,
}
use pingachock.Store.Total.{
  Success, transaction-Total, Success-ok, Total-stmt, IsQuiet, Total->>=, Total,
}
use pingachock.Store.Db.{pure, ◌>>◌, ok, stmt, World, Db}
use pingachock.Store.Finish.{
  finish_run, is_stale, time_out_runs, select_counts, finalize_all, timeout_stale_runs,
  timeout_body, finalize_check_status,
}
use pingachock.Base.Int.{ℤ}
use pingachock.Store.Claim.Laws.{claim_queued_runs-IsClaim, IsClaim}
use pingachock.Api.Laws.{Post-ok}
use pingachock.Store.Runs.{run_check}

module _ (ids : ℕ → Uuid) (clock : Time) where
  abbrev Anything : {A : Type 0} → A → Db → Type 0
  Anything _ _ = Unit {0}

  mark_claimed-Total :
      (is : List Uuid) → Total ids clock (λ _. Unit {0}) (mark_claimed is) (λ _ _. Unit {0})
  unfolding mark_claimed
  mark_claimed-Total [] = λ w q h. (q, tt)
  mark_claimed-Total (i ∷ is) =
      Total->>= ids clock (λ _. Unit {0}) (λ _ _. Unit {0}) (λ _ _. Unit {0})
        (stmt (dispatch_runs (i ∷ is))) (λ _. stmt (start_checks (i ∷ is)))
        (Total-stmt ids clock _ _ _ (λ n d h. tt)) (λ _. Total-stmt ids clock _ _ _ (λ n d h. tt))

  claim_body-Total :
      (locked : Uuid → Bool) (nid : Uuid) (limit : ℕ)
      → Total ids clock (λ _. Unit {0}) (claim_body locked nid limit) (λ _ _. Unit {0})
  unfolding claim_body
  claim_body-Total locked nid limit =
      Total->>= ids clock (λ _. Unit {0}) (λ _ _. Unit {0}) (λ _ _. Unit {0})
        (stmt (select_claimed locked nid limit))
        (λ jobs. mark_claimed (map job_id jobs) >> pure jobs)
        (Total-stmt ids clock _ _ _ (λ n d h. tt))
        (λ jobs.
          Total->>= ids clock (λ _. Unit {0}) (λ _ _. Unit {0}) (λ _ _. Unit {0})
            (mark_claimed (map job_id jobs)) (λ _. pure jobs) (mark_claimed-Total (map job_id jobs))
            (λ _ w q h. (q, tt)))

  -- While the database answers, a claim succeeds: it hands out the oldest waiting runs of the node,
  -- and afterwards none of them is queued.
  pub claim_queued_runs-succeeds :
      (locked : Uuid → Bool) (nid : Uuid) (limit : ℤ) (w : World)
      → IsQuiet ids clock w
      → (jobs : List CheckRunJob) × ((claim_queued_runs locked nid limit w).0 ≡ ok jobs)
        × IsClaim locked nid
            (claim_limit limit)
            w.db
            jobs
            (claim_queued_runs locked nid limit w).1.db
  unfolding claim_queued_runs
  claim_queued_runs-succeeds locked nid limit w q =
      let (jobs, e, _) = Success-ok ids clock _ _ (
        transaction-Total ids clock (λ _. Unit {0}) _ _
          (claim_body-Total locked nid (claim_limit limit)) w q tt) in
      (
        jobs,
        e,
        Post-ok _ (claim_queued_runs locked nid limit w) jobs e
            (claim_queued_runs-IsClaim locked nid limit w),
      )

  module _ (rs : List CheckRun) where
    finalize_runs-Total :
        (cid : Uuid)
        → Total ids clock (λ d. d.runs ≡ rs) (finalize_check_status cid) (λ _ d. d.runs ≡ rs)
    unfolding finalize_check_status
    finalize_runs-Total cid =
        Total->>= ids clock (λ d. d.runs ≡ rs) (λ _ d. d.runs ≡ rs) (λ _ d. d.runs ≡ rs)
          (stmt (select_counts cid)) _ (Total-stmt ids clock _ _ _ (λ n d h. h))
          (λ n. elim (Bool-cases (ltb 0 n.0)) [
            | inl pending ↦ rw pending (λ w q h. (q, h))
            | inr over ↦ rw over (Total-stmt ids clock _ _ _ (λ n d h. h))
          ])

    finalize_all-Total :
        (cids : List Uuid)
        → Total ids clock (λ d. d.runs ≡ rs) (finalize_all cids) (λ _ d. d.runs ≡ rs)
    unfolding finalize_all
    finalize_all-Total [] = λ w q h. (q, h)
    finalize_all-Total (cid ∷ cids) =
        Total->>= ids clock (λ d. d.runs ≡ rs) (λ _ d. d.runs ≡ rs) (λ _ d. d.runs ≡ rs)
          (finalize_check_status cid) (λ _. finalize_all cids) (finalize_runs-Total cid)
          (λ _. finalize_all-Total cids)

  -- The runs that were stale have timed out and no other run has changed; `n` is their number.
  pub record IsSweep (grace : ℕ) (d0 : Db) (n : ℕ) (d : Db) : Type 0 where
    pub counted : n ≡ count_where (is_stale grace clock) d0.runs
    pub timed_out :
        d.runs ≡ update_where (is_stale grace clock) (finish_run RunStatus.timeout clock) d0.runs

  length-stale :
      (grace : ℕ) (now : Time) (rs : List CheckRun)
      → length (map run_check (select (is_stale grace now) rs))
        ≡ count_where (is_stale grace now) rs
  length-stale grace now [] = refl
  length-stale grace now (r ∷ rs) = elim (Bool-cases (is_stale grace now r)) [
    | inl stale ↦ rw stale (omega (arith, length-stale grace now rs))
    | inr young ↦ rw young (omega (arith, length-stale grace now rs))
  ]

  module _ (order : List Uuid → List Uuid) (grace : ℕ) where
    finalize_all-IsSweep :
        (d0 : Db) (cids : List Uuid) (w : World)
        → IsQuiet ids clock w
        → IsSweep grace d0 (length cids) w.db
        → Success ids clock
            (IsSweep grace d0)
            ((finalize_all (order (distinct_from [] cids)) >> pure (length cids)) w)
    finalize_all-IsSweep d0 cids w q h =
        Total->>= ids clock (λ d. d.runs ≡ w.db.runs) (λ _ d. d.runs ≡ w.db.runs) (IsSweep grace d0)
          (finalize_all (order (distinct_from [] cids))) (λ _. pure (length cids))
          (finalize_all-Total w.db.runs (order (distinct_from [] cids)))
          (λ _ v p e. (p, record { counted = h.counted; timed_out = e ∙ h.timed_out })) w q refl

    timeout_body-Total :
        (d0 : Db) → Total ids clock (λ d. d ≡ d0) (timeout_body order grace) (IsSweep grace d0)
    unfolding timeout_body
    timeout_body-Total d0 =
        Total->>= ids clock (λ d. d ≡ d0) (λ cids d. IsSweep grace d0 (length cids) d)
          (IsSweep grace d0) (stmt (time_out_runs grace))
          (λ cids. finalize_all (order (distinct_from [] cids)) >> pure (length cids))
          (Total-stmt ids clock _ _ _ (λ n d e. record {
            counted = rw e (length-stale grace clock d0.runs);
            timed_out = rw e refl;
          }))
          (λ cids w q h. finalize_all-IsSweep d0 cids w q h)

    -- While the database answers, a sweep succeeds: exactly the open runs that are older than the
    -- grace time out, and it returns their number.
    pub timeout_stale_runs-succeeds :
        (w : World)
        → IsQuiet ids clock w
        → (n : ℕ) × ((timeout_stale_runs order grace w).0 ≡ ok n)
          × IsSweep grace w.db n (timeout_stale_runs order grace w).1.db
    unfolding timeout_stale_runs
    timeout_stale_runs-succeeds w q = Success-ok ids clock (IsSweep grace w.db) _ (
        transaction-Total ids clock (λ d. d ≡ w.db) (IsSweep grace w.db) _ (timeout_body-Total w.db)
          w q refl)
