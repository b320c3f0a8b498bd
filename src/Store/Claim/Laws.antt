-- ===== src/Store/Claim/Laws.antt =====
-- internal/store/check_runs.go: which runs ClaimQueuedRuns hands out.
-- The rows that a LIMIT takes come before those that it leaves.
use pingachock.Base.{
  All-zip, ◌<◌, Unique, map-update_where, All-update_where, All-of, false, update_where, refl, zero,
  All-drop, sort_by-All, inr, [], suc, inl, All-take, ap, length, ◌==◌, arith, some, take,
  Bool-cases, sort_by-IsSortedBy, drop, All-imp, ◌∷◌, true, select, ◌≤◌, length-map-take, map,
  member, ◌≡◌, sort_by, IsSortedBy, All, List, Bool, ℕ,
}
use pingachock.Store.Claim.{
  select_claimed, claim_queued_runs, claim_limit, mark_dispatched, claim_body, mark_claimed,
  is_claimable, job_id, created, claimed_rows, job_of, jobs_of,
}
use pingachock.Store.Models.{Time, CheckRunJob, Check, CheckRun, Uuid}
use pingachock.Store.Db.{World, pure, ◌>>◌, stmt, Db}
use pingachock.Store.Runs.{is_queued, run_ids, run_id, find_check, check_ids}
use pingachock.Store.Triple.{transaction-Post, Post, Triple-stmt, Triple->>=, Triple}
use pingachock.Store.Lifecycle.Claim.{claimed_ids-claimable, claimed_ids}
use pingachock.Base.Int.{negsuc, pos, ℤ}

take-before_drop :
    (n : ℕ) (rs : List CheckRun)
    → IsSortedBy created rs
    → All (λ r. All (λ x. r.created_at ≤ x.created_at) (drop n rs)) (take n rs)
take-before_drop zero rs s = tt
take-before_drop (suc n) [] s = tt
take-before_drop (suc n) (r ∷ rs) s = (All-drop _ n rs s.0, take-before_drop n rs s.1)

find_check-known :
    (cid : Uuid) (cs : List Check)
    → member cid (check_ids cs) ≡ true
    → (c : Check) × (find_check cid cs ≡ some c)
find_check-known cid [] h = absurd cc
find_check-known cid (c ∷ cs) h = elim (Bool-cases (c.id == cid)) [
  | inl here ↦ (c, rw here refl)
  | inr there ↦ let (x, e) = find_check-known cid cs (ground (arith, h, there)) in (x, rw there e)
]

-- Every row that the query joins has its check, so none is lost.
jobs_of-All :
    (cs : List Check) (rs : List CheckRun)
    → All (λ r. member r.check_id (check_ids cs) ≡ true) rs
    → map job_id (jobs_of cs rs) ≡ run_ids rs
unfolding jobs_of job_of
jobs_of-All cs [] h = refl
jobs_of-All cs (r ∷ rs) h =
    let (c, e) = find_check-known r.check_id cs h.0 in
    rw e (ap (λ xs. r.id ∷ xs) (jobs_of-All cs rs h.1))

select-passes : (p : CheckRun → Bool) (rs : List CheckRun) → All (λ r. p r ≡ true) (select p rs)
select-passes p [] = tt
select-passes p (r ∷ rs) = elim (Bool-cases (p r)) [
  | inl kept ↦ rw kept (kept, select-passes p rs)
  | inr left ↦ rw left (select-passes p rs)
]

module _ (locked : Uuid → Bool) (nid : Uuid) (limit : ℕ) (d : Db) where
  -- The rows that the query may take, the oldest first.
  abbrev pub waiting : List CheckRun
  waiting = sort_by created (select (is_claimable locked nid d) d.runs)

  claimed_rows-known :
      All (λ r. member r.check_id (check_ids d.checks) ≡ true) (claimed_rows locked nid limit d)
  unfolding claimed_rows
  claimed_rows-known =
      All-imp (λ r. is_claimable locked nid d r ≡ true) _ _ (λ r h. ground arith)
        (All-take _ limit waiting (
          sort_by-All created _ (select (is_claimable locked nid d) d.runs)
            (select-passes (is_claimable locked nid d) d.runs)))

  -- What a claim hands out: the first `limit` rows of those that wait, the oldest first.
  pub record IsOldest (jobs : List CheckRunJob) : Type 0 where
    pub first : map job_id jobs ≡ run_ids (take limit waiting)
    pub bounded : length (map job_id jobs) ≤ limit
    pub before_rest :
        All (λ r. All (λ x. r.created_at ≤ x.created_at) (drop limit waiting)) (take limit waiting)

  pub select_claimed-IsOldest : IsOldest (jobs_of d.checks (claimed_rows locked nid limit d))
  unfolding claimed_rows
  select_claimed-IsOldest = record {
    first = jobs_of-All d.checks (claimed_rows locked nid limit d) claimed_rows-known;
    bounded =
        rw (jobs_of-All d.checks (claimed_rows locked nid limit d) claimed_rows-known)
          (length-map-take run_id limit waiting);
    before_rest =
        take-before_drop limit waiting
          (sort_by-IsSortedBy created (select (is_claimable locked nid d) d.runs));
  }

-- No row with one of these ids is queued.
abbrev pub NoneQueued : List Uuid → List CheckRun → Type 0
NoneQueued ids rs = All (λ r. member r.id ids ≡ true → is_queued r.status ≡ false) rs

dispatched-NoneQueued :
    (ids : List Uuid) (now : Time) (rs : List CheckRun)
    → NoneQueued ids (update_where (λ r. member r.id ids) (mark_dispatched now) rs)
dispatched-NoneQueued ids now rs =
    All-update_where (λ _. Unit {0}) _ (λ r. member r.id ids) (mark_dispatched now) rs
      (λ r t _ _. refl) (λ r t _ h. absurd cc) (All-of _ rs (λ _. tt))

mark_claimed-NoneQueued :
    (ids : List Uuid) (d0 : Db)
    → Triple
        (λ d. d ≡ d0)
        (mark_claimed ids)
        (λ _ d. NoneQueued ids d.runs × (run_ids d.runs ≡ run_ids d0.runs))
unfolding mark_claimed
mark_claimed-NoneQueued [] d0 = λ w e. (All-of _ w.db.runs (λ r h. absurd cc), rw e refl)
mark_claimed-NoneQueued (i ∷ ids) d0 =
    Triple->>= _ (λ _ d. NoneQueued (i ∷ ids) d.runs × (run_ids d.runs ≡ run_ids d0.runs)) _ _ _
      (Triple-stmt _ _ _ (λ u now d e. (
        dispatched-NoneQueued (i ∷ ids) now d.runs,
        rw (map-update_where run_id _ (mark_dispatched now) d.runs (λ r. refl), e) refl,
      )))
      (λ _. Triple-stmt _ _ _ (λ u now d h. h))

module _ (locked : Uuid → Bool) (nid : Uuid) (limit : ℕ) (d0 : Db) where
  -- A claim that succeeds, from the tables `d0`.
  pub record IsClaim (jobs : List CheckRunJob) (d : Db) : Type 0 where
    pub oldest : IsOldest locked nid limit d0 jobs
    pub taken : NoneQueued (map job_id jobs) d.runs
    pub same_runs : run_ids d.runs ≡ run_ids d0.runs

  mark_claimed-IsClaim :
      (jobs : List CheckRunJob)
      → IsOldest locked nid limit d0 jobs
      → Triple (λ d. d ≡ d0) (mark_claimed (map job_id jobs) >> pure jobs) IsClaim
  mark_claimed-IsClaim jobs o =
      Triple->>= (λ d. d ≡ d0)
        (λ _ d. NoneQueued (map job_id jobs) d.runs × (run_ids d.runs ≡ run_ids d0.runs)) IsClaim
        (mark_claimed (map job_id jobs)) (λ _. pure jobs)
        (mark_claimed-NoneQueued (map job_id jobs) d0)
        (λ _ w h. record { oldest = o; taken = h.0; same_runs = h.1 })

  claim_body-IsClaim : Triple (λ d. d ≡ d0) (claim_body locked nid limit) IsClaim
  unfolding claim_body
  claim_body-IsClaim =
      Triple->>= (λ d. d ≡ d0) (λ jobs d. IsOldest locked nid limit d0 jobs × (d ≡ d0)) IsClaim
        (stmt (select_claimed locked nid limit))
        (λ jobs. mark_claimed (map job_id jobs) >> pure jobs)
        (Triple-stmt _ _ _ (λ u now d e. (rw e (select_claimed-IsOldest locked nid limit d0), e)))
        (λ jobs w h. mark_claimed-IsClaim jobs h.0 w h.1)

-- A claim that succeeds hands out the oldest waiting runs of the node, at most the limit, all of
-- them before the ones it leaves; none of them is queued any more; and no run is added or lost.
pub claim_queued_runs-IsClaim :
    (locked : Uuid → Bool) (nid : Uuid) (limit : ℤ) (w : World)
    → Post (IsClaim locked nid (claim_limit limit) w.db) (claim_queued_runs locked nid limit w)
unfolding claim_queued_runs
claim_queued_runs-IsClaim locked nid limit w =
    transaction-Post (λ d. d ≡ w.db) (IsClaim locked nid (claim_limit limit) w.db) _
      (claim_body-IsClaim locked nid (claim_limit limit) w.db) w refl

-- However large the limit asked for, a claim takes at most 100 runs, and it can take one.
pub claim_limit-bounds : (n : ℤ) → (0 < claim_limit n) × (claim_limit n ≤ 100)
unfolding claim_limit
claim_limit-bounds (pos n) = (ground arith, ground arith)
claim_limit-bounds (negsuc n) = (omega arith, omega arith)

not_true : (b : Bool) → (b ≡ true → ⊥) → b ≡ false
not_true true h = absurd (h refl)
not_true false h = refl

module _ (d : Db) (ids : List Uuid) (unique : Unique (run_ids d.runs))
    (gone : NoneQueued ids d.runs) where
  -- Where the ids of the runs are unique, runs that are no longer queued are handed out by no later
  -- claim, of whatever node and limit.
  pub claimed-not_again :
      (locked : Uuid → Bool) (nid : Uuid) (limit : ℕ)
      → All
          (λ r. member r.id ids ≡ true → member r.id (claimed_ids locked nid limit d) ≡ false)
          d.runs
  claimed-not_again locked nid limit =
      All-imp
        (λ r.
          (member r.id ids ≡ true → is_queued r.status ≡ false)
          × (member r.id (claimed_ids locked nid limit d) ≡ true
              → is_claimable locked nid d r ≡ true))
        _ d.runs (λ r h t. not_true _ (λ c. ground (arith, h.0 t, h.1 c)))
        (All-zip _ _ d.runs gone (claimed_ids-claimable locked nid limit d unique))
