-- ===== src/Store/Lifecycle.antt =====
-- The life of a check: what its status says of its runs, and the invariant of the tables.
pub mod Counting
pub mod Finalize
pub mod Complete
pub mod Sweep
pub mod Cancel
pub mod Claim
pub mod Create
use pingachock.Base.{
  map-update_where, update_where, map, true, Bool, All-imp, ℕ, ◌+◌, ◌<◌, ◌≡◌, refl, false, List, [],
  All, Unique, member,
}
use pingachock.Store.Models.{Uuid, Check, CheckStatus, CheckRun}
use pingachock.Store.Db.{Db}
use pingachock.Store.Runs.{
  run_id, check_id, check_ids, run_check, is_open, is_done, is_errored, run_ids,
}
use pingachock.Store.Finish.{count_runs}

-- What a status says of the numbers of runs that are open, done and errored.
abbrev pub StatusAgrees : CheckStatus → ℕ → ℕ → ℕ → Type 0
StatusAgrees CheckStatus.pending opened finished errored = opened ≡ 0 → finished + errored ≡ 0
StatusAgrees CheckStatus.running opened finished errored = opened ≡ 0 → finished + errored ≡ 0
StatusAgrees CheckStatus.completed opened finished errored = (opened ≡ 0) × (errored ≡ 0)
StatusAgrees CheckStatus.partial opened finished errored =
    (opened ≡ 0) × (0 < finished) × (0 < errored)
StatusAgrees CheckStatus.failed opened finished errored =
    (opened ≡ 0) × (finished ≡ 0) × (0 < errored)
StatusAgrees CheckStatus.cancelled opened finished errored = opened ≡ 0

-- A check that has ended has no open run.
abbrev pub IsSettled : CheckStatus → ℕ → Type 0
IsSettled CheckStatus.pending opened = Unit
IsSettled CheckStatus.running opened = Unit
IsSettled _ opened = opened ≡ 0

abbrev pub Agrees : List CheckRun → Check → Type 0
Agrees rs c =
    StatusAgrees c.status (count_runs is_open c.id rs) (count_runs is_done c.id rs)
      (count_runs is_errored c.id rs)

-- `Agrees`, but for the checks `cids`, whose runs have changed since their status was derived.
abbrev pub AgreesExcept : List Uuid → List CheckRun → Check → Type 0
AgreesExcept cids rs c =
    IsSettled c.status (count_runs is_open c.id rs) × (member c.id cids ≡ false → Agrees rs c)

-- The keys of the tables: of the runs, the checks that the runs refer to, and of the checks.
pub record Keyed (rids rchecks cids : List Uuid) : Type 0 where
  pub unique_runs : Unique rids
  pub unique_checks : Unique cids
  pub referenced : All (λ c. member c cids ≡ true) rchecks

abbrev pub IsKeyed : Db → Type 0
IsKeyed d = Keyed (run_ids d.runs) (map run_check d.runs) (check_ids d.checks)

-- The invariant: the keys are in order, and every check's status agrees with its runs.
pub record IsValid (d : Db) : Type 0 where
  pub keyed : IsKeyed d
  pub agreeing : All (Agrees d.runs) d.checks

-- The invariant inside a transaction that has changed runs of the checks `cids`.
pub record IsValidExcept (cids : List Uuid) (d : Db) : Type 0 where
  pub keyed : IsKeyed d
  pub agreeing : All (AgreesExcept cids d.runs) d.checks

-- Updates that keep the ids keep the keys.
pub IsKeyed-update_checks :
    (d : Db) (q : Check → Bool) (f : Check → Check)
    → ((c : Check) → (f c).id ≡ c.id)
    → IsKeyed d
    → Keyed (run_ids d.runs) (map run_check d.runs) (check_ids (update_where q f d.checks))
IsKeyed-update_checks d q f same k = rw (map-update_where check_id q f d.checks same) k

pub IsKeyed-update_runs :
    (d : Db) (q : CheckRun → Bool) (f : CheckRun → CheckRun)
    → ((r : CheckRun) → (f r).id ≡ r.id)
    → ((r : CheckRun) → (f r).check_id ≡ r.check_id)
    → IsKeyed d
    → Keyed
        (run_ids (update_where q f d.runs))
        (map run_check (update_where q f d.runs))
        (check_ids d.checks)
IsKeyed-update_runs d q f same_id same_check k =
    rw
      (map-update_where run_id q f d.runs same_id, map-update_where run_check q f d.runs same_check)
      k

pub IsSettled-of_agrees : (st : CheckStatus) (o f e : ℕ) → StatusAgrees st o f e → IsSettled st o
IsSettled-of_agrees CheckStatus.pending o f e h = tt
IsSettled-of_agrees CheckStatus.running o f e h = tt
IsSettled-of_agrees CheckStatus.completed o f e h = h.0
IsSettled-of_agrees CheckStatus.partial o f e h = h.0
IsSettled-of_agrees CheckStatus.failed o f e h = h.0
IsSettled-of_agrees CheckStatus.cancelled o f e h = h

pub Agrees-settled : (rs : List CheckRun) (c : Check) → Agrees rs c → AgreesExcept [] rs c
Agrees-settled rs c h = (IsSettled-of_agrees c.status _ _ _ h, λ _. h)

pub IsValid-of_except : (d : Db) → IsValidExcept [] d → IsValid d
IsValid-of_except d v = record {
  keyed = v.keyed;
  agreeing = All-imp (AgreesExcept [] d.runs) (Agrees d.runs) d.checks (λ c h. h.1 refl) v.agreeing;
}
