-- ===== src/Store/Lifecycle/Cancel.antt =====
-- internal/store/checks.go: CancelCheck and the invariant of the tables.
use pingachock.Store.Models.{CheckStatus, RunStatus, Check, CheckRun, Time, Uuid}
use pingachock.Store.Checks.{
  is_open_run_of, is_cancellable, cancel_runs, cancel_row, cancel_check, cancel_body,
}
use pingachock.Base.{
  All-of, All-zip, ==_iff, refl, [], All-update_where, arith, inl, ◌∷◌, inr, false, update_where,
  All-imp, true, ◌≡◌, Bool-cases, Unique, All, member, any_where, ◌==◌, List,
}
use pingachock.Store.Triple.{Triple-stmt, Triple->>=, transaction-Keeps, SqlPost, Triple, Keeps}
use pingachock.Store.Db.{Db}
use pingachock.Store.Lifecycle.{
  IsKeyed-update_checks, Agrees, IsKeyed-update_runs, IsKeyed, IsValid,
}
use pingachock.Store.Finish.{finish_check, finish_run, count_runs}
use pingachock.Store.Runs.{is_cancelled, check_ids, is_open}
use pingachock.Store.Lifecycle.Finalize.{finish_run-IsEnding, cancelled_agrees}
use pingachock.Store.Lifecycle.Counting.{update_runs-AgreesExcept}

pub absent_not_id :
    (cid : Uuid) (cs : List Check)
    → member cid (check_ids cs) ≡ false
    → All (λ c. (c.id == cid) ≡ false) cs
absent_not_id cid [] h = tt
absent_not_id cid (c ∷ cs) h = (ground arith, absent_not_id cid cs (ground arith))

listed_elsewhere :
    (aid cid : Uuid) (cs : List Check)
    → any_where (is_cancellable aid cid) cs ≡ true
    → member cid (check_ids cs) ≡ false
    → ⊥
listed_elsewhere aid cid [] h m = cc
listed_elsewhere aid cid (c ∷ cs) h m = ground (arith, listed_elsewhere aid cid cs)

-- In a list with unique ids an update by id touches one check at most.
others_untouched :
    (aid cid : Uuid) (cs : List Check)
    → Unique (check_ids cs)
    → any_where (is_cancellable aid cid) cs ≡ true
    → All (λ c. (c.id == cid) ≡ true → is_cancellable aid cid c ≡ true) cs
others_untouched aid cid [] u h = tt
others_untouched aid cid (c ∷ cs) u h = elim (Bool-cases (is_cancellable aid cid c)) [
  | inl here ↦ (
    λ _. here,
    All-imp (λ x. (x.id == cid) ≡ false) _ cs (λ x f t. cc) (absent_not_id cid cs (ground arith)),
  )
  | inr later ↦ (
    λ t. absurd (listed_elsewhere aid cid cs (ground arith) (ground arith)),
    others_untouched aid cid cs u.1 (ground arith),
  )
]

open_none :
    (cid : Uuid) (now : Time) (rs : List CheckRun)
    → count_runs is_open cid (update_where (is_open_run_of cid) (finish_run RunStatus.error now) rs)
      ≡ 0
open_none cid now [] = refl
open_none cid now (r ∷ rs) = ground (arith, open_none cid now rs)

-- Between the two updates: the check `cid` is cancelled, every other check agrees with its runs.
abbrev IsCancelling : Uuid → Db → Type 0
IsCancelling cid d =
    IsKeyed d
    × All
        (λ c.
          ((c.id == cid) ≡ true → is_cancelled c.status ≡ true)
          × ((c.id == cid) ≡ false → Agrees d.runs c))
        d.checks

cancel_row-IsCancelling :
    (aid cid u : Uuid) (now : Time) (d : Db)
    → IsValid d
    → SqlPost (λ _. IsCancelling cid) (cancel_row aid cid u now d)
cancel_row-IsCancelling aid cid u now d v =
    elim (Bool-cases (any_where (is_cancellable aid cid) d.checks)) [
      | inr absent ↦ rw absent tt
      | inl found ↦ rw found (
        IsKeyed-update_checks d _ _ (λ c. refl) v.keyed,
        All-update_where
            (λ c. Agrees d.runs c × ((c.id == cid) ≡ true → is_cancellable aid cid c ≡ true)) _
            (is_cancellable aid cid) (finish_check CheckStatus.cancelled now) d.checks
            (λ c t h. (λ _. refl, λ f. ground arith))
            (λ c f h. (λ t. ground (arith, h.1 t), λ _. h.0))
            (All-zip (Agrees d.runs) _ d.checks v.agreeing
              (others_untouched aid cid d.checks v.keyed.unique_checks found)),
      )
    ]

cancel_runs-Agrees :
    (cid : Uuid) (now : Time) (rs : List CheckRun) (c : Check)
    → ((c.id == cid) ≡ true → is_cancelled c.status ≡ true) × ((c.id == cid) ≡ false → Agrees rs c)
    → Agrees (update_where (is_open_run_of cid) (finish_run RunStatus.error now) rs) c
cancel_runs-Agrees cid now rs c h = elim (Bool-cases (c.id == cid)) [
  | inl same ↦
      let e : c.id ≡ cid = (==_iff c.id cid).0 same in
      cancelled_agrees c.status _ _ _ (h.0 same) (rw e (open_none cid now rs))
  | inr other ↦
      (update_runs-AgreesExcept (cid ∷ []) (is_open_run_of cid) (finish_run RunStatus.error now) rs
          c (finish_run-IsEnding RunStatus.error now refl)
          (All-of (λ r. is_open_run_of cid r ≡ true → member r.check_id (cid ∷ []) ≡ true) rs
            (λ r t. ground arith))
          (h.1 other)).1
        (ground arith)
]

cancel_runs-IsValid :
    (cid u : Uuid) (now : Time) (d : Db)
    → IsCancelling cid d
    → SqlPost (λ _. IsValid) (cancel_runs cid u now d)
cancel_runs-IsValid cid u now d h = record {
  keyed = IsKeyed-update_runs d _ _ (λ r. refl) (λ r. refl) h.0;
  agreeing =
      All-imp _ (Agrees (update_where (is_open_run_of cid) (finish_run RunStatus.error now) d.runs))
        d.checks (cancel_runs-Agrees cid now d.runs) h.1;
}

cancel_body-Triple : (aid cid : Uuid) → Triple IsValid (cancel_body aid cid) (λ _. IsValid)
unfolding cancel_body
cancel_body-Triple aid cid =
    Triple->>= IsValid (λ _. IsCancelling cid) (λ _. IsValid) _ _
      (Triple-stmt _ _ _ (cancel_row-IsCancelling aid cid))
      (λ _. Triple-stmt _ _ _ (cancel_runs-IsValid cid))

-- Cancelling a check keeps the invariant.
pub cancel_check-IsValid : (aid cid : Uuid) → Keeps IsValid (cancel_check aid cid)
unfolding cancel_check
cancel_check-IsValid aid cid =
    transaction-Keeps IsValid (cancel_body aid cid) (cancel_body-Triple aid cid)
