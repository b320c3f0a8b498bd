-- ===== src/Store/Lifecycle/Sweep.antt =====
-- internal/store/check_runs.go: TimeoutStaleRuns and the invariant of the tables.
use pingachock.Store.Models.{RunStatus, Time, Uuid, CheckRun}
use pingachock.Base.{
  ==_refl, ◌∷◌, refl, select, All-imp, map, arith, [], false, true, ◌||◌, distinct_from, ◌≡◌, All,
  Bool, member, List, ℕ,
}
use pingachock.Store.Finish.{
  finish_run, is_stale, time_out_runs, timeout_body, timeout_stale_runs, finalize_all,
}
use pingachock.Store.Triple.{transaction-Keeps, Triple-stmt, Keeps, Triple->>=, SqlPost, Triple}
use pingachock.Store.Db.{Db}
use pingachock.Store.Lifecycle.{
  IsKeyed-update_runs, Agrees, IsValid-of_except, AgreesExcept, IsValid, IsValidExcept,
}
use pingachock.Store.Runs.{run_check}
use pingachock.Store.Lifecycle.Counting.{update_runs-AgreesExcept}
use pingachock.Store.Lifecycle.Finalize.{finalize_check_status-Triple, finish_run-IsEnding}

member-distinct_from :
    (a : Uuid) (seen xs : List Uuid)
    → (member a (distinct_from seen xs) || member a seen) ≡ (member a xs || member a seen)
member-distinct_from a seen [] = refl
member-distinct_from a seen (x ∷ xs) =
    ground (arith, member-distinct_from a seen xs, member-distinct_from a (x ∷ seen) xs)

IsValidExcept-mono :
    (cids more : List Uuid) (d : Db)
    → ((a : Uuid) → member a more ≡ false → member a cids ≡ false)
    → IsValidExcept cids d
    → IsValidExcept more d
IsValidExcept-mono cids more d h v = record {
  keyed = v.keyed;
  agreeing =
      All-imp (AgreesExcept cids d.runs) (AgreesExcept more d.runs) d.checks
        (λ c a. (a.0, λ o. a.1 (h c.id o))) v.agreeing;
}

selected_checks :
    (p : CheckRun → Bool) (rs : List CheckRun)
    → All (λ r. p r ≡ true → member r.check_id (map run_check (select p rs)) ≡ true) rs
selected_checks p [] = tt
selected_checks p (r ∷ rs) = (
  λ h. rw h (rw (==_refl r.check_id) refl),
  All-imp (λ x. p x ≡ true → member x.check_id (map run_check (select p rs)) ≡ true) _ rs
      (λ x f h. ground (arith, f h)) (selected_checks p rs),
)

time_out_runs-IsValidExcept :
    (grace : ℕ) (u : Uuid) (now : Time) (d : Db)
    → IsValid d
    → SqlPost IsValidExcept (time_out_runs grace u now d)
time_out_runs-IsValidExcept grace u now d v = record {
  keyed = IsKeyed-update_runs d _ _ (λ r. refl) (λ r. refl) v.keyed;
  agreeing =
      All-imp (Agrees d.runs) _ d.checks
        (λ c.
          update_runs-AgreesExcept _ (is_stale grace now) (finish_run RunStatus.timeout now) d.runs
            c (finish_run-IsEnding RunStatus.timeout now refl)
            (selected_checks (is_stale grace now) d.runs))
        v.agreeing;
}

finalize_all-Triple :
    (cids : List Uuid) → Triple (IsValidExcept cids) (finalize_all cids) (λ _. IsValidExcept [])
unfolding finalize_all
finalize_all-Triple [] = λ w v. v
finalize_all-Triple (cid ∷ cids) =
    Triple->>= (IsValidExcept (cid ∷ cids)) (λ _. IsValidExcept cids) (λ _. IsValidExcept []) _ _
      (finalize_check_status-Triple cid cids) (λ _. finalize_all-Triple cids)

module _ (order : List Uuid → List Uuid)
    (same_members : (a : Uuid) (xs : List Uuid) → member a (order xs) ≡ member a xs) where
  ordered_members :
      (cids : List Uuid) (a : Uuid)
      → member a (order (distinct_from [] cids)) ≡ false
      → member a cids ≡ false
  ordered_members cids a h =
      ground (arith, same_members a (distinct_from [] cids), member-distinct_from a [] cids)

  timeout_body-Triple : (grace : ℕ) → Triple IsValid (timeout_body order grace) (λ _. IsValid)
  unfolding timeout_body
  timeout_body-Triple grace =
      Triple->>= IsValid IsValidExcept (λ _. IsValid) _ _
        (Triple-stmt _ _ _ (time_out_runs-IsValidExcept grace))
        (λ cids.
          Triple->>= (IsValidExcept cids) (λ _. IsValidExcept []) (λ _. IsValid) _ _
            (λ w v. finalize_all-Triple (order (distinct_from [] cids)) w (
              IsValidExcept-mono cids (order (distinct_from [] cids)) w.db (ordered_members cids)
                v))
            (λ _ w v. IsValid-of_except w.db v))

  -- A sweep keeps the invariant, in whatever order it takes the checks.
  pub timeout_stale_runs-IsValid : (grace : ℕ) → Keeps IsValid (timeout_stale_runs order grace)
  unfolding timeout_stale_runs
  timeout_stale_runs-IsValid grace =
      transaction-Keeps IsValid (timeout_body order grace) (timeout_body-Triple grace)
