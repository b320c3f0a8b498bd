-- ===== src/Store/Lifecycle/Complete.antt =====
-- internal/store/check_runs.go: CompleteCheckRun and the invariant of the tables.
-- Under unique ids the row that an UPDATE by id returns is the only one that it touches.
use pingachock.Store.Models.{Time, CheckRun, Uuid}
use pingachock.Base.{
  none, refl, Option, All-imp, ==_refl, inr, ◌==◌, inl, true, map, some, [], Bool-cases, arith, All,
  false, ◌∷◌, find_where, ◌≡◌, member, Unique, List,
}
use pingachock.Store.Finish.{
  update_found, finish_run, result_id, update_run, is_run_of, insert_result, report_status, Report,
  complete_check_run, complete_body,
}
use pingachock.Store.Runs.{run_ids, is_open}
use pingachock.Store.Triple.{
  Triple-weaken, Triple-stmt, transaction-Keeps, SqlPost, Triple->>=, Triple, Keeps,
}
use pingachock.Store.Db.{Db}
use pingachock.Store.Lifecycle.{
  IsKeyed-update_runs, Agrees, IsValid-of_except, IsValidExcept, IsValid,
}
use pingachock.Store.Lifecycle.Finalize.{finish_run-IsEnding, finalize_check_status-Triple}
use pingachock.Store.Lifecycle.Counting.{update_runs-AgreesExcept}

absent_not_run_of :
    (rid nid : Uuid) (rs : List CheckRun)
    → member rid (run_ids rs) ≡ false
    → All (λ r. is_run_of rid nid r ≡ false) rs
absent_not_run_of rid nid [] h = tt
absent_not_run_of rid nid (r ∷ rs) h = (ground arith, absent_not_run_of rid nid rs (ground arith))

find_run_only :
    (rid nid cid : Uuid) (rs : List CheckRun) (r : CheckRun)
    → Unique (run_ids rs)
    → find_where (is_run_of rid nid) rs ≡ some r
    → All (λ x. is_run_of rid nid x ≡ true → (r.check_id == x.check_id) ≡ true) rs
find_run_only rid nid cid [] r u e = tt
find_run_only rid nid cid (x ∷ rs) r u e = elim (Bool-cases (is_run_of rid nid x)) [
  | inl here ↦
      let same : x ≡ r = ground arith in
      let gone : member rid (run_ids rs) ≡ false = ground arith in
      (
        λ _. rw (← same) (==_refl x.check_id),
        All-imp (λ y. is_run_of rid nid y ≡ false) _ rs (λ y f t. cc)
            (absent_not_run_of rid nid rs gone),
      )
  | inr later ↦ (λ t. cc, find_run_only rid nid cid rs r u.1 (ground arith))
]

report_status-ended : (p : Report) → is_open (report_status p) ≡ false
report_status-ended p = ground arith

update_found-IsValidExcept :
    (rid nid : Uuid) (p : Report) (now : Time) (d : Db) (o : Option CheckRun)
    → IsValid d
    → find_where (is_run_of rid nid) d.runs ≡ o
    → SqlPost (λ cid. IsValidExcept (cid ∷ [])) (update_found rid nid (report_status p) now d o)
update_found-IsValidExcept rid nid p now d none v e = tt
update_found-IsValidExcept rid nid p now d (some r) v e = record {
  keyed = IsKeyed-update_runs d _ _ (λ r. refl) (λ r. refl) v.keyed;
  agreeing =
      All-imp (Agrees d.runs) _ d.checks
        (λ c.
          update_runs-AgreesExcept (r.check_id ∷ []) (is_run_of rid nid)
            (finish_run (report_status p) now) d.runs c
            (finish_run-IsEnding _ now (report_status-ended p))
            (All-imp _ _ d.runs (λ x h t. rw (h t))
              (find_run_only rid nid r.check_id d.runs r v.keyed.unique_runs e)))
        v.agreeing;
}

update_run-IsValidExcept :
    (rid nid : Uuid) (p : Report) (u : Uuid) (now : Time) (d : Db)
    → IsValid d
    → SqlPost (λ cid. IsValidExcept (cid ∷ [])) (update_run rid nid (report_status p) u now d)
update_run-IsValidExcept rid nid p u now d v = update_found-IsValidExcept rid nid p now d _ v refl

insert_result-IsValidExcept :
    (cids : List Uuid) (rid : Uuid) (p : Report) (u : Uuid) (now : Time) (d : Db)
    → IsValidExcept cids d
    → SqlPost (λ _. IsValidExcept cids) (insert_result rid p u now d)
insert_result-IsValidExcept cids rid p u now d v =
    elim (Bool-cases (member u (map result_id d.results))) [
      | inl taken ↦ rw taken tt
      | inr free ↦ rw free record { keyed = v.keyed; agreeing = v.agreeing }
    ]

complete_body-Triple :
    (rid nid : Uuid) (p : Report) → Triple IsValid (complete_body rid nid p) (λ _. IsValid)
unfolding complete_body
complete_body-Triple rid nid p =
    Triple->>= IsValid (λ cid. IsValidExcept (cid ∷ [])) (λ _. IsValid) _ _
      (Triple-stmt _ _ _ (update_run-IsValidExcept rid nid p))
      (λ cid.
        Triple->>= (IsValidExcept (cid ∷ [])) (λ _. IsValidExcept (cid ∷ [])) (λ _. IsValid) _ _
          (Triple-stmt _ _ _ (insert_result-IsValidExcept (cid ∷ []) rid p))
          (λ _.
            Triple-weaken _ _ (λ _. IsValidExcept []) (λ _. IsValid)
              (finalize_check_status-Triple cid []) (λ _ d. IsValid-of_except d)))

-- A report of a run, accepted or not, keeps the invariant.
pub complete_check_run-IsValid :
    (rid nid : Uuid) (p : Report) → Keeps IsValid (complete_check_run rid nid p)
unfolding complete_check_run
complete_check_run-IsValid rid nid p =
    transaction-Keeps IsValid (complete_body rid nid p) (complete_body-Triple rid nid p)
