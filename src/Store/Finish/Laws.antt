-- ===== src/Store/Finish/Laws.antt =====
-- internal/store/check_runs.go: what CompleteCheckRun does to the tables, and when it does it.
use pingachock.Store.Finish.{
  new_result, result_id, report_status, finish_run, update_found, select_counts, update_run,
  insert_result, is_run_of, finalize_check_status, complete_body, Report, complete_check_run,
}
use pingachock.Store.Models.{CheckRun, Time, Result, Uuid}
use pingachock.Store.Db.{◌>>◌, ok, stmt, World, Db}
use pingachock.Base.{
  ap, any_where-find, false, ℕ, refl, [], none, inr, inl, find_where-any, ◌∷◌, ltb, ◌++◌, some, map,
  member, update_where, find_where, Bool-cases, true, Option, ◌≡◌, any_where,
}
use pingachock.Store.Triple.{Triple-stmt, Triple->>=, Triple, transaction-Post, SqlPost, Post}
use pingachock.Store.Total.{transaction-Total, Success-ok, IsQuiet, Total->>=, Total-stmt, Total}

module _ (rid nid : Uuid) (p : Report) (d0 : Db) where
  -- The row that the report leaves in `results`.
  pub record IsStored (row : Result) : Type 0 where
    pub of_run : row.check_run_id ≡ rid
    pub outcome : row.success ≡ p.success
    pub latency : row.latency_ms ≡ p.latency_ms
    pub code : row.status_code ≡ p.status_code
    pub message : row.error_message ≡ p.error_message
    pub raw : row.raw ≡ p.raw

  -- The report was recorded: of the runs the node's own has ended and no other has changed, and one
  -- result was added.
  pub record IsRecorded (d : Db) : Type 0 where
    pub owned : any_where (is_run_of rid nid) d0.runs ≡ true
    pub ended :
        (now : Time) × (d.runs
          ≡ update_where (is_run_of rid nid) (finish_run (report_status p) now) d0.runs)
    pub one_result : (row : Result) × IsStored row × (d.results ≡ d0.results ++ (row ∷ []))

  -- After the first statement.
  record IsUpdated (d : Db) : Type 0 where
    pub owned : any_where (is_run_of rid nid) d0.runs ≡ true
    pub ended :
        (now : Time) × (d.runs
          ≡ update_where (is_run_of rid nid) (finish_run (report_status p) now) d0.runs)
    pub no_result : d.results ≡ d0.results

  update_found-IsUpdated :
      (now : Time) (o : Option CheckRun)
      → find_where (is_run_of rid nid) d0.runs ≡ o
      → SqlPost (λ _. IsUpdated) (update_found rid nid (report_status p) now d0 o)
  update_found-IsUpdated now none e = tt
  update_found-IsUpdated now (some r) e = record {
    owned = find_where-any (is_run_of rid nid) d0.runs r e;
    ended = (now, refl);
    no_result = refl;
  }

  added-IsRecorded :
      (u : Uuid) (now : Time) (d : Db)
      → IsUpdated d
      → IsRecorded (record d { results = d.results ++ (new_result rid p u now ∷ []) })
  added-IsRecorded u now d h = record {
    owned = h.owned;
    ended = h.ended;
    one_result = (
      new_result rid p u now,
      record {
        of_run = refl;
        outcome = refl;
        latency = refl;
        code = refl;
        message = refl;
        raw = refl;
      },
      ap (λ rs. rs ++ (new_result rid p u now ∷ [])) h.no_result,
    );
  }

  insert_result-IsRecorded :
      (u : Uuid) (now : Time) (d : Db)
      → IsUpdated d
      → SqlPost (λ _. IsRecorded) (insert_result rid p u now d)
  insert_result-IsRecorded u now d h = elim (Bool-cases (member u (map result_id d.results))) [
    | inl taken ↦ rw taken tt
    | inr free ↦ rw free (added-IsRecorded u now d h)
  ]

  finalize-IsRecorded :
      (cid : Uuid) → Triple IsRecorded (finalize_check_status cid) (λ _. IsRecorded)
  unfolding finalize_check_status
  finalize-IsRecorded cid =
      Triple->>= IsRecorded (λ _. IsRecorded) (λ _. IsRecorded) (stmt (select_counts cid)) _
        (Triple-stmt _ _ _ (λ u now d h. h))
        (λ n. elim (Bool-cases (ltb 0 n.0)) [
          | inl pending ↦ rw pending (λ w h. h)
          | inr over ↦ rw over (
              Triple-stmt _ _ _ (λ u now d h. record {
                owned = h.owned;
                ended = h.ended;
                one_result = h.one_result;
              }))
        ])

  complete_body-IsRecorded : Triple (λ d. d ≡ d0) (complete_body rid nid p) (λ _. IsRecorded)
  unfolding complete_body
  complete_body-IsRecorded =
      Triple->>= (λ d. d ≡ d0) (λ _. IsUpdated) (λ _. IsRecorded)
        (stmt (update_run rid nid (report_status p))) _
        (Triple-stmt _ _ _ (λ u now d e.
          rw e (update_found-IsUpdated now (find_where (is_run_of rid nid) d0.runs) refl)))
        (λ cid.
          Triple->>= IsUpdated (λ _. IsRecorded) (λ _. IsRecorded) (stmt (insert_result rid p))
            (λ _. finalize_check_status cid) (Triple-stmt _ _ _ insert_result-IsRecorded)
            (λ _. finalize-IsRecorded cid))

-- A report that is accepted is of a run of this node: exactly the rows with its id and node end, with
-- the reported outcome, and exactly one result is added, of that run and with the success, the latency,
-- the status code, the error and the details that are reported.
pub complete_check_run-IsRecorded :
    (rid nid : Uuid) (p : Report) (w : World)
    → Post (λ _. IsRecorded rid nid p w.db) (complete_check_run rid nid p w)
unfolding complete_check_run
complete_check_run-IsRecorded rid nid p w =
    transaction-Post (λ d. d ≡ w.db) (λ _. IsRecorded rid nid p w.db) _
      (complete_body-IsRecorded rid nid p w.db) w refl

module _ (ids : ℕ → Uuid) (clock : Time) (rid nid : Uuid) (p : Report) where
  -- The run is the node's, and the database gives new ids to results.
  record IsReportable (d : Db) : Type 0 where
    pub own : any_where (is_run_of rid nid) d.runs ≡ true
    pub fresh : (n : ℕ) → member (ids n) (map result_id d.results) ≡ false

  finalize-Total :
      (cid : Uuid) → Total ids clock (λ _. Unit {0}) (finalize_check_status cid) (λ _ _. Unit {0})
  unfolding finalize_check_status
  finalize-Total cid =
      Total->>= ids clock (λ _. Unit {0}) (λ _ _. Unit {0}) (λ _ _. Unit {0})
        (stmt (select_counts cid)) _ (Total-stmt ids clock _ _ _ (λ n d h. tt))
        (λ n. elim (Bool-cases (ltb 0 n.0)) [
          | inl pending ↦ rw pending (λ w q h. (q, tt))
          | inr over ↦ rw over (Total-stmt ids clock _ _ _ (λ n d h. tt))
        ])

  update_run-Total :
      Total ids clock IsReportable
        (stmt (update_run rid nid (report_status p)))
        (λ _ d. (n : ℕ) → member (ids n) (map result_id d.results) ≡ false)
  update_run-Total =
      Total-stmt ids clock _ _ _
        (λ n d h. let (r, e) = any_where-find (is_run_of rid nid) d.runs h.own in rw e h.fresh)

  complete_body-Total : Total ids clock IsReportable (complete_body rid nid p) (λ _ _. Unit {0})
  unfolding complete_body
  complete_body-Total =
      Total->>= ids clock IsReportable
        (λ _ d. (n : ℕ) → member (ids n) (map result_id d.results) ≡ false) (λ _ _. Unit {0})
        (stmt (update_run rid nid (report_status p)))
        (λ cid. stmt (insert_result rid p) >> finalize_check_status cid) update_run-Total
        (λ cid.
          Total->>= ids clock _ (λ _ _. Unit {0}) (λ _ _. Unit {0}) (stmt (insert_result rid p))
            (λ _. finalize_check_status cid)
            (Total-stmt ids clock _ _ _ (λ n d fresh. rw (fresh n) tt)) (λ _. finalize-Total cid))

-- While the database answers every statement and gives ids that no result has, a report of a node's
-- own run is accepted, whatever the status of the run is.
pub complete_check_run-accepts :
    (ids : ℕ → Uuid) (rid nid : Uuid) (p : Report) (w : World)
    → IsQuiet ids w.now w
    → any_where (is_run_of rid nid) w.db.runs ≡ true
    → ((n : ℕ) → member (ids n) (map result_id w.db.results) ≡ false)
    → (complete_check_run rid nid p w).0 ≡ ok tt
unfolding complete_check_run
complete_check_run-accepts ids rid nid p w q own fresh =
    (Success-ok ids w.now _ _ (
      transaction-Total ids w.now (IsReportable ids w.now rid nid p) _ _
        (complete_body-Total ids w.now rid nid p) w q (record { own = own; fresh = fresh }))).1
