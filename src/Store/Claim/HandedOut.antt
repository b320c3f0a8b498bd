-- ===== src/Store/Claim/HandedOut.antt =====
-- internal/store: the calls that write runs, each against the runs that have been handed out.
use pingachock.Store.Checks.{is_cancellable, cancel_row, cancel_body, cancel_check}
use pingachock.Store.Lifecycle.Create.{
  member-append_grow, Unique-append, map-append_one, All-append_one,
}
use pingachock.Store.Models.{RunStatus, CheckRun, Time, Uuid}
use pingachock.Base.{
  All-imp, ◌&&◌, All-update_where, refl, ==_iff, distinct_from, none, if◌then◌else◌, ltb, inr, ◌==◌,
  map, map-update_where, any_where, inl, some, true, Bool-cases, update_where, All, [], false,
  Unique, ◌≡◌, Option, ℕ, member, Bool, ◌∷◌, List,
}
use pingachock.Store.Db.{stmt, Db, World}
use pingachock.Store.Runs.{
  queued_run, has_node, has_check, run_id, run_ids, is_queued, insert_run, insert_runs,
  create_check_runs,
}
use pingachock.Store.Claim.{
  job_id, mark_dispatched, claim_limit, claim_queued_runs, claim_body, mark_claimed,
}
use pingachock.Store.Finish.{
  result_id, select_counts, finish_run, report_status, timeout_stale_runs, update_found,
  insert_result, complete_check_run, finalize_all, finalize_check_status, Report, complete_body,
  timeout_body,
}
use pingachock.Store.Triple.{Triple-stmt, Triple->>=, transaction-Keeps, Keeps, SqlPost, Triple}
use pingachock.Base.Int.{ℤ}
use pingachock.Store.Claim.Laws.{NoneQueued}

-- The rows `ids` are there, under unique ids, and none of them is queued.
pub record IsHandedOut (ids : List Uuid) (d : Db) : Type 0 where
  pub unique : Unique (run_ids d.runs)
  pub known : All (λ i. member i (run_ids d.runs) ≡ true) ids
  pub taken : NoneQueued ids d.runs

-- The calls of internal/store that write rows of `check_runs`, each with its arguments.
pub data RunCall : Type 0 where
  creates : Uuid → List Uuid → RunCall
  claims : (Uuid → Bool) → Uuid → ℤ → RunCall
  completes : Uuid → Uuid → Report → RunCall
  sweeps : (List Uuid → List Uuid) → ℕ → RunCall
  cancels : Uuid → Uuid → RunCall

abbrev pub run_call : RunCall → World → World
run_call (creates cid nids) w = (create_check_runs cid nids w).1
run_call (claims locked nid limit) w = (claim_queued_runs locked nid limit w).1
run_call (completes rid nid p) w = (complete_check_run rid nid p w).1
run_call (sweeps order grace) w = (timeout_stale_runs order grace w).1
run_call (cancels aid cid) w = (cancel_check aid cid w).1

-- The calls one after the other.
abbrev pub run_calls : List RunCall → World → World
run_calls [] w = w
run_calls (c ∷ cs) w = run_calls cs (run_call c w)

module _ (ids : List Uuid) where
  -- An update that keeps the ids and leaves no row queued.
  update_runs-IsHandedOut :
      (q : CheckRun → Bool) (f : CheckRun → CheckRun) (d : Db)
      → ((r : CheckRun) → (f r).id ≡ r.id)
      → ((r : CheckRun) → is_queued (f r).status ≡ false)
      → IsHandedOut ids d
      → IsHandedOut ids (record d { runs = update_where q f d.runs })
  update_runs-IsHandedOut q f d same none_queued h =
      let same_ids : run_ids (update_where q f d.runs) ≡ run_ids d.runs =
        map-update_where run_id q f d.runs same in
      record {
        unique = rw same_ids h.unique;
        known = rw same_ids h.known;
        taken =
            All-update_where (λ r. member r.id ids ≡ true → is_queued r.status ≡ false) _ q f d.runs
              (λ r t g m. none_queued r) (λ r t g. g) h.taken;
      }

  -- A statement on other tables.
  other_table : (d d' : Db) → d'.runs ≡ d.runs → IsHandedOut ids d → IsHandedOut ids d'
  other_table d d' e h = record {
    unique = rw e h.unique;
    known = rw e h.known;
    taken = rw e h.taken;
  }

  known_not_new :
      (u : Uuid) (xs is : List Uuid)
      → member u xs ≡ false
      → All (λ i. member i xs ≡ true) is
      → member u is ≡ false
  known_not_new u xs [] m h = refl
  known_not_new u xs (i ∷ is) m h = elim (Bool-cases (i == u)) [
    | inl same ↦ let e : i ≡ u = (==_iff i u).0 same in absurd cc
    | inr other ↦ rw other (known_not_new u xs is m h.1)
  ]

  insert_run-IsHandedOut :
      (cid nid u : Uuid) (now : Time) (d : Db)
      → IsHandedOut ids d
      → SqlPost (λ _. IsHandedOut ids) (insert_run cid nid u now d)
  insert_run-IsHandedOut cid nid u now d h = elim (Bool-cases (member u (run_ids d.runs))) [
    | inl taken ↦ rw taken tt
    | inr new ↦ elim (Bool-cases (has_check d cid && has_node d nid)) [
      | inr stranger ↦ rw (new, stranger) tt
      | inl known ↦
          rw (new, known)
            (record {
              unique =
                  rw (map-append_one run_id d.runs (queued_run cid nid u now))
                    (Unique-append u (run_ids d.runs) new h.unique);
              known =
                  rw (map-append_one run_id d.runs (queued_run cid nid u now))
                    (All-imp _ _ ids (λ i. member-append_grow i u (run_ids d.runs)) h.known);
              taken =
                  All-append_one _ d.runs (queued_run cid nid u now) h.taken
                    (λ m. let f = known_not_new u (run_ids d.runs) ids new h.known in absurd cc);
            })
    ]
  ]

  insert_runs-Triple :
      (cid : Uuid) (nids : List Uuid)
      → Triple (IsHandedOut ids) (insert_runs cid nids) (λ _. IsHandedOut ids)
  unfolding insert_runs
  insert_runs-Triple cid [] = λ w h. h
  insert_runs-Triple cid (nid ∷ nids) =
      Triple->>= _ (λ _. IsHandedOut ids) (λ _. IsHandedOut ids) _ _
        (Triple-stmt _ _ _ (insert_run-IsHandedOut cid nid))
        (λ r.
          Triple->>= _ (λ _. IsHandedOut ids) (λ _. IsHandedOut ids) _ _
            (insert_runs-Triple cid nids) (λ rs w h. h))

  create_check_runs-IsHandedOut :
      (cid : Uuid) (nids : List Uuid) → Keeps (IsHandedOut ids) (create_check_runs cid nids)
  unfolding create_check_runs
  create_check_runs-IsHandedOut cid [] = λ w h. h
  create_check_runs-IsHandedOut cid (nid ∷ nids) =
      transaction-Keeps (IsHandedOut ids) _ (insert_runs-Triple cid (nid ∷ nids))

  finalize-IsHandedOut :
      (cid : Uuid) → Triple (IsHandedOut ids) (finalize_check_status cid) (λ _. IsHandedOut ids)
  unfolding finalize_check_status
  finalize-IsHandedOut cid =
      Triple->>= _ (λ _. IsHandedOut ids) (λ _. IsHandedOut ids) (stmt (select_counts cid)) _
        (Triple-stmt _ _ _ (λ u now d h. h))
        (λ n. elim (Bool-cases (ltb 0 n.0)) [
          | inl pending ↦ rw pending (λ w h. h)
          | inr over ↦ rw over (Triple-stmt _ _ _ (λ u now d h. other_table d _ refl h))
        ])

  finalize_all-IsHandedOut :
      (cids : List Uuid) → Triple (IsHandedOut ids) (finalize_all cids) (λ _. IsHandedOut ids)
  unfolding finalize_all
  finalize_all-IsHandedOut [] = λ w h. h
  finalize_all-IsHandedOut (cid ∷ cids) =
      Triple->>= _ (λ _. IsHandedOut ids) (λ _. IsHandedOut ids) _ _ (finalize-IsHandedOut cid)
        (λ _. finalize_all-IsHandedOut cids)

  update_found-IsHandedOut :
      (rid nid : Uuid) (p : Report) (now : Time) (d : Db) (o : Option CheckRun)
      → IsHandedOut ids d
      → SqlPost (λ _. IsHandedOut ids) (update_found rid nid (report_status p) now d o)
  update_found-IsHandedOut rid nid p now d none h = tt
  update_found-IsHandedOut rid nid p now d (some r) h =
      update_runs-IsHandedOut _ (finish_run (report_status p) now) d (λ x. refl)
        (λ x. ended p.success) h
    where
      ended : (b : Bool) → is_queued (if b then RunStatus.done else RunStatus.error) ≡ false
      ended true = refl
      ended false = refl

  insert_result-IsHandedOut :
      (rid : Uuid) (p : Report) (u : Uuid) (now : Time) (d : Db)
      → IsHandedOut ids d
      → SqlPost (λ _. IsHandedOut ids) (insert_result rid p u now d)
  insert_result-IsHandedOut rid p u now d h =
      elim (Bool-cases (member u (map result_id d.results))) [
        | inl taken ↦ rw taken tt
        | inr free ↦ rw free (other_table d _ refl h)
      ]

  complete_body-IsHandedOut :
      (rid nid : Uuid) (p : Report)
      → Triple (IsHandedOut ids) (complete_body rid nid p) (λ _. IsHandedOut ids)
  unfolding complete_body
  complete_body-IsHandedOut rid nid p =
      Triple->>= _ (λ _. IsHandedOut ids) (λ _. IsHandedOut ids) _ _
        (Triple-stmt _ _ _ (λ u now d h. update_found-IsHandedOut rid nid p now d _ h))
        (λ cid.
          Triple->>= _ (λ _. IsHandedOut ids) (λ _. IsHandedOut ids) _ _
            (Triple-stmt _ _ _ (insert_result-IsHandedOut rid p)) (λ _. finalize-IsHandedOut cid))

  timeout_body-IsHandedOut :
      (order : List Uuid → List Uuid) (grace : ℕ)
      → Triple (IsHandedOut ids) (timeout_body order grace) (λ _. IsHandedOut ids)
  unfolding timeout_body
  timeout_body-IsHandedOut order grace =
      Triple->>= _ (λ _. IsHandedOut ids) (λ _. IsHandedOut ids) _ _
        (Triple-stmt _ _ _ (λ u now d h.
          update_runs-IsHandedOut _ (finish_run RunStatus.timeout now) d (λ r. refl) (λ r. refl) h))
        (λ cids.
          Triple->>= _ (λ _. IsHandedOut ids) (λ _. IsHandedOut ids) _ _
            (finalize_all-IsHandedOut (order (distinct_from [] cids))) (λ _ w h. h))

  cancel_row-IsHandedOut :
      (aid cid u : Uuid) (now : Time) (d : Db)
      → IsHandedOut ids d
      → SqlPost (λ _. IsHandedOut ids) (cancel_row aid cid u now d)
  cancel_row-IsHandedOut aid cid u now d h =
      elim (Bool-cases (any_where (is_cancellable aid cid) d.checks)) [
        | inl found ↦ rw found (other_table d _ refl h)
        | inr absent ↦ rw absent tt
      ]

  cancel_body-IsHandedOut :
      (aid cid : Uuid) → Triple (IsHandedOut ids) (cancel_body aid cid) (λ _. IsHandedOut ids)
  unfolding cancel_body
  cancel_body-IsHandedOut aid cid =
      Triple->>= _ (λ _. IsHandedOut ids) (λ _. IsHandedOut ids) _ _
        (Triple-stmt _ _ _ (cancel_row-IsHandedOut aid cid))
        (λ _. Triple-stmt _ _ _ (λ u now d h.
          update_runs-IsHandedOut _ (finish_run RunStatus.error now) d (λ r. refl) (λ r. refl) h))

  mark_claimed-IsHandedOut :
      (claimed : List Uuid) → Triple (IsHandedOut ids) (mark_claimed claimed) (λ _. IsHandedOut ids)
  unfolding mark_claimed
  mark_claimed-IsHandedOut [] = λ w h. h
  mark_claimed-IsHandedOut (i ∷ claimed) =
      Triple->>= _ (λ _. IsHandedOut ids) (λ _. IsHandedOut ids) _ _
        (Triple-stmt _ _ _ (λ u now d h.
          update_runs-IsHandedOut _ (mark_dispatched now) d (λ r. refl) (λ r. refl) h))
        (λ _. Triple-stmt _ _ _ (λ u now d h. other_table d _ refl h))

  claim_body-IsHandedOut :
      (locked : Uuid → Bool) (nid : Uuid) (limit : ℕ)
      → Triple (IsHandedOut ids) (claim_body locked nid limit) (λ _. IsHandedOut ids)
  unfolding claim_body
  claim_body-IsHandedOut locked nid limit =
      Triple->>= _ (λ _. IsHandedOut ids) (λ _. IsHandedOut ids) _ _
        (Triple-stmt _ _ _ (λ u now d h. h))
        (λ jobs.
          Triple->>= _ (λ _. IsHandedOut ids) (λ _. IsHandedOut ids) _ _
            (mark_claimed-IsHandedOut (map job_id jobs)) (λ _ w h. h))

  run_call-IsHandedOut :
      (c : RunCall) (w : World) → IsHandedOut ids w.db → IsHandedOut ids (run_call c w).db
  unfolding claim_queued_runs complete_check_run timeout_stale_runs cancel_check
  run_call-IsHandedOut (creates cid nids) = create_check_runs-IsHandedOut cid nids
  run_call-IsHandedOut (claims locked nid limit) =
      transaction-Keeps (IsHandedOut ids) _ (claim_body-IsHandedOut locked nid (claim_limit limit))
  run_call-IsHandedOut (completes rid nid p) =
      transaction-Keeps (IsHandedOut ids) _ (complete_body-IsHandedOut rid nid p)
  run_call-IsHandedOut (sweeps order grace) =
      transaction-Keeps (IsHandedOut ids) _ (timeout_body-IsHandedOut order grace)
  run_call-IsHandedOut (cancels aid cid) =
      transaction-Keeps (IsHandedOut ids) _ (cancel_body-IsHandedOut aid cid)

  pub run_calls-IsHandedOut :
      (cs : List RunCall) (w : World) → IsHandedOut ids w.db → IsHandedOut ids (run_calls cs w).db
  run_calls-IsHandedOut [] w h = h
  run_calls-IsHandedOut (c ∷ cs) w h =
      run_calls-IsHandedOut cs (run_call c w) (run_call-IsHandedOut c w h)
