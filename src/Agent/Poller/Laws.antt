-- ===== src/Agent/Poller/Laws.antt =====
-- internal/poller: what a tick reports, in which batches, and when.
use pingachock.Agent.Poller.{
  tick, execute_job, work, note_results, post_batch, save_state, Agent, post_batches, Moment,
  batch_size, flush_tick, finished, flush, Event, stream_results,
}
use pingachock.Base.{
  count_where-append, map, ◌+◌, count_where, String, false, true, sym, ◌∙◌, Bool, ℕ, inr, suc,
  arith, ap, ◌≤◌, All, ◌<◌, inl, length, leb, refl, [], Bool-cases, ◌++◌, ◌≡◌, ◌∷◌, List,
}
use mathlib.Core.List.{append_assoc, append-nil}
use pingachock.Agent.State.{Job, State}
use pingachock.Api.Agent.{ResultSubmission}
use pingachock.Probe.{CheckResult, Checker}
use pingachock.Store.Models.{Time, Json}
use pingachock.Agent.Failover.{answered}

abbrev pub results_in : {A : Type 0} → List (Event A) → List A
results_in [] = []
results_in (finished r ∷ es) = r ∷ results_in es
results_in (flush_tick ∷ es) = results_in es

abbrev pub concat : {A : Type 0} → List (List A) → List A
concat [] = []
concat (xs ∷ xss) = xs ++ concat xss

module _ {A : Type 0} where
  concat-flush :
      (rs : List A) (later : List (List A)) → concat (flush rs later) ≡ rs ++ concat later
  concat-flush [] later = refl
  concat-flush (r ∷ rs) later = refl

  stream_results-concat :
      (pending : List A) (es : List (Event A))
      → concat (stream_results pending es) ≡ pending ++ results_in es
  unfolding stream_results
  stream_results-concat pending [] = concat-flush pending []
  stream_results-concat pending (finished r ∷ es) =
      elim (Bool-cases (leb batch_size (length (pending ++ (r ∷ []))))) [
        | inl full ↦
            rw (full, stream_results-concat [] es) (append_assoc pending (r ∷ []) (results_in es))
        | inr filling ↦
            rw (filling, stream_results-concat (pending ++ (r ∷ [])) es)
              (append_assoc pending (r ∷ []) (results_in es))
      ]
  stream_results-concat pending (flush_tick ∷ es) =
      rw (concat-flush pending (stream_results [] es), stream_results-concat [] es) refl

  abbrev pub AreBatches : List (List A) → Type 0
  AreBatches xss = All (λ xs. (0 < length xs) × (length xs ≤ batch_size)) xss

  flush-AreBatches :
      (rs : List A) (later : List (List A))
      → length rs ≤ batch_size
      → AreBatches later
      → AreBatches (flush rs later)
  flush-AreBatches [] later h b = b
  flush-AreBatches (r ∷ rs) later h b = ((omega arith, h), b)

  length-snoc : (rs : List A) (r : A) → length (rs ++ (r ∷ [])) ≡ suc (length rs)
  length-snoc [] r = refl
  length-snoc (x ∷ rs) r = omega (arith, length-snoc rs r)

  stream_results-AreBatches :
      (pending : List A) (es : List (Event A))
      → length pending < batch_size
      → AreBatches (stream_results pending es)
  unfolding stream_results
  stream_results-AreBatches pending [] h = flush-AreBatches pending [] (omega arith) tt
  stream_results-AreBatches pending (finished r ∷ es) h =
      elim (Bool-cases (leb batch_size (length (pending ++ (r ∷ []))))) [
        | inl full ↦ rw full (
          (omega (arith, length-snoc pending r), omega (arith, length-snoc pending r)),
          stream_results-AreBatches [] es (omega arith),
        )
        | inr filling ↦
            rw filling
              (stream_results-AreBatches (pending ++ (r ∷ [])) es (ground (arith, filling)))
      ]
  stream_results-AreBatches pending (flush_tick ∷ es) h =
      flush-AreBatches pending (stream_results [] es) (omega arith)
        (stream_results-AreBatches [] es (omega arith))

  -- Whatever the ticker does, the batches that are posted hold every result that arrives once and in
  -- the order of arrival, and no batch is empty or has more than ten results.
  pub stream_results-reports :
      (es : List (Event A))
      → (concat (stream_results [] es) ≡ results_in es) × AreBatches (stream_results [] es)
  stream_results-reports es =
      (stream_results-concat [] es, stream_results-AreBatches [] es (omega arith))

concat-append :
    {A : Type 0} (xss yss : List (List A)) → concat (xss ++ yss) ≡ concat xss ++ concat yss
concat-append [] yss = refl
concat-append (xs ∷ xss) yss =
    ap (λ zs. xs ++ zs) (concat-append xss yss) ∙ sym (append_assoc xs (concat xss) (concat yss))

save_state-sent :
    (mutate : State → State) (b : Bool) (a : Agent) → (save_state mutate b a).sent ≡ a.sent
save_state-sent mutate true a = refl
save_state-sent mutate false a = refl

module _ (moments : ℕ → Moment) where
  -- Batches posted while nothing is suspected.
  post_batches-sent :
      (n : ℕ) (batches : List (List ResultSubmission)) (a : Agent)
      → ((k : ℕ) → (moments k).suspect ≡ false)
      → (post_batches moments n batches a).sent ≡ a.sent ++ batches
  unfolding post_batches post_batch
  post_batches-sent n [] a h = sym (append-nil a.sent)
  post_batches-sent n (rs ∷ batches) a h =
      post_batches-sent (suc n) batches _ h
      ∙ (rw
          (
            h n,
            save_state-sent (note_results (moments n).clock (moments n).post_error)
                (moments n).writable (record a { sent = a.sent ++ (rs ∷ []) }),
          )
          (append_assoc a.sent (rs ∷ []) batches))

module _ (probe : Checker → String → Json → CheckResult)
    (arrive : List ResultSubmission → List (Event ResultSubmission)) (moments : ℕ → Moment) where
  -- The results of all workers reach the channel, in some order.
  abbrev pub Arrives : Type 0
  Arrives =
      (p : ResultSubmission → Bool) (rs : List ResultSubmission)
      → count_where p (results_in (arrive rs)) ≡ count_where p rs

  work-sent :
      (p : ResultSubmission → Bool) (jobs : List Job) (a : Agent)
      → ((k : ℕ) → (moments k).suspect ≡ false)
      → Arrives
      → count_where p (concat (work probe arrive moments jobs a).sent)
        ≡ count_where p (concat a.sent) + count_where p (map (execute_job probe) jobs)
  unfolding work
  work-sent p [] a h c = omega arith
  work-sent p (j ∷ js) a h c =
      let rs : List ResultSubmission = map (execute_job probe) (j ∷ js) in
      let batches : List (List ResultSubmission) = stream_results [] (arrive rs) in
      rw
        (
          post_batches-sent moments 0 batches a h,
          concat-append a.sent batches,
          stream_results-concat [] (arrive rs),
        )
        (count_where-append p (concat a.sent) (results_in (arrive rs))
          ∙ ap (λ n. count_where p (concat a.sent) + n) (c p rs))

  -- While the path is not suspected and the results of all workers arrive, a tick that is given jobs posts exactly one result of each: of
  -- every kind of result as many are posted as the jobs have, in whatever order the workers end.
  pub tick-reports :
      (p : ResultSubmission → Bool) (jobs : List Job) (now : Time) (writable : Bool) (a : Agent)
      → ((k : ℕ) → (moments k).suspect ≡ false)
      → Arrives
      → count_where p (concat (tick probe (answered jobs) arrive moments now writable a).sent)
        ≡ count_where p (concat a.sent) + count_where p (map (execute_job probe) jobs)
  unfolding tick
  tick-reports p jobs now true a h c = work-sent p jobs _ h c
  tick-reports p jobs now false a h c = work-sent p jobs _ h c
