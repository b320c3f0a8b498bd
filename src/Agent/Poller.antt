-- ===== src/Agent/Poller.antt =====
-- internal/poller/poller.go and selftest.go: one tick of the agent, from the poll to the reports.
pub mod Laws
use pingachock.Store.Models.{failed, Uuid, Json, Time}
use pingachock.Probe.{failed_with, get, CheckResult, Checker}
use pingachock.Agent.State.{Job, load, State}
use pingachock.Base.{
  join_str, length, map, none, leb, suc, ◌&&◌, ◌++◌, true, not, if◌then◌else◌, false, Option, ◌∷◌,
  [], some, String, Bool, ℕ, List,
}
use pingachock.Api.Agent.{ResultSubmission}
use pingachock.Agent.Failover.{unanswered, answered, Answer}

-- What `streamResults` receives: a result, or a tick of its ticker. The end of the list is the closing
-- of the channel.
pub data Event (A : Type 0) : Type 0 where
  finished : A → Event A
  flush_tick : Event A

-- `resultFlushBatchSize`
abbrev pub batch_size : ℕ
batch_size = 10

-- `flush`, before the batches that come later.
abbrev pub flush : {A : Type 0} → List A → List (List A) → List (List A)
flush [] later = later
flush (r ∷ rs) later = (r ∷ rs) ∷ later

-- `streamResults`: the batches that it posts, in their order.
unfoldable pub stream_results : {A : Type 0} → List A → List (Event A) → List (List A)
stream_results pending [] = flush pending []
stream_results pending (finished r ∷ es) =
    let full = stream_results [] es in
    let filling = stream_results (pending ++ (r ∷ [])) es in
    if leb batch_size (length (pending ++ (r ∷ []))) then (pending ++ (r ∷ [])) ∷ full else filling
stream_results pending (flush_tick ∷ es) = flush pending (stream_results [] es)

-- `classifyPathSuspect`
abbrev pub classify_path_suspect : Bool → Bool → Bool
classify_path_suspect bound_ok unbound_ok = not bound_ok && unbound_ok

-- `PathSelfTest.tick`: the new value of `suspect`. `dial bound target` is `dialOK`.
unfoldable pub self_test : (Bool → String → Bool) → List String → Bool
self_test dial [] = false
self_test dial (t ∷ ts) =
    let rest = self_test dial ts in
    if classify_path_suspect (dial true t) (dial false t) then true else rest

pub record Agent : Type 0 where
  pub agent_version : String
  pub transport : String
  pub started_at : Time
  pub fails : ℕ
  pub saved : Option State
  pub sent : List (List ResultSubmission)

-- `saveState`; a file that cannot be written is left as it is, and there is none without a path.
abbrev pub save_state : (State → State) → Bool → Agent → Agent
save_state mutate writable a =
    if writable
    then record a {
      saved = some (
          mutate (record (load a.saved) {
            agent_version = a.agent_version;
            started_at = a.started_at;
            transport = a.transport;
          }));
    }
    else a

-- What holds while one batch is posted: whether the self test suspects the path, what the backend
-- answers to the batch (`none` is success), the clock, and whether the state file can be written.
pub record Moment : Type 0 where
  pub suspect : Bool
  pub post_error : Option String
  pub clock : Time
  pub writable : Bool

abbrev pub note_results : Time → Option String → State → State
note_results now none s = record s {
  last_results_at = some now;
  last_results_ok = true;
  last_results_error = "";
}
note_results now (some e) s = record s {
  last_results_at = some now;
  last_results_ok = false;
  last_results_error = e;
}

-- `postBatch`; `sent` is what `PostResults` has been called with.
unfoldable pub post_batch : Moment → List ResultSubmission → Agent → Agent
post_batch x rs a =
    if x.suspect
    then a
    else save_state (note_results x.clock x.post_error) x.writable
        (record a { sent = a.sent ++ (rs ∷ []) })

-- The batches of one tick; `moments n` is the moment of the batch `n`.
unfoldable pub post_batches : (ℕ → Moment) → ℕ → List (List ResultSubmission) → Agent → Agent
unfolding post_batch
post_batches moments n [] a = a
post_batches moments n (rs ∷ batches) a =
    post_batches moments (suc n) batches (post_batch (moments n) rs a)

abbrev pub note_poll_failed : Time → String → ℕ → State → State
note_poll_failed now e fails s = record s {
  last_poll_at = some now;
  last_poll_ok = false;
  last_poll_error = e;
  consecutive_poll_fails = fails;
}

abbrev pub note_poll_ok : Time → ℕ → State → State
note_poll_ok now jobs s = record s {
  last_poll_at = some now;
  last_poll_ok = true;
  last_poll_error = "";
  last_jobs_count = jobs;
  consecutive_poll_fails = 0;
}

-- `probe` is `checker.Run` on the network.
module _ (probe : Checker → String → Json → CheckResult) where
  unfoldable pub run_job : Job → Option Checker → CheckResult
  run_job j none = failed_with (join_str ("check type not supported by this agent: " ∷ j.type ∷ []))
  run_job j (some c) = probe c j.target j.params

  abbrev pub submission_of : Uuid → CheckResult → ResultSubmission
  submission_of rid r = record {
    check_run_id = rid;
    success = r.success;
    latency_ms = r.latency_ms;
    status_code = r.status_code;
    error_message = r.error_message;
    raw = r.raw;
  }

  -- `execute`
  unfoldable pub execute_job : Job → ResultSubmission
  unfolding run_job
  execute_job j = submission_of j.check_run_id (run_job j (get j.type))

  -- `arrive` is how the results of the workers reach the channel, in their order and with the ticks of
  -- the ticker between them.
  unfoldable pub work :
      (List ResultSubmission → List (Event ResultSubmission))
      → (ℕ → Moment)
      → List Job
      → Agent
      → Agent
  unfolding execute_job post_batches stream_results
  work arrive moments [] a = a
  work arrive moments (j ∷ js) a =
      post_batches moments 0 (stream_results [] (arrive (map execute_job (j ∷ js)))) a

  -- `tick`; `now` and `writable` are of the moment of the poll.
  unfoldable pub tick :
      Answer (List Job)
      → (List ResultSubmission → List (Event ResultSubmission))
      → (ℕ → Moment)
      → Time
      → Bool
      → Agent
      → Agent
  unfolding work
  tick (unanswered e) arrive moments now writable a =
      save_state (note_poll_failed now e (suc a.fails)) writable (record a { fails = suc a.fails })
  tick (answered jobs) arrive moments now writable a =
      work arrive moments jobs
        (save_state (note_poll_ok now (length jobs)) writable (record a { fails = 0 }))
