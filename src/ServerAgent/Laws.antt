-- ===== src/ServerAgent/Laws.antt =====
-- internal/serveragent: the runner's tick against the invariant of the tables.
use pingachock.Probe.{CheckResult, Checker}
use pingachock.Base.{inr, [], inl, ◌∷◌, Bool-cases, Bool, List, String}
use pingachock.Store.Models.{CheckRunJob, Uuid, Json}
use pingachock.ServerAgent.{
  heartbeat_due, Runner, after_beat, beat, execute_all, execute, tick, after_claim,
}
use pingachock.Store.Db.{err, ok, Outcome, World}
use pingachock.Store.Lifecycle.{IsValid}
use pingachock.Store.Triple.{Keeps->>=, Keeps}
use pingachock.Store.Lifecycle.Claim.{claim_queued_runs-IsValid}
use pingachock.Store.Lifecycle.Complete.{complete_check_run-IsValid}
use pingachock.Store.Nodes.{touch_heartbeat}
use pingachock.Api.Laws.Working.{touch_heartbeat-Keeps}

module _ (probe : Checker → String → Json → CheckResult) where
  execute-Keeps : (nid : Uuid) (j : CheckRunJob) → Keeps IsValid (execute probe nid j)
  unfolding execute
  execute-Keeps nid j w v = complete_check_run-IsValid j.check_run_id nid _ w v

  execute_all-Keeps :
      (nid : Uuid) (js : List CheckRunJob) → Keeps IsValid (execute_all probe nid js)
  unfolding execute_all
  execute_all-Keeps nid [] = λ w v. v
  execute_all-Keeps nid (j ∷ js) =
      Keeps->>= IsValid _ _ (execute-Keeps nid j) (λ _. execute_all-Keeps nid js)

  after_beat-Keeps :
      (r : Runner) (x : Outcome (Unit {0}) × World)
      → IsValid x.1.db
      → IsValid (after_beat probe r x).1.db
  unfolding after_beat
  after_beat-Keeps r (ok _, w) v = v
  after_beat-Keeps r (err _, w) v = v

  beat-Keeps : (r : Runner) (w : World) → IsValid w.db → IsValid (beat probe r w).1.db
  unfolding beat
  beat-Keeps r w v = elim (Bool-cases (heartbeat_due probe r w.now)) [
    | inl due ↦
        rw due
          (after_beat-Keeps r (touch_heartbeat r.node_id w) (touch_heartbeat-Keeps r.node_id w v))
    | inr fresh ↦ rw fresh v
  ]

  after_claim-Keeps :
      (order : List CheckRunJob → List CheckRunJob) (nid : Uuid)
      (x : Outcome (List CheckRunJob) × World)
      → IsValid x.1.db
      → IsValid (after_claim probe order nid x).db
  unfolding after_claim
  after_claim-Keeps order nid (ok jobs, w) v = execute_all-Keeps nid (order jobs) w v
  after_claim-Keeps order nid (err e, w) v = v

  -- A tick of the runner keeps the invariant, in whatever order its checks finish.
  pub tick-IsValid :
      (locked : Uuid → Bool) (order : List CheckRunJob → List CheckRunJob) (r : Runner) (w : World)
      → IsValid w.db
      → IsValid (tick probe locked order r w).1.db
  unfolding tick
  tick-IsValid locked order r w v =
      after_claim-Keeps order r.node_id _
        (claim_queued_runs-IsValid locked r.node_id _ (beat probe r w).1 (beat-Keeps r w v))
