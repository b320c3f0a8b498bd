-- ===== src/Agent/Tests.antt =====
-- The theorems about the agent at a concrete tick: three jobs, one of an unknown type, and a fronted connection.
use pingachock.Agent.Poller.{
  execute_job, finished, flush_tick, Moment, stream_results, Event, Agent, tick,
}
use pingachock.Agent.Poller.Laws.{
  tick-reports, stream_results-reports, AreBatches, results_in, concat,
}
use pingachock.Agent.Failover.{new_failover, unanswered, Answer, Which, calls, answered}
use pingachock.Base.{
  some, refl, map, ◌+◌, arith, ◌≡◌, [], false, true, none, not, ◌∷◌, String, ℕ, List, count_where,
  Bool,
}
use pingachock.Store.Models.{Json, Uuid}
use pingachock.Probe.{failed_with, CheckResult, Checker}
use pingachock.Api.Agent.{ResultSubmission}
use pingachock.Agent.State.{Job}
use pingachock.Agent.Failover.Laws.{calls-until_failure}
use pingachock.Probe.Address.Laws.{pick_preferred_ip-family, Prefers}
use pingachock.Probe.Address.{pick_preferred_ip, same_family, Ip}

abbrev send_ok : Which → Answer ℕ
send_ok w = answered 1

abbrev send_blocked : Which → Answer ℕ
send_blocked Which.primary = unanswered "reset"
send_blocked Which.fallback = answered 2

calls-until_failure_example :
    calls (send_ok ∷ send_blocked ∷ send_ok ∷ []) (new_failover true)
    ≡ Which.primary ∷ Which.primary ∷ Which.fallback ∷ []
calls-until_failure_example = calls-until_failure (send_ok ∷ send_blocked ∷ send_ok ∷ [])

abbrev job : Uuid → String → Job
job i ty = record { check_run_id = i; type = ty; target = "example.org"; params = "{}" }

abbrev three_jobs : List Job
three_jobs = job 1 "ping" ∷ job 2 "dns" ∷ job 3 "smtp" ∷ []

abbrev probe : Checker → String → Json → CheckResult
probe c target params = failed_with "timeout"

-- A tick of the ticker comes before every result.
abbrev arrive : List ResultSubmission → List (Event ResultSubmission)
arrive [] = []
arrive (r ∷ rs) = flush_tick ∷ finished r ∷ arrive rs

arrive-Arrives :
    (p : ResultSubmission → Bool) (rs : List ResultSubmission)
    → count_where p (results_in (arrive rs)) ≡ count_where p rs
arrive-Arrives p [] = refl
arrive-Arrives p (r ∷ rs) = omega (arith, arrive-Arrives p rs)

abbrev calm : ℕ → Moment
calm n = record { suspect = false; post_error = none; clock = n; writable = true }

abbrev tunnelled : ℕ → Moment
tunnelled n = record { suspect = true; post_error = none; clock = n; writable = true }

abbrev agent : Agent
agent = record {
  agent_version = "1";
  transport = "direct";
  started_at = 3;
  fails = 2;
  saved = none;
  sent = [];
}

abbrev failure : ResultSubmission → Bool
failure r = not r.success

abbrev two_events : List (Event ℕ)
two_events = finished 4 ∷ flush_tick ∷ finished 5 ∷ []

abbrev two_results : List ℕ
two_results = 4 ∷ 5 ∷ []

stream_results-reports_example :
    (concat (stream_results [] two_events) ≡ two_results)
    × AreBatches (stream_results [] two_events)
stream_results-reports_example = stream_results-reports two_events

tick-reports_example :
    count_where failure (concat (tick probe (answered three_jobs) arrive calm 9 true agent).sent)
    ≡ 0 + count_where failure (map (execute_job probe) three_jobs)
tick-reports_example =
    tick-reports probe arrive calm failure three_jobs 9 true agent (λ k. refl) arrive-Arrives

-- A host with an IPv6 and an IPv4 address.
abbrev six : Ip
six = record { is_v4 = false; text = "::1" }

abbrev four : Ip
four = record { is_v4 = true; text = "127.0.0.1" }

pick_preferred_ip-family_example :
    Prefers
      (same_family false)
      (pick_preferred_ip four (six ∷ []) (some six))
      (pick_preferred_ip four (six ∷ []) none)
      (four ∷ six ∷ [])
pick_preferred_ip-family_example = pick_preferred_ip-family four six (six ∷ [])
