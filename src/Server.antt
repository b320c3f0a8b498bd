-- ===== src/Server.antt =====
-- cmd/server: the requests that reach the backend and the two loops that run beside them, each as one
-- step on the tables. Requests are taken one after the other; `locked` and `order` stand for what
-- runs beside a step.
pub mod Outcome
pub mod Routes
pub mod Tests
mod Story
mod Quiet
use pingachock.Api.Agent
use pingachock.Api.Checks
use pingachock.Api.Nodes
use pingachock.Store.Db
use pingachock.Base.{member, List, Option, Bool, String, [], ◌≡◌, ℕ}
use pingachock.Store.Lifecycle.{IsValid}
use pingachock.Store.Db.{Db, World}
use pingachock.Api.Laws.Creating.{create-IsValid}
use pingachock.Store.Finish.{timeout_stale_runs}
use pingachock.Api.Laws.{SameWork, SameWork-IsValid}
use pingachock.Store.Models.{CheckRunJob, Json, Uuid}
use pingachock.Api.{Body}
use pingachock.Api.Laws.Working.{results-IsValid, poll-IsValid, cancel-IsValid}
use pingachock.ServerAgent.{Runner, tick}
use pingachock.Store.Lifecycle.Sweep.{timeout_stale_runs-IsValid}
use pingachock.Base.Int.{ℤ}
use pingachock.Api.Laws.Managing.{update_node-IsValid, create_node-IsValid}
use pingachock.ServerAgent.Laws.{tick-IsValid}
use pingachock.Probe.{CheckResult, Checker}

-- The request handlers and loops of `main` that change checks, runs, results or nodes.
pub data Request : Type 0 where
  create_checks : Checks.Codec → ℕ → Uuid → Body Checks.CreateCheckRequest → Request
  cancel_check : Checks.Codec → Uuid → String → Request
  poll : (Uuid → Bool) → ℤ → Uuid → Option (Body Agent.PollRequest) → Request
  report : Uuid → Body (List Agent.ResultSubmission) → Request
  sweep :
      (order : List Uuid → List Uuid)
      → ((a : Uuid) (xs : List Uuid) → member a (order xs) ≡ member a xs)
      → ℕ
      → Request
  create_node : (List ℕ → String) → ℕ → Nodes.Token → Body Nodes.CreateNodeRequest → Request
  update_node : ℕ → Option Uuid → Body (Option Bool) → Request
  run_own_checks :
      (Checker → String → Json → CheckResult)
      → (Uuid → Bool)
      → (List CheckRunJob → List CheckRunJob)
      → Runner
      → Request

-- The tables after a request.
unfoldable pub handle : Request → World → World
handle (create_checks codec threshold aid body) w = (Checks.create codec threshold aid body w).1
handle (cancel_check codec aid id) w = (Checks.cancel codec aid id w).1
handle (poll locked limit nid body) w = (Agent.poll locked limit nid body w).1
handle (report nid body) w = (Agent.results nid body w).1
handle (sweep order same grace) w = (timeout_stale_runs order grace w).1
handle (create_node hash threshold token body) w = (Nodes.create hash threshold token body w).1
handle (update_node threshold nid body) w = (Nodes.update threshold nid body w).1
handle (run_own_checks probe locked order r) w = (tick probe locked order r w).1

abbrev pub no_rows : Db
no_rows = record { accounts = []; api_keys = []; nodes = []; checks = []; runs = []; results = [] }

-- The worlds that the backend gets to from empty tables when its requests and loops take turns, each
-- running to its end before the next starts: by one of them, or as time passes and the database's
-- answers, ids and faults, turn out one way or another. Transactions that overlap are not among the
-- steps.
pub data ReachedInTurn : World → Type 0 where
  at_start : (w : World) → w.db ≡ no_rows → ReachedInTurn w
  by_request : {w : World} (q : Request) → ReachedInTurn w → ReachedInTurn (handle q w)
  by_time : {w : World} (v : World) → v.db ≡ w.db → ReachedInTurn w → ReachedInTurn v
  by_account : {w : World} (v : World) → SameWork w.db v.db → ReachedInTurn w → ReachedInTurn v

-- Each request handler and loop, run on tables that satisfy the invariant, leaves tables that
-- satisfy it, also where a statement fails in the middle.
pub handle-IsValid : (q : Request) (w : World) → IsValid w.db → IsValid (handle q w).db
unfolding handle
handle-IsValid (create_checks codec threshold aid body) w v =
    create-IsValid codec threshold aid body w v
handle-IsValid (cancel_check codec aid id) w v = cancel-IsValid codec aid id w v
handle-IsValid (poll locked limit nid body) w v = poll-IsValid locked limit nid body w v
handle-IsValid (report nid body) w v = results-IsValid nid body w v
handle-IsValid (sweep order same grace) w v = timeout_stale_runs-IsValid order same grace w v
handle-IsValid (create_node hash threshold token body) w v =
    create_node-IsValid hash threshold token body w v
handle-IsValid (update_node threshold nid body) w v = update_node-IsValid threshold nid body w v
handle-IsValid (run_own_checks probe locked order r) w v = tick-IsValid probe locked order r w v

no_rows-IsValid : IsValid no_rows
no_rows-IsValid = record {
  keyed = record { unique_runs = tt; unique_checks = tt; referenced = tt };
  agreeing = tt;
}

-- In every state that the backend gets to from empty tables by requests and loops that take turns, none
-- starting before the one before it has ended, the keys are in order and every check's status agrees
-- with its runs: a completed check has no open run and no failed one, a failed check
-- none open and none done, a partial one none open and some of both, a cancelled one none open, and
-- one still pending or running with runs has an open run left.
pub ReachedInTurn-IsValid : {w : World} → ReachedInTurn w → IsValid w.db
ReachedInTurn-IsValid (at_start w e) = rw e no_rows-IsValid
ReachedInTurn-IsValid (by_request {w = u} q r) = handle-IsValid q u (ReachedInTurn-IsValid r)
ReachedInTurn-IsValid (by_time {w = u} v e r) = rw e (ReachedInTurn-IsValid r)
ReachedInTurn-IsValid (by_account {w = u} v s r) =
    SameWork-IsValid u.db v.db s (ReachedInTurn-IsValid r)
