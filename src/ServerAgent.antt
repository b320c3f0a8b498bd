-- ===== src/ServerAgent.antt =====
-- internal/serveragent/serveragent.go: the virtual "server" node, provisioned at boot, and the runner
-- that executes its checks in the backend's own process; internal/sweeper/sweeper.go.
pub mod Laws
use pingachock.Base.{
  join_str, [], none, ◌∷◌, some, ◌+◌, is_empty_str, Option, leb, if◌then◌else◌, false, true, ℕ,
  String, Bool, List,
}
use pingachock.Store.Db.{
  not_found, pure, attempt, ◌>>◌, unique_violation, db_error, err, ok, World, M, Error, Db, Outcome,
}
use pingachock.Store.Models.{CheckRunJob, Json, Time, Node, CheckType, Uuid}
use pingachock.Probe.{get, failed_with, CheckResult, Checker}
use pingachock.Base.Int.{or_default, pos, ℤ}
use pingachock.Api.Nodes.{Token}
use pingachock.Store.Nodes.{create_virtual_node, touch_heartbeat, get_virtual_node}
use pingachock.Store.Finish.{complete_check_run, Report}
use pingachock.Store.Claim.{claim_queued_runs}

-- `isUniqueViolation`
abbrev pub is_unique_violation : Error → Bool
is_unique_violation unique_violation = true
is_unique_violation _ = false

-- Between the two reads other instances may boot: `elsewhere` is what they do to the tables.
abbrev pub elsewhere : (Db → Db) → M (Unit {0})
elsewhere f w = (ok tt, record w { db = f w.db })

created_or_read : Outcome Node × World → Outcome Node × World
created_or_read (ok n, w) = (ok n, w)
created_or_read (err e, w) = if is_unique_violation e then get_virtual_node w else (err e, w)

-- `GenerateToken` may fail; `none` is its failure.
provision : (List ℕ → String) → Token → M Node
unfolding created_or_read
provision hash_token none w = (err db_error, w)
provision hash_token (some secret) w =
    created_or_read (create_virtual_node "server" (hash_token secret) w)

found_or_provision :
    (List ℕ → String) → Token → (Db → Db) → Outcome Node × World → Outcome Node × World
unfolding provision
found_or_provision hash_token token f (ok n, w) = (ok n, w)
found_or_provision hash_token token f (err not_found, w) =
    (elsewhere f >> provision hash_token token) w
found_or_provision hash_token token f (err e, w) = (err e, w)

-- `Ensure`
unfoldable pub ensure : (List ℕ → String) → Token → (Db → Db) → M Node
unfolding found_or_provision
ensure hash_token token f w = found_or_provision hash_token token f (get_virtual_node w)

-- What the runner is configured with, and the time of its last heartbeat.
pub record Runner : Type 0 where
  pub node_id : Uuid
  pub heartbeat_interval : ℤ
  pub max_concurrent : ℤ
  pub poll_batch_limit : ℤ
  pub last_heartbeat : Time

abbrev pub check_type_text : CheckType → String
check_type_text CheckType.ping = "ping"
check_type_text CheckType.tcp = "tcp"
check_type_text CheckType.http = "http"
check_type_text CheckType.dns = "dns"
check_type_text CheckType.tls = "tls"
check_type_text CheckType.traceroute = "traceroute"
check_type_text CheckType.upgrade = "upgrade"
check_type_text CheckType.vless = "vless"

-- `probe` is `checker.Run` on the network.
module _ (probe : Checker → String → Json → CheckResult) where
  run_or_refuse : CheckRunJob → Option Checker → CheckResult
  run_or_refuse j none =
      failed_with
        (join_str ("check type not supported by the server: " ∷ check_type_text j.type ∷ []))
  run_or_refuse j (some c) = probe c j.target j.params

  abbrev pub result_report : CheckResult → Report
  result_report r = record {
    success = r.success;
    latency_ms = r.latency_ms;
    status_code = r.status_code;
    error_message = r.error_message;
    raw = if is_empty_str r.raw then "{}" else r.raw;
  }

  -- `Runner.execute`: an error of the store is logged and dropped.
  unfoldable pub execute : Uuid → CheckRunJob → M (Unit {0})
  unfolding run_or_refuse
  execute nid j =
      attempt (
        complete_check_run j.check_run_id nid
          (result_report (run_or_refuse j (get (check_type_text j.type)))))
      >> pure tt

  unfoldable pub execute_all : Uuid → List CheckRunJob → M (Unit {0})
  execute_all nid [] = pure tt
  execute_all nid (j ∷ js) = execute nid j >> execute_all nid js

  abbrev pub heartbeat_due : Runner → Time → Bool
  heartbeat_due r now = leb (r.last_heartbeat + or_default r.heartbeat_interval 30) now

  unfoldable pub after_beat : Runner → Outcome (Unit {0}) × World → Runner × World
  after_beat r (ok _, w) = (record r { last_heartbeat = w.now }, w)
  after_beat r (err _, w) = (r, w)

  -- The heartbeat at the head of `tick`, no more often than its interval.
  unfoldable pub beat : Runner → World → Runner × World
  unfolding after_beat
  beat r w = if heartbeat_due r w.now then after_beat r (touch_heartbeat r.node_id w) else (r, w)

  unfoldable pub after_claim :
      (List CheckRunJob → List CheckRunJob) → Uuid → Outcome (List CheckRunJob) × World → World
  after_claim order nid (ok jobs, w) = (execute_all nid (order jobs) w).1
  after_claim order nid (err e, w) = w

  -- `Runner.tick`; `order` is the order in which the goroutines reach the store.
  unfoldable pub tick :
      (Uuid → Bool) → (List CheckRunJob → List CheckRunJob) → Runner → World → Runner × World
  unfolding after_claim
  tick locked order r w =
      let (r', w') = beat r w in
      (
        r',
        after_claim order r.node_id
            (claim_queued_runs locked r.node_id (pos (or_default r.poll_batch_limit 50)) w'),
      )
