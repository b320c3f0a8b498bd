-- ===== src/Api/Agent.antt =====
-- internal/api/agent/handler.go: the two endpoints that a node calls.
use pingachock.Store.Finish.{complete_check_run, Report}
use pingachock.Store.Models.{Json, CheckType, Uuid, CheckRunJob}
use pingachock.Base.{
  map, [], none, ◌∷◌, some, ℕ, Option, is_empty_str, List, Bool, if◌then◌else◌, String,
}
use pingachock.Api.{
  json, with_error, internal, with_id, text, call, no_content, call_ignoring, fail, with_body,
  answer, Reply, H, Body,
}
use pingachock.Store.Db.{not_found, Error}
use pingachock.Base.Int.{ℤ}
use pingachock.Store.Claim.{claim_queued_runs}
use pingachock.Store.Nodes.{set_node_platform, touch_heartbeat, set_node_agent_version}

pub record PollRequest : Type 0 where
  pub agent_version : String
  pub platform : String

pub record PollJob : Type 0 where
  pub check_run_id : Uuid
  pub type : CheckType
  pub target : String
  pub params : Json

abbrev pub to_poll_job : CheckRunJob → PollJob
to_poll_job j = record {
  check_run_id = j.check_run_id;
  type = j.type;
  target = j.target;
  params = j.params;
}

abbrev pub no_request : PollRequest
no_request = record { agent_version = ""; platform = "" }

-- `if req.AgentVersion != "" { _ = … }`
unfoldable pub set_version_if_given : {B : Type 0} → Uuid → String → H B → H B
set_version_if_given nid v k =
    if is_empty_str v then k else call_ignoring (set_node_agent_version nid v) k

unfoldable pub set_platform_if_given : {B : Type 0} → Uuid → String → H B → H B
set_platform_if_given nid p k =
    if is_empty_str p then k else call_ignoring (set_node_platform nid p) k

unfoldable pub claim_reply : (Uuid → Bool) → ℤ → Uuid → H (List PollJob)
claim_reply locked limit nid =
    call (claim_queued_runs locked nid limit) (internal "")
      (λ jobs. answer (json 200 (map to_poll_job jobs)))

unfoldable pub poll_decoded : (Uuid → Bool) → ℤ → Uuid → PollRequest → H (List PollJob)
unfolding set_version_if_given set_platform_if_given claim_reply
poll_decoded locked limit nid req = call (touch_heartbeat nid) (internal "") (λ _.
    set_version_if_given nid req.agent_version
      (set_platform_if_given nid req.platform (claim_reply locked limit nid)))

-- `Handler.Poll`; `none` is a request with no body. `limit` is PollBatchLimit.
unfoldable pub poll : (Uuid → Bool) → ℤ → Uuid → Option (Body PollRequest) → H (List PollJob)
unfolding poll_decoded
poll locked limit nid none = poll_decoded locked limit nid no_request
poll locked limit nid (some b) = with_body b (poll_decoded locked limit nid)

pub record ResultSubmission : Type 0 where
  pub check_run_id : Uuid
  pub success : Bool
  pub latency_ms : Option ℕ
  pub status_code : Option String
  pub error_message : Option String
  pub raw : Json

-- The report that is stored: no raw JSON is stored as `{}`.
abbrev pub to_report : ResultSubmission → Report
to_report r = record {
  success = r.success;
  latency_ms = r.latency_ms;
  status_code = r.status_code;
  error_message = r.error_message;
  raw = if is_empty_str r.raw then "{}" else r.raw;
}

abbrev pub result_refused : Uuid → Error → Reply (Unit {0})
result_refused rid not_found =
    fail 404 (with_id "check_run not found or not assigned to this node: " rid)
result_refused rid e = fail 500 (with_error "" e)

-- The loop of `Results`: it stops at the first submission that the store refuses.
unfoldable pub record_results : Uuid → List ResultSubmission → H (Unit {0})
record_results nid [] = answer no_content
record_results nid (r ∷ rs) =
    let rest = record_results nid rs in
    call (complete_check_run r.check_run_id nid (to_report r)) (result_refused r.check_run_id)
      (λ _. rest)

unfoldable pub results_decoded : Uuid → List ResultSubmission → H (Unit {0})
results_decoded nid [] = answer (fail 400 (text "results must not be empty"))
results_decoded nid (r ∷ rs) = record_results nid (r ∷ rs)

-- `Handler.Results`
unfoldable pub results : Uuid → Body (List ResultSubmission) → H (Unit {0})
unfolding results_decoded
results nid b = with_body b (results_decoded nid)
