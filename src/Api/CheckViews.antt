-- ===== src/Api/CheckViews.antt =====
-- internal/api/public/checks.go: what the responses show of a check, of its runs and of their results.
use pingachock.Base.{ℕ, some, map, [], String, none, Option, Bool, List}
use pingachock.Store.Models.{
  CheckStatus, Time, Json, CheckType, RunStatus, Result, RunWithResult, Check, Uuid,
}

pub record ResultResponse : Type 0 where
  pub success : Bool
  pub latency_ms : Option ℕ
  pub status_code : Option String
  pub error_message : Option String
  pub raw : Json

pub record RunResponse : Type 0 where
  pub id : Uuid
  pub node_id : Uuid
  pub node_name : String
  pub status : RunStatus
  pub dispatched_at : Option Time
  pub completed_at : Option Time
  pub result : Option ResultResponse

pub record CheckResponse : Type 0 where
  pub id : Uuid
  pub batch_id : Option Uuid
  pub type : CheckType
  pub target : String
  pub params : Json
  pub node_selector : Json
  pub callback_url : Option String
  pub status : CheckStatus
  pub warnings : List String
  pub created_at : Time
  pub completed_at : Option Time
  pub runs : List RunResponse

-- `toCheckResponse`
abbrev pub to_check_response : Check → CheckResponse
to_check_response c = record {
  id = c.id;
  batch_id = c.batch_id;
  type = c.type;
  target = c.target;
  params = c.params;
  node_selector = c.node_selector;
  callback_url = c.callback_url;
  status = c.status;
  warnings = c.warnings;
  created_at = c.created_at;
  completed_at = c.completed_at;
  runs = [];
}

abbrev pub to_result_response : Result → ResultResponse
to_result_response r = record {
  success = r.success;
  latency_ms = r.latency_ms;
  status_code = r.status_code;
  error_message = r.error_message;
  raw = r.raw;
}

-- `toRunResponse`
abbrev pub to_run_response : RunWithResult → RunResponse
to_run_response rw = record {
  id = rw.run.id;
  node_id = rw.node.id;
  node_name = rw.node.name;
  status = rw.run.status;
  dispatched_at = rw.run.dispatched_at;
  completed_at = rw.run.completed_at;
  result = elim rw.result [ none ↦ none | some r ↦ some (to_result_response r) ];
}

abbrev pub with_runs : CheckResponse → List RunWithResult → CheckResponse
with_runs c rows = record c { runs = map to_run_response rows }
