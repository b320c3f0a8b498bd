-- ===== src/Agent/State.antt =====
-- internal/agentstate/agentstate.go: the snapshot of what the agent does, and what the agent exchanges with
-- the backend (internal/transport/transport.go).
use pingachock.Store.Models.{Json, Time, Uuid}
use pingachock.Base.{ℕ, Bool, false, some, String, Option, none}

pub record Job : Type 0 where
  pub check_run_id : Uuid
  pub type : String
  pub target : String
  pub params : Json

-- The zero value of a time is `none`.
pub record State : Type 0 where
  pub agent_version : String
  pub started_at : Time
  pub transport : String
  pub last_poll_at : Option Time
  pub last_poll_ok : Bool
  pub last_poll_error : String
  pub last_jobs_count : ℕ
  pub consecutive_poll_fails : ℕ
  pub last_results_at : Option Time
  pub last_results_ok : Bool
  pub last_results_error : String

-- What a missing or unreadable file is read as.
abbrev pub zero_state : State
zero_state = record {
  agent_version = "";
  started_at = 0;
  transport = "";
  last_poll_at = none;
  last_poll_ok = false;
  last_poll_error = "";
  last_jobs_count = 0;
  consecutive_poll_fails = 0;
  last_results_at = none;
  last_results_ok = false;
  last_results_error = "";
}

-- `Load`, whose error the callers drop.
abbrev pub load : Option State → State
load none = zero_state
load (some s) = s
