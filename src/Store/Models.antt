-- ===== src/Store/Models.antt =====
-- internal/store/models.go: the rows of the tables. An id is a number, a time is the seconds on the
-- database's clock, raw JSON is its text, and `tags` is the list that the jsonb column holds.
use pingachock.Base.{ℕ, String, Bool, false, Option, none, some, List, ◌+◌, leb}

abbrev pub Uuid : Type 0
Uuid = ℕ

abbrev pub Time : Type 0
Time = ℕ

abbrev pub Json : Type 0
Json = String

pub record Account : Type 0 where
  pub id : Uuid
  pub name : String
  pub created_at : Time

pub record ApiKey : Type 0 where
  pub id : Uuid
  pub account_id : Uuid
  pub key_hash : String
  pub label : String
  pub scopes : List String
  pub created_at : Time
  pub last_used_at : Option Time
  pub revoked_at : Option Time

pub record Node : Type 0 where
  pub id : Uuid
  pub name : String
  pub isp : String
  pub city : String
  pub country : String
  pub agent_version : String
  pub platform : String
  pub last_heartbeat_at : Option Time
  pub secret_hash : String
  pub blocked : Bool
  pub is_virtual : Bool
  pub tags : List String
  pub metadata : Json
  pub created_at : Time

-- `now - at <= threshold`, written without a subtraction
seen_within : Time → ℕ → Option Time → Bool
seen_within now threshold none = false
seen_within now threshold (some at) = leb now (at + threshold)

-- `Node.Online`; `now` is what `time.Since` reads.
unfoldable pub is_online : Time → ℕ → Node → Bool
unfolding seen_within
is_online now threshold n = seen_within now threshold n.last_heartbeat_at

pub data CheckType : Type 0 where
  ping tcp http dns tls traceroute upgrade vless : CheckType

pub data CheckStatus : Type 0 where
  pending running completed partial failed cancelled : CheckStatus

pub record Check : Type 0 where
  pub id : Uuid
  pub account_id : Uuid
  pub batch_id : Option Uuid
  pub type : CheckType
  pub target : String
  pub params : Json
  pub node_selector : Json
  pub callback_url : Option String
  pub status : CheckStatus
  pub warnings : List String
  pub created_at : Time
  pub completed_at : Option Time

pub data RunStatus : Type 0 where
  queued dispatched running done error timeout : RunStatus

pub record CheckRun : Type 0 where
  pub id : Uuid
  pub check_id : Uuid
  pub node_id : Uuid
  pub status : RunStatus
  pub dispatched_at : Option Time
  pub completed_at : Option Time
  pub created_at : Time

-- What a node receives from a poll.
pub record CheckRunJob : Type 0 where
  pub check_run_id : Uuid
  pub check_id : Uuid
  pub type : CheckType
  pub target : String
  pub params : Json

pub record Result : Type 0 where
  pub id : Uuid
  pub check_run_id : Uuid
  pub success : Bool
  pub latency_ms : Option ℕ
  pub status_code : Option String
  pub error_message : Option String
  pub raw : Json
  pub created_at : Time

-- A run joined with its node and, if present, one of its results.
pub record RunWithResult : Type 0 where
  pub run : CheckRun
  pub node : Node
  pub result : Option Result
