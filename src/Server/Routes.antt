-- ===== src/Server/Routes.antt =====
-- cmd/server/main.go: the routes under /api/v1 in their three groups, each behind the middleware that
-- its group uses. The router finds the route of a request and its path parameters.
pub mod Laws
mod Tests
use pingachock.Api.Accounts
use pingachock.Api.Agent
use pingachock.Api.Checks
use pingachock.Api.Nodes
use pingachock.Api.ServerPing
use pingachock.Auth.{
  require_node_secret, require_admin_token, require_api_key, passed, refused, Verdict,
}
use pingachock.Store.Db.{World}
use pingachock.Base.{is_some, if◌then◌else◌, Option, String, Bool, ℕ, List}
use pingachock.Store.Models.{Uuid}
use pingachock.Api.{decoded, malformed, no_content, fail, json, Body, Reply, H}
use pingachock.Base.Int.{ℤ}
use pingachock.Api.ServerPing.{PingRequest, Probes}
use pingachock.Probe.{CheckResult}

-- What a client sees first, and the tables after the request.
abbrev pub Served : Type 0
Served = World → ℕ × World

unfoldable pub status_of : {B : Type 0} → Reply B → ℕ
status_of (json code b) = code
status_of (fail code m) = code
status_of no_content = 204

-- A handler as the router runs it.
abbrev pub run : {B : Type 0} → H B → Served
run h w = (status_of (h w).0, (h w).1)

-- `r.Use`: the next handler runs only on a verdict that passes, with what the verdict names.
unfoldable pub next : {A : Type 0} → (A → Served) → Verdict A × World → ℕ × World
next k (refused msg, w) = (401, w)
next k (passed a, w) = k a w

-- A handler that reads and writes no table: 400 for a body that is malformed or refused.
unfoldable pub probe_only : {A B : Type 0} → (A → Option B) → Body A → Served
probe_only handler (malformed e) w = (400, w)
probe_only handler (decoded a) w = (if is_some (handler a) then 200 else 400, w)

-- The group behind `RequireAPIKey`.
pub data AccountCall : Type 0 where
  create_checks : Checks.Codec → ℕ → Body Checks.CreateCheckRequest → AccountCall
  list_checks : Checks.Codec → Checks.ListQuery → AccountCall
  get_check : Checks.Codec → String → Bool → AccountCall
  cancel_check : Checks.Codec → String → AccountCall
  list_nodes : ℕ → AccountCall
  get_node : ℕ → Option Uuid → AccountCall
  server_ping : Probes → (String → List String → List String) → Body PingRequest → AccountCall
  server_upgrade_scan : (String → CheckResult) → Body (List String) → AccountCall

unfoldable pub account_handler : AccountCall → Uuid → Served
account_handler (create_checks codec threshold body) aid =
    run (Checks.create codec threshold aid body)
account_handler (list_checks codec q) aid = run (Checks.list codec aid q)
account_handler (get_check codec id expand) aid = run (Checks.get codec aid id expand)
account_handler (cancel_check codec id) aid = run (Checks.cancel codec aid id)
account_handler (list_nodes threshold) aid = run (Nodes.list threshold)
account_handler (get_node threshold nid) aid = run (Nodes.get threshold nid)
account_handler (server_ping probes order body) aid =
    probe_only (ServerPing.server_ping probes order) body
account_handler (server_upgrade_scan check body) aid =
    probe_only (ServerPing.server_upgrade_scan check) body

-- The group behind `RequireAdminToken`.
pub data OperatorCall : Type 0 where
  create_node : (List ℕ → String) → ℕ → Nodes.Token → Body Nodes.CreateNodeRequest → OperatorCall
  update_node : ℕ → Option Uuid → Body (Option Bool) → OperatorCall
  create_account : Body String → OperatorCall
  list_accounts : OperatorCall
  create_key :
      (List ℕ → String)
      → Nodes.Token
      → Option Uuid
      → Option (Body Accounts.CreateKeyRequest)
      → OperatorCall
  list_keys : Option Uuid → OperatorCall
  revoke_key : Option Uuid → OperatorCall

unfoldable pub operator_handler : OperatorCall → Served
operator_handler (create_node hash threshold token body) =
    run (Nodes.create hash threshold token body)
operator_handler (update_node threshold nid body) = run (Nodes.update threshold nid body)
operator_handler (create_account body) = run (Accounts.create body)
operator_handler list_accounts = run Accounts.list
operator_handler (create_key hash token aid body) = run (Accounts.create_key hash token aid body)
operator_handler (list_keys aid) = run (Accounts.list_keys aid)
operator_handler (revoke_key kid) = run (Accounts.revoke_key kid)

-- The group behind `RequireNodeSecret`.
pub data NodeCall : Type 0 where
  poll : (Uuid → Bool) → ℤ → Option (Body Agent.PollRequest) → NodeCall
  results : Body (List Agent.ResultSubmission) → NodeCall

unfoldable pub node_handler : NodeCall → Uuid → Served
node_handler (poll locked limit body) nid = run (Agent.poll locked limit nid body)
node_handler (results body) nid = run (Agent.results nid body)

pub data Call : Type 0 where
  for_account : AccountCall → Call
  for_operator : OperatorCall → Call
  for_node : NodeCall → Call

module _ (hash_token : List ℕ → String) (admin : List ℕ) where
  -- The router of `main`, on a request with this `Authorization` header.
  unfoldable pub serve : Call → List ℕ → Served
  serve (for_account c) header w = next (account_handler c) (require_api_key hash_token header w)
  serve (for_operator c) header w =
      next (λ _. operator_handler c) (require_admin_token admin header, w)
  serve (for_node c) header w = next (node_handler c) (require_node_secret hash_token header w)
