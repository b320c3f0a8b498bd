-- ===== src/Auth.antt =====
-- internal/auth: bearer tokens, and the three kinds of credentials. SHA-256 is a parameter.
pub mod Laws
pub mod NodeLaws
use pingachock.Base.{
  none, equal_codes, if◌then◌else◌, codes, cut_prefix, some, Option, ℕ, List, String,
}
use pingachock.Store.Db.{err, ok, Outcome, World}
use pingachock.Store.Models.{Node, ApiKey, Uuid}
use pingachock.Store.Nodes.{get_node_by_secret_hash}
use pingachock.Store.Accounts.{touch_api_key_last_used, get_api_key_by_hash}

-- The `Authorization` header after its prefix "Bearer ", if it has it.
unfoldable pub bearer_token : List ℕ → Option (List ℕ)
bearer_token header = cut_prefix (codes "Bearer ") header

-- What a middleware does: refuse with 401 and a message, or call the next handler.
pub data Verdict (A : Type 0) : Type 0 where
  refused : String → Verdict A
  passed : A → Verdict A

abbrev pub V : Type 0 → Type 0
V A = World → Verdict A × World

-- `HashToken`
module _ (hash_token : List ℕ → String) where
  unfoldable pub check_key : Outcome ApiKey × World → Verdict Uuid × World
  check_key (ok k, w) = (passed k.account_id, (touch_api_key_last_used k.id w).1)
  check_key (err e, w) = (refused "invalid api key", w)

  unfoldable pub check_key_token : Option (List ℕ) → V Uuid
  unfolding check_key
  check_key_token none w = (refused "missing bearer token", w)
  check_key_token (some t) w = check_key (get_api_key_by_hash (hash_token t) w)

  -- `RequireAPIKey`: the account that the key belongs to.
  unfoldable pub require_api_key : List ℕ → V Uuid
  unfolding check_key_token
  require_api_key header = check_key_token (bearer_token header)

  unfoldable pub check_node : Outcome Node × World → Verdict Uuid × World
  check_node (ok n, w) = (passed n.id, w)
  check_node (err e, w) = (refused "invalid node secret", w)

  unfoldable pub check_node_token : Option (List ℕ) → V Uuid
  unfolding check_node
  check_node_token none w = (refused "missing bearer token", w)
  check_node_token (some t) w = check_node (get_node_by_secret_hash (hash_token t) w)

  -- `RequireNodeSecret`: the node that the secret belongs to.
  unfoldable pub require_node_secret : List ℕ → V Uuid
  unfolding check_node_token
  require_node_secret header = check_node_token (bearer_token header)

unfoldable pub check_admin : List ℕ → Option (List ℕ) → Verdict (Unit {0})
check_admin admin none = refused "invalid admin token"
check_admin admin (some t) =
    if equal_codes t admin then passed tt else refused "invalid admin token"

-- `RequireAdminToken`
unfoldable pub require_admin_token : List ℕ → List ℕ → Verdict (Unit {0})
unfolding check_admin
require_admin_token admin header = check_admin admin (bearer_token header)
