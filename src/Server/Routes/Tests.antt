-- ===== src/Server/Routes/Tests.antt =====
-- Requests to the routes of cmd/server/main.go, on the small backend of Server/Tests.antt.
use pingachock.Server.Routes.{Call, for_account, list_nodes, serve, next}
use pingachock.Server.Tests.{key_hash, world}
use pingachock.Auth.{bearer_token, require_api_key}
use pingachock.Server.Routes.Laws.{serve-IsGuarded, IsTurnedAway, IsServed}
use pingachock.Base.{refl, ◌≡◌, ◌⊎◌, codes}
use pingachock.Store.Accounts.{get_api_key_by_hash}
use pingachock.Store.Db.{stmt}

abbrev node_listing : Call
node_listing = for_account (list_nodes 60)

serve-IsGuarded_example :
    IsServed key_hash
      (codes "root")
      world
      node_listing
      (codes "Bearer x")
      (serve key_hash (codes "root") node_listing (codes "Bearer x") world)
    ⊎ IsTurnedAway key_hash
        (codes "root")
        world
        (serve key_hash (codes "root") node_listing (codes "Bearer x") world)
serve-IsGuarded_example =
    serve-IsGuarded key_hash (codes "root") node_listing (codes "Bearer x") world

-- The same request with the operator's token, which is no account's key here.
node_listing-401 :
    (serve (λ _. "o") (codes "root") node_listing (codes "Bearer root") world).0 ≡ 401
unfolding serve require_api_key bearer_token get_api_key_by_hash stmt next
node_listing-401 = refl
