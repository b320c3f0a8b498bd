-- ===== src/Api/Nodes.antt =====
-- internal/api/public/nodes.go: listing nodes, and the operator's endpoints that add and block them.
use pingachock.Store.Models.{is_online, Node, Uuid, Time}
use pingachock.Base.{none, some, is_empty_str, if◌then◌else◌, map, Bool, Option, ℕ, List, String}
use pingachock.Api.{
  not_found_or_internal, internal, text, fail, call, json, with_body, answer, Body, H,
}
use pingachock.Store.Nodes.{get_node, set_node_blocked, create_node, list_nodes}

pub record NodeResponse : Type 0 where
  pub id : Uuid
  pub name : String
  pub isp : String
  pub city : String
  pub country : String
  pub agent_version : String
  pub platform : String
  pub online : Bool
  pub blocked : Bool
  pub is_virtual : Bool
  pub last_seen_at : Option Time
  pub tags : List String
  pub created_at : Time

-- `toNodeResponse`
abbrev pub to_node_response : Time → ℕ → Node → NodeResponse
to_node_response now threshold n = record {
  id = n.id;
  name = n.name;
  isp = n.isp;
  city = n.city;
  country = n.country;
  agent_version = n.agent_version;
  platform = n.platform;
  online = is_online now threshold n;
  blocked = n.blocked;
  is_virtual = n.is_virtual;
  last_seen_at = n.last_heartbeat_at;
  tags = n.tags;
  created_at = n.created_at;
}

unfoldable pub reply_node : ℕ → ℕ → Node → H NodeResponse
reply_node status threshold n w = (json status (to_node_response w.now threshold n), w)

unfoldable pub reply_nodes : ℕ → List Node → H (List NodeResponse)
reply_nodes threshold ns w = (json 200 (map (to_node_response w.now threshold) ns), w)

-- `Handler.ListNodes`
unfoldable pub list : ℕ → H (List NodeResponse)
unfolding reply_nodes
list threshold = call list_nodes (internal "") (reply_nodes threshold)

-- `Handler.GetNode`; `none` is an id that is no uuid.
unfoldable pub get : ℕ → Option Uuid → H NodeResponse
unfolding reply_node
get threshold none = answer (fail 400 (text "invalid id"))
get threshold (some nid) =
    call (get_node nid) (not_found_or_internal "node not found") (reply_node 200 threshold)

pub record CreateNodeRequest : Type 0 where
  pub name : String
  pub isp : String
  pub city : String

-- `GenerateToken`: what the random source gives, or its failure.
abbrev pub Token : Type 0
Token = Option (List ℕ)

unfoldable pub reply_created : ℕ → List ℕ → Node → H (NodeResponse × List ℕ)
reply_created threshold secret n w = (json 201 (to_node_response w.now threshold n, secret), w)

unfoldable pub create_with :
    (List ℕ → String) → ℕ → CreateNodeRequest → Token → H (NodeResponse × List ℕ)
unfolding reply_created
create_with hash_token threshold q none = answer (fail 500 (text "generate token"))
create_with hash_token threshold q (some secret) =
    call (create_node q.name q.isp q.city (hash_token secret)) (internal "")
      (reply_created threshold secret)

-- `Handler.CreateNode`: only the hash of the secret is stored.
unfoldable pub create :
    (List ℕ → String) → ℕ → Token → Body CreateNodeRequest → H (NodeResponse × List ℕ)
unfolding create_with
create hash_token threshold token body = with_body body (λ q.
    if is_empty_str q.name
    then answer (fail 400 (text "name is required"))
    else create_with hash_token threshold q token)

unfoldable pub update_with : ℕ → Uuid → Option Bool → H NodeResponse
unfolding reply_node
update_with threshold nid none = answer (fail 400 (text "blocked is required"))
update_with threshold nid (some b) =
    call (set_node_blocked nid b) (not_found_or_internal "node not found")
      (λ _. call (get_node nid) (internal "") (reply_node 200 threshold))

-- `Handler.UpdateNode`
unfoldable pub update : ℕ → Option Uuid → Body (Option Bool) → H NodeResponse
unfolding update_with
update threshold none body = answer (fail 400 (text "invalid id"))
update threshold (some nid) body = with_body body (update_with threshold nid)
