-- ===== src/Store/Nodes.antt =====
-- internal/store/nodes.go: the nodes, their heartbeat and the singleton virtual node.
use pingachock.Store.Models.{Time, Uuid, Node}
use pingachock.Base.{
  ◌++◌, ◌&&◌, [], ◌||◌, str_eq, false, member, sort_by, select, some, ◌==◌, none, if◌then◌else◌,
  any_where, ◌∷◌, find_where, true, map, Option, Bool, update_where, List, String,
}
use pingachock.Store.Db.{unique_violation, not_found, ok, err, stmt, Outcome, pure, Db, M}

abbrev pub id_of_node : Node → Uuid
id_of_node n = n.id

abbrev pub node_ids : List Node → List Uuid
node_ids = map id_of_node

-- `scanNode`: no row is ErrNotFound.
abbrev pub scan_node : Db → Option Node → Outcome (Node × Db)
scan_node d none = err not_found
scan_node d (some n) = ok (n, d)

-- What the columns hold that an INSERT does not name (migrations/0001, 0002 and 0003).
abbrev pub default_node : Uuid → Time → Node
default_node u now = record {
  id = u;
  name = "";
  isp = "";
  city = "";
  country = "TM";
  agent_version = "";
  platform = "";
  last_heartbeat_at = none;
  secret_hash = "";
  blocked = false;
  is_virtual = false;
  tags = [];
  metadata = "{}";
  created_at = now;
}

abbrev pub has_virtual : List Node → Bool
has_virtual ns = any_where (λ (n : Node). n.is_virtual) ns

-- An INSERT under the primary key and `idx_nodes_one_virtual`.
abbrev pub insert_node : Node → Db → Outcome (Node × Db)
insert_node n d =
    if member n.id (node_ids d.nodes) || (n.is_virtual && has_virtual d.nodes)
    then err unique_violation
    else ok (n, record d { nodes = d.nodes ++ (n ∷ []) })

abbrev pub real_node : String → String → String → String → Uuid → Time → Node
real_node name isp city hash u now =
    let n = default_node u now in
    record n { name = name; isp = isp; city = city; secret_hash = hash }

abbrev pub virtual_node : String → String → Uuid → Time → Node
virtual_node name hash u now =
    let n = default_node u now in
    record n {
      name = name;
      secret_hash = hash;
      platform = "server";
      country = "";
      is_virtual = true;
    }

-- `CreateNode`
unfoldable pub create_node : String → String → String → String → M Node
create_node name isp city hash =
    stmt (λ u now d. insert_node (real_node name isp city hash u now) d)

-- `GetNode`
unfoldable pub get_node : Uuid → M Node
get_node nid = stmt (λ u now d. scan_node d (find_where (λ n. n.id == nid) d.nodes))

-- `GetNodeBySecretHash`
unfoldable pub get_node_by_secret_hash : String → M Node
get_node_by_secret_hash hash =
    stmt (λ u now d. scan_node d (find_where (λ n. str_eq n.secret_hash hash) d.nodes))

abbrev pub node_created : Node → Time
node_created n = n.created_at

-- `ListNodes`
unfoldable pub list_nodes : M (List Node)
list_nodes = stmt (λ u now d. ok (sort_by node_created d.nodes, d))

-- `ListNodesByIDs`
unfoldable pub list_nodes_by_ids : List Uuid → M (List Node)
list_nodes_by_ids [] = pure []
list_nodes_by_ids (i ∷ ids) = stmt (λ u now d. ok (select (λ n. member n.id (i ∷ ids)) d.nodes, d))

abbrev pub member_str : String → List String → Bool
member_str s = any_where (λ x. str_eq x s)

-- `tags ?| $1`
abbrev pub has_any_tag : List String → Node → Bool
has_any_tag tags n = any_where (λ t. member_str t n.tags) tags

-- `ListNodesByAnyTag`
unfoldable pub list_nodes_by_any_tag : List String → M (List Node)
list_nodes_by_any_tag [] = pure []
list_nodes_by_any_tag (t ∷ tags) = stmt (λ u now d. ok (select (has_any_tag (t ∷ tags)) d.nodes, d))

-- `GetVirtualNode`
unfoldable pub get_virtual_node : M Node
get_virtual_node = stmt (λ u now d. scan_node d (find_where (λ n. n.is_virtual) d.nodes))

-- `CreateVirtualNode`
unfoldable pub create_virtual_node : String → String → M Node
create_virtual_node name hash = stmt (λ u now d. insert_node (virtual_node name hash u now) d)

abbrev pub update_node : Uuid → (Node → Node) → Db → Db
update_node nid f d = record d { nodes = update_where (λ n. n.id == nid) f d.nodes }

-- `TouchHeartbeat`
unfoldable pub touch_heartbeat : Uuid → M (Unit {0})
touch_heartbeat nid =
    stmt (λ u now d. ok (tt, update_node nid (λ n. record n { last_heartbeat_at = some now }) d))

-- `SetNodeAgentVersion`
unfoldable pub set_node_agent_version : Uuid → String → M (Unit {0})
set_node_agent_version nid v =
    stmt (λ u now d. ok (tt, update_node nid (λ n. record n { agent_version = v }) d))

-- `SetNodePlatform`
unfoldable pub set_node_platform : Uuid → String → M (Unit {0})
set_node_platform nid p =
    stmt (λ u now d. ok (tt, update_node nid (λ n. record n { platform = p }) d))

-- `SetNodeBlocked`; zero RowsAffected is ErrNotFound.
unfoldable pub set_node_blocked : Uuid → Bool → M (Unit {0})
set_node_blocked nid b = stmt (λ u now d.
    if member nid (node_ids d.nodes)
    then ok (tt, update_node nid (λ n. record n { blocked = b }) d)
    else err not_found)
