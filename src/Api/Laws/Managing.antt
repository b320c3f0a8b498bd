-- ===== src/Api/Laws/Managing.antt =====
-- internal/api/public/nodes.go: the operator's handlers against the invariant of the tables.
use pingachock.Api.Nodes
use pingachock.Store.Models.{Uuid, Node}
use pingachock.Store.Nodes.{
  has_virtual, node_ids, real_node, scan_node, insert_node, create_node, set_node_blocked, get_node,
}
use pingachock.Base.{
  ◌&&◌, inr, ◌||◌, inl, is_empty_str, refl, ◌==◌, none, member, find_where, Bool-cases, some, Bool,
  String, Option, List, ℕ,
}
use pingachock.Store.Db.{Db}
use pingachock.Store.Triple.{Keeps, SqlPost}
use pingachock.Api.Laws.{KeepsH-call, Keeps-other_table, SameWork, KeepsH}
use pingachock.Api.{internal, call, not_found_or_internal, decoded, malformed, Body}
use pingachock.Store.Lifecycle.{IsValid}

insert_node-SameWork : (n : Node) (d : Db) → SqlPost (λ _. SameWork d) (insert_node n d)
insert_node-SameWork n d =
    elim (Bool-cases (member n.id (node_ids d.nodes) || (n.is_virtual && has_virtual d.nodes))) [
      | inl taken ↦ rw taken tt
      | inr free ↦ rw free (refl, refl)
    ]

scan_node-SameWork : (d : Db) (o : Option Node) → SqlPost (λ _. SameWork d) (scan_node d o)
scan_node-SameWork d none = tt
scan_node-SameWork d (some n) = (refl, refl)

create_node-Keeps : (name isp city hash : String) → Keeps IsValid (create_node name isp city hash)
unfolding create_node
create_node-Keeps name isp city hash =
    Keeps-other_table _ (λ u now d. insert_node-SameWork (real_node name isp city hash u now) d)

get_node-Keeps : (nid : Uuid) → Keeps IsValid (get_node nid)
unfolding get_node
get_node-Keeps nid =
    Keeps-other_table _ (λ u now d. scan_node-SameWork d (find_where (λ n. n.id == nid) d.nodes))

set_node_blocked-Keeps : (nid : Uuid) (b : Bool) → Keeps IsValid (set_node_blocked nid b)
unfolding set_node_blocked
set_node_blocked-Keeps nid b = Keeps-other_table _ (λ u now d.
    elim (Bool-cases (member nid (node_ids d.nodes))) [
      | inl there ↦ rw there (refl, refl)
      | inr missing ↦ rw missing tt
    ])

create_with-KeepsH :
    (hash : List ℕ → String) (threshold : ℕ) (q : Nodes.CreateNodeRequest) (token : Nodes.Token)
    → KeepsH IsValid (Nodes.create_with hash threshold q token)
unfolding Nodes.create_with Nodes.reply_created
create_with-KeepsH hash threshold q none = λ w v. v
create_with-KeepsH hash threshold q (some secret) =
    KeepsH-call IsValid _ _ _ (create_node-Keeps q.name q.isp q.city (hash secret)) (λ n w v. v)

-- Adding a node keeps the invariant.
pub create_node-IsValid :
    (hash : List ℕ → String) (threshold : ℕ) (token : Nodes.Token)
    (body : Body Nodes.CreateNodeRequest)
    → KeepsH IsValid (Nodes.create hash threshold token body)
unfolding Nodes.create
create_node-IsValid hash threshold token (malformed e) = λ w v. v
create_node-IsValid hash threshold token (decoded q) = elim (Bool-cases (is_empty_str q.name)) [
  | inl nameless ↦ rw nameless (λ w v. v)
  | inr named ↦ rw named (create_with-KeepsH hash threshold q token)
]

reply_node-KeepsH : (threshold : ℕ) (n : Node) → KeepsH IsValid (Nodes.reply_node 200 threshold n)
unfolding Nodes.reply_node
reply_node-KeepsH threshold n = λ w v. v

reply_updated-KeepsH :
    (threshold : ℕ) (nid : Uuid)
    → KeepsH IsValid (call (get_node nid) (internal "") (Nodes.reply_node 200 threshold))
reply_updated-KeepsH threshold nid =
    KeepsH-call IsValid (get_node nid) (internal "") (Nodes.reply_node 200 threshold)
      (get_node-Keeps nid) (reply_node-KeepsH threshold)

update_with-KeepsH :
    (threshold : ℕ) (nid : Uuid) (b : Option Bool)
    → KeepsH IsValid (Nodes.update_with threshold nid b)
unfolding Nodes.update_with
update_with-KeepsH threshold nid none = λ w v. v
update_with-KeepsH threshold nid (some b) =
    KeepsH-call IsValid (set_node_blocked nid b) (not_found_or_internal "node not found")
      (λ _. call (get_node nid) (internal "") (Nodes.reply_node 200 threshold))
      (set_node_blocked-Keeps nid b) (λ _. reply_updated-KeepsH threshold nid)

-- Blocking a node keeps the invariant.
pub update_node-IsValid :
    (threshold : ℕ) (nid : Option Uuid) (body : Body (Option Bool))
    → KeepsH IsValid (Nodes.update threshold nid body)
unfolding Nodes.update
update_node-IsValid threshold none body = λ w v. v
update_node-IsValid threshold (some nid) (malformed e) = λ w v. v
update_node-IsValid threshold (some nid) (decoded b) = update_with-KeepsH threshold nid b
