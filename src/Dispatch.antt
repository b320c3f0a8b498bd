-- ===== src/Dispatch.antt =====
-- internal/dispatch/dispatch.go: a node selector turned into the nodes that a check runs on.
pub mod Laws
use pingachock.Base.{
  find_last, join_str, reverse, select, ◌&&◌, none, ◌==◌, true, some, map, [], if◌then◌else◌, ◌||◌,
  find_where, ◌++◌, not, false, Option, ℕ, ◌∷◌, List, Bool, String,
}
use pingachock.Store.Models.{is_online, Node, Time, Uuid}
use pingachock.Store.Db.{empty_selector, throw, pure, ◌>>=◌, ok, M}
use pingachock.Store.Nodes.{id_of_node, list_nodes_by_any_tag, list_nodes, list_nodes_by_ids}

pub record NodeSelector : Type 0 where
  pub node_ids : List Uuid
  pub tags : List String
  pub all : Bool
  pub include_offline : Bool

-- `found[id]`: the map is filled from the rows in order, so the last row of an id stays.
abbrev pub found : List Node → Uuid → Option Node
found ns nid = find_last (λ n. n.id == nid) ns

-- The ids and the warnings that the loop has collected.
abbrev pub Resolution : Type 0
Resolution = List Uuid × List String

abbrev pub add_warning : String → Resolution → Resolution
add_warning s r = (r.0, s ∷ r.1)

abbrev pub add_id : Uuid → Resolution → Resolution
add_id i r = (i ∷ r.0, r.1)

-- `uuid_text` is `uuid.UUID.String`.
module _ (uuid_text : Uuid → String) where
  abbrev pub missing_warning : Uuid → String
  missing_warning i = join_str ("node " ∷ uuid_text i ∷ " not found" ∷ [])

  abbrev pub blocked_warning : Node → String
  blocked_warning n =
      join_str ("node " ∷ uuid_text n.id ∷ " (" ∷ n.name ∷ ") is blocked, skipped" ∷ [])

  abbrev pub offline_warning : Node → String
  offline_warning n = join_str (
      "node "
      ∷ uuid_text n.id
      ∷ " ("
      ∷ n.name
      ∷ ") is currently offline, run will wait for it to reconnect"
      ∷ [])

  -- One round of the loop over `sel.NodeIDs`, put before what the later rounds add.
  unfoldable pub choose_named : Bool → Uuid → Option Node → Resolution → Resolution
  choose_named up i none r = add_warning (missing_warning i) r
  choose_named up i (some n) r =
      if n.blocked
      then add_warning (blocked_warning n) r
      else if up
      then add_id i r
      else add_id i (add_warning (offline_warning n) r)

  abbrev pub found_online : Time → ℕ → Option Node → Bool
  found_online now threshold none = false
  found_online now threshold (some n) = is_online now threshold n

  -- The loop over `sel.NodeIDs`.
  unfoldable pub resolve_named : Time → ℕ → List Node → List Uuid → Resolution
  unfolding choose_named
  resolve_named now threshold ns [] = ([], [])
  resolve_named now threshold ns (i ∷ ids) =
      choose_named (found_online now threshold (found ns i)) i (found ns i)
        (resolve_named now threshold ns ids)

abbrev pub is_available : Bool → Time → ℕ → Node → Bool
is_available include_offline now threshold n =
    not (n.blocked || n.is_virtual) && (include_offline || is_online now threshold n)

-- `filterAvailable`
unfoldable pub filter_available : List Node → Bool → Time → ℕ → List Uuid
filter_available ns include_offline now threshold =
    map id_of_node (select (is_available include_offline now threshold) ns)

abbrev pub has_items {ℓ} : {A : Type ℓ} → List A → Bool
has_items [] = false
has_items (_ ∷ _) = true

-- The clock that `time.Since` reads.
abbrev pub get_now : M Time
get_now w = (ok w.now, w)

-- The selector has neither ids, nor `all`, nor tags.
abbrev pub is_empty_selector : NodeSelector → Bool
is_empty_selector sel = not (has_items sel.node_ids || sel.all || has_items sel.tags)

unfoldable pub available_of : Bool → ℕ → List Node → M Resolution
available_of include_offline threshold ns = do
  now ← get_now
  pure (filter_available ns include_offline now threshold, [])

unfoldable pub named_of : (Uuid → String) → ℕ → List Uuid → List Node → M Resolution
named_of uuid_text threshold ids ns = do
  now ← get_now
  pure (resolve_named uuid_text now threshold ns ids)

-- `Resolve`
unfoldable pub resolve : (Uuid → String) → NodeSelector → ℕ → M Resolution
unfolding available_of named_of
resolve uuid_text sel threshold =
    if has_items sel.node_ids
    then list_nodes_by_ids sel.node_ids >>= named_of uuid_text threshold sel.node_ids
    else if sel.all
    then list_nodes >>= available_of sel.include_offline threshold
    else if has_items sel.tags
    then list_nodes_by_any_tag sel.tags >>= available_of sel.include_offline threshold
    else throw empty_selector
