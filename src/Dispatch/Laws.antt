-- ===== src/Dispatch/Laws.antt =====
-- Which nodes a selector chooses, and what it warns of.
use pingachock.Store.Models.{is_online, Node, Time, Uuid}
use pingachock.Base.{
  any_where, any_where, any_where, any_where, any_where, any_where, any_where, any_where, any_where,
  Bool-cases, any_where-sort_by, any_where, ◌∙◌, sort_by, any_where, true, any_where, any_where,
  str_eq, any_where, any_where, ◌||◌, refl, ◌&&◌, [], ◌==◌, inr, some, any_where, false, arith, All,
  inl, member, none, Option, Option-cases, ◌∷◌, not, count_where, length, select, ◌≡◌, Bool, List,
  ℕ, String,
}
use pingachock.Dispatch.{
  available_of, has_items, resolve, NodeSelector, filter_available, found, choose_named,
  resolve_named,
}
use pingachock.Store.Nodes.{node_created, has_any_tag, list_nodes_by_any_tag, list_nodes, node_ids}
use pingachock.Store.Db.{◌>>=◌, ok, stmt, next_fault, World}

abbrev pub not_blocked : Option Node → Bool
not_blocked none = false
not_blocked (some n) = not n.blocked

abbrev pub runs_now : Time → ℕ → Option Node → Bool
runs_now now threshold none = false
runs_now now threshold (some n) = not n.blocked && is_online now threshold n

module _ (uuid_text : Uuid → String) (now : Time) (threshold : ℕ) (ns : List Node) where
  -- Explicit ids: the eligible ones are chosen, all of them and in the order given, and each id that
  -- is missing, blocked or offline adds one warning.
  pub resolve_named-chooses :
      (ids : List Uuid)
      → ((resolve_named uuid_text now threshold ns ids).0
          ≡ select (λ i. not_blocked (found ns i)) ids)
        × (length (resolve_named uuid_text now threshold ns ids).1
            ≡ count_where (λ i. not (runs_now now threshold (found ns i))) ids)
  unfolding resolve_named choose_named
  resolve_named-chooses [] = (refl, refl)
  resolve_named-chooses (i ∷ ids) = elim (Option-cases (found ns i)) [
    | inl missing ↦ rw missing (ground (arith, resolve_named-chooses ids))
    | inr (n, e) ↦ rw e (ground (arith, resolve_named-chooses ids))
  ]

-- Under unique ids the row that is found is the only one.
absent_not_found :
    (i : Uuid) (ns : List Node) → member i (node_ids ns) ≡ false → All (λ n. (n.id == i) ≡ false) ns
absent_not_found i [] h = tt
absent_not_found i (n ∷ ns) h = (ground arith, absent_not_found i ns (ground arith))

found-none : (i : Uuid) (ns : List Node) → found ns i ≡ none → All (λ n. (n.id == i) ≡ false) ns
found-none i [] e = tt
found-none i (n ∷ ns) e = elim (Option-cases (found ns i)) [
  | inl later ↦ (ground arith, found-none i ns later)
  | inr (m, here) ↦ absurd (ground arith)
]

module _ (include_offline : Bool) (now : Time) (threshold : ℕ) where
  filter_available_iff :
      (i : Uuid) (ns : List Node)
      → member i (filter_available ns include_offline now threshold)
        ≡ any_where
            (λ n.
              n.id == i
              && not n.blocked
              && not n.is_virtual
              && (include_offline || is_online now threshold n))
            ns
  unfolding filter_available
  filter_available_iff i [] = refl
  filter_available_iff i (n ∷ ns) = ground (arith, filter_available_iff i ns)

any_where-select :
    (p q : Node → Bool) (ns : List Node)
    → any_where p (select q ns) ≡ any_where (λ n. p n && q n) ns
any_where-select p q [] = refl
any_where-select p q (n ∷ ns) = ground (arith, any_where-select p q ns)

any_where-same :
    (p q : Node → Bool) (ns : List Node)
    → ((n : Node) → p n ≡ q n)
    → any_where p ns ≡ any_where q ns
any_where-same p q [] h = refl
any_where-same p q (n ∷ ns) h = rw (h n, any_where-same p q ns h) refl

-- The node `i` may run a check, and the selector names all nodes or a tag of it.
abbrev pub is_wanted : NodeSelector → Time → ℕ → Uuid → Node → Bool
is_wanted sel now threshold i n =
    (n.id == i
      && not n.blocked
      && not n.is_virtual
      && (sel.include_offline || is_online now threshold n))
    && (sel.all || any_where (λ t. any_where (λ x. str_eq x t) n.tags) sel.tags)

abbrev pub AreChosen : NodeSelector → ℕ → World → List Uuid → Type 0
AreChosen sel threshold w ids =
    (i : Uuid) → member i ids ≡ any_where (is_wanted sel w.now threshold i) w.db.nodes

module _ (sel : NodeSelector) (threshold : ℕ) (w : World)
    (answers : next_fault w.faults ≡ false) where
  all_available :
      ((list_nodes >>= available_of sel.include_offline threshold) w).0
      ≡ ok (
        filter_available (sort_by node_created w.db.nodes) sel.include_offline w.now threshold,
        [],
      )
  unfolding list_nodes stmt available_of
  all_available = rw answers refl

  tagged_available :
      (tags : List String)
      → has_items tags ≡ true
      → ((list_nodes_by_any_tag tags >>= available_of sel.include_offline threshold) w).0
        ≡ ok (
          filter_available
              (select (has_any_tag tags) w.db.nodes)
              sel.include_offline
              w.now
              threshold,
          [],
        )
  unfolding list_nodes_by_any_tag stmt available_of
  tagged_available [] h = absurd cc
  tagged_available (t ∷ tags) h = rw answers refl

  all-AreChosen :
      sel.all ≡ true
      → AreChosen sel threshold w
          (filter_available (sort_by node_created w.db.nodes) sel.include_offline w.now threshold)
  all-AreChosen h i =
      filter_available_iff sel.include_offline w.now threshold i (sort_by node_created w.db.nodes)
      ∙ (any_where-sort_by node_created _ w.db.nodes
          ∙ any_where-same
              (λ n.
                n.id == i
                && not n.blocked
                && not n.is_virtual
                && (sel.include_offline || is_online w.now threshold n))
              (is_wanted sel w.now threshold i) w.db.nodes (λ n. ground (arith, h)))

  tagged-AreChosen :
      sel.all ≡ false
      → AreChosen sel threshold w (
          filter_available
            (select (has_any_tag sel.tags) w.db.nodes)
            sel.include_offline
            w.now
            threshold)
  tagged-AreChosen h i =
      filter_available_iff sel.include_offline w.now threshold i
        (select (has_any_tag sel.tags) w.db.nodes)
      ∙ (any_where-select _ (has_any_tag sel.tags) w.db.nodes
          ∙ any_where-same
              (λ n.
                (n.id == i
                  && not n.blocked
                  && not n.is_virtual
                  && (sel.include_offline || is_online w.now threshold n))
                && has_any_tag sel.tags n)
              (is_wanted sel w.now threshold i) w.db.nodes (λ n. ground (arith, h)))

  -- While the database answers, a selector without ids but with `all` or tags is resolved without a
  -- warning, to the ids of exactly the nodes that are not blocked, not the virtual node, online unless
  -- offline ones are asked for, and have one of the tags unless all are.
  pub resolve-AreChosen :
      (uuid_text : Uuid → String)
      → has_items sel.node_ids ≡ false
      → (sel.all || has_items sel.tags) ≡ true
      → (ids : List Uuid) × ((resolve uuid_text sel threshold w).0 ≡ ok (ids, []))
        × AreChosen sel threshold w ids
  unfolding resolve
  resolve-AreChosen uuid_text no_ids some_nodes = elim (Bool-cases sel.all) [
    | inl all ↦ (_, simp (no_ids, all, all_available), all-AreChosen all)
    | inr only ↦
        let tagged : has_items sel.tags ≡ true = ground (arith, only, some_nodes) in
        (_, simp (no_ids, only, tagged, tagged_available sel.tags tagged), tagged-AreChosen only)
  ]
