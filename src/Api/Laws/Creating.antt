-- ===== src/Api/Laws/Creating.antt =====
-- internal/api/public/checks.go: CreateCheck against the invariant of the tables.
use pingachock.Store.Checks.{
  insert_check, set_warnings, CreateCheckParams, set_check_warnings, create_check,
}
use pingachock.Api.Checks.{
  all_targets, check_type_of, create_batch, create_on, create_typed, CreateCheckRequest, create,
  Codec, choose_batch, create_each, create_one, add_warnings,
}
use pingachock.Store.Db.{World, err, ok, Outcome, Db}
use pingachock.Store.Models.{CheckType, Time, Check, Uuid}
use pingachock.Base.{
  none, inr, some, inl, Option, Bool-cases, ℕ, refl, true, ◌≡◌, ◌==◌, All-update_where, [], ◌++◌,
  ◌∷◌, String, List,
}
use pingachock.Store.Lifecycle.{Agrees, IsKeyed-update_checks, IsValid}
use pingachock.Store.Triple.{Keeps->>=, Triple->>=, Keeps-stmt, Triple-stmt, Keeps, Triple, SqlPost}
use pingachock.Store.Lifecycle.Create.{create_check_runs-IsValid, insert_check-IsValid, IsFresh}
use pingachock.Api.{malformed, decoded, Body, internal, call, H}
use pingachock.Api.Laws.{
  KeepsH-call, Keeps-other_table, KeepsH-call_with, Post-ok, after_call-Keeps, KeepsH,
}
use pingachock.Store.Runs.{is_pending, create_check_runs}
use pingachock.Dispatch.{has_items, NodeSelector, resolve}
use pingachock.Store.Nodes.{list_nodes_by_ids, list_nodes, list_nodes_by_any_tag}

SqlPost-fst :
    {A : Type 0} (Q : A → Db → Type 0) (r : Outcome (A × Db))
    → SqlPost (λ a d. IsValid d × Q a d) r
    → SqlPost (λ _. IsValid) r
SqlPost-fst Q (ok (a, d)) h = h.0
SqlPost-fst Q (err e) h = tt

abbrev IsValidFresh : Uuid → Db → Type 0
IsValidFresh cid d = IsValid d × IsFresh cid d

create_check-Keeps : (p : CreateCheckParams) → Keeps IsValid (create_check p)
unfolding create_check
create_check-Keeps p = Keeps-stmt IsValid _ (λ u now d v.
    SqlPost-fst (λ c. IsFresh c.id) (insert_check p u now d) (insert_check-IsValid p u now d v))

create_check-Triple :
    (p : CreateCheckParams) → Triple IsValid (create_check p) (λ c. IsValidFresh c.id)
unfolding create_check
create_check-Triple p = Triple-stmt IsValid _ (λ c. IsValidFresh c.id) (insert_check-IsValid p)

set_warnings-IsValidFresh :
    (fresh cid u : Uuid) (ws : List String) (now : Time) (d : Db)
    → IsValidFresh fresh d
    → SqlPost (λ _. IsValidFresh fresh) (set_warnings cid ws u now d)
set_warnings-IsValidFresh fresh cid u ws now d (v, f) = (
  record {
    keyed = IsKeyed-update_checks d _ _ (λ c. refl) v.keyed;
    agreeing =
        All-update_where (Agrees d.runs) (Agrees d.runs) _ _ d.checks (λ c t a. a) (λ c t a. a)
          v.agreeing;
  },
  All-update_where _ (λ c. (c.id == fresh) ≡ true → is_pending c.status ≡ true) _ _ d.checks
      (λ c t a. a) (λ c t a. a) f,
)

add_warnings-Keeps : (c : Check) (ws : List String) → Keeps (IsValidFresh c.id) (add_warnings c ws)
unfolding add_warnings set_check_warnings
add_warnings-Keeps c [] = λ w h. h
add_warnings-Keeps c (x ∷ xs) =
    Keeps->>= (IsValidFresh c.id) _ _
      (Keeps-stmt (IsValidFresh c.id) _
        (λ u now d. set_warnings-IsValidFresh c.id c.id u (x ∷ xs) now d))
      (λ _ w h. h)

-- The check that comes back is the one that was made.
add_warnings-id :
    (c : Check) (ws : List String)
    → Triple (IsValidFresh c.id) (add_warnings c ws) (λ c' d. IsValidFresh c'.id d)
unfolding add_warnings set_check_warnings
add_warnings-id c [] = λ w h. h
add_warnings-id c (x ∷ xs) =
    Triple->>= (IsValidFresh c.id) (λ _. IsValidFresh c.id) (λ c' d. IsValidFresh c'.id d) _ _
      (Triple-stmt _ _ _ (λ u now d. set_warnings-IsValidFresh c.id c.id u (x ∷ xs) now d))
      (λ _ w h. h)

module _ {B : Type 0} where
  create_one-KeepsH :
      (p : CreateCheckParams) (ws : List String) (nids : List Uuid) (k : Check → H B)
      → ((c : Check) → KeepsH IsValid (k c))
      → KeepsH IsValid (create_one p ws nids k)
  unfolding create_one
  create_one-KeepsH p ws nids k h =
      KeepsH-call_with IsValid (λ c. IsValidFresh c.id) _ _ _ (create_check-Keeps p)
        (create_check-Triple p) (λ c w v fresh. warned c w fresh)
    where
      run_it :
          (c' : Check) (w : World)
          → IsValidFresh c'.id w.db
          → IsValid
              ((call (create_check_runs c'.id nids) (internal "create check_runs: ") (λ _. k c'))
                w).1.db
      run_it c' w fresh =
          after_call-Keeps IsValid (create_check_runs c'.id nids w) _ _
            (create_check_runs-IsValid c'.id nids w fresh).0
            (λ a e. h c' _ (create_check_runs-IsValid c'.id nids w fresh).0)

      warned :
          (c : Check) (w : World)
          → IsValidFresh c.id w.db
          → IsValid
              ((call (add_warnings c ws) (internal "set warnings: ") (λ c'.
                  call (create_check_runs c'.id nids) (internal "create check_runs: ") (λ _. k c')))
                w).1.db
      warned c w fresh =
          after_call-Keeps IsValid (add_warnings c ws w) _ _ (add_warnings-Keeps c ws w fresh).0
            (λ c' e. run_it c' _ (
              Post-ok (λ x. IsValidFresh x.id) (add_warnings c ws w) c' e
                (add_warnings-id c ws w fresh)))

  create_each-KeepsH :
      (params : String → CreateCheckParams) (ws : List String) (nids : List Uuid) (ts : List String)
      (made : List Check) (k : List Check → H B)
      → ((cs : List Check) → KeepsH IsValid (k cs))
      → KeepsH IsValid (create_each params ws nids ts made k)
  unfolding create_each
  create_each-KeepsH params ws nids [] made k h = h made
  create_each-KeepsH params ws nids (t ∷ ts) made k h =
      create_one-KeepsH (params t) ws nids _
        (λ c. create_each-KeepsH params ws nids ts (made ++ (c ∷ [])) k h)

list_nodes-Keeps : Keeps IsValid list_nodes
unfolding list_nodes
list_nodes-Keeps = Keeps-other_table _ (λ u now d. (refl, refl))

list_nodes_by_ids-Keeps : (ids : List Uuid) → Keeps IsValid (list_nodes_by_ids ids)
unfolding list_nodes_by_ids
list_nodes_by_ids-Keeps [] = λ w v. v
list_nodes_by_ids-Keeps (i ∷ ids) = Keeps-other_table _ (λ u now d. (refl, refl))

list_nodes_by_any_tag-Keeps : (tags : List String) → Keeps IsValid (list_nodes_by_any_tag tags)
unfolding list_nodes_by_any_tag
list_nodes_by_any_tag-Keeps [] = λ w v. v
list_nodes_by_any_tag-Keeps (t ∷ tags) = Keeps-other_table _ (λ u now d. (refl, refl))

resolve-Keeps :
    (uuid_text : Uuid → String) (sel : NodeSelector) (threshold : ℕ)
    → Keeps IsValid (resolve uuid_text sel threshold)
unfolding resolve
resolve-Keeps uuid_text sel threshold = elim (Bool-cases (has_items sel.node_ids)) [
  | inl named ↦
      rw named (Keeps->>= IsValid _ _ (list_nodes_by_ids-Keeps sel.node_ids) (λ ns w v. v))
  | inr other ↦ elim (Bool-cases sel.all) [
    | inl every ↦ rw (other, every) (Keeps->>= IsValid _ _ list_nodes-Keeps (λ ns w v. v))
    | inr some_only ↦ elim (Bool-cases (has_items sel.tags)) [
      | inl tagged ↦
          rw (other, some_only, tagged)
            (Keeps->>= IsValid _ _ (list_nodes_by_any_tag-Keeps sel.tags) (λ ns w v. v))
      | inr nothing ↦ rw (other, some_only, nothing) (λ w v. v)
    ]
  ]
]

choose_batch-Keeps : (ts : List String) → Keeps IsValid (choose_batch ts)
unfolding choose_batch
choose_batch-Keeps [] = λ w v. v
choose_batch-Keeps (t ∷ []) = λ w v. v
choose_batch-Keeps (t ∷ s ∷ ts) = λ w v. v

module _ (codec : Codec) (aid : Uuid) (q : CreateCheckRequest) where
  create_on-KeepsH :
      (ty : CheckType) (r : List Uuid × List String) → KeepsH IsValid (create_on codec aid ty q r)
  unfolding create_on create_batch
  create_on-KeepsH ty ([], ws) = λ w v. v
  create_on-KeepsH ty (i ∷ ids, ws) =
      KeepsH-call IsValid _ _ _ (choose_batch-Keeps (all_targets q))
        (λ b. create_each-KeepsH _ ws (i ∷ ids) (all_targets q) [] _ (λ cs w v. v))

  create_typed-KeepsH :
      (threshold : ℕ) (ty : Option CheckType)
      → KeepsH IsValid (create_typed codec threshold aid q ty)
  unfolding create_typed
  create_typed-KeepsH threshold none = λ w v. v
  create_typed-KeepsH threshold (some ty) = elim (Bool-cases (has_items (all_targets q))) [
    | inl targets ↦ rw targets (
        KeepsH-call IsValid _ _ _ (resolve-Keeps codec.uuid_text q.node_selector threshold)
          (create_on-KeepsH ty))
    | inr nothing ↦ rw nothing (λ w v. v)
  ]

-- A request to create checks keeps the invariant, whatever it asks for and wherever it fails.
pub create-IsValid :
    (codec : Codec) (threshold : ℕ) (aid : Uuid) (body : Body CreateCheckRequest)
    → KeepsH IsValid (create codec threshold aid body)
unfolding create
create-IsValid codec threshold aid (decoded q) =
    create_typed-KeepsH codec aid q threshold (check_type_of q.type)
create-IsValid codec threshold aid (malformed e) = λ w v. v
