-- ===== src/Auth/NodeLaws.antt =====
-- internal/auth/middleware.go: who gets past the check of node secrets.
-- The node `nid` has this hash of a secret.
use pingachock.Base.{
  [], inr, ==_refl, arith, inl, refl, Bool-cases, none, ◌∷◌, ◌++◌, codes, ◌==◌, true, any_where,
  some, ◌&&◌, ◌≡◌, str_eq, find_where, Option, Bool, ℕ, List, String,
}
use pingachock.Store.Nodes.{scan_node, get_node_by_secret_hash}
use pingachock.Store.Models.{Uuid, Node}
use pingachock.Store.Db.{err, ok, World, Outcome, Db}
use pingachock.Auth.{bearer_token, passed, check_node, check_node_token, require_node_secret}
use pingachock.Store.Triple.{Triple-stmt, Post, SqlPost, Triple}
use pingachock.Auth.Laws.{bearer_token_iff}

abbrev pub is_node_of : String → Uuid → Node → Bool
is_node_of hash nid n = str_eq n.secret_hash hash && n.id == nid

find_node-of :
    (hash : String) (ns : List Node) (n : Node)
    → find_where (λ x. str_eq x.secret_hash hash) ns ≡ some n
    → any_where (is_node_of hash n.id) ns ≡ true
find_node-of hash [] n e = cc
find_node-of hash (x ∷ ns) n e = elim (Bool-cases (str_eq x.secret_hash hash)) [
  | inl here ↦ ground (arith, ==_refl n.id, here, e)
  | inr there ↦ ground (arith, find_node-of hash ns n, there, e)
]

scan_node-of :
    (hash : String) (d : Db) (o : Option Node)
    → find_where (λ x. str_eq x.secret_hash hash) d.nodes ≡ o
    → SqlPost (λ n _. any_where (is_node_of hash n.id) d.nodes ≡ true) (scan_node d o)
scan_node-of hash d none e = tt
scan_node-of hash d (some n) e = find_node-of hash d.nodes n e

get_node_by_secret_hash-of :
    (hash : String) (d0 : Db)
    → Triple
        (λ d. d ≡ d0)
        (get_node_by_secret_hash hash)
        (λ n _. any_where (is_node_of hash n.id) d0.nodes ≡ true)
unfolding get_node_by_secret_hash
get_node_by_secret_hash-of hash d0 = Triple-stmt _ _ _ (λ u now d e.
    rw (← e) (scan_node-of hash d (find_where (λ x. str_eq x.secret_hash hash) d.nodes) refl))

module _ (hash_token : List ℕ → String) where
  check_node-passed :
      (Q : Node → Db → Type 0) (r : Outcome Node × World) (nid : Uuid)
      → (check_node hash_token r).0 ≡ passed nid
      → Post Q r
      → (n : Node) × Q n r.1.db × (n.id ≡ nid)
  unfolding check_node
  check_node-passed Q (ok n, w) nid h q = (n, q, cc)
  check_node-passed Q (err e, w) nid h q = absurd cc

  check_node_token-passed :
      (o : Option (List ℕ)) (nid : Uuid) (w : World)
      → (check_node_token hash_token o w).0 ≡ passed nid
      → (t : List ℕ) × (o ≡ some t) × (any_where (is_node_of (hash_token t) nid) w.db.nodes ≡ true)
  unfolding check_node_token
  check_node_token-passed none nid w h = absurd cc
  check_node_token-passed (some t) nid w h =
      let (n, q, e) =
        check_node-passed _ (get_node_by_secret_hash (hash_token t) w) nid h
          (get_node_by_secret_hash-of (hash_token t) w.db w refl) in
      (t, refl, rw (← e) q)

  -- A request gets past the node check as a node only if its header is "Bearer " and a token whose
  -- hash is the secret of this node.
  pub require_node_secret-passed :
      (header : List ℕ) (nid : Uuid) (w : World)
      → (require_node_secret hash_token header w).0 ≡ passed nid
      → (t : List ℕ) × (header ≡ codes "Bearer " ++ t)
        × (any_where (is_node_of (hash_token t) nid) w.db.nodes ≡ true)
  unfolding require_node_secret
  require_node_secret-passed header nid w h =
      let (t, e, q) = check_node_token-passed (bearer_token header) nid w h in
      (t, (bearer_token_iff header t).0 e, q)
