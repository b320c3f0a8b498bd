-- ===== src/Server/Routes/Laws.antt =====
-- Who gets past the groups of routes in cmd/server/main.go, and what the others leave behind.
use pingachock.Base.{
  true, any_where, ◌++◌, inl, codes, refl, none, inr, some, ◌⊎◌, ◌≡◌, Option, String, ℕ, List,
}
use pingachock.Store.Accounts.{scan_api_key, get_api_key_by_hash}
use pingachock.Store.Nodes.{scan_node, get_node_by_secret_hash}
use pingachock.Store.Db.{err, ok, Outcome, World, Db}
use pingachock.Server.Routes.{
  for_account, node_handler, for_node, operator_handler, for_operator, account_handler, Call, serve,
  Served, next,
}
use pingachock.Auth.{
  require_admin_token, bearer_token, passed, refused, Verdict, require_node_secret, require_api_key,
  check_node_token, check_node, check_key_token, check_key,
}
use pingachock.Store.Models.{Uuid, ApiKey, Node}
use pingachock.Store.Triple.{SqlPost, Keeps-stmt}
use pingachock.Auth.Laws.{require_admin_token_iff, HasKey, require_api_key-passed}
use pingachock.Auth.NodeLaws.{is_node_of, require_node_secret-passed}

-- The middleware let `a` pass and the handler answered; or it answered 401 in the world it left.
next-cases :
    {A : Type 0} (k : A → Served) (r : Verdict A × World)
    → ((a : A) × (r.0 ≡ passed a) × (next k r ≡ k a r.1))
      ⊎ ((next k r ≡ (401, r.1)) × ((msg : String) × (r.0 ≡ refused msg)))
unfolding next
next-cases k (refused msg, w) = inr (refl, (msg, refl))
next-cases k (passed a, w) = inl (a, refl, refl)

same_tables-key :
    (d0 d : Db) (o : Option ApiKey) → d ≡ d0 → SqlPost (λ _ x. x ≡ d0) (scan_api_key d o)
same_tables-key d0 d none e = tt
same_tables-key d0 d (some k) e = e

same_tables-node : (d0 d : Db) (o : Option Node) → d ≡ d0 → SqlPost (λ _ x. x ≡ d0) (scan_node d o)
same_tables-node d0 d none e = tt
same_tables-node d0 d (some n) e = e

get_api_key_by_hash-reads : (hash : String) (w : World) → (get_api_key_by_hash hash w).1.db ≡ w.db
unfolding get_api_key_by_hash
get_api_key_by_hash-reads hash w =
    Keeps-stmt (λ d. d ≡ w.db) _ (λ u now d e. same_tables-key w.db d _ e) w refl

get_node_by_secret_hash-reads :
    (hash : String) (w : World) → (get_node_by_secret_hash hash w).1.db ≡ w.db
unfolding get_node_by_secret_hash
get_node_by_secret_hash-reads hash w =
    Keeps-stmt (λ d. d ≡ w.db) _ (λ u now d e. same_tables-node w.db d _ e) w refl

module _ (hash_token : List ℕ → String) where
  check_key-refused :
      (r : Outcome ApiKey × World) (msg : String)
      → (check_key hash_token r).0 ≡ refused msg
      → (check_key hash_token r).1 ≡ r.1
  unfolding check_key
  check_key-refused (ok k, w) msg h = absurd cc
  check_key-refused (err e, w) msg h = refl

  check_key_token-refused :
      (o : Option (List ℕ)) (msg : String) (w : World)
      → (check_key_token hash_token o w).0 ≡ refused msg
      → (check_key_token hash_token o w).1.db ≡ w.db
  unfolding check_key_token
  check_key_token-refused none msg w h = refl
  check_key_token-refused (some t) msg w h =
      rw (check_key-refused (get_api_key_by_hash (hash_token t) w) msg h)
        (get_api_key_by_hash-reads (hash_token t) w)

  check_node-world : (r : Outcome Node × World) → (check_node hash_token r).1 ≡ r.1
  unfolding check_node
  check_node-world (ok n, w) = refl
  check_node-world (err e, w) = refl

  check_node_token-reads :
      (o : Option (List ℕ)) (w : World) → (check_node_token hash_token o w).1.db ≡ w.db
  unfolding check_node_token
  check_node_token-reads none w = refl
  check_node_token-reads (some t) w =
      rw (check_node-world (get_node_by_secret_hash (hash_token t) w))
        (get_node_by_secret_hash-reads (hash_token t) w)

  require_api_key-refused :
      (header : List ℕ) (msg : String) (w : World)
      → (require_api_key hash_token header w).0 ≡ refused msg
      → (require_api_key hash_token header w).1.db ≡ w.db
  unfolding require_api_key
  require_api_key-refused header msg w h = check_key_token-refused (bearer_token header) msg w h

  require_node_secret-reads :
      (header : List ℕ) (w : World) → (require_node_secret hash_token header w).1.db ≡ w.db
  unfolding require_node_secret
  require_node_secret-reads header w = check_node_token-reads (bearer_token header) w

  module _ (admin : List ℕ) where
    -- The header carries a token that lets its bearer make this call, and `r` is the answer of the
    -- call's handler, run for the account or the node whose token it is, after the middleware.
    unfoldable pub IsServed : World → Call → List ℕ → ℕ × World → Type 0
    IsServed w (for_account c) header r =
        (aid : Uuid) × (r ≡ account_handler c aid (require_api_key hash_token header w).1)
        × ((t : List ℕ) × (header ≡ codes "Bearer " ++ t) × HasKey hash_token aid w.db t)
    IsServed w (for_operator c) header r =
        (r ≡ operator_handler c w) × (header ≡ codes "Bearer " ++ admin)
    IsServed w (for_node c) header r =
        (nid : Uuid) × (r ≡ node_handler c nid (require_node_secret hash_token header w).1)
        × ((t : List ℕ) × (header ≡ codes "Bearer " ++ t)
            × (any_where (is_node_of (hash_token t) nid) w.db.nodes ≡ true))

    -- The answer is 401, and the tables are as they were.
    abbrev pub IsTurnedAway : World → ℕ × World → Type 0
    IsTurnedAway w r = (r.0 ≡ 401) × (r.1.db ≡ w.db)

    -- A request to a route under /api/v1 reaches its handler only with a token for the route's own group: a key
    -- of an account that is not revoked, the operator's token, or a node's secret, and then the handler
    -- runs as this account or this node. Any other request is answered with 401 and leaves the tables
    -- as they were.
    pub serve-IsGuarded :
        (c : Call) (header : List ℕ) (w : World)
        → IsServed w c header (serve hash_token admin c header w)
          ⊎ IsTurnedAway w (serve hash_token admin c header w)
    unfolding serve IsServed
    serve-IsGuarded (for_account c) header w =
        elim (next-cases (account_handler c) (require_api_key hash_token header w)) [
          | inl (aid, h, e) ↦ inl (aid, e, require_api_key-passed hash_token header aid w h)
          | inr (e, (msg, h)) ↦ inr (rw e refl, rw e (require_api_key-refused header msg w h))
        ]
    serve-IsGuarded (for_operator c) header w =
        elim (next-cases (λ _. operator_handler c) (require_admin_token admin header, w)) [
          | inl (a, h, e) ↦ inl (e, (require_admin_token_iff admin header).0 h)
          | inr (e, (msg, h)) ↦ inr (rw e refl, rw e refl)
        ]
    serve-IsGuarded (for_node c) header w =
        elim (next-cases (node_handler c) (require_node_secret hash_token header w)) [
          | inl (nid, h, e) ↦ inl (nid, e, require_node_secret-passed hash_token header nid w h)
          | inr (e, (msg, h)) ↦ inr (rw e refl, rw e (require_node_secret-reads header w))
        ]
