-- ===== src/Agent/Transport/Laws.antt =====
-- internal/transport and internal/auth: the backend takes an agent's requests as those of its node.
use pingachock.Base.{
  ◌&&◌, is_empty, not, ◌∙◌, codes, cut_prefix-append, ap, false, true, ◌≡◌, if◌then◌else◌, Bytes,
  Bool, none, some, String, ℕ, Option, List,
}
use pingachock.Agent.Transport.{new_fronted, new_direct, request_of, transports_of, HttpTransport}
use pingachock.Store.Db.{ok, World}
use pingachock.Auth.{
  passed, check_node_token, check_node, bearer_token, require_node_secret, Verdict,
}
use pingachock.Store.Models.{Node, Uuid}
use pingachock.Agent.Config.{Config}
use pingachock.Store.Nodes.{get_node_by_secret_hash}

-- What holds of a transport, where there is one.
abbrev pub Holds : (HttpTransport → Type 0) → Option HttpTransport → Type 0
Holds P none = Unit
Holds P (some t) = P t

-- The backend's check of every request of the transport gives what `v` says.
abbrev pub IsTakenAs : (List ℕ → String) → World → Verdict Uuid × World → HttpTransport → Type 0
IsTakenAs hash_token w v t =
    (path body : Bytes)
    → require_node_secret hash_token (request_of t path body).authorization w ≡ v

module _ (hash_token : List ℕ → String) (w : World) where
  secret-IsTakenAs :
      (t : HttpTransport)
      → IsTakenAs hash_token w
          (check_node hash_token (get_node_by_secret_hash (hash_token t.node_secret) w))
          t
  unfolding require_node_secret bearer_token request_of check_node_token
  secret-IsTakenAs t path body =
      ap (λ o. check_node_token hash_token o w) (cut_prefix-append (codes "Bearer ") t.node_secret)

  fronted-IsTakenAs :
      (b : Bool) (t : HttpTransport) (v : Verdict Uuid × World)
      → IsTakenAs hash_token w v t
      → Holds (IsTakenAs hash_token w v) (if b then some t else none)
  fronted-IsTakenAs true t v h = h
  fronted-IsTakenAs false t v h = tt

  -- Whichever way it is sent, every request of an agent is taken by the backend as one of the node whose
  -- secret hash is that of the configured secret.
  pub transports_of-IsTakenAs :
      (c : Config) (n : Node) (w' : World)
      → get_node_by_secret_hash (hash_token c.node_secret) w ≡ (ok n, w')
      → IsTakenAs hash_token w (passed n.id, w') (transports_of c).0
        × Holds (IsTakenAs hash_token w (passed n.id, w')) (transports_of c).1
  unfolding transports_of check_node
  transports_of-IsTakenAs c n w' known = (
    λ path body.
        secret-IsTakenAs (new_direct none c.direct_url c.node_secret) path body
        ∙ ap (check_node hash_token) known,
    fronted-IsTakenAs (not (is_empty c.front_domain) && not (is_empty c.front_real_host))
        (new_fronted none c.front_domain c.front_real_host c.node_secret) (passed n.id, w')
        (λ path body.
          secret-IsTakenAs (new_fronted none c.front_domain c.front_real_host c.node_secret) path
            body
          ∙ ap (check_node hash_token) known),
  )
