-- ===== src/Server/Quiet.antt =====
-- The small backend of Server/Tests.antt while its database answers: a claim, a sweep and a request of a node.
use pingachock.Auth.{bearer_token, require_node_secret, passed}
use pingachock.Base.{true, any_where, ◌++◌, codes, String, refl, ◌≡◌, false, Bool, ℕ, List}
use pingachock.Store.Models.{CheckType, CheckRunJob, Uuid}
use pingachock.Store.Total.{IsQuiet}
use pingachock.Server.Tests.{berlin, small, world, ids}
use pingachock.Store.Finish.{timeout_stale_runs}
use pingachock.Store.Claim.{claim_limit, claim_queued_runs}
use pingachock.Base.Int.{pos}
use pingachock.Store.Db.{World, stmt, ok}
use pingachock.Store.Claim.Laws.{IsClaim}
use pingachock.Store.Answers.{timeout_stale_runs-succeeds, claim_queued_runs-succeeds, IsSweep}
use pingachock.Store.Nodes.{get_node_by_secret_hash}
use pingachock.Agent.Config.{zero_config, Config}
use pingachock.Agent.Transport.Laws.{transports_of-IsTakenAs, Holds, IsTakenAs}
use pingachock.Agent.Transport.{transports_of}
use pingachock.Auth.NodeLaws.{require_node_secret-passed, is_node_of}

abbrev answers : IsQuiet ids 100 world
answers = record { no_faults = refl; same_ids = refl; same_clock = refl }

abbrev nothing_locked : Uuid → Bool
nothing_locked i = false

claim_queued_runs-succeeds_example :
    (jobs : List CheckRunJob) × ((claim_queued_runs nothing_locked 2 (pos 10) world).0 ≡ ok jobs)
    × IsClaim nothing_locked 2
        (claim_limit (pos 10))
        small
        jobs
        (claim_queued_runs nothing_locked 2 (pos 10) world).1.db
claim_queued_runs-succeeds_example =
    claim_queued_runs-succeeds ids 100 nothing_locked 2 (pos 10) world answers

abbrev handed_out : CheckRunJob
handed_out = record {
  check_run_id = 5;
  check_id = 4;
  type = CheckType.dns;
  target = "example.org";
  params = "{}";
}

timeout_stale_runs-succeeds_example :
    (n : ℕ) × ((timeout_stale_runs (λ xs. xs) 20 world).0 ≡ ok n)
    × IsSweep ids 100 20 small n (timeout_stale_runs (λ xs. xs) 20 world).1.db
timeout_stale_runs-succeeds_example =
    timeout_stale_runs-succeeds ids 100 (λ xs. xs) 20 world answers

abbrev node_hash : List ℕ → String
node_hash secret = "b"

-- The agent of that node, with a fronted connection.
abbrev node_config : Config
node_config = record zero_config {
  node_secret = codes "x";
  direct_url = codes "https://backend.example.com/";
  front_domain = codes "example.com";
  front_real_host = codes "x.a.run.app";
}

abbrev looked_up : World
looked_up = (get_node_by_secret_hash "b" world).1

transports_of-IsTakenAs_example :
    IsTakenAs node_hash world (passed 2, looked_up) (transports_of node_config).0
    × Holds (IsTakenAs node_hash world (passed 2, looked_up)) (transports_of node_config).1
unfolding get_node_by_secret_hash stmt
transports_of-IsTakenAs_example =
    transports_of-IsTakenAs node_hash world node_config berlin looked_up refl

require_node_secret-passed_example :
    (t : List ℕ) × (codes "Bearer x" ≡ codes "Bearer " ++ t)
    × (any_where (is_node_of (node_hash t) 2) small.nodes ≡ true)
unfolding require_node_secret bearer_token get_node_by_secret_hash stmt
require_node_secret-passed_example =
    require_node_secret-passed node_hash (codes "Bearer x") 2 world refl
