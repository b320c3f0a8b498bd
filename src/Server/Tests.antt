-- ===== src/Server/Tests.antt =====
-- A small backend: one account, the nodes `berlin` and the backend's own, and one check with a run that
-- waits and one that is done; and the theorems about cmd/server and internal, applied to it.
use pingachock.Store.Models.{Uuid, Node, Check, CheckType, CheckStatus, CheckRun, RunStatus, ApiKey}
use pingachock.Store.Triple.{Post}
use pingachock.Store.Db.{stmt, ok, World, Db}
use pingachock.Store.Runs.{create_check_runs, queued_run}
use pingachock.Base.{
  is_empty, trim_right, trim_space, count_where, length, not, ◌↔◌, ◌++◌, select, codes, List,
  String, arith, refl, ◌≡◌, false, ◌+◌, ◌∷◌, Bool, true, none, [], some, ℕ,
}
use pingachock.Store.Finish.{Report, complete_check_run}
use pingachock.Store.Lifecycle.{IsValid}
use pingachock.Store.Claim.Laws.{claim_queued_runs-IsClaim, IsClaim}
use pingachock.Store.Claim.{claim_queued_runs, claim_limit}
use pingachock.Server.{handle-IsValid, Request, handle}
use pingachock.Store.Finish.Laws.{
  complete_check_run-accepts, complete_check_run-IsRecorded, IsRecorded,
}
use pingachock.Store.Lifecycle.Create.{create_check_runs-IsValid, IsFresh}
use pingachock.Base.Int.{pos}
use pingachock.Auth.{bearer_token, require_api_key, passed, require_admin_token}
use pingachock.Dispatch.{NodeSelector, resolve, found, resolve_named}
use pingachock.Store.Accounts.{get_api_key_by_hash}
use pingachock.Dispatch.Laws.{
  resolve-AreChosen, AreChosen, resolve_named-chooses, runs_now, not_blocked,
}
use pingachock.Auth.Laws.{require_admin_token-admits, require_api_key-passed, HasKey}

abbrev pub berlin : Node
berlin = record {
  id = 2;
  name = "berlin";
  isp = "";
  city = "Berlin";
  country = "de";
  agent_version = "";
  platform = "";
  last_heartbeat_at = some 95;
  secret_hash = "b";
  blocked = false;
  is_virtual = false;
  tags = [];
  metadata = "{}";
  created_at = 10;
}

abbrev pub own_node : Node
own_node = record berlin { id = 3; name = "server"; secret_hash = "s"; is_virtual = true }

abbrev dns_check : Check
dns_check = record {
  id = 4;
  account_id = 1;
  batch_id = none;
  type = CheckType.dns;
  target = "example.org";
  params = "{}";
  node_selector = "{}";
  callback_url = none;
  status = CheckStatus.running;
  warnings = [];
  created_at = 50;
  completed_at = none;
}

abbrev waiting_run : CheckRun
waiting_run = queued_run 4 2 5 50

abbrev done_run : CheckRun
done_run = record waiting_run {
  id = 6;
  node_id = 3;
  status = RunStatus.done;
  completed_at = some 60;
}

abbrev key : ApiKey
key = record {
  id = 7;
  account_id = 1;
  key_hash = "k";
  label = "";
  scopes = [];
  created_at = 20;
  last_used_at = none;
  revoked_at = none;
}

abbrev pub small : Db
small = record {
  accounts = record { id = 1; name = "acme"; created_at = 5 } ∷ [];
  api_keys = key ∷ [];
  nodes = berlin ∷ own_node ∷ [];
  checks = dns_check ∷ [];
  runs = waiting_run ∷ done_run ∷ [];
  results = [];
}

abbrev pub ids : ℕ → Uuid
ids n = 100 + n

abbrev pub world : World
world = record { db = small; now = 100; faults = []; uuids = ids; drawn = 0 }

-- Its status is `running`, and a run is open.
small-IsValid : IsValid small
small-IsValid = record {
  keyed = record {
    unique_runs = (refl, (refl, tt));
    unique_checks = (refl, tt);
    referenced = (refl, (refl, tt));
  };
  agreeing = (λ (h : 1 ≡ 0). omega arith, tt);
}

abbrev report : Report
report = record {
  success = true;
  latency_ms = some 12;
  status_code = none;
  error_message = none;
  raw = "{}";
}

abbrev unlocked : Uuid → Bool
unlocked _ = false

handle-IsValid_example : IsValid (handle (Request.sweep (λ xs. xs) (λ a xs. refl) 20) world).db
handle-IsValid_example =
    handle-IsValid (Request.sweep (λ xs. xs) (λ a xs. refl) 20) world small-IsValid

complete_check_run-IsRecorded_example :
    Post (λ _. IsRecorded 5 2 report small) (complete_check_run 5 2 report world)
complete_check_run-IsRecorded_example = complete_check_run-IsRecorded 5 2 report world

complete_check_run-accepts_example : (complete_check_run 5 2 report world).0 ≡ ok tt
complete_check_run-accepts_example =
    complete_check_run-accepts ids 5 2 report world
      (record { no_faults = refl; same_ids = refl; same_clock = refl }) refl (λ n. refl)

claim_queued_runs-IsClaim_example :
    Post (IsClaim unlocked 2 10 small) (claim_queued_runs unlocked 2 (pos 10) world)
unfolding claim_limit
claim_queued_runs-IsClaim_example = claim_queued_runs-IsClaim unlocked 2 (pos 10) world

-- The same with a check that has just been created.
abbrev new_db : Db
new_db = record small { checks = record dns_check { status = CheckStatus.pending } ∷ []; runs = [] }

abbrev new_world : World
new_world = record world { db = new_db }

new-IsValid : IsValid new_db
new-IsValid = record {
  keyed = record { unique_runs = tt; unique_checks = (refl, tt); referenced = tt };
  agreeing = (λ _. refl, tt);
}

create_check_runs-IsValid_example :
    IsValid (create_check_runs 4 (3 ∷ []) new_world).1.db
    × IsFresh 4 (create_check_runs 4 (3 ∷ []) new_world).1.db
create_check_runs-IsValid_example =
    create_check_runs-IsValid 4 (3 ∷ []) new_world (new-IsValid, (λ _. refl, tt))

abbrev pub uuid_name : Uuid → String
uuid_name _ = "u"

resolve_named-chooses_example :
    ((resolve_named uuid_name 100 60 (berlin ∷ []) (2 ∷ 8 ∷ [])).0
      ≡ select (λ i. not_blocked (found (berlin ∷ []) i)) (2 ∷ 8 ∷ []))
    × (length (resolve_named uuid_name 100 60 (berlin ∷ []) (2 ∷ 8 ∷ [])).1
        ≡ count_where (λ i. not (runs_now 100 60 (found (berlin ∷ []) i))) (2 ∷ 8 ∷ []))
resolve_named-chooses_example = resolve_named-chooses uuid_name 100 60 (berlin ∷ []) (2 ∷ 8 ∷ [])

abbrev everywhere : NodeSelector
everywhere = record { node_ids = []; tags = "eu" ∷ []; all = true; include_offline = false }

resolve-AreChosen_example :
    (chosen : List Uuid) × ((resolve uuid_name everywhere 60 world).0 ≡ ok (chosen, []))
    × AreChosen everywhere 60 world chosen
resolve-AreChosen_example = resolve-AreChosen everywhere 60 world refl uuid_name refl refl

require_admin_token-admits_example :
    (require_admin_token (codes "root") (codes "Bearer root") ≡ passed tt)
    ↔ ((codes "Bearer root" ≡ codes "Bearer " ++ codes "root") × (is_empty (codes "root") ≡ false))
unfolding trim_space trim_right
require_admin_token-admits_example =
    require_admin_token-admits (codes "root") (codes "Bearer root") refl

abbrev pub key_hash : List ℕ → String
key_hash _ = "k"

require_api_key-passed_example :
    (t : List ℕ) × (codes "Bearer x" ≡ codes "Bearer " ++ t) × HasKey key_hash 1 small t
unfolding require_api_key bearer_token get_api_key_by_hash stmt
require_api_key-passed_example = require_api_key-passed key_hash (codes "Bearer x") 1 world refl
