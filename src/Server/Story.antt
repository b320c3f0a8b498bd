-- ===== src/Server/Story.antt =====
-- One check from its creation to its result, as steps of the backend.
use pingachock.Api.Checks
use pingachock.Api.Agent
use pingachock.Store.Models.{Uuid}
use pingachock.Store.Lifecycle.{IsValid}
use pingachock.Server.Tests.{own_node, berlin, small, world, uuid_name}
use pingachock.Base.{refl, [], none, true, ◌∷◌, false, Bool, some}
use pingachock.Server.Outcome.{ReachedInTurn-AreDecided, AreDecided}
use pingachock.Server.{
  at_start, by_account, ReachedInTurn-IsValid, no_rows, by_request, handle, Request, ReachedInTurn,
}
use pingachock.Store.Db.{World}
use pingachock.Api.{decoded}
use pingachock.Base.Int.{pos}

abbrev first_world : World
first_world = record world { db = no_rows }

-- An account and a node are there.
abbrev set_up : World
set_up = record first_world {
  db = record no_rows { accounts = small.accounts; nodes = berlin ∷ own_node ∷ [] };
}

abbrev codec : Checks.Codec
codec = record {
  uuid_text = uuid_name;
  parse_uuid = λ s. some 4;
  atoi = λ s. none;
  selector_json = λ sel. "{}";
}

abbrev create_request : Request
create_request = Request.create_checks codec 60 1 (
    decoded (record {
      type = "dns";
      target = "example.org";
      targets = [];
      params = "";
      node_selector = record {
        node_ids = 2 ∷ 3 ∷ [];
        tags = [];
        all = false;
        include_offline = false;
      };
      callback_url = none;
    }))

abbrev submission : Uuid → Bool → Agent.ResultSubmission
submission rid success = record {
  check_run_id = rid;
  success = success;
  latency_ms = none;
  status_code = none;
  error_message = none;
  raw = "";
}

abbrev poll_request : Request
poll_request = Request.poll (λ i. false) (pos 10) 2 none

-- `berlin` has reached the target, the backend has not.
abbrev berlin_report : Request
berlin_report = Request.report 2 (decoded (submission 103 true ∷ []))

abbrev own_report : Request
own_report = Request.report 3 (decoded (submission 104 false ∷ []))

abbrev last_world : World
last_world =
    handle own_report (handle berlin_report (handle poll_request (handle create_request set_up)))

story : ReachedInTurn last_world
story = by_request own_report (
    by_request berlin_report (
      by_request poll_request
        (by_request create_request (by_account set_up (refl, refl) (at_start first_world refl)))))

ReachedInTurn-IsValid_example : IsValid last_world.db
ReachedInTurn-IsValid_example = ReachedInTurn-IsValid story

ReachedInTurn-AreDecided_example : AreDecided last_world.db
ReachedInTurn-AreDecided_example = ReachedInTurn-AreDecided story
