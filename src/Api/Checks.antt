-- ===== src/Api/Checks.antt =====
-- internal/api/public/checks.go: creating, reading, listing and cancelling checks. The texts of
-- uuids and numbers and the JSON of a selector are parameters (google/uuid, strconv, encoding/json).
use pingachock.Base.{
  true, false, ◌++◌, some, is_empty_str, str_eq, ◌∷◌, suc, none, [], if◌then◌else◌, map, Option,
  List, Bool, String, ℕ,
}
use pingachock.Store.Models.{CheckType, Json, Uuid, Check}
use pingachock.Store.Db.{◌>>◌, ◌>>=◌, pure, ok, M, Error}
use pingachock.Store.Checks.{
  get_check, cancel_check, list_checks, ListChecksFilter, set_check_warnings, create_check,
  CreateCheckParams,
}
use pingachock.Api.{
  no_content, not_found_or_internal, internal, call, json, with_error, with_body, answer, text, H,
  fail, Reply, Body,
}
use pingachock.Base.Int.{pos, ℤ}
use pingachock.Dispatch.{resolve, has_items, NodeSelector}
use pingachock.Store.Runs.{check_id, create_check_runs}
use pingachock.Store.Results.{runs_at, list_runs_for_check, list_runs_for_checks}
use pingachock.Api.CheckViews.{with_runs, CheckResponse, to_check_response}

-- `validCheckTypes`: the type that a text names.
unfoldable pub check_type_of : String → Option CheckType
check_type_of s =
    if str_eq s "ping"
    then some CheckType.ping
    else if str_eq s "tcp"
    then some CheckType.tcp
    else if str_eq s "http"
    then some CheckType.http
    else if str_eq s "dns"
    then some CheckType.dns
    else if str_eq s "tls"
    then some CheckType.tls
    else if str_eq s "traceroute"
    then some CheckType.traceroute
    else if str_eq s "upgrade"
    then some CheckType.upgrade
    else if str_eq s "vless"
    then some CheckType.vless
    else none

pub record CreateCheckRequest : Type 0 where
  pub type : String
  pub target : String
  pub targets : List String
  pub params : Json
  pub node_selector : NodeSelector
  pub callback_url : Option String

-- `targets` and, behind them, `target` if it is given.
abbrev pub all_targets : CreateCheckRequest → List String
all_targets q = if is_empty_str q.target then q.targets else q.targets ++ (q.target ∷ [])

-- The answer to a creation: one check, or a batch.
pub data Created : Type 0 where
  one_check : CheckResponse → Created
  batch : Uuid → List CheckResponse → Created

-- `uuid.New()`
abbrev pub new_uuid : M Uuid
new_uuid w = (ok (w.uuids w.drawn), record w { drawn = suc w.drawn })

-- `if len(targets) > 1 { … }`
unfoldable pub choose_batch : List String → M (Option Uuid)
choose_batch [] = pure none
choose_batch (t ∷ []) = pure none
choose_batch (t ∷ s ∷ ts) = new_uuid >>= λ u. pure (some u)

-- `if len(warnings) > 0 { … }`, which leaves the warnings in the check.
unfoldable pub add_warnings : Check → List String → M Check
add_warnings c [] = pure c
add_warnings c (x ∷ xs) = set_check_warnings c.id (x ∷ xs) >> pure (record c { warnings = x ∷ xs })

-- One round of the loop over the targets, and what follows it: three calls of the store, in no
-- common transaction.
unfoldable pub create_one :
    {B : Type 0} → CreateCheckParams → List String → List Uuid → (Check → H B) → H B
unfolding add_warnings
create_one p warnings nids k = call (create_check p) (internal "create check: ") (λ c.
    call (add_warnings c warnings) (internal "set warnings: ")
      (λ c'. call (create_check_runs c'.id nids) (internal "create check_runs: ") (λ _. k c')))

unfoldable pub create_each :
    {B : Type 0}
    → (String → CreateCheckParams)
    → List String
    → List Uuid
    → List String
    → List Check
    → (List Check → H B)
    → H B
create_each params warnings nids [] made k = k made
create_each params warnings nids (t ∷ ts) made k =
    create_one (params t) warnings nids
      (λ c. create_each params warnings nids ts (made ++ (c ∷ [])) k)

-- The loop makes at least one check, so the first clause answers nobody.
unfoldable pub created_reply : Option Uuid → List Check → Reply Created
created_reply none [] = fail 500 (text "")
created_reply none (c ∷ cs) = json 201 (one_check (to_check_response c))
created_reply (some b) cs = json 201 (batch b (map to_check_response cs))

abbrev pub resolve_failed : Error → Reply Created
resolve_failed e = fail 400 (with_error "" e)

-- What the handler asks of other packages.
pub record Codec : Type 0 where
  pub uuid_text : Uuid → String
  pub parse_uuid : String → Option Uuid
  pub atoi : String → Option ℤ
  pub selector_json : NodeSelector → Json

abbrev pub check_params :
    Codec → Uuid → CheckType → CreateCheckRequest → Option Uuid → String → CreateCheckParams
check_params codec aid ty q b target = record {
  account_id = aid;
  batch_id = b;
  type = ty;
  target = target;
  params = if is_empty_str q.params then "{}" else q.params;
  node_selector = codec.selector_json q.node_selector;
  callback_url = q.callback_url;
}

unfoldable pub create_batch :
    Codec
    → Uuid
    → CheckType
    → CreateCheckRequest
    → List Uuid
    → List String
    → Option Uuid
    → H Created
unfolding created_reply
create_batch codec aid ty q nids warnings b =
    create_each (check_params codec aid ty q b) warnings nids (all_targets q) []
      (λ cs. answer (created_reply b cs))

unfoldable pub create_on :
    Codec → Uuid → CheckType → CreateCheckRequest → List Uuid × List String → H Created
unfolding create_batch
create_on codec aid ty q ([], warnings) =
    answer (fail 422 (text "node_selector matched no available nodes"))
create_on codec aid ty q (i ∷ ids, warnings) =
    call (choose_batch (all_targets q)) (internal "")
      (create_batch codec aid ty q (i ∷ ids) warnings)

unfoldable pub create_typed : Codec → ℕ → Uuid → CreateCheckRequest → Option CheckType → H Created
unfolding create_on
create_typed codec threshold aid q none = answer (fail 400 (text "invalid type"))
create_typed codec threshold aid q (some ty) =
    if has_items (all_targets q)
    then call (resolve codec.uuid_text q.node_selector threshold) resolve_failed
        (create_on codec aid ty q)
    else answer (fail 400 (text "must specify target or targets"))

-- `Handler.CreateCheck`
unfoldable pub create : Codec → ℕ → Uuid → Body CreateCheckRequest → H Created
unfolding create_typed
create codec threshold aid body =
    with_body body (λ q. create_typed codec threshold aid q (check_type_of q.type))

-- An id in the path that is no uuid is answered with 400.
unfoldable pub with_id_param : {B : Type 0} → Option Uuid → String → (Uuid → H B) → H B
with_id_param none msg k = answer (fail 400 (text msg))
with_id_param (some i) msg k = k i

get_expanded : Bool → Check → H CheckResponse
get_expanded false c = answer (json 200 (to_check_response c))
get_expanded true c =
    call (list_runs_for_check c.id) (internal "")
      (λ rows. answer (json 200 (with_runs (to_check_response c) rows)))

-- `Handler.GetCheck`; `expand` is whether the query asks for `expand=runs`.
unfoldable pub get : Codec → Uuid → String → Bool → H CheckResponse
unfolding with_id_param get_expanded
get codec aid id expand = with_id_param (codec.parse_uuid id) "invalid id" (λ cid.
    call (get_check aid cid) (not_found_or_internal "check not found") (get_expanded expand))

-- The query of `ListChecks`, each value "" where it is not given.
pub record ListQuery : Type 0 where
  pub batch_id : String
  pub status : String
  pub limit : String
  pub offset : String
  pub expand : Bool

-- `if n, err := strconv.Atoi(l); err == nil { … }`: a text that is no number is as none.
int_or_zero : Codec → String → ℤ
int_or_zero codec s =
    if is_empty_str s then pos 0 else elim (codec.atoi s) [ none ↦ pos 0 | some n ↦ n ]

list_filter : Codec → Uuid → ListQuery → Option Uuid → ListChecksFilter
unfolding int_or_zero
list_filter codec aid q b = record {
  account_id = aid;
  batch_id = b;
  status = if is_empty_str q.status then none else some q.status;
  limit = int_or_zero codec q.limit;
  offset = int_or_zero codec q.offset;
}

-- One query for the runs of the whole page.
list_expanded : Bool → List Check → H (List CheckResponse)
list_expanded false cs = answer (json 200 (map to_check_response cs))
list_expanded true [] = answer (json 200 [])
list_expanded true (c ∷ cs) =
    call (list_runs_for_checks (map check_id (c ∷ cs))) (internal "") (λ m.
      answer (json 200 (map (λ x. with_runs (to_check_response x) (runs_at x.id m)) (c ∷ cs))))

list_with : Codec → Uuid → ListQuery → Option Uuid → H (List CheckResponse)
unfolding list_expanded list_filter
list_with codec aid q b =
    call (list_checks (list_filter codec aid q b)) (internal "") (list_expanded q.expand)

list_in_batch : Codec → Uuid → ListQuery → Option Uuid → H (List CheckResponse)
unfolding list_with
list_in_batch codec aid q none = answer (fail 400 (text "invalid batch_id"))
list_in_batch codec aid q (some b) = list_with codec aid q (some b)

-- `Handler.ListChecks`
unfoldable pub list : Codec → Uuid → ListQuery → H (List CheckResponse)
unfolding list_with list_in_batch
list codec aid q =
    if is_empty_str q.batch_id
    then list_with codec aid q none
    else list_in_batch codec aid q (codec.parse_uuid q.batch_id)

-- `Handler.CancelCheck`
unfoldable pub cancel : Codec → Uuid → String → H (Unit {0})
unfolding with_id_param
cancel codec aid id = with_id_param (codec.parse_uuid id) "invalid id" (λ cid.
    call (cancel_check aid cid) (not_found_or_internal "check not found or already finished")
      (λ _. answer no_content))
