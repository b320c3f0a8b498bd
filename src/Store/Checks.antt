-- ===== src/Store/Checks.antt =====
-- internal/store/checks.go: creating, reading, listing and cancelling checks.
use pingachock.Base.{
  select, sort_by, ◌∷◌, reverse, ◌++◌, not, drop, none, find_where, [], update_where, false, ◌||◌,
  take, some, member, ℕ, any_where, ◌&&◌, List, if◌then◌else◌, str_eq, true, ◌==◌, Option, Bool,
  String,
}
use pingachock.Store.Db.{
  unique_violation, db_error, not_found, err, ◌>>◌, transaction, Outcome, stmt, ok, M, Db, Sql,
}
use pingachock.Store.Models.{
  RunStatus, Account, Json, CheckType, Time, CheckRun, Uuid, Check, CheckStatus,
}
use pingachock.Base.Int.{is_negative, to_nat, exceeds, not_positive, ℤ}
use pingachock.Store.Runs.{check_ids, is_open}
use pingachock.Store.Finish.{finish_check, finish_run}

pub record CreateCheckParams : Type 0 where
  pub account_id : Uuid
  pub batch_id : Option Uuid
  pub type : CheckType
  pub target : String
  pub params : Json
  pub node_selector : Json
  pub callback_url : Option String

abbrev pub has_account : Db → Uuid → Bool
has_account d aid = any_where (λ (a : Account). a.id == aid) d.accounts

abbrev pub new_check : CreateCheckParams → Uuid → Time → Check
new_check p u now = record {
  id = u;
  account_id = p.account_id;
  batch_id = p.batch_id;
  type = p.type;
  target = p.target;
  params = p.params;
  node_selector = p.node_selector;
  callback_url = p.callback_url;
  status = CheckStatus.pending;
  warnings = [];
  created_at = now;
  completed_at = none;
}

-- `INSERT INTO checks … RETURNING …`, with the primary key and the reference to the account.
abbrev pub insert_check : CreateCheckParams → Sql Check
insert_check p u now d =
    if member u (check_ids d.checks)
    then err unique_violation
    else if has_account d p.account_id
    then ok (new_check p u now, record d { checks = d.checks ++ (new_check p u now ∷ []) })
    else err db_error

-- `CreateCheck`
unfoldable pub create_check : CreateCheckParams → M Check
create_check p = stmt (insert_check p)

-- `scanCheck`: no row is ErrNotFound.
abbrev pub scan_check : Db → Option Check → Outcome (Check × Db)
scan_check d none = err not_found
scan_check d (some c) = ok (c, d)

abbrev pub is_check_of : Uuid → Uuid → Check → Bool
is_check_of aid cid c = c.id == cid && c.account_id == aid

-- `GetCheck`
unfoldable pub get_check : Uuid → Uuid → M Check
get_check aid cid = stmt (λ u now d. scan_check d (find_where (is_check_of aid cid) d.checks))

-- The filter of `ListChecks`; a status is text until the database reads it as an enum value.
pub record ListChecksFilter : Type 0 where
  pub account_id : Uuid
  pub batch_id : Option Uuid
  pub status : Option String
  pub limit : ℤ
  pub offset : ℤ

-- `if limit <= 0 || limit > 200 { limit = 50 }`
unfoldable pub list_limit : ℤ → ℕ
list_limit n = if not_positive n then 50 else if exceeds n 200 then 50 else to_nat n

unfoldable pub status_text : CheckStatus → String
status_text CheckStatus.pending = "pending"
status_text CheckStatus.running = "running"
status_text CheckStatus.completed = "completed"
status_text CheckStatus.partial = "partial"
status_text CheckStatus.failed = "failed"
status_text CheckStatus.cancelled = "cancelled"

abbrev pub is_status : String → Bool
is_status s =
    str_eq s "pending"
    || str_eq s "running"
    || str_eq s "completed"
    || str_eq s "partial"
    || str_eq s "failed"
    || str_eq s "cancelled"

abbrev pub matches_batch : Option Uuid → Check → Bool
matches_batch none c = true
matches_batch (some b) c = elim c.batch_id [ none ↦ false | some x ↦ x == b ]

abbrev pub matches_status : Option String → Check → Bool
matches_status none c = true
matches_status (some s) c = str_eq (status_text c.status) s

abbrev pub matches_filter : ListChecksFilter → Check → Bool
matches_filter f c =
    c.account_id == f.account_id && matches_batch f.batch_id c && matches_status f.status c

-- The database refuses a status that is no value of `check_status`, and a negative OFFSET.
abbrev pub filter_is_bad : ListChecksFilter → Bool
filter_is_bad f =
    elim f.status [ none ↦ false | some s ↦ not (is_status s) ] || is_negative f.offset

abbrev pub check_created : Check → Time
check_created c = c.created_at

-- `WHERE … ORDER BY created_at DESC LIMIT … OFFSET …`
unfoldable pub list_page : ListChecksFilter → Db → List Check
list_page f d =
    take (list_limit f.limit) (
      drop (to_nat f.offset) (reverse (sort_by check_created (select (matches_filter f) d.checks))))

-- `ListChecks`
unfoldable pub list_checks : ListChecksFilter → M (List Check)
list_checks f = stmt (λ u now d. if filter_is_bad f then err db_error else ok (list_page f d, d))

abbrev pub set_warnings : Uuid → List String → Sql (Unit {0})
set_warnings cid ws u now d = ok (
  tt,
  record d { checks = update_where (λ c. c.id == cid) (λ c. record c { warnings = ws }) d.checks },
)

-- `SetCheckWarnings`
unfoldable pub set_check_warnings : Uuid → List String → M (Unit {0})
set_check_warnings cid ws = stmt (set_warnings cid ws)

-- `UpdateCheckStatus`
unfoldable pub update_check_status : Uuid → CheckStatus → M (Unit {0})
update_check_status cid st = stmt (λ u now d. ok (
  tt,
  record d { checks = update_where (λ c. c.id == cid) (λ c. record c { status = st }) d.checks },
))

abbrev pub is_live : CheckStatus → Bool
is_live CheckStatus.pending = true
is_live CheckStatus.running = true
is_live _ = false

abbrev pub is_cancellable : Uuid → Uuid → Check → Bool
is_cancellable aid cid c = is_check_of aid cid c && is_live c.status

-- `UPDATE checks SET status = 'cancelled' …`; zero RowsAffected is ErrNotFound.
abbrev pub cancel_row : Uuid → Uuid → Sql (Unit {0})
cancel_row aid cid u now d =
    if any_where (is_cancellable aid cid) d.checks
    then ok (
      tt,
      record d {
        checks =
            update_where (is_cancellable aid cid) (finish_check CheckStatus.cancelled now) d.checks;
      },
    )
    else err not_found

abbrev pub is_open_run_of : Uuid → CheckRun → Bool
is_open_run_of cid r = r.check_id == cid && is_open r.status

-- `UPDATE check_runs SET status = 'error' …`
abbrev pub cancel_runs : Uuid → Sql (Unit {0})
cancel_runs cid u now d = ok (
  tt,
  record d { runs = update_where (is_open_run_of cid) (finish_run RunStatus.error now) d.runs },
)

unfoldable pub cancel_body : Uuid → Uuid → M (Unit {0})
cancel_body aid cid = stmt (cancel_row aid cid) >> stmt (cancel_runs cid)

-- `CancelCheck`
unfoldable pub cancel_check : Uuid → Uuid → M (Unit {0})
unfolding cancel_body
cancel_check aid cid = transaction (cancel_body aid cid)
