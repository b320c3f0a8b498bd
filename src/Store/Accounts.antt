-- ===== src/Store/Accounts.antt =====
-- internal/store/accounts.go and internal/store/api_keys.go: accounts and their keys.
use pingachock.Store.Models.{Time, Uuid, Account, ApiKey}
use pingachock.Base.{
  [], ◌∷◌, ◌++◌, ◌||◌, map, select, some, is_none, member, sort_by, ◌&&◌, update_where, ◌==◌,
  str_eq, none, if◌then◌else◌, any_where, find_where, Option, Bool, List, String,
}
use pingachock.Store.Db.{db_error, unique_violation, not_found, ok, err, stmt, Outcome, Db, M}

abbrev pub account_id_of : Account → Uuid
account_id_of a = a.id

-- `CreateAccount`
unfoldable pub create_account : String → M Account
create_account name = stmt (λ u now d.
    let a : Account = record { id = u; name = name; created_at = now } in
    if member u (map account_id_of d.accounts)
    then err unique_violation
    else ok (a, record d { accounts = d.accounts ++ (a ∷ []) }))

abbrev pub scan_account : Db → Option Account → Outcome (Account × Db)
scan_account d none = err not_found
scan_account d (some a) = ok (a, d)

-- `GetAccount`
unfoldable pub get_account : Uuid → M Account
get_account aid = stmt (λ u now d. scan_account d (find_where (λ a. a.id == aid) d.accounts))

abbrev pub account_created : Account → Time
account_created a = a.created_at

-- `ListAccounts`
unfoldable pub list_accounts : M (List Account)
list_accounts = stmt (λ u now d. ok (sort_by account_created d.accounts, d))

abbrev pub key_id : ApiKey → Uuid
key_id k = k.id

abbrev pub has_key_hash : String → List ApiKey → Bool
has_key_hash hash ks = any_where (λ (k : ApiKey). str_eq k.key_hash hash) ks

abbrev pub new_api_key : Uuid → String → String → List String → Uuid → Time → ApiKey
new_api_key aid hash label scopes u now = record {
  id = u;
  account_id = aid;
  key_hash = hash;
  label = label;
  scopes = scopes;
  created_at = now;
  last_used_at = none;
  revoked_at = none;
}

-- The INSERT, under the primary key, the unique `key_hash` and the reference to the account.
abbrev pub insert_api_key : ApiKey → Db → Outcome (ApiKey × Db)
insert_api_key k d =
    if member k.id (map key_id d.api_keys) || has_key_hash k.key_hash d.api_keys
    then err unique_violation
    else if any_where (λ (a : Account). a.id == k.account_id) d.accounts
    then ok (k, record d { api_keys = d.api_keys ++ (k ∷ []) })
    else err db_error

-- `CreateAPIKey`; no scopes are stored as the empty array, as the code normalises a nil slice.
unfoldable pub create_api_key : Uuid → String → String → List String → M ApiKey
create_api_key aid hash label scopes =
    stmt (λ u now d. insert_api_key (new_api_key aid hash label scopes u now) d)

abbrev pub is_active_key : String → ApiKey → Bool
is_active_key hash k = str_eq k.key_hash hash && is_none k.revoked_at

abbrev pub scan_api_key : Db → Option ApiKey → Outcome (ApiKey × Db)
scan_api_key d none = err not_found
scan_api_key d (some k) = ok (k, d)

-- `GetAPIKeyByHash`
unfoldable pub get_api_key_by_hash : String → M ApiKey
get_api_key_by_hash hash =
    stmt (λ u now d. scan_api_key d (find_where (is_active_key hash) d.api_keys))

-- `TouchAPIKeyLastUsed`
unfoldable pub touch_api_key_last_used : Uuid → M (Unit {0})
touch_api_key_last_used kid = stmt (λ u now d. ok (
  tt,
  record d {
    api_keys =
        update_where (λ k. k.id == kid) (λ k. record k { last_used_at = some now }) d.api_keys;
  },
))

abbrev pub key_created : ApiKey → Time
key_created k = k.created_at

-- `ListAPIKeysByAccount`
unfoldable pub list_api_keys_by_account : Uuid → M (List ApiKey)
list_api_keys_by_account aid =
    stmt (λ u now d. ok (sort_by key_created (select (λ k. k.account_id == aid) d.api_keys), d))

abbrev pub is_live_key : Uuid → ApiKey → Bool
is_live_key kid k = k.id == kid && is_none k.revoked_at

-- `RevokeAPIKey`; zero RowsAffected is ErrNotFound.
unfoldable pub revoke_api_key : Uuid → M (Unit {0})
revoke_api_key kid = stmt (λ u now d.
    if any_where (is_live_key kid) d.api_keys
    then ok (
      tt,
      record d {
        api_keys =
            update_where (is_live_key kid) (λ k. record k { revoked_at = some now }) d.api_keys;
      },
    )
    else err not_found)
