-- ===== src/Api/Accounts.antt =====
-- internal/api/public/accounts.go: the operator's endpoints for accounts and their API keys.
use pingachock.Store.Models.{Time, Account, Uuid, ApiKey}
use pingachock.Api.{
  no_content, not_found_or_internal, json, internal, text, fail, call, with_body, answer, H, Body,
}
use pingachock.Base.{none, map, some, [], is_empty_str, if◌then◌else◌, ℕ, Option, List, String}
use pingachock.Store.Accounts.{
  list_api_keys_by_account, get_account, create_api_key, revoke_api_key, create_account,
  list_accounts,
}
use pingachock.Api.Nodes.{Token}

pub record AccountResponse : Type 0 where
  pub id : Uuid
  pub name : String
  pub created_at : Time

-- `toAccountResponse`
abbrev pub to_account_response : Account → AccountResponse
to_account_response a = record { id = a.id; name = a.name; created_at = a.created_at }

-- `Handler.CreateAccount`; the body is the name.
unfoldable pub create : Body String → H AccountResponse
create body = with_body body (λ name.
    if is_empty_str name
    then answer (fail 400 (text "name is required"))
    else call (create_account name) (internal "") (λ a. answer (json 201 (to_account_response a))))

-- `Handler.ListAccounts`
unfoldable pub list : H (List AccountResponse)
list = call list_accounts (internal "") (λ as'. answer (json 200 (map to_account_response as')))

-- A key without its hash.
pub record ApiKeyResponse : Type 0 where
  pub id : Uuid
  pub account_id : Uuid
  pub label : String
  pub scopes : List String
  pub created_at : Time
  pub last_used_at : Option Time
  pub revoked_at : Option Time

-- `toAPIKeyResponse`
abbrev pub to_api_key_response : ApiKey → ApiKeyResponse
to_api_key_response k = record {
  id = k.id;
  account_id = k.account_id;
  label = k.label;
  scopes = k.scopes;
  created_at = k.created_at;
  last_used_at = k.last_used_at;
  revoked_at = k.revoked_at;
}

pub record CreateKeyRequest : Type 0 where
  pub label : String
  pub scopes : List String

key_with : (List ℕ → String) → Uuid → CreateKeyRequest → Token → H (ApiKeyResponse × List ℕ)
key_with hash_token aid q none = answer (fail 500 (text "generate token"))
key_with hash_token aid q (some token) =
    call (create_api_key aid (hash_token token) q.label q.scopes) (internal "")
      (λ k. answer (json 201 (to_api_key_response k, token)))

key_body :
    (List ℕ → String) → Uuid → Token → Option (Body CreateKeyRequest) → H (ApiKeyResponse × List ℕ)
unfolding key_with
key_body hash_token aid token none =
    key_with hash_token aid (record { label = ""; scopes = [] }) token
key_body hash_token aid token (some b) = with_body b (λ q. key_with hash_token aid q token)

-- `Handler.CreateAPIKey`: only the hash of the token is stored.
unfoldable pub create_key :
    (List ℕ → String)
    → Token
    → Option Uuid
    → Option (Body CreateKeyRequest)
    → H (ApiKeyResponse × List ℕ)
unfolding key_body
create_key hash_token token none body = answer (fail 400 (text "invalid account id"))
create_key hash_token token (some aid) body =
    call (get_account aid) (not_found_or_internal "account not found")
      (λ _. key_body hash_token aid token body)

-- `Handler.ListAPIKeys`
unfoldable pub list_keys : Option Uuid → H (List ApiKeyResponse)
list_keys none = answer (fail 400 (text "invalid account id"))
list_keys (some aid) =
    call (list_api_keys_by_account aid) (internal "")
      (λ ks. answer (json 200 (map to_api_key_response ks)))

-- `Handler.RevokeAPIKey`
unfoldable pub revoke_key : Option Uuid → H (Unit {0})
revoke_key none = answer (fail 400 (text "invalid id"))
revoke_key (some kid) =
    call (revoke_api_key kid) (not_found_or_internal "api key not found or already revoked")
      (λ _. answer no_content)
