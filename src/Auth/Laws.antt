-- ===== src/Auth/Laws.antt =====
-- Who gets past the three middlewares of internal/auth/middleware.go.
use pingachock.Base.{trim_right, is_empty, trim_space, update_where, false, refl, if◌then◌else◌}
use pingachock.Store.Db.{ok, not_found, err, World, Outcome, Db}
use pingachock.Auth.{
  require_api_key, check_key, refused, check_key_token, passed, check_admin, bearer_token,
  require_admin_token,
}
use pingachock.Base.{
  [], inr, ==_refl, arith, cut_prefix-append, inl, cut_prefix-some, Bool-cases, equal_codes_iff,
  ◌∷◌, ◌++◌, none, ◌==◌, equal_codes, codes, ap, true, ◌&&◌, any_where, ◌↔◌, ◌≡◌, some, Option,
  find_where, ℕ, List, String, Bool,
}
use pingachock.Store.Models.{Time, ApiKey, Uuid}
use pingachock.Store.Accounts.{
  is_live_key, scan_api_key, get_api_key_by_hash, revoke_api_key, is_active_key,
}
use pingachock.Store.Triple.{Triple-stmt, Post, Triple, SqlPost}

pub bearer_token_iff :
    (header token : List ℕ)
    → (bearer_token header ≡ some token) ↔ (header ≡ codes "Bearer " ++ token)
unfolding bearer_token
bearer_token_iff header token = (
  cut_prefix-some (codes "Bearer ") header token,
  λ e. rw e (cut_prefix-append (codes "Bearer ") token),
)

passed_if :
    (b : Bool) (msg : String)
    → ((if b then passed (tt {0}) else refused msg) ≡ passed tt) ↔ (b ≡ true)
passed_if true msg = (λ _. refl, λ _. refl)
passed_if false msg = (λ h. cc, λ h. cc)

check_admin-passed :
    (admin : List ℕ) (o : Option (List ℕ)) → check_admin admin o ≡ passed tt → o ≡ some admin
unfolding check_admin
check_admin-passed admin none h = cc
check_admin-passed admin (some t) h =
    ap some ((equal_codes_iff t admin).0 ((passed_if (equal_codes t admin) _).0 h))

check_admin-same : (admin : List ℕ) → check_admin admin (some admin) ≡ passed tt
unfolding check_admin
check_admin-same admin =
    (passed_if (equal_codes admin admin) _).1 ((equal_codes_iff admin admin).1 refl)

pub require_admin_token_iff :
    (admin header : List ℕ)
    → (require_admin_token admin header ≡ passed tt) ↔ (header ≡ codes "Bearer " ++ admin)
unfolding require_admin_token
require_admin_token_iff admin header = (
  λ h. (bearer_token_iff header admin).0 (check_admin-passed admin (bearer_token header) h),
  λ e. rw ((bearer_token_iff header admin).1 e) (check_admin-same admin),
)

no_empty_token :
    (admin : List ℕ)
    → trim_space (codes "Bearer " ++ admin) ≡ codes "Bearer " ++ admin
    → is_empty admin ≡ false
unfolding trim_space trim_right
no_empty_token [] h = absurd cc
no_empty_token (c ∷ admin) h = refl

-- Of the headers that net/http hands over, which have no white space around them, the operator's
-- endpoints let exactly "Bearer " followed by the configured token pass, and none where no token is
-- configured.
pub require_admin_token-admits :
    (admin header : List ℕ)
    → trim_space header ≡ header
    → (require_admin_token admin header ≡ passed tt)
      ↔ ((header ≡ codes "Bearer " ++ admin) × (is_empty admin ≡ false))
require_admin_token-admits admin header t = (
  λ h. let e = (require_admin_token_iff admin header).0 h in (e, no_empty_token admin (rw (← e) t)),
  λ h. (require_admin_token_iff admin header).1 h.0,
)

abbrev is_key_of : (hash : String) (aid : Uuid) (k : ApiKey) → Bool
is_key_of hash aid k = is_active_key hash k && k.account_id == aid

find_key-active :
    (hash : String) (ks : List ApiKey) (k : ApiKey)
    → find_where (is_active_key hash) ks ≡ some k
    → any_where (is_key_of hash k.account_id) ks ≡ true
find_key-active hash [] k e = cc
find_key-active hash (x ∷ ks) k e = elim (Bool-cases (is_active_key hash x)) [
  | inl here ↦ ground (arith, ==_refl k.account_id, here, e)
  | inr there ↦ ground (arith, find_key-active hash ks k, there, e)
]

scan_api_key-active :
    (hash : String) (d : Db) (o : Option ApiKey)
    → find_where (is_active_key hash) d.api_keys ≡ o
    → SqlPost (λ k _. any_where (is_key_of hash k.account_id) d.api_keys ≡ true) (scan_api_key d o)
scan_api_key-active hash d none e = tt
scan_api_key-active hash d (some k) e = find_key-active hash d.api_keys k e

get_api_key_by_hash-active :
    (hash : String) (d0 : Db)
    → Triple
        (λ d. d ≡ d0)
        (get_api_key_by_hash hash)
        (λ k _. any_where (is_key_of hash k.account_id) d0.api_keys ≡ true)
unfolding get_api_key_by_hash
get_api_key_by_hash-active hash d0 = Triple-stmt _ _ _ (λ u now d e.
    rw (← e) (scan_api_key-active hash d (find_where (is_active_key hash) d.api_keys) refl))

module _ (hash_token : List ℕ → String) where
  check_key-passed :
      (Q : ApiKey → Db → Type 0) (r : Outcome ApiKey × World) (aid : Uuid)
      → (check_key hash_token r).0 ≡ passed aid
      → Post Q r
      → (k : ApiKey) × Q k r.1.db × (k.account_id ≡ aid)
  unfolding check_key
  check_key-passed Q (ok k, w) aid h q = (k, q, cc)
  check_key-passed Q (err e, w) aid h q = absurd cc

  -- The request carries a key of the account `aid`.
  abbrev pub HasKey : Uuid → Db → List ℕ → Type 0
  HasKey aid d t = any_where (is_key_of (hash_token t) aid) d.api_keys ≡ true

  check_key_token-passed :
      (o : Option (List ℕ)) (aid : Uuid) (w : World)
      → (check_key_token hash_token o w).0 ≡ passed aid
      → (t : List ℕ) × (o ≡ some t) × HasKey aid w.db t
  unfolding check_key_token
  check_key_token-passed none aid w h = absurd cc
  check_key_token-passed (some t) aid w h =
      let (k, q, e) =
        check_key-passed _ (get_api_key_by_hash (hash_token t) w) aid h
          (get_api_key_by_hash-active (hash_token t) w.db w refl) in
      (t, refl, rw (← e) q)

  -- A request gets past the API key check as an account only if its header is "Bearer " and a
  -- token whose hash is that of a key of this account that is not revoked.
  pub require_api_key-passed :
      (header : List ℕ) (aid : Uuid) (w : World)
      → (require_api_key hash_token header w).0 ≡ passed aid
      → (t : List ℕ) × (header ≡ codes "Bearer " ++ t) × HasKey aid w.db t
  unfolding require_api_key
  require_api_key-passed header aid w h =
      let (t, e, q) = check_key_token-passed (bearer_token header) aid w h in
      (t, (bearer_token_iff header t).0 e, q)

no_live_key :
    (kid : Uuid) (now : Time) (ks : List ApiKey)
    → any_where
        (is_live_key kid)
        (update_where (is_live_key kid) (λ k. record k { revoked_at = some now }) ks)
      ≡ false
no_live_key kid now [] = refl
no_live_key kid now (k ∷ ks) = elim (Bool-cases (is_live_key kid k)) [
  | inl live ↦ ground (arith, no_live_key kid now ks, live)
  | inr dead ↦ ground (arith, no_live_key kid now ks, dead)
]

revoked_rows :
    (kid : Uuid) (now : Time) (d : Db)
    → SqlPost
        (λ _ d'. any_where (is_live_key kid) d'.api_keys ≡ false)
        (if any_where (is_live_key kid) d.api_keys
          then ok (
            tt {0},
            record d {
              api_keys =
                  update_where
                    (is_live_key kid)
                    (λ k. record k { revoked_at = some now })
                    d.api_keys;
            },
          )
          else err not_found)
revoked_rows kid now d = elim (Bool-cases (any_where (is_live_key kid) d.api_keys)) [
  | inl live ↦ rw live (no_live_key kid now d.api_keys)
  | inr dead ↦ rw dead tt
]

-- A revocation that succeeds leaves no live row of the key.
revoke_api_key-ends :
    (kid : Uuid) (w : World)
    → Post (λ _ d. any_where (is_live_key kid) d.api_keys ≡ false) (revoke_api_key kid w)
unfolding revoke_api_key
revoke_api_key-ends kid w =
    Triple-stmt (λ _. Unit {0}) _ _ (λ u now d _. revoked_rows kid now d) w tt
