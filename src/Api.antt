-- ===== src/Api.antt =====
-- internal/api: what a handler answers, and how a handler calls the store.
pub mod Agent
pub mod CheckViews
pub mod Checks
pub mod Nodes
pub mod Accounts
pub mod ServerPing
pub mod Laws
use pingachock.Base.{[], ◌∷◌, join_str, ℕ, String}
use pingachock.Store.Db.{not_found, err, ok, Error, World, M, Outcome}
use pingachock.Store.Models.{Uuid}

-- The text of an error reply, with the error or the id that it quotes.
pub data Msg : Type 0 where
  text : String → Msg
  with_error : String → Error → Msg
  with_id : String → Uuid → Msg

-- A status and a JSON body, a status and `{"error": …}`, or 204.
pub data Reply (B : Type 0) : Type 0 where
  json : ℕ → B → Reply B
  fail : ℕ → Msg → Reply B
  no_content : Reply B

-- A request body: what `DecodeJSON` returns, its error as text.
pub data Body (A : Type 0) : Type 0 where
  decoded : A → Body A
  malformed : String → Body A

abbrev pub H : Type 0 → Type 0
H B = World → Reply B × World

module _ {B : Type 0} where
  abbrev pub answer : Reply B → H B
  answer r w = (r, w)

  abbrev pub bad_body : String → Reply B
  bad_body e = fail 400 (text (join_str ("invalid request body: " ∷ e ∷ [])))

  -- `api.DecodeJSON` and the reply to a body that it refuses.
  abbrev pub with_body : {A : Type 0} → Body A → (A → H B) → H B
  with_body (decoded a) k = k a
  with_body (malformed e) k = answer (bad_body e)

  abbrev pub after_call :
      {A : Type 0} → Outcome A × World → (Error → Reply B) → (A → H B) → Reply B × World
  after_call (ok a, w) on_error k = k a w
  after_call (err e, w) on_error k = (on_error e, w)

  -- A call of the store: what follows it, and the reply where it fails.
  abbrev pub call : {A : Type 0} → M A → (Error → Reply B) → (A → H B) → H B
  call m on_error k w = after_call (m w) on_error k

  -- A call whose error the handler drops, `_ = …`.
  abbrev pub call_ignoring : {A : Type 0} → M A → H B → H B
  call_ignoring m k w = k (m w).1

  -- 500 with the error's own text, after a prefix.
  abbrev pub internal : String → Error → Reply B
  internal s e = fail 500 (with_error s e)

  -- 404 for ErrNotFound, 500 for another error.
  abbrev pub not_found_or_internal : String → Error → Reply B
  not_found_or_internal s not_found = fail 404 (text s)
  not_found_or_internal s e = fail 500 (with_error "" e)
