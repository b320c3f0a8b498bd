-- ===== src/Store/Db.antt =====
-- The database that internal/store talks to: its tables (migrations/0001, 0002, 0003), one SQL
-- statement, and `BeginTx`/`Rollback`/`Commit`. PostgreSQL is not part of the repository: of it the
-- model uses that a statement that fails changes nothing, and that a transaction that does not
-- commit leaves the tables as they were.
use pingachock.Base.{ℕ, suc, Bool, true, false, List, [], ◌∷◌}
use pingachock.Store.Models.{Uuid, Time, Account, ApiKey, Node, Check, CheckRun, Result}

pub record Db : Type 0 where
  pub accounts : List Account
  pub api_keys : List ApiKey
  pub nodes : List Node
  pub checks : List Check
  pub runs : List CheckRun
  pub results : List Result

-- `not_found` is `store.ErrNotFound`; `db_error` is any failure of the database or the connection;
-- `unique_violation` is SQLSTATE 23505.
pub data Error : Type 0 where
  not_found db_error unique_violation empty_selector : Error

pub data Outcome {ℓ} (A : Type ℓ) : Type ℓ where
  ok : A → Outcome A
  err : Error → Outcome A

-- `faults` says of the coming statements which fail for a reason outside the model (`true`); past
-- its end none does. `uuids` are the answers of `gen_random_uuid()` and `uuid.New()`.
pub record World : Type 0 where
  pub db : Db
  pub now : Time
  pub faults : List Bool
  pub uuids : ℕ → Uuid
  pub drawn : ℕ

abbrev pub M : Type 0 → Type 0
M A = World → Outcome A × World

abbrev pub pure : {A : Type 0} → A → M A
pure a w = (ok a, w)

abbrev pub throw : {A : Type 0} → Error → M A
throw e w = (err e, w)

infixl 5 ◌>>=◌ ◌>>◌
abbrev pub and_then : {A B : Type 0} → Outcome A × World → (A → M B) → Outcome B × World
and_then (ok a, w) f = f a w
and_then (err e, w) f = (err e, w)

abbrev pub ◌>>=◌ : {A B : Type 0} → M A → (A → M B) → M B
◌>>=◌ m f w = and_then (m w) f

abbrev pub ◌>>◌ : {A B : Type 0} → M A → M B → M B
m >> k = m >>= λ _. k

-- A call whose error is handled or dropped: `err` as a value.
abbrev pub attempt : {A : Type 0} → M A → M (Outcome A)
attempt m w = let (r, w') = m w in (ok r, w')

abbrev pub next_fault : List Bool → Bool
next_fault [] = false
next_fault (b ∷ _) = b

abbrev pub later_faults : List Bool → List Bool
later_faults [] = []
later_faults (_ ∷ bs) = bs

-- What a statement computes, from a new id, the clock and the tables.
abbrev pub Sql : Type 0 → Type 0
Sql A = Uuid → Time → Db → Outcome (A × Db)

unfoldable pub tick_world : World → World
tick_world w = record w { faults = later_faults w.faults; drawn = suc w.drawn }

unfoldable pub finish_stmt : {A : Type 0} → World → Outcome (A × Db) → Outcome A × World
finish_stmt w (ok (a, d)) = (ok a, record w { db = d })
finish_stmt w (err e) = (err e, w)

unfoldable pub run_stmt : {A : Type 0} → Bool → Sql A → World → Outcome A × World
unfolding tick_world finish_stmt
run_stmt true f w = (err db_error, tick_world w)
run_stmt false f w = finish_stmt (tick_world w) (f (w.uuids w.drawn) w.now w.db)

-- One statement: `QueryContext`, `QueryRowContext(…).Scan` or `ExecContext`.
unfoldable pub stmt : {A : Type 0} → Sql A → M A
unfolding run_stmt
stmt f w = run_stmt (next_fault w.faults) f w

-- `BEGIN` and `COMMIT` change no table.
unfoldable pub control : M (Unit {0})
unfolding stmt
control = stmt (λ _ _ d. ok (tt, d))

unfoldable pub commit : {A : Type 0} → Db → A → Outcome (Unit {0}) × World → Outcome A × World
commit before a (ok _, w) = (ok a, w)
commit before a (err e, w) = (err e, record w { db = before })

-- `tx.Commit()` where the body returned no error, the deferred `tx.Rollback()` otherwise.
unfoldable pub close_tx : {A : Type 0} → Db → Outcome A × World → Outcome A × World
unfolding commit control
close_tx before (ok a, w) = commit before a (control w)
close_tx before (err e, w) = (err e, record w { db = before })

-- `BeginTx`, the body, `Commit`.
unfoldable pub transaction : {A : Type 0} → M A → M A
unfolding close_tx control
transaction body w = close_tx w.db ((control >> body) w)
