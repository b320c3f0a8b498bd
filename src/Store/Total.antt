-- ===== src/Store/Total.antt =====
-- Rules for total correctness: while the database answers every statement, gives ids from `ids` and its
-- clock shows `clock`, a call succeeds, and its result and tables satisfy `Q`.
use pingachock.Base.{true, refl, false, [], ◌≡◌, Bool, ℕ}
use pingachock.Store.Models.{Time, Uuid}
use pingachock.Store.Db.{
  next_fault, ◌>>=◌, ◌>>◌, err, and_then, Outcome, M, ok, Sql, tick_world, commit, Db, close_tx,
  World, transaction, finish_stmt, run_stmt, stmt, control,
}

module _ (ids : ℕ → Uuid) (clock : Time) where
  -- The database answers, with these ids.
  pub record IsQuiet (w : World) : Type 0 where
    pub no_faults : w.faults ≡ []
    pub same_ids : w.uuids ≡ ids
    pub same_clock : w.now ≡ clock

  abbrev pub Success : {A : Type 0} → (A → Db → Type 0) → Outcome A × World → Type 0
  Success Q (ok a, w) = IsQuiet w × Q a w.db
  Success Q (err e, w) = ⊥

  abbrev pub Total : {A : Type 0} → (Db → Type 0) → M A → (A → Db → Type 0) → Type 0
  Total P m Q = (w : World) → IsQuiet w → P w.db → Success Q (m w)

  abbrev pub SqlSuccess : {A : Type 0} → (A → Db → Type 0) → Outcome (A × Db) → Type 0
  SqlSuccess Q (ok (a, d)) = Q a d
  SqlSuccess Q (err e) = ⊥

  finish_stmt-Success :
      {A : Type 0} (w : World) (r : Outcome (A × Db)) (Q : A → Db → Type 0)
      → IsQuiet w
      → SqlSuccess Q r
      → Success Q (finish_stmt w r)
  unfolding finish_stmt
  finish_stmt-Success w (ok (a, d)) Q q h =
      (record { no_faults = q.no_faults; same_ids = q.same_ids; same_clock = q.same_clock }, h)
  finish_stmt-Success w (err e) Q q h = absurd h

  tick_world-IsQuiet : (w : World) → IsQuiet w → IsQuiet (tick_world w)
  unfolding tick_world
  tick_world-IsQuiet w q = record {
    no_faults = rw q.no_faults refl;
    same_ids = q.same_ids;
    same_clock = q.same_clock;
  }

  run_stmt-Success :
      {A : Type 0} (b : Bool) (f : Sql A) (Q : A → Db → Type 0) (w : World)
      → b ≡ false
      → IsQuiet w
      → SqlSuccess Q (f (w.uuids w.drawn) w.now w.db)
      → Success Q (run_stmt b f w)
  unfolding run_stmt
  run_stmt-Success true f Q w e q h = absurd cc
  run_stmt-Success false f Q w e q h =
      finish_stmt-Success (tick_world w) (f (w.uuids w.drawn) w.now w.db) Q (tick_world-IsQuiet w q)
        h

  pub Total-stmt :
      {A : Type 0} (P : Db → Type 0) (f : Sql A) (Q : A → Db → Type 0)
      → ((n : ℕ) (d : Db) → P d → SqlSuccess Q (f (ids n) clock d))
      → Total P (stmt f) Q
  unfolding stmt
  Total-stmt P f Q h w q p =
      run_stmt-Success (next_fault w.faults) f Q w (rw q.no_faults refl) q
        (rw (q.same_ids, q.same_clock) (h w.drawn w.db p))

  and_then-Success :
      {A B : Type 0} (Q : A → Db → Type 0) (R : B → Db → Type 0) (r : Outcome A × World)
      (k : A → M B)
      → Success Q r
      → ((a : A) → Total (Q a) (k a) R)
      → Success R (and_then r k)
  and_then-Success Q R (ok a, w) k s h = h a w s.0 s.1
  and_then-Success Q R (err e, w) k s h = absurd s

  pub Total->>= :
      {A B : Type 0} (P : Db → Type 0) (Q : A → Db → Type 0) (R : B → Db → Type 0) (m : M A)
      (k : A → M B)
      → Total P m Q
      → ((a : A) → Total (Q a) (k a) R)
      → Total P (m >>= k) R
  Total->>= P Q R m k hm hk w q p = and_then-Success Q R (m w) k (hm w q p) hk

  control-Total : (P : Db → Type 0) → Total P control (λ _. P)
  unfolding control
  control-Total P = Total-stmt P (λ _ _ d. ok (tt, d)) (λ _. P) (λ n d p. p)

  commit-Success :
      {A : Type 0} (Q : A → Db → Type 0) (before : Db) (a : A) (r : Outcome (Unit {0}) × World)
      → Success (λ _. Q a) r
      → Success Q (commit before a r)
  unfolding commit
  commit-Success Q before a (ok _, w) s = s
  commit-Success Q before a (err e, w) s = absurd s

  close_tx-Success :
      {A : Type 0} (Q : A → Db → Type 0) (before : Db) (r : Outcome A × World)
      → Success Q r
      → Success Q (close_tx before r)
  unfolding close_tx
  close_tx-Success Q before (ok a, w) s =
      commit-Success Q before a (control w) (control-Total (Q a) w s.0 s.1)
  close_tx-Success Q before (err e, w) s = absurd s

  pub transaction-Total :
      {A : Type 0} (P : Db → Type 0) (Q : A → Db → Type 0) (body : M A)
      → Total P body Q
      → Total P (transaction body) Q
  unfolding transaction
  transaction-Total P Q body h w q p =
      close_tx-Success Q w.db ((control >> body) w)
        (Total->>= P (λ _. P) Q control (λ _. body) (control-Total P) (λ _. h) w q p)

  pub Success-ok :
      {A : Type 0} (Q : A → Db → Type 0) (r : Outcome A × World)
      → Success Q r
      → (a : A) × (r.0 ≡ ok a) × Q a r.1.db
  Success-ok Q (ok a, w) s = (a, refl, s.1)
  Success-ok Q (err e, w) s = absurd s
