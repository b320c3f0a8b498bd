-- ===== src/Store/Triple.antt =====
-- Rules to reason about the calls of internal/store: a call from tables that satisfy `P` ends with an
-- error, or with a value and tables that satisfy `Q`.
use pingachock.Base.{◌≡◌, refl, Bool, true, false}
use pingachock.Store.Models.{Uuid, Time}
use pingachock.Store.Db.{
  Db, World, Outcome, ok, err, M, pure, ◌>>=◌, ◌>>◌, Sql, next_fault, tick_world, finish_stmt,
  run_stmt, stmt, control, and_then, commit, close_tx, transaction,
}

-- What a call that has ended promises: nothing after an error.
abbrev pub Post : {A : Type 0} → (A → Db → Type 0) → Outcome A × World → Type 0
Post Q (ok a, w) = Q a w.db
Post Q (err e, w) = Unit {0}

abbrev pub Triple : {A : Type 0} → (Db → Type 0) → M A → (A → Db → Type 0) → Type 0
Triple P m Q = (w : World) → P w.db → Post Q (m w)

-- What one statement promises.
abbrev pub SqlPost : {A : Type 0} → (A → Db → Type 0) → Outcome (A × Db) → Type 0
SqlPost Q (ok (a, d)) = Q a d
SqlPost Q (err e) = Unit {0}

-- `P` holds after the call however it ended.
abbrev pub Keeps : {A : Type 0} → (Db → Type 0) → M A → Type 0
Keeps P m = (w : World) → P w.db → P (m w).1.db

finish_stmt-Post :
    {A : Type 0} (w : World) (r : Outcome (A × Db)) (Q : A → Db → Type 0)
    → SqlPost Q r
    → Post Q (finish_stmt w r)
unfolding finish_stmt
finish_stmt-Post w (ok (a, d)) Q h = h
finish_stmt-Post w (err e) Q h = tt

run_stmt-Post :
    {A : Type 0} (b : Bool) (f : Sql A) (Q : A → Db → Type 0) (w : World)
    → SqlPost Q (f (w.uuids w.drawn) w.now w.db)
    → Post Q (run_stmt b f w)
unfolding run_stmt
run_stmt-Post true f Q w h = tt
run_stmt-Post false f Q w h = finish_stmt-Post (tick_world w) (f (w.uuids w.drawn) w.now w.db) Q h

pub Triple-stmt :
    {A : Type 0} (P : Db → Type 0) (f : Sql A) (Q : A → Db → Type 0)
    → ((u : Uuid) (now : Time) (d : Db) → P d → SqlPost Q (f u now d))
    → Triple P (stmt f) Q
unfolding stmt
Triple-stmt P f Q h w p = run_stmt-Post (next_fault w.faults) f Q w (h _ _ _ p)

and_then-Post :
    {A B : Type 0} (Q : A → Db → Type 0) (R : B → Db → Type 0) (r : Outcome A × World) (k : A → M B)
    → Post Q r
    → ((a : A) → Triple (Q a) (k a) R)
    → Post R (and_then r k)
and_then-Post Q R (ok a, w) k q h = h a w q
and_then-Post Q R (err e, w) k q h = tt

pub Triple->>= :
    {A B : Type 0} (P : Db → Type 0) (Q : A → Db → Type 0) (R : B → Db → Type 0) (m : M A)
    (k : A → M B)
    → Triple P m Q
    → ((a : A) → Triple (Q a) (k a) R)
    → Triple P (m >>= k) R
Triple->>= P Q R m k hm hk w p = and_then-Post Q R (m w) k (hm w p) hk

pub Triple-pure :
    {A : Type 0} (P : Db → Type 0) (a : A) (Q : A → Db → Type 0)
    → ((d : Db) → P d → Q a d)
    → Triple P (pure a) Q
Triple-pure P a Q h w p = h w.db p

-- A statement of a transaction sees the tables that `BEGIN` saw.
run_control-db : (b : Bool) (w : World) → (run_stmt b (λ _ _ d. ok (tt {0}, d)) w).1.db ≡ w.db
unfolding run_stmt
run_control-db true w = refl
run_control-db false w = refl

control-db : (w : World) → (control w).1.db ≡ w.db
unfolding control
control-db w = run_control-db (next_fault w.faults) w

control-Triple : (P : Db → Type 0) → Triple P control (λ _. P)
unfolding control
control-Triple P = Triple-stmt P (λ _ _ d. ok (tt, d)) (λ _. P) (λ _ _ d p. p)

commit-Keeps :
    {A : Type 0} (P : Db → Type 0) (before : Db) (a : A) (r : Outcome (Unit {0}) × World)
    → P before
    → P r.1.db
    → P (commit before a r).1.db
unfolding commit
commit-Keeps P before a (ok _, w) p q = q
commit-Keeps P before a (err e, w) p q = p

close_tx-Keeps :
    {A : Type 0} (P : Db → Type 0) (before : Db) (r : Outcome A × World)
    → P before
    → Post (λ _. P) r
    → P (close_tx before r).1.db
unfolding close_tx
close_tx-Keeps P before (ok a, w) p q = commit-Keeps P before a (control w) p (rw (control-db w) q)
close_tx-Keeps P before (err e, w) p q = p

-- A transaction whose body leads from `P` back to `P` keeps `P`, also where it fails.
pub transaction-Keeps :
    {A : Type 0} (P : Db → Type 0) (body : M A)
    → Triple P body (λ _. P)
    → Keeps P (transaction body)
unfolding transaction
transaction-Keeps P body h w p =
    close_tx-Keeps P w.db ((control >> body) w) p
      (Triple->>= P (λ _. P) (λ _. P) control (λ _. body) (control-Triple P) (λ _. h) w p)

Post-weaken :
    {A : Type 0} (Q R : A → Db → Type 0) (r : Outcome A × World)
    → ((a : A) (d : Db) → Q a d → R a d)
    → Post Q r
    → Post R r
Post-weaken Q R (ok a, w) imp q = imp a w.db q
Post-weaken Q R (err e, w) imp q = tt

pub Triple-weaken :
    {A : Type 0} (P : Db → Type 0) (m : M A) (Q R : A → Db → Type 0)
    → Triple P m Q
    → ((a : A) (d : Db) → Q a d → R a d)
    → Triple P m R
Triple-weaken P m Q R h imp w p = Post-weaken Q R (m w) imp (h w p)

-- The same for calls outside a transaction: `P` has to hold after each statement.
finish_stmt-Keeps :
    {A : Type 0} (P : Db → Type 0) (w : World) (r : Outcome (A × Db))
    → P w.db
    → SqlPost (λ _. P) r
    → P (finish_stmt w r).1.db
unfolding finish_stmt
finish_stmt-Keeps P w (ok (a, d)) p q = q
finish_stmt-Keeps P w (err e) p q = p

run_stmt-Keeps :
    {A : Type 0} (P : Db → Type 0) (b : Bool) (f : Sql A) (w : World)
    → P w.db
    → SqlPost (λ _. P) (f (w.uuids w.drawn) w.now w.db)
    → P (run_stmt b f w).1.db
unfolding run_stmt
run_stmt-Keeps P true f w p q = p
run_stmt-Keeps P false f w p q =
    finish_stmt-Keeps P (tick_world w) (f (w.uuids w.drawn) w.now w.db) p q

pub Keeps-stmt :
    {A : Type 0} (P : Db → Type 0) (f : Sql A)
    → ((u : Uuid) (now : Time) (d : Db) → P d → SqlPost (λ _. P) (f u now d))
    → Keeps P (stmt f)
unfolding stmt
Keeps-stmt P f h w p = run_stmt-Keeps P (next_fault w.faults) f w p (h _ _ _ p)

and_then-Keeps :
    {A B : Type 0} (P : Db → Type 0) (r : Outcome A × World) (k : A → M B)
    → P r.1.db
    → ((a : A) → Keeps P (k a))
    → P (and_then r k).1.db
and_then-Keeps P (ok a, w) k p h = h a w p
and_then-Keeps P (err e, w) k p h = p

pub Keeps->>= :
    {A B : Type 0} (P : Db → Type 0) (m : M A) (k : A → M B)
    → Keeps P m
    → ((a : A) → Keeps P (k a))
    → Keeps P (m >>= k)
Keeps->>= P m k hm hk w p = and_then-Keeps P (m w) k (hm w p) hk

-- A transaction that succeeds ends where its body ends.
commit-Post :
    {A : Type 0} (Q : A → Db → Type 0) (before : Db) (a : A) (r : Outcome (Unit {0}) × World)
    → Q a r.1.db
    → Post Q (commit before a r)
unfolding commit
commit-Post Q before a (ok _, w) q = q
commit-Post Q before a (err e, w) q = tt

close_tx-Post :
    {A : Type 0} (Q : A → Db → Type 0) (before : Db) (r : Outcome A × World)
    → Post Q r
    → Post Q (close_tx before r)
unfolding close_tx
close_tx-Post Q before (ok a, w) q = commit-Post Q before a (control w) (rw (control-db w) q)
close_tx-Post Q before (err e, w) q = tt

pub transaction-Post :
    {A : Type 0} (P : Db → Type 0) (Q : A → Db → Type 0) (body : M A)
    → Triple P body Q
    → Triple P (transaction body) Q
unfolding transaction
transaction-Post P Q body h w p =
    close_tx-Post Q w.db ((control >> body) w)
      (Triple->>= P (λ _. P) Q control (λ _. body) (control-Triple P) (λ _. h) w p)
