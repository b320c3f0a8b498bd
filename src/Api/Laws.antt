-- ===== src/Api/Laws.antt =====
-- Rules for handlers, and what the handlers that touch checks and runs leave of the tables.
-- `P` holds after the handler, whatever it answers.
pub mod Creating
pub mod Working
pub mod Managing
use pingachock.Store.Db.{err, stmt, ok, World, Error, M, Outcome, Db, Sql}
use pingachock.Store.Lifecycle.{IsValid}
use pingachock.Store.Models.{Time, Uuid}
use pingachock.Base.{refl, arith, ◌≡◌}
use pingachock.Api.{call, after_call, Reply, H}
use pingachock.Store.Triple.{Keeps-stmt, Triple, Post, Keeps, SqlPost}

abbrev pub KeepsH : {B : Type 0} → (Db → Type 0) → H B → Type 0
KeepsH P h = (w : World) → P w.db → P (h w).1.db

pub after_call-Keeps :
    {A B : Type 0} (P : Db → Type 0) (r : Outcome A × World) (on_error : Error → Reply B)
    (k : A → H B)
    → P r.1.db
    → ((a : A) → r.0 ≡ ok a → P (k a r.1).1.db)
    → P (after_call r on_error k).1.db
after_call-Keeps P (ok a, w) on_error k p h = h a refl
after_call-Keeps P (err e, w) on_error k p h = p

pub KeepsH-call :
    {A B : Type 0} (P : Db → Type 0) (m : M A) (on_error : Error → Reply B) (k : A → H B)
    → Keeps P m
    → ((a : A) → KeepsH P (k a))
    → KeepsH P (call m on_error k)
KeepsH-call P m on_error k hm hk w p =
    after_call-Keeps P (m w) on_error k (hm w p) (λ a e. hk a (m w).1 (hm w p))

pub Post-ok :
    {A : Type 0} (Q : A → Db → Type 0) (r : Outcome A × World) (a : A)
    → r.0 ≡ ok a
    → Post Q r
    → Q a r.1.db
Post-ok Q (ok b, w) a e q = ground arith
Post-ok Q (err x, w) a e q = cc

-- With what the call promises of its result.
pub KeepsH-call_with :
    {A B : Type 0} (P : Db → Type 0) (Q : A → Db → Type 0) (m : M A) (on_error : Error → Reply B)
    (k : A → H B)
    → Keeps P m
    → Triple P m Q
    → ((a : A) (w : World) → P w.db → Q a w.db → P (k a w).1.db)
    → KeepsH P (call m on_error k)
KeepsH-call_with P Q m on_error k hm hq hk w p =
    after_call-Keeps P (m w) on_error k (hm w p)
      (λ a e. hk a (m w).1 (hm w p) (Post-ok Q (m w) a e (hq w p)))

-- An update of other tables keeps the invariant of checks and runs.
abbrev pub SameWork : Db → Db → Type 0
SameWork d d' = (d'.checks ≡ d.checks) × (d'.runs ≡ d.runs)

pub SameWork-IsValid : (d d' : Db) → SameWork d d' → IsValid d → IsValid d'
SameWork-IsValid d d' s v = record {
  keyed = rw (s.0, s.1) v.keyed;
  agreeing = rw (s.0, s.1) v.agreeing;
}

SqlPost-SameWork :
    {A : Type 0} (d : Db) (r : Outcome (A × Db))
    → SqlPost (λ _. SameWork d) r
    → IsValid d
    → SqlPost (λ _. IsValid) r
SqlPost-SameWork d (ok (a, d')) s v = SameWork-IsValid d d' s v
SqlPost-SameWork d (err e) s v = tt

pub Keeps-other_table :
    {A : Type 0} (f : Sql A)
    → ((u : Uuid) (now : Time) (d : Db) → SqlPost (λ _. SameWork d) (f u now d))
    → Keeps IsValid (stmt f)
Keeps-other_table f h =
    Keeps-stmt IsValid f (λ u now d v. SqlPost-SameWork d (f u now d) (h u now d) v)
