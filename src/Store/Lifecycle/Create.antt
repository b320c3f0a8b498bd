-- ===== src/Store/Lifecycle/Create.antt =====
-- internal/store/checks.go, check_runs.go: creating a check and its runs, and the invariant of the tables.
-- A new id is no check's, so no run refers to it.
use pingachock.Store.Models.{CheckStatus, Check, Time, CheckRun, Uuid, RunStatus}
use pingachock.Store.Checks.{new_check, has_account, insert_check, CreateCheckParams}
use pingachock.Base.{
  All-zip, ◌&&◌, ◌<◌, add-zero, if◌then◌else◌, ℕ, ◌+◌, All-imp, inr, inl, ==_iff, refl, Bool-cases,
  arith, ap, Unique, [], ◌∷◌, true, false, ◌++◌, ◌==◌, ◌≡◌, map, All, member, Bool, List,
}
use pingachock.Store.Db.{Db}
use pingachock.Store.Lifecycle.{StatusAgrees, Agrees, IsValid}
use pingachock.Store.Triple.{Triple-stmt, Triple->>=, transaction-Keeps, Triple, Keeps, SqlPost}
use pingachock.Store.Runs.{
  queued_run, run_id, has_node, has_check, run_ids, is_open, insert_run, create_check_runs,
  insert_runs, is_errored, is_done, check_id, check_ids, is_pending, run_check,
}
use pingachock.Store.Finish.{count_runs}
use pingachock.Store.Lifecycle.Cancel.{absent_not_id}

count_runs-absent :
    (p : RunStatus → Bool) (u : Uuid) (cids : List Uuid) (rs : List CheckRun)
    → member u cids ≡ false
    → All (λ c. member c cids ≡ true) (map run_check rs)
    → count_runs p u rs ≡ 0
count_runs-absent p u cids [] m h = refl
count_runs-absent p u cids (r ∷ rs) m h =
    ground (arith, ==_iff r.check_id u, count_runs-absent p u cids rs m h.1)

member-append_one :
    (x u : Uuid) (xs : List Uuid)
    → member x xs ≡ false
    → (x == u) ≡ false
    → member x (xs ++ (u ∷ [])) ≡ false
member-append_one x u [] m h = ground arith
member-append_one x u (y ∷ ys) m h = ground (arith, member-append_one x u ys)

pub Unique-append :
    (u : Uuid) (xs : List Uuid) → member u xs ≡ false → Unique xs → Unique (xs ++ (u ∷ []))
Unique-append u [] m h = (refl, tt)
Unique-append u (x ∷ xs) m h =
    (member-append_one x u xs h.0 (ground arith), Unique-append u xs (ground arith) h.1)

pub member-append_grow :
    (a u : Uuid) (xs : List Uuid) → member a xs ≡ true → member a (xs ++ (u ∷ [])) ≡ true
member-append_grow a u [] h = cc
member-append_grow a u (x ∷ xs) h = ground (arith, member-append_grow a u xs)

pub map-append_one :
    {A : Type 0} (g : A → Uuid) (xs : List A) (x : A)
    → map g (xs ++ (x ∷ [])) ≡ map g xs ++ (g x ∷ [])
map-append_one g [] x = refl
map-append_one g (y ∷ ys) x = ap (λ t. g y ∷ t) (map-append_one g ys x)

pub All-append_one :
    {A : Type 0} (P : A → Type 0) (xs : List A) (x : A) → All P xs → P x → All P (xs ++ (x ∷ []))
All-append_one P [] x h p = (p, tt)
All-append_one P (y ∷ ys) x h p = (h.0, All-append_one P ys x h.1 p)

-- The check `c` stands in the table as pending: that is when runs may be added to it.
abbrev pub IsFresh : Uuid → Db → Type 0
IsFresh cid d = All (λ c. (c.id == cid) ≡ true → is_pending c.status ≡ true) d.checks

pub insert_check-IsValid :
    (p : CreateCheckParams) (u : Uuid) (now : Time) (d : Db)
    → IsValid d
    → SqlPost (λ c d'. IsValid d' × IsFresh c.id d') (insert_check p u now d)
insert_check-IsValid p u now d v = elim (Bool-cases (member u (check_ids d.checks))) [
  | inl taken ↦ rw taken tt
  | inr new ↦ elim (Bool-cases (has_account d p.account_id)) [
    | inr stranger ↦ rw (new, stranger) tt
    | inl known ↦
        rw (new, known)
          (
            record {
              keyed = rw (map-append_one check_id d.checks (new_check p u now)) record {
                unique_runs = v.keyed.unique_runs;
                unique_checks = Unique-append u (check_ids d.checks) new v.keyed.unique_checks;
                referenced =
                    All-imp _ _ (map run_check d.runs)
                      (λ c. member-append_grow c u (check_ids d.checks)) v.keyed.referenced;
              };
              agreeing =
                  All-append_one (Agrees d.runs) d.checks (new_check p u now) v.agreeing (λ z.
                    rw
                      (
                        count_runs-absent is_done u _ d.runs new v.keyed.referenced,
                        count_runs-absent is_errored u _ d.runs new v.keyed.referenced,
                      )
                      (omega arith));
            },
            All-append_one _ d.checks (new_check p u now)
                (All-imp (λ c. (c.id == u) ≡ false) _ d.checks (λ c f t. cc)
                  (absent_not_id u d.checks new))
                (λ _. refl),
          )
  ]
]

count_runs-append_one :
    (p : RunStatus → Bool) (cid : Uuid) (rs : List CheckRun) (r : CheckRun)
    → count_runs p cid (rs ++ (r ∷ []))
      ≡ count_runs p cid rs + (if r.check_id == cid && p r.status then 1 else 0)
count_runs-append_one p cid [] r = omega arith
count_runs-append_one p cid (x ∷ rs) r = omega (arith, count_runs-append_one p cid rs r)

pending_agrees :
    (st : CheckStatus) (o f e : ℕ) → is_pending st ≡ true → 0 < o → StatusAgrees st o f e
pending_agrees CheckStatus.pending o f e h z = λ n. absurd (omega arith)
pending_agrees CheckStatus.running o f e h z = cc
pending_agrees CheckStatus.completed o f e h z = cc
pending_agrees CheckStatus.partial o f e h z = cc
pending_agrees CheckStatus.failed o f e h z = cc
pending_agrees CheckStatus.cancelled o f e h z = cc

-- A new run of a pending check.
Agrees-new_run :
    (r : CheckRun) (rs : List CheckRun) (c : Check)
    → r.status ≡ RunStatus.queued
    → ((c.id == r.check_id) ≡ true → is_pending c.status ≡ true)
    → Agrees rs c
    → Agrees (rs ++ (r ∷ [])) c
Agrees-new_run r rs c q fresh a = elim (Bool-cases (r.check_id == c.id)) [
  | inl same ↦
      pending_agrees c.status _ _ _ (fresh (ground arith))
        (rw (count_runs-append_one is_open c.id rs r, same, q) (omega arith))
  | inr other ↦
      rw
        (
          count_runs-append_one is_open c.id rs r,
          count_runs-append_one is_done c.id rs r,
          count_runs-append_one is_errored c.id rs r,
          other,
          add-zero (count_runs is_open c.id rs),
          add-zero (count_runs is_done c.id rs),
          add-zero (count_runs is_errored c.id rs),
        )
        a
]

insert_run-IsValid :
    (cid nid u : Uuid) (now : Time) (d : Db)
    → IsValid d × IsFresh cid d
    → SqlPost (λ _ d'. IsValid d' × IsFresh cid d') (insert_run cid nid u now d)
insert_run-IsValid cid nid u now d (v, fresh) = elim (Bool-cases (member u (run_ids d.runs))) [
  | inl taken ↦ rw taken tt
  | inr new ↦ elim (Bool-cases (has_check d cid && has_node d nid)) [
    | inr dangling ↦ rw (new, dangling) tt
    | inl known ↦
        rw (new, known)
          (
            record {
              keyed =
                  rw
                    (
                      map-append_one run_id d.runs (queued_run cid nid u now),
                      map-append_one run_check d.runs (queued_run cid nid u now),
                    )
                    record {
                      unique_runs = Unique-append u (run_ids d.runs) new v.keyed.unique_runs;
                      unique_checks = v.keyed.unique_checks;
                      referenced =
                          All-append_one (λ c. member c (check_ids d.checks) ≡ true)
                            (map run_check d.runs) cid v.keyed.referenced (ground arith);
                    };
              agreeing =
                  All-imp _ (Agrees (d.runs ++ (queued_run cid nid u now ∷ []))) d.checks
                    (λ c h. Agrees-new_run (queued_run cid nid u now) d.runs c refl h.1 h.0)
                    (All-zip (Agrees d.runs) _ d.checks v.agreeing fresh);
            },
            fresh,
          )
  ]
]

insert_runs-Triple :
    (cid : Uuid) (nids : List Uuid)
    → Triple
        (λ d. IsValid d × IsFresh cid d)
        (insert_runs cid nids)
        (λ _ d. IsValid d × IsFresh cid d)
unfolding insert_runs
insert_runs-Triple cid [] = λ w h. h
insert_runs-Triple cid (nid ∷ nids) =
    Triple->>= _ (λ _ d. IsValid d × IsFresh cid d) (λ _ d. IsValid d × IsFresh cid d) _ _
      (Triple-stmt _ _ _ (insert_run-IsValid cid nid))
      (λ r.
        Triple->>= _ (λ _ d. IsValid d × IsFresh cid d) (λ _ d. IsValid d × IsFresh cid d) _ _
          (insert_runs-Triple cid nids) (λ rs w h. h))

-- Adding runs to a check that is pending keeps the invariant, and the check pending.
pub create_check_runs-IsValid :
    (cid : Uuid) (nids : List Uuid)
    → Keeps (λ d. IsValid d × IsFresh cid d) (create_check_runs cid nids)
unfolding create_check_runs
create_check_runs-IsValid cid [] = λ w h. h
create_check_runs-IsValid cid (nid ∷ nids) =
    transaction-Keeps (λ d. IsValid d × IsFresh cid d) _ (insert_runs-Triple cid (nid ∷ nids))
