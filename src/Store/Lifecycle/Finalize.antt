-- ===== src/Store/Lifecycle/Finalize.antt =====
-- internal/store/check_runs.go: finalizeCheckStatusTx and the agreement of a check with its runs.
use pingachock.Store.Lifecycle.{
  IsKeyed-update_checks, IsSettled-of_agrees, IsValidExcept, AgreesExcept, Agrees, IsSettled,
  StatusAgrees,
}
use pingachock.Store.Lifecycle.Counting.{IsEnding}
use pingachock.Store.Finish.{
  set_final, select_counts, finalize_check_status, finish_check, finish_run, count_runs,
  final_status,
}
use pingachock.Store.Models.{Check, CheckRun, Time, CheckStatus, Uuid, RunStatus}
use pingachock.Base.{
  All-update_where, ltb→lt, All-imp, ltb, if◌then◌else◌, inr, ==_iff, inl, true, not, Bool-cases,
  ◌&&◌, member, ◌∷◌, ◌==◌, refl, false, ◌≡◌, arith, ◌<◌, ℕ, List,
}
use pingachock.Store.Runs.{is_cancelled, is_errored, is_done, is_open}
use pingachock.Store.Triple.{Triple-stmt, SqlPost, Triple->>=, Triple}
use pingachock.Store.Db.{pure, stmt, M, Db}

pub finish_run-IsEnding :
    (st : RunStatus) (now : Time) → is_open st ≡ false → IsEnding (finish_run st now)
finish_run-IsEnding st now h = record {
  same_id = λ r. refl;
  same_check = λ r. refl;
  ended = λ r. h;
}

-- A status derived from the counts agrees with them.
final_status_agrees : (d e : ℕ) → StatusAgrees (final_status d e) 0 d e
unfolding final_status
final_status_agrees d e = elim (Bool-cases (e == 0)) [
  | inl clean ↦ rw clean (refl, ground arith)
  | inr errors ↦ elim (Bool-cases (d == 0)) [
    | inl nothing ↦ rw (errors, nothing) (refl, ground arith, ground arith)
    | inr some_done ↦ rw (errors, some_done) (refl, ground arith, ground arith)
  ]
]

-- With an open run the derivation is left for later, and the status is right as it stands.
agrees_while_open : (st : CheckStatus) (o f e : ℕ) → 0 < o → IsSettled st o → StatusAgrees st o f e
agrees_while_open CheckStatus.pending o f e h s = λ z. absurd (omega arith)
agrees_while_open CheckStatus.running o f e h s = λ z. absurd (omega arith)
agrees_while_open CheckStatus.completed o f e h s = absurd (omega arith)
agrees_while_open CheckStatus.partial o f e h s = absurd (omega arith)
agrees_while_open CheckStatus.failed o f e h s = absurd (omega arith)
agrees_while_open CheckStatus.cancelled o f e h s = absurd (omega arith)

pub cancelled_agrees :
    (st : CheckStatus) (o f e : ℕ) → is_cancelled st ≡ true → o ≡ 0 → StatusAgrees st o f e
cancelled_agrees CheckStatus.cancelled o f e h z = z
cancelled_agrees CheckStatus.pending o f e h z = cc
cancelled_agrees CheckStatus.running o f e h z = cc
cancelled_agrees CheckStatus.completed o f e h z = cc
cancelled_agrees CheckStatus.partial o f e h z = cc
cancelled_agrees CheckStatus.failed o f e h z = cc

-- Where `finalize_check_status cid` writes nothing.
skip_open :
    (cid : Uuid) (cids : List Uuid) (rs : List CheckRun) (c : Check)
    → 0 < count_runs is_open cid rs
    → AgreesExcept (cid ∷ cids) rs c
    → AgreesExcept cids rs c
skip_open cid cids rs c o h = (h.0, agree)
  where
    agree : member c.id cids ≡ false → Agrees rs c
    agree out = elim (Bool-cases (cid == c.id)) [
      | inl same ↦ agrees_while_open c.status _ _ _ (rw (← (==_iff cid c.id).0 same) o) h.0
      | inr other ↦ h.1 (rw (other, out))
    ]

module _ (cid : Uuid) (cids : List Uuid) (rs : List CheckRun) (now : Time)
    (none_open : count_runs is_open cid rs ≡ 0) where
  abbrev derived : CheckStatus
  derived = final_status (count_runs is_done cid rs) (count_runs is_errored cid rs)

  finished-Agrees : (c : Check) → c.id ≡ cid → Agrees rs (finish_check derived now c)
  finished-Agrees c e = rw (e, none_open) (final_status_agrees _ _)

  -- A check that `finalize_check_status cid` writes.
  write_final :
      (c : Check)
      → (c.id == cid && not (is_cancelled c.status)) ≡ true
      → AgreesExcept (cid ∷ cids) rs c
      → AgreesExcept cids rs (finish_check derived now c)
  write_final c w h =
      (IsSettled-of_agrees derived _ _ _ (finished-Agrees c e), λ _. finished-Agrees c e)
    where
      e : c.id ≡ cid
      e = ground arith

  -- A check that it leaves alone: another one, or a cancelled one.
  keep_other :
      (c : Check)
      → (c.id == cid && not (is_cancelled c.status)) ≡ false
      → AgreesExcept (cid ∷ cids) rs c
      → AgreesExcept cids rs c
  keep_other c w h = (h.0, agree)
    where
      agree : member c.id cids ≡ false → Agrees rs c
      agree out = elim (Bool-cases (cid == c.id)) [
        | inl same ↦
            let e : cid ≡ c.id = (==_iff cid c.id).0 same in
            cancelled_agrees c.status _ _ _ (ground arith) (rw (← e) none_open)
        | inr other ↦ h.1 (rw (other, out))
      ]

-- The counts that `select_counts` returns.
abbrev CountsOf : Uuid → ℕ × ℕ × ℕ → Db → Type 0
CountsOf cid n d =
    (n.0 ≡ count_runs is_open cid d.runs)
    × (n.1 ≡ count_runs is_done cid d.runs)
    × (n.2 ≡ count_runs is_errored cid d.runs)

abbrev write_or_skip : Uuid → ℕ × ℕ × ℕ → M (Unit {0})
write_or_skip cid n = if ltb 0 n.0 then pure tt else stmt (set_final cid (final_status n.1 n.2))

set_final-IsValidExcept :
    (cid : Uuid) (cids : List Uuid) (n : ℕ × ℕ × ℕ) (u : Uuid) (now : Time) (d : Db)
    → ltb 0 n.0 ≡ false
    → IsValidExcept (cid ∷ cids) d × CountsOf cid n d
    → SqlPost (λ _. IsValidExcept cids) (set_final cid (final_status n.1 n.2) u now d)
set_final-IsValidExcept cid cids n u now d shut (v, e) =
    rw (e.1, e.2)
      record {
        keyed = IsKeyed-update_checks d _ _ (λ c. refl) v.keyed;
        agreeing =
            All-update_where (AgreesExcept (cid ∷ cids) d.runs) (AgreesExcept cids d.runs) _ _
              d.checks (write_final cid cids d.runs now z) (keep_other cid cids d.runs now z)
              v.agreeing;
      }
  where
    z : count_runs is_open cid d.runs ≡ 0
    z = ground arith

write_or_skip-Triple :
    (cid : Uuid) (cids : List Uuid) (n : ℕ × ℕ × ℕ)
    → Triple
        (λ d. IsValidExcept (cid ∷ cids) d × CountsOf cid n d)
        (write_or_skip cid n)
        (λ _. IsValidExcept cids)
write_or_skip-Triple cid cids n = elim (Bool-cases (ltb 0 n.0)) [
  | inl more ↦ rw more (λ w p. record {
    keyed = p.0.keyed;
    agreeing =
        All-imp (AgreesExcept (cid ∷ cids) w.db.runs) (AgreesExcept cids w.db.runs) w.db.checks
          (λ c. skip_open cid cids w.db.runs c (rw (← p.1.0) (ltb→lt 0 n.0 more))) p.0.agreeing;
  })
  | inr shut ↦ rw shut (
      Triple-stmt _ _ (λ _. IsValidExcept cids)
        (λ u now d p. set_final-IsValidExcept cid cids n u now d shut p))
]

pub finalize_check_status-Triple :
    (cid : Uuid) (cids : List Uuid)
    → Triple (IsValidExcept (cid ∷ cids)) (finalize_check_status cid) (λ _. IsValidExcept cids)
unfolding finalize_check_status
finalize_check_status-Triple cid cids =
    Triple->>= (IsValidExcept (cid ∷ cids)) (λ n d. IsValidExcept (cid ∷ cids) d × CountsOf cid n d)
      (λ _. IsValidExcept cids) (stmt (select_counts cid)) (write_or_skip cid)
      (Triple-stmt _ _ _ (λ u now d v. (v, (refl, refl, refl)))) (write_or_skip-Triple cid cids)
