-- ===== src/Server/Outcome.antt =====
-- The status that a client sees of a check whose runs have all ended.
-- The status says what the counts of runs decide.
use pingachock.Store.Db.{Db, World}
use pingachock.Store.Finish.{count_runs, final_status}
use pingachock.Store.Models.{Check, CheckStatus}
use pingachock.Base.{refl, inr, All-imp, inl, arith, ◌+◌, ◌⊎◌, ◌<◌, ◌≡◌, All, ℕ}
use pingachock.Server.{ReachedInTurn-IsValid, ReachedInTurn}
use pingachock.Store.Lifecycle.{Agrees, StatusAgrees}
use pingachock.Store.Runs.{is_errored, is_done, is_open}

abbrev pub IsDecided : CheckStatus → ℕ → ℕ → Type 0
IsDecided st finished errored = (st ≡ final_status finished errored) ⊎ (st ≡ CheckStatus.cancelled)

IsDecided-of_agrees :
    (st : CheckStatus) (o f e : ℕ) → StatusAgrees st o f e → o ≡ 0 → 0 < f + e → IsDecided st f e
unfolding final_status
IsDecided-of_agrees CheckStatus.pending o f e a z p = absurd (omega (arith, a z))
IsDecided-of_agrees CheckStatus.running o f e a z p = absurd (omega (arith, a z))
IsDecided-of_agrees CheckStatus.completed o f e a z p = inl (ground (arith, a.1))
IsDecided-of_agrees CheckStatus.partial o f e a z p = inl (ground (arith, a.1, a.2))
IsDecided-of_agrees CheckStatus.failed o f e a z p = inl (ground (arith, a.1, a.2))
IsDecided-of_agrees CheckStatus.cancelled o f e a z p = inr refl

-- Every check that has ended runs and no open one has the status that they decide.
abbrev pub AreDecided : Db → Type 0
AreDecided d =
    All
      (λ (c : Check).
        count_runs is_open c.id d.runs ≡ 0
        → 0 < count_runs is_done c.id d.runs + count_runs is_errored c.id d.runs
        → IsDecided c.status (count_runs is_done c.id d.runs) (count_runs is_errored c.id d.runs))
      d.checks

-- In every state that the backend gets to from empty tables by requests and loops that take turns, none
-- starting before the one before it has ended, a check that has ended runs and no open one has the
-- status that its runs decide (completed, failed or partial), or was cancelled. Where two reports
-- overlap this may fail, since finalizeCheckStatusTx does not lock the check.
pub ReachedInTurn-AreDecided : {w : World} → ReachedInTurn w → AreDecided w.db
ReachedInTurn-AreDecided {w = w} r =
    All-imp (Agrees w.db.runs) _ w.db.checks (λ c a. IsDecided-of_agrees c.status _ _ _ a)
      (ReachedInTurn-IsValid r).agreeing
