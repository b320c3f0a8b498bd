-- ===== src/Store/Lifecycle/Counting.antt =====
-- How the numbers of a check's runs move when rows of check_runs are updated.
use pingachock.Store.Lifecycle.{Agrees, AgreesExcept, IsSettled, Agrees-settled}
use pingachock.Store.Models.{Check, Uuid, CheckRun, RunStatus, CheckStatus}
use pingachock.Base.{
  ==_iff, All-imp, count_where-update_where, All-of, member, false, true, ◌&&◌, ◌==◌, ◌≡◌,
  count_where-update_where_le, update_where, arith, ◌≤◌, All, ℕ, Bool, List,
}
use pingachock.Store.Finish.{count_runs}
use pingachock.Store.Runs.{is_errored, is_done, is_open}

-- An update that ends runs: it keeps ids and checks, and leaves no run that it touches open.
pub record IsEnding (f : CheckRun → CheckRun) : Type 0 where
  pub same_id : (r : CheckRun) → (f r).id ≡ r.id
  pub same_check : (r : CheckRun) → (f r).check_id ≡ r.check_id
  pub ended : (r : CheckRun) → is_open (f r).status ≡ false

open_le :
    (q : CheckRun → Bool) (f : CheckRun → CheckRun) (cid : Uuid) (rs : List CheckRun)
    → IsEnding f
    → count_runs is_open cid (update_where q f rs) ≤ count_runs is_open cid rs
open_le q f cid rs e =
    count_where-update_where_le (λ r. r.check_id == cid && is_open r.status) q f rs
      (All-of
        (λ r.
          q r ≡ true
          → ((f r).check_id == cid && is_open (f r).status) ≡ true
          → (r.check_id == cid && is_open r.status) ≡ true)
        rs (λ r _ h. ground (arith, e.ended r)))

-- The counts of a check none of whose runs is touched.
pub count_runs-untouched :
    (p : RunStatus → Bool) (q : CheckRun → Bool) (f : CheckRun → CheckRun) (cid : Uuid)
    (rs : List CheckRun)
    → IsEnding f
    → All (λ r. q r ≡ true → (r.check_id == cid) ≡ false) rs
    → count_runs p cid (update_where q f rs) ≡ count_runs p cid rs
count_runs-untouched p q f cid rs e h =
    count_where-update_where (λ r. r.check_id == cid && p r.status) q f rs
      (All-imp _
        (λ r.
          q r ≡ true
          → ((f r).check_id == cid && p (f r).status) ≡ (r.check_id == cid && p r.status))
        rs (λ r u t. ground (arith, u t, e.same_check r)) h)

IsSettled-le : (st : CheckStatus) (m n : ℕ) → m ≤ n → IsSettled st n → IsSettled st m
IsSettled-le CheckStatus.pending m n h s = tt
IsSettled-le CheckStatus.running m n h s = tt
IsSettled-le CheckStatus.completed m n h s = omega arith
IsSettled-le CheckStatus.partial m n h s = omega arith
IsSettled-le CheckStatus.failed m n h s = omega arith
IsSettled-le CheckStatus.cancelled m n h s = omega arith

-- Ending runs of the checks `cids` keeps all but their own status right.
pub update_runs-AgreesExcept :
    (cids : List Uuid) (q : CheckRun → Bool) (f : CheckRun → CheckRun) (rs : List CheckRun)
    (c : Check)
    → IsEnding f
    → All (λ r. q r ≡ true → member r.check_id cids ≡ true) rs
    → Agrees rs c
    → AgreesExcept cids (update_where q f rs) c
update_runs-AgreesExcept cids q f rs c e h a =
    (IsSettled-le c.status _ _ (open_le q f c.id rs e) (Agrees-settled rs c a).0, agree)
  where
    apart : member c.id cids ≡ false → All (λ r. q r ≡ true → (r.check_id == c.id) ≡ false) rs
    apart out = All-imp _ _ rs (λ r u t. ground (arith, u t, ==_iff r.check_id c.id)) h

    agree : member c.id cids ≡ false → Agrees (update_where q f rs) c
    agree out =
        rw
          (
            count_runs-untouched is_open q f c.id rs e (apart out),
            count_runs-untouched is_done q f c.id rs e (apart out),
            count_runs-untouched is_errored q f c.id rs e (apart out),
          )
          a
