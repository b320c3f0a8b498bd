-- ===== src/Agent/Failover/Laws.antt =====
-- Which transport the calls of a process use.
use pingachock.Agent.Failover.{
  mark_failed, calls, unanswered, call_current, new_failover, current, answered, Failover, Which,
  mark_failed, calls, Answer, after_answer,
}
use pingachock.Base.{
  inr, inl, Bool-cases, ◌&&◌, ap, [], refl, map, ◌≡◌, true, ◌∷◌, false, Bool, List, if◌then◌else◌,
}

abbrev pub is_failed : {A : Type 0} → Answer A → Bool
is_failed (answered a) = false
is_failed (unanswered e) = true

-- The primary up to and with its first failure, the fallback from then on.
abbrev pub until_failure : {A : Type 0} → List (Which → Answer A) → List Which
until_failure [] = []
until_failure (send ∷ sends) =
    let rest = until_failure sends in
    Which.primary
    ∷ (if is_failed (send Which.primary) then map (λ _. Which.fallback) sends else rest)

abbrev state_of : Bool → Bool → Failover
state_of has switched = record { has_fallback = has; use_fallback = switched }

module _ {A : Type 0} where
  switched_stays :
      (r : Answer A) → after_answer (state_of true true) Which.fallback r ≡ state_of true true
  unfolding after_answer mark_failed
  switched_stays (answered a) = refl
  switched_stays (unanswered e) = refl

  calls-switched :
      (sends : List (Which → Answer A))
      → calls sends (state_of true true) ≡ map (λ _. Which.fallback) sends
  unfolding calls call_current current
  calls-switched [] = refl
  calls-switched (send ∷ sends) =
      rw (switched_stays (send Which.fallback))
        (ap (λ ws. Which.fallback ∷ ws) (calls-switched sends))

  first_call :
      (has : Bool) (r : Answer A)
      → after_answer (state_of has false) Which.primary r ≡ state_of has (has && is_failed r)
  unfolding after_answer mark_failed
  first_call true (answered a) = refl
  first_call true (unanswered e) = refl
  first_call false (answered a) = refl
  first_call false (unanswered e) = refl

  -- With a fallback, a process uses the direct transport up to and with its first failure and the
  -- fronted one from then on, whatever happens there; it never goes back.
  pub calls-until_failure :
      (sends : List (Which → Answer A)) → calls sends (new_failover true) ≡ until_failure sends
  unfolding calls call_current current
  calls-until_failure [] = refl
  calls-until_failure (send ∷ sends) =
      rw (first_call true (send Which.primary))
        (elim (Bool-cases (is_failed (send Which.primary))) [
          | inl broken ↦ rw broken (ap (λ ws. Which.primary ∷ ws) (calls-switched sends))
          | inr fine ↦ rw fine (ap (λ ws. Which.primary ∷ ws) (calls-until_failure sends))
        ])

  -- Without one, every call uses the direct transport.
  pub calls-no_fallback :
      (sends : List (Which → Answer A))
      → calls sends (new_failover false) ≡ map (λ _. Which.primary) sends
  unfolding calls call_current current
  calls-no_fallback [] = refl
  calls-no_fallback (send ∷ sends) =
      rw (first_call false (send Which.primary))
        (ap (λ ws. Which.primary ∷ ws) (calls-no_fallback sends))
