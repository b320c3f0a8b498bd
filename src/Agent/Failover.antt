-- ===== src/Agent/Failover.antt =====
-- internal/transport/failover.go: the direct connection until it fails once, the fronted one from then on.
pub mod Laws
use pingachock.Base.{◌&&◌, [], true, if◌then◌else◌, ◌∷◌, false, String, Bool, List}

-- Which of the two transports is meant; they are different objects.
pub data Which : Type 0 where
  primary fallback : Which

pub record Failover : Type 0 where
  pub has_fallback : Bool
  pub use_fallback : Bool

-- `NewFailover`
abbrev pub new_failover : Bool → Failover
new_failover has = record { has_fallback = has; use_fallback = false }

-- `Failover.current`
unfoldable pub current : Failover → Which
current f = if f.use_fallback && f.has_fallback then Which.fallback else Which.primary

-- `Failover.markFailed`
unfoldable pub mark_failed : Failover → Which → Failover
mark_failed f Which.fallback = f
mark_failed f Which.primary = if f.has_fallback then record f { use_fallback = true } else f

pub data Answer (A : Type 0) : Type 0 where
  answered : A → Answer A
  unanswered : String → Answer A

unfoldable pub after_answer : {A : Type 0} → Failover → Which → Answer A → Failover
unfolding mark_failed
after_answer f used (answered a) = f
after_answer f used (unanswered e) = mark_failed f used

-- `Failover.Poll` and `Failover.PostResults`: `send` is the call of the transport that is used.
unfoldable pub call_current : {A : Type 0} → (Which → Answer A) → Failover → Answer A × Failover
unfolding current after_answer
call_current send f = (send (current f), after_answer f (current f) (send (current f)))

-- The calls of a process, one after the other, and which transport each used.
unfoldable pub calls : {A : Type 0} → List (Which → Answer A) → Failover → List Which
unfolding call_current current
calls [] f = []
calls (send ∷ sends) f = current f ∷ calls sends (call_current send f).1
