-- ===== src/Probe/Tls/Laws.antt =====
-- internal/checks/tls.go: the counters of a TLS check and the result made of them.
use native.Mathlib.Nat.{div-lt_iff_lt-mul, le-div_iff_mul-le}
use pingachock.Base.{
  inr, ◌∙◌, zero, inl, none, ◌&&◌, ◌||◌, some, Option-cases, or_else, not, ltb, false, ◌+◌, ◌/◌,
  Bool, Option, refl, true, ◌≡◌, is_some, ◌<◌, ◌*◌, arith, suc, ◌≤◌, ℕ,
}
use pingachock.Probe.Tls.{attempt_from, interrupted, broken, shaken, Tally, Attempt, note}
use pingachock.Probe.Address.{NetError}

-- The counters agree, and the total lies between as many times the least and the greatest handshake.
pub record IsTally (lo hi rounds : ℕ) (t : Tally) : Type 0 where
  pub made : t.attempts ≤ rounds
  pub fits : t.succeeded ≤ t.attempts
  pub at_least : lo * t.succeeded ≤ t.total_ms
  pub at_most : t.total_ms ≤ hi * t.succeeded
  pub explained : t.succeeded < t.attempts → is_some t.last_error ≡ true

-- Every handshake that succeeds takes at least `lo` and at most `hi` milliseconds.
abbrev pub Between : ℕ → ℕ → Attempt → Type 0
Between lo hi (broken e) = Unit
Between lo hi (shaken ms) = (lo ≤ ms) × (ms ≤ hi)

note-IsTally :
    (lo hi rounds : ℕ) (a : Attempt) (t : Tally)
    → Between lo hi a
    → IsTally lo hi rounds t
    → IsTally lo hi (suc rounds) (note a t)
unfolding note
note-IsTally lo hi rounds (broken e) t b h = record {
  made = omega (arith, h.made);
  fits = omega (arith, h.fits);
  at_least = h.at_least;
  at_most = h.at_most;
  explained = λ _. refl;
}
note-IsTally lo hi rounds (shaken ms) t b h = record {
  made = omega (arith, h.made);
  fits = omega (arith, h.fits);
  at_least = grind (arith, h.at_least, b.0);
  at_most = grind (arith, h.at_most, b.1);
  explained = λ less. h.explained (omega arith);
}

pub average-bounds :
    (lo hi total n : ℕ)
    → 0 < n
    → lo * n ≤ total
    → total ≤ hi * n
    → (lo ≤ total / n) × (total / n ≤ hi)
average-bounds lo hi total n p at_least at_most =
    let below = (div-lt_iff_lt-mul {x = total} {y = hi + 1} p).1 (less hi total n p at_most) in
    ((le-div_iff_mul-le p).1 at_least, omega arith)
  where
    less : (hi total n : ℕ) → 0 < n → total ≤ hi * n → total < (hi + 1) * n
    less hi total n p h = grind arith

-- A check that counts no success has an error to report.
abbrev pub Explained : Tally → Type 0
Explained t = t.succeeded ≡ 0 → is_some t.last_error ≡ true

note-Explained : (a : Attempt) (t : Tally) → Explained (note a t)
unfolding note
note-Explained (broken e) t = λ _. refl
note-Explained (shaken ms) t = λ h. absurd (omega arith)

interrupted-Explained : (e : NetError) (t : Tally) → Explained (interrupted e t)
unfolding interrupted
interrupted-Explained e t = λ _. some_last t.last_error
  where
    some_last : (o : Option NetError) → is_some (or_else o (some e)) ≡ true
    some_last none = refl
    some_last (some x) = refl

interrupted-IsTally :
    (lo hi rounds : ℕ) (e : NetError) (t : Tally)
    → IsTally lo hi rounds t
    → IsTally lo hi rounds (interrupted e t)
unfolding interrupted
interrupted-IsTally lo hi rounds e t h = record {
  made = h.made;
  fits = h.fits;
  at_least = h.at_least;
  at_most = h.at_most;
  explained = λ _. some_last t.last_error;
}
  where
    some_last : (o : Option NetError) → is_some (or_else o (some e)) ≡ true
    some_last none = refl
    some_last (some x) = refl

-- A tally of fewer rounds is one of more.
IsTally-mono : (lo hi m n : ℕ) (t : Tally) → m ≤ n → IsTally lo hi m t → IsTally lo hi n t
IsTally-mono lo hi m n t le h = record {
  made = omega (arith, h.made);
  fits = h.fits;
  at_least = h.at_least;
  at_most = h.at_most;
  explained = h.explained;
}

abbrev pub is_shaken : Attempt → Bool
is_shaken (broken e) = false
is_shaken (shaken ms) = true

module _ (cancelled : ℕ → Option NetError) (handshake : ℕ → Attempt) where
  -- Whether one of the attempts from the index on succeeds, before the check is cancelled.
  pub any_shaken : ℕ → ℕ → Bool
  any_shaken zero i = false
  any_shaken (suc rounds) i =
      not (is_some (cancelled i)) && (is_shaken (handshake i) || any_shaken rounds (suc i))

  pub attempt_from-Explained :
      (rounds i : ℕ) (t : Tally)
      → Explained t
      → Explained (attempt_from cancelled handshake rounds i t)
  unfolding attempt_from
  attempt_from-Explained zero i t h = h
  attempt_from-Explained (suc rounds) i t h = elim (Option-cases (cancelled i)) [
    | inl e ↦ rw e (
        attempt_from-Explained rounds (suc i) (note (handshake i) t)
          (note-Explained (handshake i) t))
    | inr (x, e) ↦ rw e (interrupted-Explained x t)
  ]

  -- After a round there is an error to report, or a success.
  pub attempt_from-Explained_after :
      (rounds i : ℕ) (t : Tally) → Explained (attempt_from cancelled handshake (suc rounds) i t)
  unfolding attempt_from
  attempt_from-Explained_after rounds i t = elim (Option-cases (cancelled i)) [
    | inl e ↦ rw e (
        attempt_from-Explained rounds (suc i) (note (handshake i) t)
          (note-Explained (handshake i) t))
    | inr (x, e) ↦ rw e (interrupted-Explained x t)
  ]

  pub attempt_from-IsTally :
      (lo hi : ℕ)
      → ((i : ℕ) → Between lo hi (handshake i))
      → (rounds i done : ℕ) (t : Tally) → IsTally lo hi done t
      → IsTally lo hi (rounds + done) (attempt_from cancelled handshake rounds i t)
  unfolding attempt_from
  attempt_from-IsTally lo hi b zero i done t h =
      IsTally-mono lo hi done (0 + done) t (omega arith) h
  attempt_from-IsTally lo hi b (suc rounds) i done t h = elim (Option-cases (cancelled i)) [
    | inl e ↦ rw e (
        IsTally-mono lo hi (rounds + suc done) (suc rounds + done) _ (omega arith) (
          attempt_from-IsTally lo hi b rounds (suc i) (suc done) (note (handshake i) t)
            (note-IsTally lo hi done (handshake i) t (b i) h)))
    | inr (x, e) ↦ rw e (
        IsTally-mono lo hi done (suc rounds + done) _ (omega arith)
          (interrupted-IsTally lo hi done x t h))
  ]

  note-succeeded :
      (a : Attempt) (t : Tally) → ltb 0 (note a t).succeeded ≡ (ltb 0 t.succeeded || is_shaken a)
  unfolding note
  note-succeeded (broken e) t = ground arith
  note-succeeded (shaken ms) t = ground arith

  pub attempt_from-succeeded :
      (rounds i : ℕ) (t : Tally)
      → ltb 0 (attempt_from cancelled handshake rounds i t).succeeded
        ≡ (ltb 0 t.succeeded || any_shaken rounds i)
  unfolding attempt_from any_shaken interrupted
  attempt_from-succeeded zero i t = ground arith
  attempt_from-succeeded (suc rounds) i t = elim (Option-cases (cancelled i)) [
    | inl e ↦ rw e (
        attempt_from-succeeded rounds (suc i) (note (handshake i) t)
        ∙ rw (note-succeeded (handshake i) t) (ground arith))
    | inr (x, e) ↦ rw e (ground arith)
  ]
