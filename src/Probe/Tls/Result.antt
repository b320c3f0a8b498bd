-- ===== src/Probe/Tls/Result.antt =====
-- internal/checks/tls.go: the result of a TLS check, success and failure.
use pingachock.Base.{
  ◌&&◌, if◌then◌else◌, ◌||◌, str_eq, zero, inl, inr, ◌+◌, some, none, suc, ◌/◌, ltb→lt, inl,
  Bool-cases, ltb, arith, ◌⊎◌, false, refl, ◌≤◌, ◌==◌, some, ◌<◌, none, String, is_some, true, ◌≡◌,
  Option, Bool, ℕ,
}
use pingachock.Probe.Tls.{
  classify_unreachable, choose_sni, attempts_on, Handshake, no_attempts, attempt_from, error_of,
  error_if_any, TlsParams, tls_result, run_tls, Tally,
}
use pingachock.Store.Models.{Json}
use pingachock.Probe.{CheckResult}
use pingachock.Probe.Address.{classify_net_error, NetError}
use pingachock.Probe.Tls.Laws.{
  attempt_from-succeeded, attempt_from-IsTally, attempt_from-Explained_after, average-bounds,
  any_shaken, Between, Explained, IsTally,
}
use pingachock.Base.Int.{negsuc, pos, ℤ, or_default}
use pingachock.Probe.Connect.{address_of, Net}

-- The two classes of errors that leave open whether the host or the port is silent.
abbrev pub is_ambiguous : String → Bool
is_ambiguous msg = str_eq msg "timeout" || str_eq msg "connection failed"

-- A success has a latency between the fastest and the slowest handshake and no error; a failure has an
-- error, not an ambiguous one unless the check is cancelled, and no latency.
abbrev pub IsSettled : Bool → ℕ → ℕ → CheckResult → Type 0
IsSettled cancelled_after lo hi r =
    ((r.success ≡ true)
      × (r.error_message ≡ none)
      × ((ms : ℕ) × (r.latency_ms ≡ some ms) × (lo ≤ ms) × (ms ≤ hi)))
    ⊎ ((r.success ≡ false)
        × (r.latency_ms ≡ none)
        × ((msg : String) × (r.error_message ≡ some msg)
            × (cancelled_after ≡ false → is_ambiguous msg ≡ false)))

told_apart :
    (b : Bool) (replies : ℕ) (msg : String)
    → is_ambiguous msg ≡ b
    → is_ambiguous (if b && true then classify_unreachable replies else msg) ≡ false
unfolding classify_unreachable
told_apart false replies msg e = e
told_apart true replies msg e = elim (Bool-cases (ltb 0 replies)) [
  | inl answers ↦ rw answers refl
  | inr silent ↦ rw silent refl
]

-- A ping tells the two reasons of an ambiguous error apart, unless the check is cancelled.
error_of-told_apart :
    (cancelled : Bool) (replies : ℕ) (e : NetError)
    → cancelled ≡ false
    → is_ambiguous (error_of cancelled replies e) ≡ false
unfolding error_of
error_of-told_apart true replies e h = absurd (cc)
error_of-told_apart false replies e h =
    told_apart (is_ambiguous (classify_net_error (some e))) replies (classify_net_error (some e))
      refl

error_if_any-some :
    (cancelled : Bool) (replies : ℕ) (o : Option NetError)
    → is_some o ≡ true
    → (msg : String) × (error_if_any cancelled replies o ≡ some msg)
      × (cancelled ≡ false → is_ambiguous msg ≡ false)
error_if_any-some cancelled replies none h = absurd (cc)
error_if_any-some cancelled replies (some e) h =
    (error_of cancelled replies e, refl, λ a. error_of-told_apart cancelled replies e a)

module _ (raw : Tally → Json) (cancelled_after : Bool) (replies lo hi : ℕ) where
  tls_result-IsSettled :
      (rounds : ℕ) (t : Tally)
      → IsTally lo hi rounds t
      → Explained t
      → IsSettled cancelled_after lo hi (tls_result raw cancelled_after replies t)
  unfolding tls_result
  tls_result-IsSettled rounds t h explained = elim (Bool-cases (ltb 0 t.succeeded)) [
    | inl e ↦
        let p = ltb→lt 0 t.succeeded e in
        inl (
          e,
          rw (positive_ne t.succeeded p) refl,
          (
            t.total_ms / t.succeeded,
            rw e refl,
            (average-bounds lo hi t.total_ms t.succeeded p h.at_least h.at_most).0,
            (average-bounds lo hi t.total_ms t.succeeded p h.at_least h.at_most).1,
          ),
        )
    | inr e ↦
        let z = not_positive_eq t.succeeded e in
        let (msg, m, apart) =
          error_if_any-some cancelled_after replies t.last_error (explained z) in
        inr (e, rw e refl, (msg, rw (zero_eq t.succeeded z) m, apart))
  ]
    where
      positive_ne : (n : ℕ) → 0 < n → (n == 0) ≡ false
      positive_ne n p = ground arith

      zero_eq : (n : ℕ) → n ≡ 0 → (n == 0) ≡ true
      zero_eq n p = ground arith

      not_positive_eq : (n : ℕ) → ltb 0 n ≡ false → n ≡ 0
      not_positive_eq n e = ground arith

-- Where every handshake takes between `lo` and `hi` milliseconds: a TLS check succeeds exactly when one
-- of its attempts does before it is cancelled, and then reports no error and a latency between these
-- two; otherwise it reports no latency and an error, and unless the check is cancelled this says neither
-- "timeout" nor "connection failed", which leave open whether the host or the port is silent.
pub run_tls-IsSettled :
    (raw : Tally → String → String → Json) (cancelled : ℕ → Option NetError) (handshake : Handshake)
    (cancelled_after : Bool) (replies : String → ℕ) (net : Net) (p : TlsParams) (target : String)
    (lo hi : ℕ)
    → ((i : ℕ) → Between lo hi (attempts_on handshake net p target i))
    → IsSettled cancelled_after lo hi
        (run_tls raw cancelled handshake cancelled_after replies net p target)
      × ((run_tls raw cancelled handshake cancelled_after replies net p target).success
          ≡ any_shaken cancelled (attempts_on handshake net p target) (or_default p.count 3) 0)
unfolding run_tls
run_tls-IsSettled raw cancelled handshake cancelled_after replies net p target lo hi b =
    let attempt = attempts_on handshake net p target in
    (
      tls_result-IsSettled
          (λ t. raw t (choose_sni net.is_ip target p.sni) (address_of net target).1) cancelled_after
          (replies (address_of net target).0) lo hi (or_default p.count 3 + 0) _
          (attempt_from-IsTally cancelled attempt lo hi b (or_default p.count 3) 0 0 no_attempts
            (record {
              made = omega arith;
              fits = omega arith;
              at_least = omega arith;
              at_most = omega arith;
              explained = λ h. absurd (omega arith);
            }))
          (explained_after (or_default p.count 3) (default_positive p.count)),
      attempt_from-succeeded cancelled attempt (or_default p.count 3) 0 no_attempts,
    )
  where
    default_positive : (n : ℤ) → 0 < or_default n 3
    default_positive (pos n) = ground arith
    default_positive (negsuc n) = omega arith

    explained_after :
        (rounds : ℕ)
        → 0 < rounds
        → Explained
            (attempt_from cancelled (attempts_on handshake net p target) rounds 0 no_attempts)
    explained_after zero h = absurd (omega arith)
    explained_after (suc rounds) h =
        attempt_from-Explained_after cancelled (attempts_on handshake net p target) rounds 0
          no_attempts
