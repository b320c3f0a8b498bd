-- ===== src/Probe/Coherent.antt =====
-- internal/checks: what the result of every kind of probe says about itself.
use pingachock.Probe.{CheckResult}
use pingachock.Probe.Connect.{
  url_of, address_of, TcpParams, answered, HttpParams, no_answer, Dial, Net, http_result, run_http,
  not_made, HttpAnswer, run_tcp, dialled, is_expected,
}
use pingachock.Base.{
  zero, suc, ==_iff, sym, ap, suc, ltb→lt, arith, ltb, refl, ◌≢◌, is_empty_str, some, false,
  if◌then◌else◌, ◌<◌, is_none, is_some, none, Bool, ◌↔◌, true, Option, String, ◌≡◌, ℕ, Bytes,
}
use pingachock.Base.Int.{negsuc, or_default, pos, ℤ}
use pingachock.Store.Models.{Json}
use pingachock.Probe.Address.{NetError}

-- A success reports no error and how long it took; a failure with a status or an error is no success.
abbrev pub IsCoherent : CheckResult → Type 0
IsCoherent r =
    (r.success ≡ true → (r.error_message ≡ none) × (is_some r.latency_ms ≡ true))
    × (is_some r.error_message ≡ true → r.success ≡ false)

dialled-IsCoherent :
    (raw : Json) (answer : Option NetError × ℕ)
    → IsCoherent (dialled raw answer) × ((dialled raw answer).success ≡ is_none (answer.0))
unfolding dialled
dialled-IsCoherent raw (none, ms) = ((λ _. (refl, refl), λ h. cc), refl)
dialled-IsCoherent raw (some e, ms) = ((λ h. absurd (cc), λ _. refl), refl)

-- A port check succeeds exactly when the dial does, of the address that the name resolves to and of port
-- 443 where none is given, and its result is coherent.
pub run_tcp-IsCoherent :
    (raw : String → String → Json) (net : Net) (dial : Dial) (p : TcpParams) (target : String)
    → IsCoherent (run_tcp raw net dial p target)
      × ((run_tcp raw net dial p target).success
          ≡ is_none
              (dial
                (net.join_host_port (address_of net target).0 (or_default p.port 443))
                (or_default p.timeout_ms 5000)).0)
unfolding run_tcp
run_tcp-IsCoherent raw net dial p target = dialled-IsCoherent _ _

-- What an answer has to be for a URL check to succeed.
abbrev pub Meets : ℤ → HttpAnswer → Type 0
Meets expect (not_made msg) = ⊥
Meets expect (no_answer msg ms) = ⊥
Meets expect (answered s final_url ms) =
    (expect ≡ pos 0 → s < 400) × (expect ≢ pos 0 → expect ≡ pos s)

is_expected-Meets :
    (expect : ℤ) (s : ℕ)
    → (is_expected expect s ≡ true)
      ↔ ((expect ≡ pos 0 → s < 400) × (expect ≢ pos 0 → expect ≡ pos s))
unfolding is_expected
is_expected-Meets (pos zero) s =
    (λ h. (λ _. ltb→lt s 400 h, λ ne. absurd (ne refl)), λ h. below_true s (h.0 refl))
  where
    below_true : (s : ℕ) → s < 400 → ltb s 400 ≡ true
    below_true s h = ground arith
is_expected-Meets (pos (suc n)) s = (
  λ h. (λ e. absurd (cc), λ _. ap pos (sym ((==_iff s (suc n)).0 h))),
  λ h. (==_iff s (suc n)).1 (pos_inj s (suc n) (h.1 (λ e. absurd (cc)))),
)
  where
    pos_inj : (a b : ℕ) → pos b ≡ pos a → a ≡ b
    pos_inj a b e = cc
is_expected-Meets (negsuc n) s = (λ h. absurd (cc), λ h. absurd (cc (h.1 (λ e. absurd (cc)))))

module _ (raw : Bytes → Json) (itoa : ℕ → String) where
  http_result-Meets :
      (expect : ℤ) (a : HttpAnswer)
      → IsCoherent (http_result raw itoa expect a)
        × (((http_result raw itoa expect a).success ≡ true) ↔ Meets expect a)
  unfolding http_result
  http_result-Meets expect (not_made msg) =
      ((λ h. absurd (cc), λ _. refl), (λ h. cc, λ h. absurd h))
  http_result-Meets expect (no_answer msg ms) =
      ((λ h. absurd (cc), λ _. refl), (λ h. cc, λ h. absurd h))
  http_result-Meets expect (answered s final_url ms) =
      ((λ _. (refl, refl), λ h. absurd (cc)), is_expected-Meets expect s)

  -- A URL check succeeds exactly when there is an answer with the expected status, or without an
  -- expectation one with a status below 400, to the request that it makes, and its result is coherent.
  pub run_http-Meets :
      (request : String → Bytes → Bool → ℕ → HttpAnswer) (p : HttpParams) (target : Bytes)
      → IsCoherent (run_http raw itoa request p target)
        × (((run_http raw itoa request p target).success ≡ true)
            ↔ Meets p.expect_status (
                request
                  (if is_empty_str p.method then "GET" else p.method)
                  (url_of target)
                  p.follow_redirects
                  (or_default p.timeout_ms 10000)))
  unfolding run_http
  run_http-Meets request p target = http_result-Meets p.expect_status _
