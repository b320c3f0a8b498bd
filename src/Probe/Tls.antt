-- ===== src/Probe/Tls.antt =====
-- internal/checks/tls.go: several TLS handshakes with one target, and what their results say.
pub mod Laws
pub mod Result
use pingachock.Base.{
  ◌==◌, ◌&&◌, ◌/◌, zero, is_empty_str, not, str_eq, suc, ltb, some, if◌then◌else◌, Option, or_else,
  ◌||◌, ℕ, String, none, Bool, ◌+◌,
}
use pingachock.Probe.Address.{resolve_ip, NetError, classify_net_error}
use pingachock.Store.Models.{Json}
use pingachock.Base.Int.{or_default, ℤ}
use pingachock.Probe.{CheckResult}
use pingachock.Probe.Connect.{address_of, Net}

pub record TlsParams : Type 0 where
  pub port : ℤ
  pub sni : String
  pub count : ℤ
  pub timeout_ms : ℤ
  pub allow_insecure : Bool

-- `tlsHandshakeOnce`: its error, or the milliseconds of the handshake.
pub data Attempt : Type 0 where
  broken : NetError → Attempt
  shaken : ℕ → Attempt

-- The variables of the loop of `Run`.
pub record Tally : Type 0 where
  pub attempts : ℕ
  pub succeeded : ℕ
  pub total_ms : ℕ
  pub last_error : Option NetError

abbrev pub no_attempts : Tally
no_attempts = record { attempts = 0; succeeded = 0; total_ms = 0; last_error = none }

unfoldable pub note : Attempt → Tally → Tally
note (broken e) t = record t { attempts = t.attempts + 1; last_error = some e }
note (shaken ms) t = record t {
  attempts = t.attempts + 1;
  succeeded = t.succeeded + 1;
  total_ms = t.total_ms + ms;
}

unfoldable pub interrupted : NetError → Tally → Tally
interrupted e t = record t { last_error = or_else t.last_error (some e) }

-- What the loop does before an attempt: it stops where the check is cancelled.
abbrev pub unless_cancelled : Option NetError → Tally → Tally → Tally
unless_cancelled none t going_on = going_on
unless_cancelled (some e) t going_on = interrupted e t

-- The loop: `cancelled` is `ctx.Err()` before an attempt, `handshake` the attempt, by their index.
module _ (cancelled : ℕ → Option NetError) (handshake : ℕ → Attempt) where
  unfoldable pub attempt_from : ℕ → ℕ → Tally → Tally
  unfolding note interrupted
  attempt_from zero i t = t
  attempt_from (suc rounds) i t =
      unless_cancelled (cancelled i) t (attempt_from rounds (suc i) (note (handshake i) t))

-- `chooseSNI`
unfoldable pub choose_sni : (String → Bool) → String → String → String
choose_sni is_ip target explicit =
    if not (is_empty_str explicit) then explicit else if is_ip target then "" else target

-- `tlsConfigFor`: whether the certificate is not verified.
unfoldable pub skips_verification : String → Bool → Bool
skips_verification sni allow_insecure = allow_insecure || is_empty_str sni

-- `classifyUnreachable`
unfoldable pub classify_unreachable : ℕ → String
classify_unreachable recv = if ltb 0 recv then "port unreachable" else "ip unreachable"

-- The error that is reported; `cancelled` is `ctx.Err()` afterwards, `replies` those of the ping.
unfoldable pub error_of : Bool → ℕ → NetError → String
unfolding classify_net_error classify_unreachable
error_of cancelled replies e =
    let msg = classify_net_error (some e) in
    if (str_eq msg "timeout" || str_eq msg "connection failed") && not cancelled
    then classify_unreachable replies
    else msg

abbrev pub error_if_any : Bool → ℕ → Option NetError → Option String
error_if_any cancelled replies none = none
error_if_any cancelled replies (some e) = some (error_of cancelled replies e)

-- What `Run` reports of its attempts; `raw` is the JSON of the counters.
unfoldable pub tls_result : (Tally → Json) → Bool → ℕ → Tally → CheckResult
unfolding error_of
tls_result raw cancelled replies t = record {
  success = ltb 0 t.succeeded;
  latency_ms = if ltb 0 t.succeeded then some (t.total_ms / t.succeeded) else none;
  status_code = none;
  error_message = if t.succeeded == 0 then error_if_any cancelled replies t.last_error else none;
  raw = raw t;
}

-- What the handshakes are made with: the address, the server name, whether the certificate is left
-- unverified, and the milliseconds that each has.
abbrev pub Handshake : Type 0
Handshake = String → String → Bool → ℕ → ℕ → Attempt

-- The attempts of `Run`, by their index.
unfoldable pub attempts_on : Handshake → Net → TlsParams → String → ℕ → Attempt
unfolding resolve_ip choose_sni skips_verification
attempts_on handshake net p target =
    let sni = choose_sni net.is_ip target p.sni in
    handshake (net.join_host_port (address_of net target).0 (or_default p.port 443)) sni
      (skips_verification sni p.allow_insecure) (or_default p.timeout_ms 5000)

-- `TLSChecker.Run`; `raw` is the JSON of the counters, of the server name and of the address that was
-- resolved, `replies` those of the ping of the address.
unfoldable pub run_tls :
    (Tally → String → String → Json)
    → (ℕ → Option NetError)
    → Handshake
    → Bool
    → (String → ℕ)
    → Net
    → TlsParams
    → String
    → CheckResult
unfolding tls_result attempt_from attempts_on
run_tls raw cancelled handshake cancelled_after replies net p target =
    let (probe, reported) = address_of net target in
    tls_result (λ t. raw t (choose_sni net.is_ip target p.sni) reported) cancelled_after
      (replies probe)
      (attempt_from cancelled (attempts_on handshake net p target) (or_default p.count 3) 0
        no_attempts)
