-- ===== src/Probe/Connect.antt =====
-- internal/checks/tcp.go and http.go: the probes of a port and of a URL. What the network
-- answers, and the JSON of the details, are arguments.
use pingachock.Base.{
  zero, suc, true, ◌++◌, ◌&&◌, none, codes, some, true, false, has_prefix, ltb, is_empty_str, ◌==◌,
  not, if◌then◌else◌, Option, ℕ, String, List, Bytes, Bool,
}
use pingachock.Probe.Address.{NetError, Ip, resolve_ip, classify_net_error}
use pingachock.Base.Int.{or_default, negsuc, pos, ℤ}
use pingachock.Store.Models.{Json}
use pingachock.Probe.{failed_with, CheckResult}

-- The network as a check sees it: what is an address, what a name resolves to, the family of the
-- interface's address, and `net.JoinHostPort`.
pub record Net : Type 0 where
  pub is_ip : String → Bool
  pub lookup : String → Option (List Ip)
  pub family : Option Ip
  pub join_host_port : String → ℕ → String

abbrev pub address_of : Net → String → String × String
address_of net target = resolve_ip net.is_ip net.lookup target net.family

pub record TcpParams : Type 0 where
  pub port : ℤ
  pub timeout_ms : ℤ

-- A dial: its error, if any, and the milliseconds that it took.
abbrev pub Dial : Type 0
Dial = String → ℕ → Option NetError × ℕ

unfoldable pub dialled : Json → Option NetError × ℕ → CheckResult
unfolding classify_net_error
dialled raw (none, ms) = record {
  success = true;
  latency_ms = some ms;
  status_code = none;
  error_message = none;
  raw = raw;
}
dialled raw (some e, ms) = record {
  success = false;
  latency_ms = none;
  status_code = none;
  error_message = some (classify_net_error (some e));
  raw = raw;
}

-- `TCPChecker.Run`; `raw` is the JSON of the address that is dialled and of the one that was resolved.
unfoldable pub run_tcp : (String → String → Json) → Net → Dial → TcpParams → String → CheckResult
unfolding dialled resolve_ip
run_tcp raw net dial p target =
    let (probe, reported) = address_of net target in
    let addr = net.join_host_port probe (or_default p.port 443) in
    dialled (raw addr reported) (dial addr (or_default p.timeout_ms 5000))

pub record HttpParams : Type 0 where
  pub method : String
  pub follow_redirects : Bool
  pub timeout_ms : ℤ
  pub expect_status : ℤ

-- A request: it cannot be made, it fails after some milliseconds, or it has a status and a final URL.
pub data HttpAnswer : Type 0 where
  not_made : String → HttpAnswer
  no_answer : String → ℕ → HttpAnswer
  answered : ℕ → Bytes → ℕ → HttpAnswer

-- The URL that is asked.
unfoldable pub url_of : Bytes → Bytes
url_of target =
    if not (has_prefix (codes "http://") target) && not (has_prefix (codes "https://") target)
    then codes "https://" ++ target
    else target

-- A status that is expected, or without an expectation one below 400.
abbrev pub is_zero : ℤ → Bool
is_zero (pos zero) = true
is_zero (pos (suc _)) = false
is_zero (negsuc _) = false

abbrev pub is_status : ℤ → ℕ → Bool
is_status (pos n) s = s == n
is_status (negsuc _) s = false

unfoldable pub is_expected : ℤ → ℕ → Bool
is_expected expect s = if is_zero expect then ltb s 400 else is_status expect s

module _ (raw : Bytes → Json) (itoa : ℕ → String) where
  unfoldable pub http_result : ℤ → HttpAnswer → CheckResult
  unfolding is_expected
  http_result expect (not_made msg) = failed_with msg
  http_result expect (no_answer msg ms) = record {
    success = false;
    latency_ms = some ms;
    status_code = none;
    error_message = some msg;
    raw = "";
  }
  http_result expect (answered s final_url ms) = record {
    success = is_expected expect s;
    latency_ms = some ms;
    status_code = some (itoa s);
    error_message = none;
    raw = raw final_url;
  }

  -- `HTTPChecker.Run`: the method, the URL, whether redirects are followed, and the time in milliseconds
  -- are what the client is given.
  unfoldable pub run_http :
      (String → Bytes → Bool → ℕ → HttpAnswer) → HttpParams → Bytes → CheckResult
  unfolding http_result url_of
  run_http request p target = http_result p.expect_status (
      request (if is_empty_str p.method then "GET" else p.method) (url_of target) p.follow_redirects
        (or_default p.timeout_ms 10000))
