-- ===== src/Probe.antt =====
-- internal/checks/checks.go: the result of a check and the registry of the checkers.
pub mod Address
pub mod Vless
pub mod Upgrade
pub mod Tls
pub mod Connect
pub mod Dns
pub mod Ping
pub mod Coherent
mod Tests
use pingachock.Base.{str_eq, some, ℕ, none, if◌then◌else◌, Option, false, String, Bool}
use pingachock.Store.Models.{Json}

pub record CheckResult : Type 0 where
  pub success : Bool
  pub latency_ms : Option ℕ
  pub status_code : Option String
  pub error_message : Option String
  pub raw : Json

-- A result that only says why the check failed.
abbrev pub failed_with : String → CheckResult
failed_with msg = record {
  success = false;
  latency_ms = none;
  status_code = none;
  error_message = some msg;
  raw = "";
}

-- The entries of `registry`.
pub data Checker : Type 0 where
  ping tcp http dns tls upgrade vless : Checker

-- `checks.Get`
unfoldable pub get : String → Option Checker
get s =
    if str_eq s "ping"
    then some Checker.ping
    else if str_eq s "tcp"
    then some Checker.tcp
    else if str_eq s "http"
    then some Checker.http
    else if str_eq s "dns"
    then some Checker.dns
    else if str_eq s "tls"
    then some Checker.tls
    else if str_eq s "upgrade"
    then some Checker.upgrade
    else if str_eq s "vless"
    then some Checker.vless
    else none
