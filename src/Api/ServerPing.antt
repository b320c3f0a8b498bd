-- ===== src/Api/ServerPing.antt =====
-- internal/api/public/serverping.go and serverupgradescan.go: the backend's own probes of a list of targets,
-- which touch no table. The checks of one target may end in any order, which is the argument `order`.
pub mod Laws
mod Tests
use pingachock.Probe.Connect.{Dial, Net, address_of, run_tcp}
use pingachock.Base.{
  not, ltb, map, [], is_some, none, ◌==◌, some, ◌&&◌, ◌∷◌, length, true, ◌||◌, Option, str_eq,
  if◌then◌else◌, String, Bool, List, ℕ,
}
use pingachock.Probe.{CheckResult}
use pingachock.Probe.Address.{resolve_ip}
use pingachock.Store.Models.{Json}
use pingachock.Base.Int.{pos, ℤ}
use pingachock.Probe.Ping.{PingParams}

pub record PingRequest : Type 0 where
  pub targets : List String
  pub ports : List String

pub record IcmpResult : Type 0 where
  pub success : Bool
  pub latency_ms : Option ℕ
  pub error : String
  pub packets_sent : ℕ
  pub packets_recv : ℕ

pub record TargetResult : Type 0 where
  pub target : String
  pub resolved_ip : String
  pub icmp : Option IcmpResult
  pub ports : List (String × String)

abbrev pub max_targets : ℕ
max_targets = 50

abbrev pub is_icmp : String → Bool
is_icmp p = str_eq p "icmp"

abbrev pub ports_or_icmp : List String → List String
ports_or_icmp [] = "icmp" ∷ []
ports_or_icmp (p ∷ ps) = p ∷ ps

-- `out.Ports[p] = status`
unfoldable pub put_port : String → String → List (String × String) → List (String × String)
put_port p v [] = (p, v) ∷ []
put_port p v ((q, u) ∷ m) =
    let rest = put_port p v m in if str_eq q p then (p, v) ∷ m else (q, u) ∷ rest

unfoldable pub port_status : String → List (String × String) → Option String
port_status p [] = none
port_status p ((q, u) ∷ m) = let rest = port_status p m in if str_eq q p then some u else rest

abbrev pub error_text : CheckResult → String
error_text r = if r.success then "" else or_no_text r.error_message
  where
    or_no_text : Option String → String
    or_no_text none = ""
    or_no_text (some e) = e

-- What the server has: strconv.Atoi, the network, a dial, the ping with its parameters, and the packets
-- in the JSON of its result (`parsePingRaw`).
pub record Probes : Type 0 where
  pub atoi : String → Option ℤ
  pub net : Net
  pub dial : Dial
  pub ping : PingParams → String → CheckResult
  pub packets : Json → ℕ × ℕ

abbrev pub no_details : String → String → Json
no_details addr reported = ""

module _ (s : Probes) where
  abbrev pub is_port : String → Bool
  is_port p = is_icmp p || is_some (s.atoi p)

  unfoldable pub icmp_result : CheckResult → IcmpResult
  icmp_result r = record {
    success = r.success;
    latency_ms = r.latency_ms;
    error = error_text r;
    packets_sent = (s.packets r.raw).0;
    packets_recv = (s.packets r.raw).1;
  }

  abbrev pub open_or_closed : CheckResult → String
  open_or_closed r = if r.success then "open" else "closed"

  abbrev pub note_port : String → String → Option ℤ → TargetResult → TargetResult
  note_port probe p none out = out
  note_port probe p (some n) out = record out {
    ports =
        put_port p
          (open_or_closed
            (run_tcp no_details s.net s.dial (record { port = n; timeout_ms = pos 0 }) probe))
          out.ports;
  }

  -- One check of `runServerPingTarget`.
  unfoldable pub check_port : String → String → TargetResult → TargetResult
  unfolding icmp_result run_tcp put_port
  check_port probe p out =
      if is_icmp p
      then record out {
        icmp = some (icmp_result (s.ping (record { count = pos 1; timeout_ms = pos 3000 }) probe));
      }
      else note_port probe p (s.atoi p) out

  unfoldable pub check_ports : String → List String → TargetResult → TargetResult
  unfolding check_port
  check_ports probe [] out = out
  check_ports probe (p ∷ ps) out = check_ports probe ps (check_port probe p out)

  -- `runServerPingTarget`; the target's address is found once.
  unfoldable pub run_server_ping_target : List String → String → TargetResult
  unfolding check_ports resolve_ip
  run_server_ping_target order target =
      let (probe, reported) = address_of s.net target in
      check_ports probe order
        (record { target = target; resolved_ip = reported; icmp = none; ports = [] })

  abbrev pub all_ports : List String → Bool
  all_ports [] = true
  all_ports (p ∷ ps) = is_port p && all_ports ps

  -- The requests that `ServerPing` refuses with 400.
  unfoldable pub is_refused : PingRequest → Bool
  is_refused req =
      (length req.targets == 0)
      || (ltb max_targets (length req.targets) || not (all_ports (ports_or_icmp req.ports)))

  -- `ServerPing`, on a decoded body; `none` is its refusal. `order` gives for each target the order in
  -- which the checks of its ports end.
  unfoldable pub server_ping :
      (String → List String → List String) → PingRequest → Option (List TargetResult)
  unfolding is_refused run_server_ping_target
  server_ping order req =
      if is_refused req
      then none
      else some
          (map (λ t. run_server_ping_target (order t (ports_or_icmp req.ports)) t) req.targets)

pub record ScanResult : Type 0 where
  pub target : String
  pub matched : Bool

abbrev pub max_scan_targets : ℕ
max_scan_targets = 100

-- `ServerUpgradeScan`, with the upgrade check of a target; `none` is its refusal with 400.
unfoldable pub server_upgrade_scan : (String → CheckResult) → List String → Option (List ScanResult)
server_upgrade_scan check targets =
    if length targets == 0 || ltb max_scan_targets (length targets)
    then none
    else some (map (λ t. record { target = t; matched = (check t).success }) targets)
