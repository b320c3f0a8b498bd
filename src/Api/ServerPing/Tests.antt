-- ===== src/Api/ServerPing/Tests.antt =====
-- The theorem about a server ping at one target with a port and ICMP.
use pingachock.Api.ServerPing.{is_refused, server_ping, TargetResult, PingRequest, Probes}
use pingachock.Base.{some, str_eq, if◌then◌else◌, ◌≡◌, [], none, true, List, ◌∷◌, Option, String}
use pingachock.Api.ServerPing.Laws.{server_ping-AreAnswers, AreAnswers}
use pingachock.Base.Int.{pos, ℤ}
use pingachock.Probe.{failed_with}

abbrev seven : String → Option ℤ
seven p = if str_eq p "7" then some (pos 7) else none

abbrev probes : Probes
probes = record {
  atoi = seven;
  net = record { is_ip = λ s. true; lookup = λ s. none; family = none; join_host_port = λ h p. h };
  dial = λ addr ms. (none, 12);
  ping = λ p t. failed_with "no reply";
  packets = λ raw. (1, 0);
}

abbrev in_turn : String → List String → List String
in_turn t ps = ps

abbrev request : PingRequest
request = record { targets = "10.0.0.1" ∷ []; ports = "7" ∷ "icmp" ∷ [] }

server_ping-AreAnswers_example :
    (rs : List TargetResult) × (server_ping probes in_turn request
      ≡ (if is_refused probes request then none else some rs))
    × AreAnswers probes ("7" ∷ "icmp" ∷ []) ("10.0.0.1" ∷ []) rs
server_ping-AreAnswers_example = server_ping-AreAnswers probes in_turn (λ t p ps h. h) request
