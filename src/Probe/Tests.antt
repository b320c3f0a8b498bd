-- ===== src/Probe/Tests.antt =====
-- The theorems about the probes at concrete answers.
use pingachock.Probe.Vless.{patch_object, bind_outbounds, Object, XrayCodec, patch_inbound, panics}
use pingachock.Base.{
  length, ◌↔◌, true, zero, arith, ◌≡◌, equal_codes, none, some, ◌∷◌, Bool, suc, [], Option,
  if◌then◌else◌, Bytes, false, codes, String, List, ℕ,
}
use pingachock.Probe.Address.{NetError}
use pingachock.Probe.Connect.{answered, HttpAnswer, run_http, Net, url_of, HttpParams}
use pingachock.Probe.Upgrade.Laws.{read_upgrade_response-IsRead, all_bytes, IsRead}
use pingachock.Probe.Tls.{
  shaken, run_tls, broken, Attempt, TlsParams, Handshake, Tally, attempts_on,
}
use pingachock.Probe.Upgrade.{read_upgrade_response, Stream}
use pingachock.Probe.Vless.Laws.{bind_outbounds-BoundIn, patch_object-IsPatched, BoundIn, IsPatched}
use pingachock.Probe.Tls.Laws.{any_shaken, Between}
use pingachock.Probe.Coherent.{run_http-Meets, Meets, IsCoherent}
use pingachock.Base.Int.{pos}
use pingachock.Store.Models.{Json}
use pingachock.Probe.Tls.Result.{run_tls-IsSettled, IsSettled}
use pingachock.Probe.Vless.Panics.{patch_inbound-panics, PanicsOn}

abbrev reset : NetError
reset = record {
  interface_unavailable = false;
  deadline_exceeded = false;
  net_timeout = false;
  connection_refused = false;
  dns_error = false;
  hostname_error = false;
  unknown_authority = false;
  certificate_invalid = false;
}

abbrev net : Net
net = record { is_ip = λ s. false; lookup = λ s. none; family = none; join_host_port = λ h p. h }

abbrev tls_params : TlsParams
tls_params = record {
  port = pos 0;
  sni = "";
  count = pos 2;
  timeout_ms = pos 0;
  allow_insecure = false;
}

-- The first attempt fails, the others take 40 ms.
abbrev flaky : ℕ → Attempt
flaky zero = broken reset
flaky (suc i) = shaken 40

flaky-Between : (i : ℕ) → Between 30 50 (flaky i)
flaky-Between zero = tt
flaky-Between (suc i) = (omega arith, omega arith)

abbrev calm : ℕ → Option NetError
calm i = none

abbrev handshake : Handshake
handshake addr sni skip ms i = flaky i

abbrev no_raw : Tally → String → String → Json
no_raw t sni reported = ""

run_tls-IsSettled_example :
    IsSettled false 30 50
      (run_tls no_raw calm handshake false (λ s. 0) net tls_params "example.org")
    × ((run_tls no_raw calm handshake false (λ s. 0) net tls_params "example.org").success
        ≡ any_shaken calm (attempts_on handshake net tls_params "example.org") 2 0)
unfolding attempts_on
run_tls-IsSettled_example =
    run_tls-IsSettled no_raw calm handshake false (λ s. 0) net tls_params "example.org" 30 50
      flaky-Between

abbrev stream : Stream
stream = record {
  chunks = codes "HTTP/1.1 101" ∷ codes " Switching" ∷ [];
  final = [];
  error = reset;
}

read_upgrade_response-IsRead_example :
    IsRead 8 (all_bytes stream.chunks stream.final) (read_upgrade_response stream 8)
read_upgrade_response-IsRead_example =
    read_upgrade_response-IsRead stream 8 (omega arith, (omega arith, tt)) (omega arith)

-- JSON's null is the text `null`, an object any other.
abbrev codec : XrayCodec
codec = record {
  object_of = λ b. if equal_codes b (codes "null") then some none else some (some []);
  entries_of = λ b. some [];
  write_object = λ o. codes "{}";
  write_entries = λ es. codes "[]";
  write_inbounds = λ is. length is ∷ [];
  text = λ t. t;
}

abbrev exported : Object
exported =
    (codes "log", codes "/private/access.log")
    ∷ (codes "routing", codes "{}")
    ∷ (codes "outbounds", codes "[]")
    ∷ []

patch_object-IsPatched_example :
    IsPatched codec 1080
      (codes "10.0.0.2")
      exported
      (patch_object codec 1080 (codes "10.0.0.2") exported)
patch_object-IsPatched_example = patch_object-IsPatched codec 1080 (codes "10.0.0.2") exported

abbrev outbounds : List (Option Object)
outbounds =
    some ((codes "protocol", codes "vless") ∷ [])
    ∷ some ((codes "protocol", codes "blackhole") ∷ [])
    ∷ none
    ∷ []

bind_outbounds-BoundIn_example :
    BoundIn codec (codes "10.0.0.2") outbounds (bind_outbounds codec (codes "10.0.0.2") outbounds)
bind_outbounds-BoundIn_example = bind_outbounds-BoundIn codec (codes "10.0.0.2") outbounds

patch_inbound-panics_example :
    (patch_inbound codec (codes "null") 1080 (codes "10.0.0.2") ≡ panics)
    ↔ PanicsOn codec (codes "10.0.0.2") (codec.object_of (codes "null"))
patch_inbound-panics_example = patch_inbound-panics codec (codes "null") 1080 (codes "10.0.0.2")

abbrev teapot : String → Bytes → Bool → ℕ → HttpAnswer
teapot method url follow ms = answered 418 url 12

abbrev http_params : HttpParams
http_params = record {
  method = "";
  follow_redirects = false;
  timeout_ms = pos 0;
  expect_status = pos 418;
}

run_http-Meets_example :
    IsCoherent (run_http (λ u. "") (λ n. "418") teapot http_params (codes "example.org"))
    × (((run_http (λ u. "") (λ n. "418") teapot http_params (codes "example.org")).success ≡ true)
        ↔ Meets (pos 418) (answered 418 (codes "https://example.org") 12))
unfolding url_of
run_http-Meets_example =
    run_http-Meets (λ u. "") (λ n. "418") teapot http_params (codes "example.org")
