-- ===== src/Probe/Ping.antt =====
-- internal/checks/ping.go: the arguments of the system's ping and what is read from its output. What the
-- regular expressions find in the output, and the floating-point numbers, are arguments.
use pingachock.Agent.Interface
use pingachock.Base.{
  ◌+◌, ◌*◌, not, length, ◌&&◌, ◌++◌, ◌/◌, [], is_empty, ltb, String, codes, some, ◌==◌, ◌∷◌, none,
  List, if◌then◌else◌, Option, Bytes, ℕ, Bool,
}
use pingachock.Base.Int.{or_default, ℤ}
use pingachock.Probe.Address.{Ip}
use pingachock.Store.Models.{Json}
use pingachock.Probe.{failed_with, CheckResult}

pub record PingParams : Type 0 where
  pub count : ℤ
  pub timeout_ms : ℤ

-- `runtime.GOOS`
pub data Os : Type 0 where
  windows darwin other : Os

-- `interface` is the pinned one, without a name and an address where none is.
abbrev pub source_args : Option Ip → List Bytes
source_args none = []
source_args (some ip) = codes "-S" ∷ codes ip.text ∷ []

abbrev pub seconds_of : ℕ → ℕ
seconds_of ms = if ltb (ms / 1000) 1 then 1 else ms / 1000

unfoldable pub bind_args : Os → Bytes → List Ip → List Bytes
unfolding Interface.preferred_addr
bind_args windows name addrs = source_args (Interface.preferred_addr addrs)
bind_args darwin name addrs =
    if is_empty name then [] else source_args (Interface.preferred_addr addrs)
bind_args other name addrs = if is_empty name then [] else codes "-I" ∷ name ∷ []

abbrev pub limits : (ℕ → Bytes) → Os → ℕ → ℕ → List Bytes
limits itoa windows count ms = codes "-n" ∷ itoa count ∷ codes "-w" ∷ itoa ms ∷ []
limits itoa darwin count ms = codes "-c" ∷ itoa count ∷ codes "-W" ∷ itoa (seconds_of ms) ∷ []
limits itoa other count ms = codes "-c" ∷ itoa count ∷ codes "-W" ∷ itoa (seconds_of ms) ∷ []

-- `pingArgs`
unfoldable pub ping_args : (ℕ → Bytes) → Os → Bytes → ℕ → ℕ → Bytes → List Ip → List Bytes
unfolding bind_args
ping_args itoa os target count ms name addrs =
    codes "ping" ∷ (limits itoa os count ms ++ (bind_args os name addrs ++ (target ∷ [])))

-- float64
pub record Floats : Type 1 where
  pub F : Type 0
  pub nought : F
  pub plus : F → F → F
  pub over : F → ℕ → F
  pub is_positive : F → Bool
  pub truncate : F → ℕ

module _ (fl : Floats) where
  open fl use {F, nought, plus, over, is_positive, truncate}

  -- What is found in the output: the packets of either summary, the times of the replies with and
  -- without a TTL (`none` is one that is no number), the average of the Unix summary, and how often
  -- "TTL=" stands there.
  pub record Output : Type 0 where
    pub windows_stats : Option (ℕ × ℕ)
    pub unix_stats : Option (ℕ × ℕ)
    pub reply_times : List (Option F)
    pub no_ttl_times : List (Option F)
    pub unix_average : Option F
    pub ttl_count : ℕ

  pub record Parsed : Type 0 where
    pub sent : ℕ
    pub recv : ℕ
    pub average : F

  abbrev pub add_time : F → Option F → F
  add_time sum none = sum
  add_time sum (some v) = plus sum v

  unfoldable pub sum_times : F → List (Option F) → F
  sum_times sum [] = sum
  sum_times sum (t ∷ ts) = sum_times (add_time sum t) ts

  -- `averageMatches`
  unfoldable pub average_matches : List (Option F) → F
  unfolding sum_times
  average_matches [] = nought
  average_matches (t ∷ ts) = over (sum_times nought (t ∷ ts)) (length (t ∷ ts))

  abbrev pub or_nought : Option F → F
  or_nought none = nought
  or_nought (some v) = v

  abbrev pub packets : Option (ℕ × ℕ) → Option (ℕ × ℕ) → ℕ × ℕ
  packets none none = (0, 0)
  packets none (some p) = p
  packets (some p) o = p

  -- `parsePingOutput`
  unfoldable pub parse_ping_output : Output → Parsed
  unfolding average_matches
  parse_ping_output o =
      let (sent, recv) = packets o.windows_stats o.unix_stats in
      record {
        sent = sent;
        recv = if recv == 0 then o.ttl_count else recv;
        average =
            if is_positive (average_matches o.reply_times)
            then average_matches o.reply_times
            else if is_positive (average_matches o.no_ttl_times)
            then average_matches o.no_ttl_times
            else or_nought o.unix_average;
      }

  -- `classifyPingError`
  unfoldable pub classify_ping_error : Bool → Bool → ℕ → String
  classify_ping_error timed_out resolution_failed recv =
      if timed_out
      then "timeout"
      else if resolution_failed
      then "dns resolution failed"
      else if recv == 0
      then "no reply"
      else "ping failed"

  -- The packets that are reported as sent.
  abbrev pub reported_sent : Bool → ℕ → ℕ → ℕ
  reported_sent resolution_failed count sent =
      if sent == 0 && not resolution_failed then count else sent

  -- How a ping ended: whether the command succeeded, its time, and whether the deadline passed.
  pub record Ended : Type 0 where
    pub ok : Bool
    pub elapsed_ms : ℕ
    pub timed_out : Bool

  unfoldable pub ping_result : (ℕ → ℕ → Json) → ℕ → Bool → Ended → Parsed → CheckResult
  unfolding classify_ping_error
  ping_result raw count resolution_failed end p = record {
    success = end.ok;
    latency_ms =
        if is_positive p.average
        then some (truncate p.average)
        else if end.ok
        then some end.elapsed_ms
        else none;
    status_code = none;
    error_message =
        if end.ok then none else some (classify_ping_error end.timed_out resolution_failed p.recv);
    raw = raw (reported_sent resolution_failed count p.sent) p.recv;
  }

  -- `PingChecker.Run`: `bound` is the pinned interface, `none` where it is gone; `probe` and `reported`
  -- are what `resolveIP` gives, `run` is the command with the time that it has.
  unfoldable pub run_ping :
      (ℕ → ℕ → Json)
      → (ℕ → Bytes)
      → Os
      → Option (Bytes × List Ip)
      → Bool
      → Bytes
      → Bytes
      → (List Bytes → ℕ → Ended × Output)
      → PingParams
      → CheckResult
  unfolding ping_result parse_ping_output ping_args
  run_ping raw itoa os none is_ip probe reported run p = failed_with "network interface unavailable"
  run_ping raw itoa os (some (name, addrs)) is_ip probe reported run p =
      let count = or_default p.count 4 in
      let ms = or_default p.timeout_ms 5000 in
      let (end, out) = run (ping_args itoa os probe count ms name addrs) (ms * count + 5000) in
      ping_result raw count (not is_ip && is_empty reported) end (parse_ping_output out)
