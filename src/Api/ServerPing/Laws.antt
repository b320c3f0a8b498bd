-- ===== src/Api/ServerPing/Laws.antt =====
-- internal/api/public/serverping.go: what a request that is accepted is answered.
use pingachock.Base.{
  All, true, map, inr, inl, sym, ◌∙◌, Bool-cases, ap, Option, str_eq, is_none, false, any_where,
  if◌then◌else◌, Bool, ◌≡◌, List, String, [], ◌∷◌, some, none, arith, refl, str_eq_iff,
}
use pingachock.Api.ServerPing.{
  ports_or_icmp, is_refused, PingRequest, server_ping, run_server_ping_target, note_port,
  TargetResult, check_ports, check_port, no_details, is_icmp, open_or_closed, put_port, port_status,
  Probes,
}
use pingachock.Base.Int.{pos, or_default, ℤ}
use pingachock.Probe.Connect.{address_of, run_tcp}
use pingachock.Probe.Coherent.{run_tcp-IsCoherent}

port_status-put_port :
    (p q v : String) (m : List (String × String))
    → port_status q (put_port p v m) ≡ (if str_eq p q then some v else port_status q m)
unfolding port_status put_port
port_status-put_port p q v [] = refl
port_status-put_port p q v ((r, u) ∷ m) =
    ground (arith, str_eq_iff p q, str_eq_iff r p, str_eq_iff r q, port_status-put_port p q v m)

abbrev pub asks : String → List String → Bool
asks p ps = any_where (λ q. str_eq q p) ps

module _ (s : Probes) where
  -- What is reported of a port: whether the dial of the address succeeds, at 443 where no positive number
  -- is given.
  abbrev pub status_of : String → ℤ → String
  status_of probe n =
      if is_none
        (s.dial (s.net.join_host_port (address_of s.net probe).0 (or_default n 443)) 5000).0
      then "open"
      else "closed"

  status-run_tcp :
      (probe : String) (n : ℤ)
      → open_or_closed s
          (run_tcp no_details s.net s.dial (record { port = n; timeout_ms = pos 0 }) probe)
        ≡ status_of probe n
  status-run_tcp probe n =
      ap (λ (b : Bool). if b then "open" else "closed")
        (run_tcp-IsCoherent no_details s.net s.dial (record { port = n; timeout_ms = pos 0 })
          probe).1

  module _ (probe p : String) (n : ℤ) (not_icmp : is_icmp p ≡ false)
      (number : s.atoi p ≡ some n) where
    noted :
        (q : String) (o : Option ℤ) (out : TargetResult)
        → s.atoi q ≡ o
        → port_status p (note_port s probe q o out).ports
          ≡ (if str_eq q p then some (status_of probe n) else port_status p out.ports)
    noted q none out e = elim (Bool-cases (str_eq q p)) [
      | inl same ↦ absurd (cc (differs ((str_eq_iff q p).0 same)))
      | inr other ↦ rw other refl
    ]
      where
        differs : q ≡ p → none ≡ some n
        differs h = sym e ∙ (ap s.atoi h ∙ number)
    noted q (some k) out e = port_status-put_port q p _ out.ports ∙ elim (Bool-cases (str_eq q p)) [
      | inl same ↦ rw same (
          ap some
            (status-run_tcp probe k ∙ ap (status_of probe) (agrees ((str_eq_iff q p).0 same))))
      | inr other ↦ rw other refl
    ]
      where
        agrees : q ≡ p → k ≡ n
        agrees h = let r = sym e ∙ (ap s.atoi h ∙ number) in cc

    checked :
        (q : String) (out : TargetResult)
        → port_status p (check_port s probe q out).ports
          ≡ (if str_eq q p then some (status_of probe n) else port_status p out.ports)
    unfolding check_port
    checked q out = elim (Bool-cases (is_icmp q)) [
      | inl icmp ↦ elim (Bool-cases (str_eq q p)) [
        | inl same ↦ absurd (cc (icmp, not_icmp, ap is_icmp ((str_eq_iff q p).0 same)))
        | inr other ↦ rw (icmp, other) refl
      ]
      | inr port ↦ rw port (noted q (s.atoi q) out refl)
    ]

    check_ports-status :
        (ps : List String) (out : TargetResult)
        → port_status p (check_ports s probe ps out).ports
          ≡ (if asks p ps then some (status_of probe n) else port_status p out.ports)
    unfolding check_ports
    check_ports-status [] out = refl
    check_ports-status (q ∷ ps) out =
        check_ports-status ps (check_port s probe q out) ∙ rw (checked q out) (ground arith)

  -- What the answer says of a target: every port that is asked has the status that the target's one
  -- address has there.
  abbrev pub IsAnswer : List String → TargetResult → Type 0
  IsAnswer ports r =
      (p : String) (n : ℤ)
      → asks p ports ≡ true
      → is_icmp p ≡ false
      → s.atoi p ≡ some n
      → port_status p r.ports ≡ some (status_of (address_of s.net r.target).0 n)

  -- The answers to a list of targets, in their order.
  abbrev pub AreAnswers : List String → List String → List TargetResult → Type 0
  AreAnswers ports targets rs = (map (λ r. r.target) rs ≡ targets) × All (IsAnswer ports) rs

  check_port-target :
      (probe q : String) (out : TargetResult) → (check_port s probe q out).target ≡ out.target
  unfolding check_port
  check_port-target probe q out = elim (Bool-cases (is_icmp q)) [
    | inl icmp ↦ rw icmp refl
    | inr port ↦ rw port (kept (s.atoi q))
  ]
    where
      kept : (o : Option ℤ) → (note_port s probe q o out).target ≡ out.target
      kept none = refl
      kept (some n) = refl

  check_ports-target :
      (probe : String) (ps : List String) (out : TargetResult)
      → (check_ports s probe ps out).target ≡ out.target
  unfolding check_ports
  check_ports-target probe [] out = refl
  check_ports-target probe (q ∷ ps) out =
      check_ports-target probe ps (check_port s probe q out) ∙ check_port-target probe q out

  module _ (order : String → List String → List String)
      (all_run : (t p : String) (ps : List String)
        → asks p ps ≡ true
        → asks p (order t ps) ≡ true) where
    target-IsAnswer :
        (ports : List String) (t : String)
        → ((run_server_ping_target s (order t ports) t).target ≡ t)
          × IsAnswer ports (run_server_ping_target s (order t ports) t)
    unfolding run_server_ping_target
    target-IsAnswer ports t = (
      check_ports-target (address_of s.net t).0 (order t ports) _,
      λ p n asked not_icmp number.
          check_ports-status (address_of s.net t).0 p n not_icmp number (order t ports) _
          ∙ rw (all_run t p ports asked, check_ports-target (address_of s.net t).0 (order t ports))
              refl,
    )

    targets-AreAnswers :
        (ports targets : List String)
        → AreAnswers ports targets (map (λ t. run_server_ping_target s (order t ports) t) targets)
    targets-AreAnswers ports [] = (refl, tt)
    targets-AreAnswers ports (t ∷ ts) =
        let (e, h) = target-IsAnswer ports t in
        let (es, hs) = targets-AreAnswers ports ts in (rw e (ap (λ l. t ∷ l) es), (h, hs))

    -- A request for a server ping that is not refused is answered for its targets in their order, and
    -- every port asked is reported open exactly where the dial of the target's one address succeeds, at
    -- port 443 where the number is not positive. The checks of a target all end, in any order.
    pub server_ping-AreAnswers :
        (req : PingRequest)
        → (rs : List TargetResult) × (server_ping s order req
            ≡ (if is_refused s req then none else some rs))
          × AreAnswers (ports_or_icmp req.ports) req.targets rs
    unfolding server_ping
    server_ping-AreAnswers req = (
      map (λ t. run_server_ping_target s (order t (ports_or_icmp req.ports)) t) req.targets,
      refl,
      targets-AreAnswers (ports_or_icmp req.ports) req.targets,
    )
