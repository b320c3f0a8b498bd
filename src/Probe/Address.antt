-- ===== src/Probe/Address.antt =====
-- internal/checks/checks.go: which address of a target is probed (resolveIP, pickPreferredIP), and the stable
-- texts of connection errors (classifyNetError).
pub mod Laws
use pingachock.Base.{
  [], none, not, ◌∷◌, ◌||◌, if◌then◌else◌, some, find_where, Option, List, String, Bool,
}

-- An address; `is_v4` is whether `To4` gives one, `text` its String.
pub record Ip : Type 0 where
  pub is_v4 : Bool
  pub text : String

abbrev pub same_family : Bool → Ip → Bool
same_family want_v4 ip = if want_v4 then ip.is_v4 else not ip.is_v4

-- The second loop of `pickPreferredIP`, and the first address where it finds none.
unfoldable pub pick_v4 : Ip → List Ip → Ip
pick_v4 first ips = elim (find_where (λ (ip : Ip). ip.is_v4) (first ∷ ips)) [
  | none ↦ first
  | some ip ↦ ip
]

-- `pickPreferredIP`, on the addresses `first ∷ ips`: it is called on at least one.
unfoldable pub pick_preferred_ip : Ip → List Ip → Option Ip → Ip
unfolding pick_v4
pick_preferred_ip first ips none = pick_v4 first ips
pick_preferred_ip first ips (some family) =
    elim (find_where (same_family family.is_v4) (first ∷ ips)) [
      | none ↦ pick_v4 first ips
      | some ip ↦ ip
    ]

-- What the lookup gives; `none` is its error.
unfoldable pub resolved : String → Option (List Ip) → Option Ip → String × String
resolved target none family = (target, "")
resolved target (some []) family = (target, "")
resolved target (some (ip ∷ ips)) family =
    ((pick_preferred_ip ip ips family).text, (pick_preferred_ip ip ips family).text)

-- `resolveIP`: the address that is probed and the one that is reported. `is_ip` is `net.ParseIP`.
unfoldable pub resolve_ip :
    (String → Bool) → (String → Option (List Ip)) → String → Option Ip → String × String
unfolding resolved
resolve_ip is_ip lookup target family =
    if is_ip target then (target, "") else resolved target (lookup target) family

-- What `errors.Is` and `errors.As` find in an error.
pub record NetError : Type 0 where
  pub interface_unavailable : Bool
  pub deadline_exceeded : Bool
  pub net_timeout : Bool
  pub connection_refused : Bool
  pub dns_error : Bool
  pub hostname_error : Bool
  pub unknown_authority : Bool
  pub certificate_invalid : Bool

-- `classifyNetError`
unfoldable pub classify_net_error : Option NetError → String
classify_net_error none = ""
classify_net_error (some e) =
    if e.interface_unavailable
    then "network interface unavailable"
    else if e.deadline_exceeded
    then "timeout"
    else if e.net_timeout
    then "timeout"
    else if e.connection_refused
    then "connection refused"
    else if e.dns_error
    then "dns resolution failed"
    else if e.hostname_error || e.unknown_authority || e.certificate_invalid
    then "certificate verification failed"
    else "connection failed"
