-- ===== src/Agent/Interface.antt =====
-- internal/netiface: the network interfaces that checks may run through, and their name servers as the
-- tools of the operating systems print them. Regular expressions are parameters (regexp).
pub mod Laws
use pingachock.Base.{
  true, equal_codes, not, ◌++◌, find_where, split_on, cut_prefix, has_prefix, codes, is_space,
  any_where, false, trim_space, none, Bool, if◌then◌else◌, cut, [], some, ◌∷◌, ℕ, Bytes, contains,
  List, Option,
}
use pingachock.Probe.Address.{Ip}

-- What the system tells of an interface; an address that is neither IPNet nor IPAddr is `none`, and so
-- are all of them where they cannot be read.
pub record RawInterface : Type 0 where
  pub name : Bytes
  pub loopback : Bool
  pub up : Bool
  pub addrs : Option (List (Option Ip))

pub record Interface : Type 0 where
  pub name : Bytes
  pub addrs : List Ip
  pub is_up : Bool
  pub is_physical : Bool

abbrev pub is_v4 : Ip → Bool
is_v4 ip = ip.is_v4

-- `Interface.PreferredAddr`
unfoldable pub preferred_addr : List Ip → Option Ip
preferred_addr [] = none
preferred_addr (a ∷ rest) = elim (find_where is_v4 (a ∷ rest)) [ none ↦ some a | some b ↦ some b ]

module _ (is_link_local : Ip → Bool) where
  abbrev pub keep_usable : Option Ip → List Ip → List Ip
  keep_usable none ips = ips
  keep_usable (some a) ips = if is_link_local a then ips else a ∷ ips

  -- The loop over the addresses.
  unfoldable pub usable : List (Option Ip) → List Ip
  usable [] = []
  usable (o ∷ os) = keep_usable o (usable os)

abbrev pub keep_some : Option Interface → List Interface → List Interface
keep_some none is = is
keep_some (some i) is = i ∷ is

-- `is_link_local` is net.IP's method, `is_physical` the guess from the name.
module _ (is_link_local : Ip → Bool) (is_physical : Bytes → Bool) where
  unfoldable pub interface_of : RawInterface → List Ip → Option Interface
  interface_of r [] = none
  interface_of r (ip ∷ ips) =
      some
        (record { name = r.name; addrs = ip ∷ ips; is_up = r.up; is_physical = is_physical r.name })

  unfoldable pub with_addrs : RawInterface → Option (List (Option Ip)) → Option Interface
  unfolding interface_of usable
  with_addrs r none = none
  with_addrs r (some addrs) = interface_of r (usable is_link_local addrs)

  -- `fromNetInterface`
  unfoldable pub from_net_interface : RawInterface → Option Interface
  unfolding with_addrs
  from_net_interface r = if r.loopback then none else with_addrs r r.addrs

  -- `List`, where the system lists its interfaces.
  unfoldable pub list : List RawInterface → List Interface
  unfolding from_net_interface
  list [] = []
  list (r ∷ rs) = keep_some (from_net_interface r) (list rs)

  -- `ByName`, on what net.InterfaceByName finds; `none` is ErrInterfaceUnavailable.
  unfoldable pub by_name : Option RawInterface → Option Interface
  unfolding from_net_interface
  by_name none = none
  by_name (some r) = from_net_interface r

-- `strings.Fields`
abbrev pub add_byte : ℕ → Bool → List Bytes → List Bytes
add_byte c false ws = (c ∷ []) ∷ ws
add_byte c true [] = (c ∷ []) ∷ []
add_byte c true (w ∷ ws) = (c ∷ w) ∷ ws

abbrev pub starts_word : Bytes → Bool
starts_word [] = false
starts_word (c ∷ _) = not (is_space c)

unfoldable pub fields : Bytes → List Bytes
fields [] = []
fields (c ∷ s) = let rest = fields s in if is_space c then rest else add_byte c (starts_word s) rest

abbrev pub behind : Option (Bytes × Bytes) → Option Bytes
behind none = none
behind (some (_, r)) = some r

abbrev pub fields_of : Option Bytes → List Bytes
fields_of none = []
fields_of (some r) = fields r

-- `parseResolvectl`
unfoldable pub parse_resolvectl : Bytes → List Bytes
unfolding fields
parse_resolvectl out = fields_of (behind (cut (codes ":") out))

-- One line of /etc/resolv.conf.
abbrev pub nameserver_of : Option Bytes → List Bytes → List Bytes
nameserver_of none servers = servers
nameserver_of (some r) servers = trim_space r ∷ servers

-- `systemResolvConf`, on the lines of the file.
unfoldable pub system_resolv_conf : List Bytes → List Bytes
system_resolv_conf [] = []
system_resolv_conf (l ∷ ls) =
    nameserver_of (cut_prefix (codes "nameserver") (trim_space l)) (system_resolv_conf ls)

abbrev pub servers_or : List Bytes → List Bytes → List Bytes
servers_or [] fallback = fallback
servers_or (s ∷ ss) fallback = s ∷ ss

-- `DNSServers` of Linux: `resolvectl` prints its answer or fails, and /etc/resolv.conf is the
-- fallback; `none` is its error.
unfoldable pub dns_servers_linux : Option Bytes → Option (List Bytes) → Option (List Bytes)
unfolding parse_resolvectl system_resolv_conf
dns_servers_linux resolvectl none = elim resolvectl [
  | none ↦ none
  | some out ↦ elim (parse_resolvectl out) [ [] ↦ none | s ∷ ss ↦ some (s ∷ ss) ]
]
dns_servers_linux resolvectl (some conf) = elim resolvectl [
  | none ↦ some (system_resolv_conf conf)
  | some out ↦ some (servers_or (parse_resolvectl out) (system_resolv_conf conf))
]

-- `dedupe`, on what was seen before.
abbrev pub seen_before : Bytes → List Bytes → Bool
seen_before v seen = any_where (equal_codes v) seen

unfoldable pub dedupe_from : List Bytes → List Bytes → List Bytes
dedupe_from seen [] = []
dedupe_from seen (v ∷ vs) =
    let fresh = dedupe_from (v ∷ seen) vs in
    let skipped = dedupe_from seen vs in if seen_before v seen then skipped else v ∷ fresh

-- A line of a block of `scutil --dns`.
abbrev pub scutil_server : Bytes → List Bytes → List Bytes
scutil_server line servers =
    if has_prefix (codes "nameserver[") line
    then elim (behind (cut (codes ":") line)) [ none ↦ servers | some r ↦ trim_space r ∷ servers ]
    else servers

unfoldable pub scutil_block : List Bytes → List Bytes
scutil_block [] = []
scutil_block (l ∷ ls) = scutil_server (trim_space l) (scutil_block ls)

unfoldable pub scutil_blocks : Bytes → List Bytes → List Bytes
unfolding scutil_block contains
scutil_blocks marker [] = []
scutil_blocks marker (b ∷ bs) =
    let rest = scutil_blocks marker bs in
    if contains b marker then scutil_block (split_on b'\n' b) ++ rest else rest

-- `parseScutilDNS`, on the blocks between the texts "resolver #".
unfoldable pub parse_scutil_dns : List Bytes → Bytes → List Bytes
unfolding scutil_blocks dedupe_from
parse_scutil_dns blocks name =
    dedupe_from [] (scutil_blocks (codes "(" ++ name ++ codes ")") blocks)
