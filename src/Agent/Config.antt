-- ===== src/Agent/Config.antt =====
-- internal/config/config.go: the agent's configuration file and its defaults. The JSON codec is a
-- parameter (encoding/json).
pub mod Laws
use pingachock.Base.{
  false, ◌||◌, some, ◌==◌, is_empty, none, Bool, if◌then◌else◌, Option, List, [], Bytes, ℕ,
}
use pingachock.Base.Int.{negsuc, not_positive, pos, ℤ}

pub record Config : Type 0 where
  pub node_id : Bytes
  pub node_secret : Bytes
  pub direct_url : Bytes
  pub front_domain : Bytes
  pub front_real_host : Bytes
  pub interface_name : Bytes
  pub local_addr : Bytes
  pub dns_servers : List Bytes
  pub poll_interval_seconds : ℤ
  pub max_concurrent_checks : ℤ

abbrev pub zero_config : Config
zero_config = record {
  node_id = [];
  node_secret = [];
  direct_url = [];
  front_domain = [];
  front_real_host = [];
  interface_name = [];
  local_addr = [];
  dns_servers = [];
  poll_interval_seconds = pos 0;
  max_concurrent_checks = pos 0;
}

pub data ConfigError : Type 0 where
  not_readable not_parsed no_node_secret no_direct_url : ConfigError

pub data Loaded : Type 0 where
  config : Config → Loaded
  refused : ConfigError → Loaded

-- What `os.ReadFile` gives.
pub data File : Type 0 where
  missing : File
  unreadable : File
  content : Bytes → File

-- `DefaultPollIntervalSeconds`, `DefaultMaxConcurrentChecks`, `HistoricalMaxConcurrentChecksDefault`
abbrev pub default_poll_interval : ℕ
default_poll_interval = 30

abbrev pub default_max_concurrent : ℕ
default_max_concurrent = 50

abbrev pub is_historical : ℤ → Bool
is_historical (pos n) = n == 10
is_historical (negsuc _) = false

unfoldable pub poll_interval_or_default : ℤ → ℤ
poll_interval_or_default n = if not_positive n then pos default_poll_interval else n

unfoldable pub max_concurrent_or_default : ℤ → ℤ
max_concurrent_or_default n =
    if not_positive n || is_historical n then pos default_max_concurrent else n

-- The defaults that `Load` and `resolveConfig` of cmd/agent fill in.
unfoldable pub with_defaults : Config → Config
unfolding poll_interval_or_default max_concurrent_or_default
with_defaults c = record c {
  poll_interval_seconds = poll_interval_or_default c.poll_interval_seconds;
  max_concurrent_checks = max_concurrent_or_default c.max_concurrent_checks;
}

unfoldable pub validate : Config → Loaded
unfolding with_defaults
validate c =
    if is_empty c.node_secret
    then refused no_node_secret
    else if is_empty c.direct_url
    then refused no_direct_url
    else config (with_defaults c)

unfoldable pub validated : Loaded → Loaded
unfolding validate
validated (refused e) = refused e
validated (config c) = validate c

module _ (decode : Bytes → Option Config) where
  -- `Read`
  unfoldable pub read : File → Loaded
  read missing = config zero_config
  read unreadable = refused not_readable
  read (content b) = elim (decode b) [ none ↦ refused not_parsed | some c ↦ config c ]

  -- `Load`
  unfoldable pub load : File → Loaded
  unfolding read validated
  load f = validated (read f)

-- `Save`; `writable` is whether `os.WriteFile` succeeds.
unfoldable pub save : (Config → Bytes) → Bool → Config → File → File
save encode writable c old = if writable then content (encode c) else old
