-- ===== src/Agent/Setup/Tests.antt =====
-- The theorems about setup at a concrete machine: a tunnel and a network card, and a node that is set up
-- without flags.
use pingachock.Agent.Config.{missing, config, save, load, zero_config, Config}
use pingachock.Agent.Setup.CommandLine.{no_flags, Paths, build_reexec_args, Flags, parse_command}
use pingachock.Base.{
  equal_codes, ◌++◌, List, ◌-◌, if◌then◌else◌, refl, none, not, ◌≡◌, some, codes, Option,
  trim_space, [], Bool, true, false, ◌∷◌, Bytes,
}
use pingachock.Agent.Setup.Choice.{
  chosen, InterfaceProbe, choose_interface, pick_default_interface, Poll,
}
use pingachock.Agent.Setup.Input.{is_digit, Input}
use pingachock.Agent.Interface.{Interface}
use pingachock.Agent.Setup.Choice.Listed.{choose_interface-IsListed, IsListed}
use pingachock.Probe.Address.{Ip}
use pingachock.Agent.Setup.Choice.Laws.{pick_default_interface-IsBest, IsBest}
use pingachock.Base.Int.{pos, ℤ}
use pingachock.Agent.Setup.CommandLine.Laws.{parse_command-build_reexec_args}
use pingachock.Agent.Setup.Resolve.Laws.{resolve_config-IsReady, IsReady}
use pingachock.Agent.Setup.Resolve.{resolve_config, resolved}
use pingachock.Agent.Setup.Install.{DirEntry, Machine}

abbrev card_ip : Ip
card_ip = record { is_v4 = true; text = "192.168.1.5" }

abbrev tunnel : Interface
tunnel = record { name = codes "utun0"; addrs = card_ip ∷ []; is_up = true; is_physical = false }

abbrev card : Interface
card = record { name = codes "en0"; addrs = card_ip ∷ []; is_up = true; is_physical = true }

abbrev probed : Interface → Bool → InterfaceProbe
probed i b = record { iface = i; direct_ok = b; fronted_ok = false; failed = not b }

-- The card is chosen though only the tunnel connects.
pick_default_interface-IsBest_example :
    IsBest (probed tunnel true ∷ probed card false ∷ []) (some 1)
unfolding pick_default_interface
pick_default_interface-IsBest_example =
    pick_default_interface-IsBest (probed tunnel true ∷ probed card false ∷ [])

-- A digit is a number.
abbrev digit : Bytes → Option ℤ
digit [] = none
digit (c ∷ s) = if is_digit c then some (pos (c - b'0')) else none

abbrev blocked : Poll
blocked r addr = false

abbrev typed_two : Input
typed_two = record { lines = codes "nine" ∷ codes " 2 " ∷ []; last = [] }

choose_interface-IsListed_example :
    IsListed
      (tunnel ∷ card ∷ [])
      (choose_interface digit blocked zero_config [] (some (tunnel ∷ card ∷ [])) typed_two)
choose_interface-IsListed_example =
    choose_interface-IsListed digit blocked zero_config [] (tunnel ∷ card ∷ []) typed_two

chooses_typed :
    choose_interface digit blocked zero_config [] (some (tunnel ∷ card ∷ [])) typed_two
    ≡ chosen card (record { lines = []; last = [] })
unfolding choose_interface trim_space
chooses_typed = refl

abbrev flags : Flags
flags = record {
  config_path = codes "/opt/agent.json";
  node_secret = codes "-secret";
  direct_url = [];
  iface = codes "auto";
  front_domain = [];
  front_real_host = codes "x.a.run.app";
}

parse_command-build_reexec_args_example :
    parse_command (build_reexec_args (codes "setup") flags) ≡ some (codes "setup", flags)
parse_command-build_reexec_args_example = parse_command-build_reexec_args (codes "setup") flags refl

-- The secret is typed, the URL without its scheme, and no fallback is set up.
abbrev typed_backend : Input
typed_backend = record {
  lines = codes "s3cret" ∷ codes "backend.example.com:30031" ∷ [] ∷ codes "2" ∷ [];
  last = [];
}

abbrev no_servers : Bytes → Option (List Bytes)
no_servers name = none

abbrev node_config : Config
node_config = record zero_config {
  node_secret = codes "s3cret";
  direct_url = codes "https://backend.example.com:30031";
  interface_name = codes "en0";
  local_addr = codes "192.168.1.5";
  poll_interval_seconds = pos 30;
  max_concurrent_checks = pos 50;
}

abbrev only_config : Bytes → Option Config
only_config b = some node_config

abbrev as_text : Config → Bytes
as_text c = codes "config"

resolves_typed :
    resolve_config digit
      (λ c. blocked)
      (some (tunnel ∷ card ∷ []))
      no_servers
      no_flags
      (config zero_config)
      typed_backend
    ≡ resolved node_config (record { lines = []; last = [] })
unfolding resolve_config trim_space
resolves_typed = refl

resolve_config-IsReady_example :
    IsReady node_config
    × (load only_config (save as_text true node_config missing) ≡ config node_config)
resolve_config-IsReady_example =
    resolve_config-IsReady digit (λ c. blocked) (some (tunnel ∷ card ∷ [])) no_servers no_flags
      (config zero_config) typed_backend node_config (record { lines = []; last = [] }) only_config
      as_text missing resolves_typed refl refl refl

-- An update from a download of another name replaces the only binary that is installed.
abbrev same_path : Bytes → Bytes
same_path p = p

abbrev flat : Paths
flat = record {
  is_abs = λ p. true;
  dir = λ p. [];
  base = same_path;
  clean = same_path;
  ext = λ p. [];
  join = λ d p. d ++ (codes "/" ++ p);
}

abbrev machine : Machine
machine = record {
  files = λ p. if equal_codes p (codes "agent (1)") then some (codes "new") else some (codes "old");
  can_write = λ p. true;
  running = true;
}

abbrev installed : List DirEntry
installed =
    record { name = codes "agent"; is_dir = false }
    ∷ record { name = codes "logs"; is_dir = true }
    ∷ []
