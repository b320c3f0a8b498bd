-- ===== src/Agent/Setup/Resolve.antt =====
-- cmd/agent/main.go: how setup fills in the configuration from its flags, the saved file and the operator
-- (`resolveConfig`). The texts that are printed, and the probe of the backend that only prints, are left
-- out.
use pingachock.Agent.Config.{config, Loaded, Config, with_defaults, refused}
pub mod Laws
use pingachock.Base.{
  equal_codes, any_where, ◌&&◌, is_empty, ◌||◌, some, none, equal_fold, [], codes, if◌then◌else◌,
  ◌∷◌, Bool, List, Option, Bytes,
}
use pingachock.Agent.Setup.Input.{Input, normalize_bare_host, normalize_url, prompt_string}
use pingachock.Base.Int.{ℤ}
use pingachock.Probe.Address.{Ip}
use pingachock.Agent.Interface.{Interface, preferred_addr}
use pingachock.Agent.Setup.CommandLine.{Flags}
use pingachock.Agent.Setup.Choice.{
  out_of_range, exits, not_chosen, chosen, choose_interface, Choice, Poll,
}

-- The words that are taken for yes: "y", "yes", and their Russian forms in UTF-8.
abbrev pub yes_words : List Bytes
yes_words =
    (208 ∷ 180 ∷ [])
    ∷ (208 ∷ 148 ∷ [])
    ∷ (208 ∷ 180 ∷ 208 ∷ 176 ∷ [])
    ∷ (208 ∷ 148 ∷ 208 ∷ 176 ∷ [])
    ∷ (208 ∷ 180 ∷ 208 ∷ 144 ∷ [])
    ∷ (208 ∷ 148 ∷ 208 ∷ 144 ∷ [])
    ∷ []

unfoldable pub says_yes : Bytes → Bool
says_yes s =
    equal_fold s (codes "y") || equal_fold s (codes "yes") || any_where (equal_codes s) yes_words

-- A value: from its flag, as it was saved, or from the operator.
abbrev pub given_or_asked : Bytes → Bytes → Input → Bytes × Input
given_or_asked [] [] input = prompt_string input
given_or_asked [] (c ∷ saved) input = (c ∷ saved, input)
given_or_asked (c ∷ given) saved input = (c ∷ given, input)

abbrev pub given_or_saved : Bytes → Bytes → Bytes
given_or_saved [] saved = saved
given_or_saved (c ∷ given) saved = c ∷ given

unfoldable pub fill_backend : Flags → Config → Input → Config × Input
unfolding prompt_string
fill_backend f c input =
    let (secret, i) = given_or_asked f.node_secret c.node_secret input in
    let (url, j) = given_or_asked f.direct_url c.direct_url i in
    (
      record c {
        node_secret = secret;
        direct_url = url;
        front_domain = given_or_saved f.front_domain c.front_domain;
        front_real_host = given_or_saved f.front_real_host c.front_real_host;
      },
      j,
    )

abbrev pub ask_hosts : Config → Input → Config × Input
ask_hosts c input =
    let (domain, i) = prompt_string input in
    let (host, j) = prompt_string i in
    (record c { front_domain = domain; front_real_host = host }, j)

-- The question for the fallback; it is put only where nothing is known of one.
unfoldable pub ask_fallback : Config → Input → Config × Input
unfolding prompt_string says_yes
ask_fallback c input =
    if is_empty c.front_domain && is_empty c.front_real_host
    then (let (answer, i) = prompt_string input in
        if says_yes answer then ask_hosts c i else (c, i))
    else (c, input)

unfoldable pub normalize_config : Config → Config
unfolding normalize_url normalize_bare_host
normalize_config c = record c {
  direct_url = (normalize_url c.direct_url).0;
  front_domain = (normalize_bare_host c.front_domain).0;
  front_real_host = (normalize_bare_host c.front_real_host).0;
}

abbrev pub addr_text : Option Ip → Bytes
addr_text none = codes "<nil>"
addr_text (some ip) = codes ip.text

abbrev pub or_no_servers : Option (List Bytes) → List Bytes
or_no_servers none = []
or_no_servers (some servers) = servers

abbrev pub at_interface : Option (List Bytes) → Interface → Config → Config
at_interface servers i c = record c {
  interface_name = i.name;
  local_addr = addr_text (preferred_addr i.addrs);
  dns_servers = or_no_servers servers;
}

-- The interface and its name servers, and the defaults.
unfoldable pub with_interface : Option (List Bytes) → Interface → Config → Config
unfolding with_defaults preferred_addr
with_interface servers i c = with_defaults (at_interface servers i c)

pub data Resolved : Type 0 where
  resolved : Config → Input → Resolved
  not_resolved : Resolved
  stopped : Resolved

module _ (atoi : Bytes → Option ℤ) (poll : Config → Poll) (listed : Option (List Interface))
    (dns_servers : Bytes → Option (List Bytes)) where
  abbrev pub after_choice : Config → Choice → Resolved
  after_choice c (chosen i rest) = resolved (with_interface (dns_servers i.name) i c) rest
  after_choice c not_chosen = not_resolved
  after_choice c exits = stopped
  after_choice c out_of_range = stopped

  unfoldable pub choose_for : Flags → Config → Input → Resolved
  unfolding choose_interface with_interface
  choose_for f c input = after_choice c (choose_interface atoi (poll c) c f.iface listed input)

  unfoldable pub resolve_read : Flags → Config → Input → Resolved
  unfolding choose_for fill_backend ask_fallback normalize_config
  resolve_read f c input =
      let (filled, i) = fill_backend f c input in
      let (asked, j) = ask_fallback filled i in choose_for f (normalize_config asked) j

  -- `resolveConfig`, on what `config.Read` gives.
  unfoldable pub resolve_config : Flags → Loaded → Input → Resolved
  unfolding resolve_read
  resolve_config f (refused e) input = not_resolved
  resolve_config f (config c) input = resolve_read f c input
