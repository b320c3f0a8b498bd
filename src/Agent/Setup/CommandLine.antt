-- ===== src/Agent/Setup/CommandLine.antt =====
-- cmd/agent/main.go: the command line. `parse_flags` is flag.FlagSet.Parse of the flags that `main`
-- declares, `none` its exit on a flag that it does not know or that lacks its value.
pub mod Laws
use pingachock.Base.{
  cut, is_empty, ◌||◌, not, false, equal_codes, none, ◌++◌, ◌==◌, ◌&&◌, Bool, some, if◌then◌else◌,
  ◌∷◌, codes, [], String, Option, List, Bytes,
}
use pingachock.Agent.Config.{refused, config, Loaded}

-- The values of the flags: that of -config, and `setupFlags`.
pub record Flags : Type 0 where
  pub config_path : Bytes
  pub node_secret : Bytes
  pub direct_url : Bytes
  pub iface : Bytes
  pub front_domain : Bytes
  pub front_real_host : Bytes

abbrev pub default_config : Bytes
default_config = codes "agent.json"

abbrev pub no_flags : Flags
no_flags = record {
  config_path = default_config;
  node_secret = [];
  direct_url = [];
  iface = [];
  front_domain = [];
  front_real_host = [];
}

abbrev pub equals : Bytes → String → Bool
equals s t = equal_codes s (codes t)

unfoldable pub set_flag : Bytes → Bytes → Flags → Option Flags
set_flag name v f =
    if equals name "config"
    then some (record f { config_path = v })
    else if equals name "node-secret"
    then some (record f { node_secret = v })
    else if equals name "direct-url"
    then some (record f { direct_url = v })
    else if equals name "interface"
    then some (record f { iface = v })
    else if equals name "front-domain"
    then some (record f { front_domain = v })
    else if equals name "front-real-host"
    then some (record f { front_real_host = v })
    else none

-- What one argument is to the flag package.
pub data Argument : Type 0 where
  plain : Argument
  malformed : Argument
  flag : Bytes → Argument
  flag_with : Bytes → Bytes → Argument

unfoldable pub named_flag : Bytes → Argument
unfolding cut
named_flag [] = malformed
named_flag (c ∷ name) =
    if c == b'-' || c == b'=' then malformed else elim (cut (codes "=") (c ∷ name)) [
      | none ↦ flag (c ∷ name)
      | some (before, v) ↦ flag_with before v
    ]

-- An argument behind its first "-": "--" ends the flags.
abbrev pub behind_dash : Bytes → Argument
behind_dash [] = plain
behind_dash (c ∷ s) =
    if c == b'-' then if is_empty s then plain else named_flag s else named_flag (c ∷ s)

unfoldable pub argument_of : Bytes → Argument
unfolding named_flag
argument_of [] = plain
argument_of (c ∷ s) = if c == b'-' then behind_dash s else plain

-- The rest of the flags, where this one could be set.
abbrev pub then_parse : (Flags → Option Flags) → Option Flags → Option Flags
then_parse rest none = none
then_parse rest (some f) = rest f

unfoldable pub parse_flags : List Bytes → Flags → Option Flags
unfolding argument_of set_flag
parse_flags [] f = some f
parse_flags (s ∷ []) f = elim (argument_of s) [
  | plain ↦ some f
  | malformed ↦ none
  | flag name ↦ none
  | flag_with name v ↦ set_flag name v f
]
parse_flags (s ∷ v ∷ rest) f = elim (argument_of s) [
  | plain ↦ some f
  | malformed ↦ none
  | flag name ↦ then_parse (parse_flags rest) (set_flag name v f)
  | flag_with name w ↦ then_parse (parse_flags (v ∷ rest)) (set_flag name w f)
]

abbrev pub starts_with_dash : Bytes → Bool
starts_with_dash [] = false
starts_with_dash (c ∷ _) = c == b'-'

-- The start of `main`: the action, empty where none is given, and the flags.
unfoldable pub with_action : Bytes → Option Flags → Option (Bytes × Flags)
with_action action none = none
with_action action (some f) = some (action, f)

unfoldable pub parse_command : List Bytes → Option (Bytes × Flags)
unfolding with_action
parse_command [] = some ([], no_flags)
parse_command (a ∷ args) =
    if starts_with_dash a
    then with_action [] (parse_flags (a ∷ args) no_flags)
    else with_action a (parse_flags args no_flags)

abbrev pub flag_if_given : String → Bytes → List Bytes
flag_if_given name [] = []
flag_if_given name (c ∷ v) = codes name ∷ (c ∷ v) ∷ []

-- `buildReExecArgs`
unfoldable pub build_reexec_args : Bytes → Flags → List Bytes
build_reexec_args action f =
    action
    ∷ codes "-config"
    ∷ f.config_path
    ∷ (flag_if_given "-node-secret" f.node_secret
        ++ (flag_if_given "-direct-url" f.direct_url
            ++ (flag_if_given "-interface" f.iface
                ++ (flag_if_given "-front-domain" f.front_domain
                    ++ flag_if_given "-front-real-host" f.front_real_host))))

-- filepath, of the operating system.
pub record Paths : Type 0 where
  pub is_abs : Bytes → Bool
  pub dir : Bytes → Bytes
  pub base : Bytes → Bytes
  pub clean : Bytes → Bytes
  pub ext : Bytes → Bytes
  pub join : Bytes → Bytes → Bytes

module _ (paths : Paths) (configured : Bytes → Bool) where
  -- `exe` is what `os.Executable` gives; `none` is its error.
  unfoldable pub beside : Bytes → Option Bytes → Bytes
  beside path none = path
  beside path (some exe) = if paths.is_abs path then path else paths.join (paths.dir exe) path

  -- The configuration file that `main` works on; `safe_dir` is `safeInstallDir`.
  unfoldable pub resolve_path : Bytes → Bytes → Option Bytes → Bytes
  unfolding beside
  resolve_path safe_dir path exe =
      let canonical = paths.join safe_dir (paths.base path) in
      if equals path "agent.json"
        && not (configured (beside path exe))
        && not (equal_codes canonical (beside path exe))
        && configured canonical
      then canonical
      else beside path exe

  unfoldable pub action_or_default : Bytes → Bytes → Bytes
  action_or_default [] path = if configured path then codes "menu" else codes "setup"
  action_or_default (c ∷ action) path = c ∷ action

-- `isConfigured`, of what `config.Read` gives.
abbrev pub is_configured : Loaded → Bool
is_configured (refused e) = false
is_configured (config c) = not (is_empty c.node_secret) && not (is_empty c.direct_url)
