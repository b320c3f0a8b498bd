-- ===== src/Agent/Setup/CommandLine/Laws.antt =====
-- cmd/agent/main.go: the command line that a relocated agent is started with gives the same command.
use pingachock.Base.{
  ◌∙◌, sym, ap, refl, ◌∷◌, some, false, codes, ◌++◌, ◌≡◌, [], List, String, Bytes,
}
use pingachock.Agent.Setup.CommandLine.{
  with_action, build_reexec_args, starts_with_dash, flag_if_given, parse_flags, Flags,
  parse_command,
}

-- One flag of the new command line: it is read back, and where it is left out the value is empty.
flag_if_given-parse :
    (name : String) (set : Flags → Bytes → Flags)
    → ((v : Bytes) (rest : List Bytes) (f : Flags)
        → parse_flags (codes name ∷ v ∷ rest) f ≡ parse_flags rest (set f v))
    → (v : Bytes) (rest : List Bytes) (f : Flags) → set f [] ≡ f
    → parse_flags (flag_if_given name v ++ rest) f ≡ parse_flags rest (set f v)
flag_if_given-parse name set h [] rest f e = ap (parse_flags rest) (sym e)
flag_if_given-parse name set h (c ∷ v) rest f e = h (c ∷ v) rest f

module _ (path secret url iface domain host : Bytes) where
  -- The flags that are set behind those given.
  abbrev so_far : Bytes → Bytes → Bytes → Bytes → Flags
  so_far s u i d = record {
    config_path = path;
    node_secret = s;
    direct_url = u;
    iface = i;
    front_domain = d;
    front_real_host = [];
  }

  parse_secret :
      (rest : List Bytes)
      → parse_flags (flag_if_given "-node-secret" secret ++ rest) (so_far [] [] [] [])
        ≡ parse_flags rest (so_far secret [] [] [])
  unfolding parse_flags
  parse_secret rest =
      flag_if_given-parse "-node-secret" (λ f v. record f { node_secret = v }) (λ _ _ _. refl)
        secret rest (so_far [] [] [] []) refl

  parse_url :
      (rest : List Bytes)
      → parse_flags (flag_if_given "-direct-url" url ++ rest) (so_far secret [] [] [])
        ≡ parse_flags rest (so_far secret url [] [])
  unfolding parse_flags
  parse_url rest =
      flag_if_given-parse "-direct-url" (λ f v. record f { direct_url = v }) (λ _ _ _. refl) url
        rest (so_far secret [] [] []) refl

  parse_iface :
      (rest : List Bytes)
      → parse_flags (flag_if_given "-interface" iface ++ rest) (so_far secret url [] [])
        ≡ parse_flags rest (so_far secret url iface [])
  unfolding parse_flags
  parse_iface rest =
      flag_if_given-parse "-interface" (λ f v. record f { iface = v }) (λ _ _ _. refl) iface rest
        (so_far secret url [] []) refl

  parse_domain :
      (rest : List Bytes)
      → parse_flags (flag_if_given "-front-domain" domain ++ rest) (so_far secret url iface [])
        ≡ parse_flags rest (so_far secret url iface domain)
  unfolding parse_flags
  parse_domain rest =
      flag_if_given-parse "-front-domain" (λ f v. record f { front_domain = v }) (λ _ _ _. refl)
        domain rest (so_far secret url iface []) refl

  parse_host :
      parse_flags (flag_if_given "-front-real-host" host) (so_far secret url iface domain)
      ≡ some (record (so_far secret url iface domain) { front_real_host = host })
  unfolding parse_flags
  parse_host = last_flag host
    where
      last_flag :
          (h : Bytes)
          → parse_flags (flag_if_given "-front-real-host" h) (so_far secret url iface domain)
            ≡ some (record (so_far secret url iface domain) { front_real_host = h })
      last_flag [] = refl
      last_flag (c ∷ h) = refl

  parse_reexec :
      (action : Bytes)
      → starts_with_dash action ≡ false
      → parse_command (
          build_reexec_args action
            (record (so_far secret url iface domain) { front_real_host = host }))
        ≡ some (action, record (so_far secret url iface domain) { front_real_host = host })
  unfolding parse_command build_reexec_args parse_flags
  parse_reexec action h = rw h (
      ap (with_action action)
        (parse_secret _ ∙ parse_url _ ∙ parse_iface _ ∙ parse_domain _ ∙ parse_host))

-- The command line of a relocated agent is read as the same action, with the new configuration file and
-- all the flags of the first one, also where their values start with a dash or are left out; the action
-- itself starts with no dash.
pub parse_command-build_reexec_args :
    (action : Bytes) (f : Flags)
    → starts_with_dash action ≡ false
    → parse_command (build_reexec_args action f) ≡ some (action, f)
parse_command-build_reexec_args action f h =
    parse_reexec f.config_path f.node_secret f.direct_url f.iface f.front_domain f.front_real_host
      action h
