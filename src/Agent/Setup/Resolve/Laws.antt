-- ===== src/Agent/Setup/Resolve/Laws.antt =====
-- cmd/agent/main.go: the configuration that setup saves is the one that the agent then runs with.
use mathlib.Core.Path.{subst}
use pingachock.Agent.Config.{Loaded, config, save, load, File, Config, refused}
use pingachock.Base.{
  refl, trim_space, inr, inl, List, Bool-cases, true, false, some, ◌≡◌, is_empty, Option, Bytes,
}
use pingachock.Agent.Setup.Input.{Input, normalize_url, has_scheme, normalize_trimmed}
use pingachock.Agent.Setup.Resolve.{
  ask_fallback, fill_backend, stopped, not_resolved, resolved, at_interface, choose_for,
  resolve_read, after_choice, resolve_config, normalize_config, with_interface, Resolved,
}
use pingachock.Agent.Config.Laws.{load-save, with_defaults-IsRunnable, IsRunnable}
use pingachock.Base.Int.{ℤ}
use pingachock.Agent.Setup.Choice.{out_of_range, exits, not_chosen, chosen, Choice, Poll}
use pingachock.Agent.Interface.{Interface}
use pingachock.Agent.Setup.CommandLine.{Flags}

-- A configuration that the agent runs with as it is.
pub record IsReady (c : Config) : Type 0 where
  pub runs : IsRunnable c
  pub schemed : has_scheme c.direct_url ≡ true

-- What holds of a configuration with a secret and a backend, where setup gives one.
abbrev Gives : Resolved → Type 0
Gives (resolved c rest) = is_empty c.node_secret ≡ false → is_empty c.direct_url ≡ false → IsReady c
Gives not_resolved = Unit
Gives stopped = Unit

normalize_trimmed-has_scheme :
    (t : Bytes)
    → is_empty (normalize_trimmed t).0 ≡ false
    → has_scheme (normalize_trimmed t).0 ≡ true
unfolding normalize_trimmed
normalize_trimmed-has_scheme t h = elim (Bool-cases (is_empty t)) [
  | inl e ↦ absurd (cc (empty_kept e, h))
  | inr e ↦ elim (Bool-cases (has_scheme t)) [
    | inl good ↦ rw (e, good) good
    | inr bad ↦ rw (e, bad) refl
  ]
]
  where
    empty_kept : is_empty t ≡ true → is_empty (normalize_trimmed t).0 ≡ true
    empty_kept e = rw e e

with_interface-IsReady :
    (servers : Option (List Bytes)) (i : Interface) (c : Config)
    → is_empty c.node_secret ≡ false
    → is_empty (normalize_config c).direct_url ≡ false
    → IsReady (with_interface servers i (normalize_config c))
unfolding with_interface normalize_config normalize_url
with_interface-IsReady servers i c s u = record {
  runs = with_defaults-IsRunnable (at_interface servers i (normalize_config c)) s u;
  schemed = normalize_trimmed-has_scheme (trim_space c.direct_url) u;
}

module _ (atoi : Bytes → Option ℤ) (poll : Config → Poll) (listed : Option (List Interface))
    (dns_servers : Bytes → Option (List Bytes)) where
  after_choice-Gives :
      (c : Config) (ch : Choice)
      → Gives (after_choice atoi poll listed dns_servers (normalize_config c) ch)
  unfolding with_interface normalize_config
  after_choice-Gives c (chosen i rest) = λ s u. with_interface-IsReady (dns_servers i.name) i c s u
  after_choice-Gives c not_chosen = tt
  after_choice-Gives c exits = tt
  after_choice-Gives c out_of_range = tt

  resolve_config-Gives :
      (f : Flags) (saved : Loaded) (input : Input)
      → Gives (resolve_config atoi poll listed dns_servers f saved input)
  unfolding resolve_config resolve_read choose_for
  resolve_config-Gives f (refused e) input = tt
  resolve_config-Gives f (config c) input =
      let (filled, rest) = fill_backend f c input in
      after_choice-Gives (ask_fallback filled rest).0 _

  -- Whatever was saved, flagged and typed: a configuration that setup gives, with a secret and a backend,
  -- is one that the agent can run with, the backend's URL has a scheme, and the agent loads the saved
  -- file as that very configuration, if the codec reads back what it writes.
  pub resolve_config-IsReady :
      (f : Flags) (saved : Loaded) (input : Input) (c : Config) (rest : Input)
      (decode : Bytes → Option Config) (encode : Config → Bytes) (old : File)
      → resolve_config atoi poll listed dns_servers f saved input ≡ resolved c rest
      → is_empty c.node_secret ≡ false
      → is_empty c.direct_url ≡ false
      → decode (encode c) ≡ some c
      → IsReady c × (load decode (save encode true c old) ≡ config c)
  resolve_config-IsReady f saved input c rest decode encode old e s u codec =
      let ready = subst Gives e (resolve_config-Gives f saved input) s u in
      (ready, load-save decode encode c old codec ready.runs)
