-- ===== src/Agent/Setup/Choice.antt =====
-- cmd/agent/main.go: which network interface checks run through, and the probes that setup makes.
pub mod Laws
pub mod Listed
use pingachock.Base.{
  get_elem?, ◌<◌, ◌<◌, ◌<◌, ◌<◌, ◌<◌, ◌<◌, ◌<◌, ◌<◌, ◌<◌, ◌<◌, ◌<◌, ◌<◌, ◌<◌, ◌<◌, ◌<◌, zero, false,
  suc, ◌-◌, [], map, find_where, length, is_empty, true, ◌∷◌, some, codes, or_else, ◌&&◌, none, not,
  if◌then◌else◌, equal_codes, ℕ, ◌||◌, Bytes, List, Option, Bool,
}
use pingachock.Agent.Setup.Input.{Input, prompt_int_default}
use pingachock.Agent.Interface.{preferred_addr, Interface}
use pingachock.Agent.Config.{Config}
use pingachock.Probe.Address.{Ip}
use pingachock.Base.Int.{ℤ}

-- `interfaceProbe`; `failed` is its error.
pub record InterfaceProbe : Type 0 where
  pub iface : Interface
  pub direct_ok : Bool
  pub fronted_ok : Bool
  pub failed : Bool

abbrev pub is_ok : InterfaceProbe → Bool
is_ok p = p.direct_ok || p.fronted_ok

pub data Route : Type 0 where
  direct fronted : Route

-- A poll over one of the transports, from an address where one is given; `true` is an answer.
abbrev pub Poll : Type 0
Poll = Route → Option Ip → Bool

-- `FrontDomain != "" && FrontRealHost != ""`
abbrev pub is_fronted : Config → Bool
is_fronted c = not (is_empty c.front_domain) && not (is_empty c.front_real_host)

-- `probeBackend`: what it answers over; `none` is its error.
unfoldable pub probe_backend : Poll → Config → Option Route
probe_backend poll c =
    if poll direct none
    then some direct
    else if is_fronted c && poll fronted none
    then some fronted
    else none

-- `probeInterface`
unfoldable pub probe_interface : Poll → Config → Interface → InterfaceProbe
probe_interface poll c i =
    let addr = preferred_addr i.addrs in
    if poll direct addr
    then record { iface = i; direct_ok = true; fronted_ok = false; failed = false }
    else record {
      iface = i;
      direct_ok = false;
      fronted_ok = is_fronted c && poll fronted addr;
      failed = true;
    }

-- The index of the first element that passes a test.
abbrev pub one_later : Option ℕ → Option ℕ
one_later none = none
one_later (some i) = some (suc i)

unfoldable pub index_where : (InterfaceProbe → Bool) → List InterfaceProbe → Option ℕ
index_where p [] = none
index_where p (x ∷ xs) = let rest = index_where p xs in if p x then some 0 else one_later rest

abbrev pub is_physical_ok : InterfaceProbe → Bool
is_physical_ok p = p.iface.is_physical && is_ok p

abbrev pub is_physical_probe : InterfaceProbe → Bool
is_physical_probe p = p.iface.is_physical

-- `pickDefaultInterface`, on the probes of the interfaces in their order; `none` is -1.
unfoldable pub pick_default_interface : List InterfaceProbe → Option ℕ
unfolding index_where
pick_default_interface ps =
    or_else (index_where is_physical_ok ps)
      (or_else (index_where is_physical_probe ps) (index_where is_ok ps))

abbrev pub is_named : Bytes → Interface → Bool
is_named name i = equal_codes i.name name

abbrev pub is_auto : Bytes → Bool
is_auto name = equal_codes name (codes "auto")

-- `pickInterface`, on the interfaces that the system lists.
unfoldable pub pick_interface : Bytes → List Interface → Option Interface
pick_interface name [] = none
pick_interface name (i ∷ is) =
    if is_auto name
    then or_else (find_where (λ (j : Interface). j.is_up) (i ∷ is)) (some i)
    else find_where (is_named name) (i ∷ is)

-- How the choice ends: `exits` is the end of the process where nobody answers, `out_of_range` an index
-- without an interface.
pub data Choice : Type 0 where
  chosen : Interface → Input → Choice
  not_chosen : Choice
  exits : Choice
  out_of_range : Choice

abbrev pub chosen_or : Choice → Option Interface → Input → Choice
chosen_or c none input = c
chosen_or c (some i) input = chosen i input

-- The index that -interface=auto takes.
abbrev pub or_first : Option ℕ → ℕ
or_first none = 0
or_first (some i) = i

-- `defaultIdx + 1`
abbrev pub as_typed : Option ℕ → ℕ
as_typed none = 0
as_typed (some i) = suc i

abbrev pub take_typed : List Interface → Option (ℕ × Input) → Choice
take_typed is none = exits
take_typed is (some (n, rest)) = chosen_or out_of_range (get_elem? is (n - 1)) rest

unfoldable pub ask_interface : (Bytes → Option ℤ) → List Interface → Option ℕ → Input → Choice
unfolding prompt_int_default
ask_interface atoi is default input =
    take_typed is (prompt_int_default atoi 1 (length is) (as_typed default) input.lines input.last)

-- What follows the probes of `chooseInterface`.
unfoldable pub choose_probed :
    (Bytes → Option ℤ) → Bytes → List Interface → Option ℕ → Input → Choice
unfolding ask_interface
choose_probed atoi flag is default input =
    if is_auto flag
    then chosen_or out_of_range (get_elem? is (or_first default)) input
    else ask_interface atoi is default input

unfoldable pub choose_listed :
    (Bytes → Option ℤ) → Poll → Config → Bytes → List Interface → Input → Choice
unfolding choose_probed pick_default_interface probe_interface
choose_listed atoi poll c flag is input =
    if not (is_empty flag) && not (is_auto flag)
    then chosen_or not_chosen (pick_interface flag is) input
    else choose_probed atoi flag is (pick_default_interface (map (probe_interface poll c) is)) input

-- `chooseInterface`; `none` is the error of `netiface.List`.
unfoldable pub choose_interface :
    (Bytes → Option ℤ) → Poll → Config → Bytes → Option (List Interface) → Input → Choice
unfolding choose_listed
choose_interface atoi poll c flag none input = not_chosen
choose_interface atoi poll c flag (some []) input = not_chosen
choose_interface atoi poll c flag (some (i ∷ is)) input =
    choose_listed atoi poll c flag (i ∷ is) input
