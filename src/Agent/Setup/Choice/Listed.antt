-- ===== src/Agent/Setup/Choice/Listed.antt =====
-- cmd/agent/main.go: the interface that is chosen is one of those that are listed.
use mathlib.Core.Path.{subst}
use pingachock.Base.{
  ◌&&◌, is_empty, not, ◌-◌, [], ap, refl, inr, arith, get_elem?-within, ◌≡◌, map, none, inl,
  get_elem?, suc, or_else, length, ◌<◌, find_where, some, Bool-cases, Bool, ◌∷◌, Option, ℕ, List,
  Bytes,
}
use pingachock.Agent.Setup.Choice.{
  probe_interface, is_ok, as_typed, exits, is_named, ask_interface, is_physical_probe, Poll,
  take_typed, choose_probed, choose_listed, one_later, or_first, is_physical_ok, out_of_range,
  is_auto, choose_interface, not_chosen, chosen, chosen_or, InterfaceProbe, Choice, index_where,
  pick_interface, pick_default_interface,
}
use pingachock.Agent.Interface.{Interface}
use pingachock.Agent.Setup.Input.{Input}
use pingachock.Base.Int.{ℤ}
use pingachock.Agent.Setup.Input.Laws.{prompt_int_default-Within, Within}
use pingachock.Agent.Config.{Config}

-- A choice is one of the listed interfaces, or none is made; no index is out of range.
abbrev pub IsListed : List Interface → Choice → Type 0
IsListed is (chosen i _) = (n : ℕ) × (get_elem? is n ≡ some i)
IsListed is not_chosen = Unit
IsListed is exits = Unit
IsListed is out_of_range = ⊥

-- What holds of an interface that is found.
abbrev Listed : List Interface → Option Interface → Type 0
Listed is none = Unit
Listed is (some i) = (n : ℕ) × (get_elem? is n ≡ some i)

find_where-Listed : (p : Interface → Bool) (is : List Interface) → Listed is (find_where p is)
find_where-Listed p [] = tt
find_where-Listed p (i ∷ is) = elim (Bool-cases (p i)) [
  | inl e ↦ rw e (0, refl)
  | inr e ↦ rw e (later (find_where p is) (find_where-Listed p is))
]
  where
    later : (o : Option Interface) → Listed is o → Listed (i ∷ is) o
    later none h = tt
    later (some j) (n, at) = (suc n, at)

or_first-Listed :
    (i : Interface) (is : List Interface) (o : Option Interface)
    → Listed (i ∷ is) o
    → Listed (i ∷ is) (or_else o (some i))
or_first-Listed i is none h = (0, refl)
or_first-Listed i is (some j) h = h

pick_interface-Listed : (name : Bytes) (is : List Interface) → Listed is (pick_interface name is)
unfolding pick_interface
pick_interface-Listed name [] = tt
pick_interface-Listed name (i ∷ is) = elim (Bool-cases (is_auto name)) [
  | inl e ↦ rw e (or_first-Listed i is _ (find_where-Listed (λ j. j.is_up) (i ∷ is)))
  | inr e ↦ rw e (find_where-Listed (is_named name) (i ∷ is))
]

chosen_or-IsListed :
    (is : List Interface) (o : Option Interface) (input : Input)
    → Listed is o
    → IsListed is (chosen_or not_chosen o input)
chosen_or-IsListed is none input h = tt
chosen_or-IsListed is (some i) input h = h

within-IsListed :
    (is : List Interface) (n : ℕ) (input : Input)
    → n < length is
    → IsListed is (chosen_or out_of_range (get_elem? is n) input)
within-IsListed is n input h = let (i, at) = get_elem?-within is n h in rw at (n, at)

-- The default is an index of the list.
abbrev Below : ℕ → Option ℕ → Type 0
Below n none = Unit
Below n (some i) = i < n

one_later-Below : (n : ℕ) (o : Option ℕ) → Below n o → Below (suc n) (one_later o)
one_later-Below n none h = tt
one_later-Below n (some i) h = omega arith

index_where-Below :
    (t : InterfaceProbe → Bool) (ps : List InterfaceProbe) → Below (length ps) (index_where t ps)
unfolding index_where
index_where-Below t [] = tt
index_where-Below t (p ∷ ps) = elim (Bool-cases (t p)) [
  | inl e ↦ rw e (omega arith)
  | inr e ↦ rw e (one_later-Below (length ps) (index_where t ps) (index_where-Below t ps))
]

or_else-Below : (n : ℕ) (o rest : Option ℕ) → Below n o → Below n rest → Below n (or_else o rest)
or_else-Below n none rest h k = k
or_else-Below n (some i) rest h k = h

pick_default_interface-Below :
    (ps : List InterfaceProbe) → Below (length ps) (pick_default_interface ps)
unfolding pick_default_interface
pick_default_interface-Below ps =
    or_else-Below (length ps) _ _ (index_where-Below is_physical_ok ps) (
      or_else-Below (length ps) _ _ (index_where-Below is_physical_probe ps)
        (index_where-Below is_ok ps))

length-map : (f : Interface → InterfaceProbe) (is : List Interface) → length (map f is) ≡ length is
length-map f [] = refl
length-map f (i ∷ is) = ap suc (length-map f is)

or_first-lt : (n : ℕ) (o : Option ℕ) → Below (suc n) o → or_first o < suc n
or_first-lt n none h = omega arith
or_first-lt n (some i) h = h

module _ (atoi : Bytes → Option ℤ) where
  take_typed-IsListed :
      (is : List Interface) (default : ℕ) (o : Option (ℕ × Input))
      → Within atoi 1 (length is) default o
      → IsListed is (take_typed is o)
  take_typed-IsListed is default none h = tt
  take_typed-IsListed is default (some (n, rest)) h = within-IsListed is (n - 1) rest (omega arith)

  choose_probed-IsListed :
      (flag : Bytes) (i : Interface) (is : List Interface) (default : Option ℕ) (input : Input)
      → Below (length (i ∷ is)) default
      → IsListed (i ∷ is) (choose_probed atoi flag (i ∷ is) default input)
  unfolding choose_probed ask_interface
  choose_probed-IsListed flag i is default input h = elim (Bool-cases (is_auto flag)) [
    | inl e ↦ rw e (within-IsListed (i ∷ is) _ input (or_first-lt (length is) default h))
    | inr e ↦ rw e (
        take_typed-IsListed (i ∷ is) (as_typed default) _ (
          prompt_int_default-Within atoi 1 (length (i ∷ is)) (as_typed default) input.lines
            input.last))
  ]

  choose_listed-IsListed :
      (poll : Poll) (c : Config) (flag : Bytes) (i : Interface) (is : List Interface)
      (input : Input)
      → IsListed (i ∷ is) (choose_listed atoi poll c flag (i ∷ is) input)
  unfolding choose_listed
  choose_listed-IsListed poll c flag i is input =
      elim (Bool-cases (not (is_empty flag) && not (is_auto flag))) [
        | inl e ↦ rw e (chosen_or-IsListed (i ∷ is) _ input (pick_interface-Listed flag (i ∷ is)))
        | inr e ↦ rw e (
            choose_probed-IsListed flag i is _ input (
              subst (λ n. Below n (pick_default_interface (map (probe_interface poll c) (i ∷ is))))
                (length-map (probe_interface poll c) (i ∷ is))
                (pick_default_interface-Below (map (probe_interface poll c) (i ∷ is)))))
      ]

  -- Whatever the flag, the probes and the input, the interface that setup chooses is one of those that are
  -- listed, and the index of the choice is in range.
  pub choose_interface-IsListed :
      (poll : Poll) (c : Config) (flag : Bytes) (is : List Interface) (input : Input)
      → IsListed is (choose_interface atoi poll c flag (some is) input)
  unfolding choose_interface
  choose_interface-IsListed poll c flag [] input = tt
  choose_interface-IsListed poll c flag (i ∷ is) input =
      choose_listed-IsListed poll c flag i is input
