-- ===== src/Agent/Interface/Laws.antt =====
-- internal/netiface: what is known of the interfaces that are offered and of the servers found.
use pingachock.Base.{
  if◌then◌else◌, ap, ◌++◌, refl, equal_codes_iff, inr, codes, any_where, arith, equal_codes, false,
  true, none, Option-cases, inl, ◌≡◌, some, Bool-cases, ◌∷◌, All, [], find_where, Option, Bytes,
  Bool, List,
}
use pingachock.Agent.Interface.{
  list, is_v4, scutil_blocks, keep_some, RawInterface, interface_of, with_addrs, Interface,
  seen_before, usable, from_net_interface, preferred_addr, dedupe_from, parse_scutil_dns,
}
use pingachock.Probe.Address.{Ip}

-- An address may serve checks.
abbrev pub AllUsable : (Ip → Bool) → List Ip → Type 0
AllUsable is_link_local = All (λ ip. is_link_local ip ≡ false)

-- The preferred address of an interface: one of its own, and IPv4 where it has such a one.
pub record IsGood (is_link_local : Ip → Bool) (i : Interface) : Type 0 where
  pub addr : Ip
  pub is_preferred : preferred_addr i.addrs ≡ some addr
  pub not_link_local : is_link_local addr ≡ false
  pub is_v4_if_any : any_where is_v4 i.addrs ≡ true → addr.is_v4 ≡ true
  pub all_usable : AllUsable is_link_local i.addrs

find_where-none :
    (p : Ip → Bool) (ips : List Ip) → find_where p ips ≡ none → any_where p ips ≡ false
find_where-none p [] h = refl
find_where-none p (ip ∷ ips) h = ground (arith, find_where-none p ips)

find_where-some : (p : Ip → Bool) (ips : List Ip) (a : Ip) → find_where p ips ≡ some a → p a ≡ true
find_where-some p [] a h = cc
find_where-some p (ip ∷ ips) a h = elim (Bool-cases (p ip)) [
  | inl e ↦ ground (arith, e)
  | inr e ↦ ground (arith, e, find_where-some p ips a)
]

preferred_missing :
    (ip : Ip) (ips : List Ip)
    → find_where is_v4 (ip ∷ ips) ≡ none
    → preferred_addr (ip ∷ ips) ≡ some ip
unfolding preferred_addr
preferred_missing ip ips h = rw (h, preferred_addr) refl

preferred_found :
    (a ip : Ip) (ips : List Ip)
    → find_where is_v4 (ip ∷ ips) ≡ some a
    → preferred_addr (ip ∷ ips) ≡ some a
unfolding preferred_addr
preferred_found a ip ips h = rw (h, preferred_addr) refl

module _ (is_link_local : Ip → Bool) where
  find_where-AllUsable :
      (p : Ip → Bool) (ips : List Ip) (a : Ip)
      → AllUsable is_link_local ips
      → find_where p ips ≡ some a
      → is_link_local a ≡ false
  find_where-AllUsable p [] a u h = cc
  find_where-AllUsable p (ip ∷ ips) a u h = elim (Bool-cases (p ip)) [
    | inl e ↦ ground (arith, e, u.0)
    | inr e ↦ ground (arith, e, find_where-AllUsable p ips a u.1)
  ]

  usable-AllUsable : (os : List (Option Ip)) → AllUsable is_link_local (usable is_link_local os)
  unfolding usable
  usable-AllUsable [] = tt
  usable-AllUsable (none ∷ os) = usable-AllUsable os
  usable-AllUsable (some a ∷ os) = elim (Bool-cases (is_link_local a)) [
    | inl e ↦ rw e (usable-AllUsable os)
    | inr e ↦ rw e (e, usable-AllUsable os)
  ]

  nonempty-IsGood :
      (i : Interface) (ip : Ip) (ips : List Ip)
      → i.addrs ≡ ip ∷ ips
      → AllUsable is_link_local (ip ∷ ips)
      → IsGood is_link_local i
  unfolding preferred_addr
  nonempty-IsGood i ip ips e u = elim (Option-cases (find_where is_v4 (ip ∷ ips))) [
    | inl missing ↦ record {
      addr = ip;
      is_preferred = rw e (preferred_missing ip ips missing);
      not_link_local = u.0;
      is_v4_if_any = λ h. ground (arith, e, h, find_where-none is_v4 (ip ∷ ips) missing);
      all_usable = rw e u;
    }
    | inr (a, found) ↦ record {
      addr = a;
      is_preferred = rw e (preferred_found a ip ips found);
      not_link_local = find_where-AllUsable is_v4 (ip ∷ ips) a u found;
      is_v4_if_any = λ _. find_where-some is_v4 (ip ∷ ips) a found;
      all_usable = rw e u;
    }
  ]

  module _ (is_physical : Bytes → Bool) where
    -- What holds of the interface, where there is one.
    abbrev AllSome : Option Interface → Type 0
    AllSome none = Unit
    AllSome (some i) = IsGood is_link_local i

    interface_of-IsGood :
        (r : RawInterface) (ips : List Ip)
        → AllUsable is_link_local ips
        → AllSome (interface_of is_link_local is_physical r ips)
    unfolding interface_of
    interface_of-IsGood r [] u = tt
    interface_of-IsGood r (ip ∷ ips) u = nonempty-IsGood _ ip ips refl u

    with_addrs-IsGood :
        (r : RawInterface) (o : Option (List (Option Ip)))
        → AllSome (with_addrs is_link_local is_physical r o)
    unfolding with_addrs
    with_addrs-IsGood r none = tt
    with_addrs-IsGood r (some addrs) =
        interface_of-IsGood r (usable is_link_local addrs) (usable-AllUsable addrs)

    skipped-IsGood : (b : Bool) (o : Option Interface) → AllSome o → AllSome (if b then none else o)
    skipped-IsGood true o h = tt
    skipped-IsGood false o h = h

    from_net_interface-IsGood :
        (r : RawInterface) → AllSome (from_net_interface is_link_local is_physical r)
    unfolding from_net_interface
    from_net_interface-IsGood r = skipped-IsGood r.loopback _ (with_addrs-IsGood r r.addrs)

    kept-IsGood :
        (o : Option Interface) (is : List Interface)
        → AllSome o
        → All (IsGood is_link_local) is
        → All (IsGood is_link_local) (keep_some o is)
    kept-IsGood none is h rest = rest
    kept-IsGood (some i) is h rest = (h, rest)

    -- Every interface that is offered has a preferred address, which is IPv4 if it has an IPv4 address at
    -- all, and none of its addresses is link-local.
    pub list-IsGood :
        (rs : List RawInterface) → All (IsGood is_link_local) (list is_link_local is_physical rs)
    unfolding list
    list-IsGood [] = tt
    list-IsGood (r ∷ rs) =
        kept-IsGood (from_net_interface is_link_local is_physical r)
          (list is_link_local is_physical rs) (from_net_interface-IsGood r) (list-IsGood rs)

-- No text stands twice, and none of those seen before.
abbrev pub Fresh : List Bytes → List Bytes → Type 0
Fresh seen [] = Unit
Fresh seen (v ∷ vs) = (seen_before v seen ≡ false) × Fresh (v ∷ seen) vs

dedupe_from-Fresh : (seen vs : List Bytes) → Fresh seen (dedupe_from seen vs)
unfolding dedupe_from
dedupe_from-Fresh seen [] = tt
dedupe_from-Fresh seen (v ∷ vs) = elim (Bool-cases (seen_before v seen)) [
  | inl e ↦ rw e (dedupe_from-Fresh seen vs)
  | inr e ↦ rw e (e, dedupe_from-Fresh (v ∷ seen) vs)
]

seen-differs :
    (w v : Bytes) (seen : List Bytes)
    → seen_before v seen ≡ true
    → seen_before w seen ≡ false
    → equal_codes w v ≡ false
seen-differs w v seen e h = elim (Bool-cases (equal_codes w v)) [
  | inr other ↦ other
  | inl same ↦
      let p = (equal_codes_iff w v).0 same in
      let q = ap (λ (u : Bytes). seen_before u seen) p in absurd (cc)
]

seen_before-dedupe_from :
    (w : Bytes) (seen vs : List Bytes)
    → seen_before w seen ≡ false
    → seen_before w (dedupe_from seen vs) ≡ seen_before w vs
unfolding dedupe_from
seen_before-dedupe_from w seen [] h = refl
seen_before-dedupe_from w seen (v ∷ vs) h = elim (Bool-cases (seen_before v seen)) [
  | inl e ↦ rw (e, seen-differs w v seen e h) (seen_before-dedupe_from w seen vs h)
  | inr e ↦ elim (Bool-cases (equal_codes w v)) [
    | inl same ↦ rw (e, same) refl
    | inr other ↦ rw (e, other) (seen_before-dedupe_from w (v ∷ seen) vs (ground (arith, other, h)))
  ]
]

-- The servers of an interface on macOS are listed once each: as many as those that the blocks of the
-- interface name, without repeats.
pub parse_scutil_dns-Fresh :
    (blocks : List Bytes) (name : Bytes)
    → Fresh [] (parse_scutil_dns blocks name)
      × ((w : Bytes)
          → seen_before w (parse_scutil_dns blocks name)
            ≡ seen_before w (scutil_blocks (codes "(" ++ name ++ codes ")") blocks))
unfolding parse_scutil_dns
parse_scutil_dns-Fresh blocks name =
    (dedupe_from-Fresh [] _, λ w. seen_before-dedupe_from w [] _ refl)
