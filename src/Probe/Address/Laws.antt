-- ===== src/Probe/Address/Laws.antt =====
-- Which address is chosen among those that the lookup gives.
-- A choice among rows that prefers those that satisfies `p`.
use pingachock.Probe.Address.{same_family, pick_v4, pick_preferred_ip, Ip}
use pingachock.Base.{
  [], inr, inl, Bool-cases, find_where-any, refl, false, true, arith, ◌∷◌, some, ◌≡◌, Option, none,
  find_where, any_where, List, Bool,
}

abbrev pub Prefers : (Ip → Bool) → Ip → Ip → List Ip → Type 0
Prefers p chosen other ips =
    (any_where p ips ≡ true → p chosen ≡ true) × (any_where p ips ≡ false → chosen ≡ other)

find_where-passes :
    (p : Ip → Bool) (ips : List Ip) (a : Ip) → find_where p ips ≡ some a → p a ≡ true
find_where-passes p [] a e = absurd cc
find_where-passes p (x ∷ ips) a e = elim (Bool-cases (p x)) [
  | inl here ↦ ground (arith, here, e)
  | inr there ↦ find_where-passes p ips a (ground (arith, there, e))
]

find_where-none :
    (p : Ip → Bool) (ips : List Ip) → find_where p ips ≡ none → any_where p ips ≡ false
find_where-none p [] e = refl
find_where-none p (x ∷ ips) e = elim (Bool-cases (p x)) [
  | inl here ↦ absurd (ground (arith, here, e))
  | inr there ↦ ground (arith, there, find_where-none p ips, e)
]

choose-Prefers :
    (p : Ip → Bool) (ips : List Ip) (other : Ip) (o : Option Ip)
    → find_where p ips ≡ o
    → Prefers p (elim o [ none ↦ other | some ip ↦ ip ]) other ips
choose-Prefers p ips other none e =
    (λ h. absurd (ground (arith, h, find_where-none p ips e)), λ _. refl)
choose-Prefers p ips other (some a) e =
    (λ _. find_where-passes p ips a e, λ h. absurd (ground (arith, h, find_where-any p ips a e)))

-- Where the check is bound to an address, one of the same family is chosen if there is one; if there
-- is none the choice is as for a free check.
pub pick_preferred_ip-family :
    (first family : Ip) (ips : List Ip)
    → Prefers
        (same_family family.is_v4)
        (pick_preferred_ip first ips (some family))
        (pick_preferred_ip first ips none)
        (first ∷ ips)
unfolding pick_preferred_ip
pick_preferred_ip-family first family ips =
    choose-Prefers (same_family family.is_v4) (first ∷ ips) (pick_preferred_ip first ips none) _
      refl

-- A free check takes an IPv4 address if there is one, and else the first address.
pub pick_preferred_ip-free :
    (first : Ip) (ips : List Ip)
    → Prefers (λ ip. ip.is_v4) (pick_preferred_ip first ips none) first (first ∷ ips)
unfolding pick_preferred_ip pick_v4
pick_preferred_ip-free first ips = choose-Prefers (λ ip. ip.is_v4) (first ∷ ips) first _ refl
