-- ===== src/Agent/Setup/Choice/Laws.antt =====
-- cmd/agent/main.go: the default interface is the best one, and the chosen one is one that is listed.
use pingachock.Agent.Setup.Choice.{
  one_later, is_physical_probe, is_physical_ok, is_ok, InterfaceProbe, index_where,
  pick_default_interface,
}
use pingachock.Base.{
  refl, [], All-take, take, none, All-zip, All-of, inr, or_else, inl, get_elem?, All-imp, ◌+◌,
  false, some, true, Bool-cases, ◌≡◌, All, ◌∷◌, arith, if◌then◌else◌, Bool, ℕ, Option, ◌≤◌, ◌<◌,
  ◌<◌, ◌<◌, ◌<◌, ◌<◌, ◌<◌, ◌<◌, ◌<◌, ◌<◌, ◌<◌, ◌<◌, ◌<◌, ◌<◌, ◌<◌, List,
}

-- A physical interface comes before any other, and one with a connection before one without.
abbrev pub rank : InterfaceProbe → ℕ
rank p = (if p.iface.is_physical then 2 else 0) + (if is_ok p then 1 else 0)

-- The first of the best, if any interface is physical or has a connection.
abbrev pub IsBest : List InterfaceProbe → Option ℕ → Type 0
IsBest ps none = All (λ p. rank p ≡ 0) ps
IsBest ps (some i) =
    (p : InterfaceProbe) × (get_elem? ps i ≡ some p)
    × (0 < rank p)
    × All (λ q. rank q ≤ rank p) ps
    × All (λ q. rank q < rank p) (take i ps)

-- What `index_where` finds.
abbrev Finds : (InterfaceProbe → Bool) → List InterfaceProbe → Option ℕ → Type 0
Finds t ps none = All (λ p. t p ≡ false) ps
Finds t ps (some i) =
    (p : InterfaceProbe) × (get_elem? ps i ≡ some p)
    × (t p ≡ true)
    × All (λ q. t q ≡ false) (take i ps)

one_later-Finds :
    (t : InterfaceProbe → Bool) (p : InterfaceProbe) (ps : List InterfaceProbe) (o : Option ℕ)
    → t p ≡ false
    → Finds t ps o
    → Finds t (p ∷ ps) (one_later o)
one_later-Finds t p ps none e h = (e, h)
one_later-Finds t p ps (some i) e (q, found, passes, before) = (q, found, passes, (e, before))

index_where-Finds :
    (t : InterfaceProbe → Bool) (ps : List InterfaceProbe) → Finds t ps (index_where t ps)
unfolding index_where
index_where-Finds t [] = tt
index_where-Finds t (p ∷ ps) = elim (Bool-cases (t p)) [
  | inl e ↦ rw e (p, refl, e, tt)
  | inr e ↦ rw e (one_later-Finds t p ps (index_where t ps) e (index_where-Finds t ps))
]

rank-le : (p : InterfaceProbe) → rank p ≤ 3
rank-le p = ground arith

rank_physical_ok : (p : InterfaceProbe) → is_physical_ok p ≡ true → rank p ≡ 3
rank_physical_ok p h = ground arith

rank_not_physical_ok : (p : InterfaceProbe) → is_physical_ok p ≡ false → rank p ≤ 2
rank_not_physical_ok p h = ground arith

rank_physical : (p : InterfaceProbe) → is_physical_probe p ≡ true → 2 ≤ rank p
rank_physical p h = ground arith

rank_not_physical : (p : InterfaceProbe) → is_physical_probe p ≡ false → rank p ≤ 1
rank_not_physical p h = ground arith

rank_ok : (p : InterfaceProbe) → is_ok p ≡ true → 1 ≤ rank p
rank_ok p h = ground arith

rank_nothing : (p : InterfaceProbe) → (is_physical_probe p ≡ false) × (is_ok p ≡ false) → rank p ≡ 0
rank_nothing p h = ground (arith, h.0, h.1)

module _ (ps : List InterfaceProbe) where
  third-IsBest :
      (o : Option ℕ) → All (λ p. is_physical_probe p ≡ false) ps → Finds is_ok ps o → IsBest ps o
  third-IsBest none virtual found =
      All-imp _ _ ps rank_nothing
        (All-zip (λ p. is_physical_probe p ≡ false) (λ p. is_ok p ≡ false) ps virtual found)
  third-IsBest (some i) virtual (p, at, passes, before) = (
    p,
    at,
    omega (arith, rank_ok p passes),
    All-imp _ _ ps (λ q h. omega (arith, rank_not_physical q h, rank_ok p passes)) virtual,
    All-imp _ _ (take i ps) (λ q h. omega (arith, rank_nothing q h, rank_ok p passes))
        (All-zip (λ q. is_physical_probe q ≡ false) (λ q. is_ok q ≡ false) (take i ps)
          (All-take _ i ps virtual) before),
  )

  second-IsBest :
      (o rest : Option ℕ)
      → All (λ p. is_physical_ok p ≡ false) ps
      → Finds is_physical_probe ps o
      → (All (λ p. is_physical_probe p ≡ false) ps → IsBest ps rest)
      → IsBest ps (or_else o rest)
  second-IsBest none rest none_ok found later = later found
  second-IsBest (some i) rest none_ok (p, at, passes, before) later = (
    p,
    at,
    omega (arith, rank_physical p passes),
    All-imp _ _ ps (λ q h. omega (arith, rank_not_physical_ok q h, rank_physical p passes)) none_ok,
    All-imp _ _ (take i ps) (λ q h. omega (arith, rank_not_physical q h, rank_physical p passes))
        before,
  )

  first-IsBest :
      (o rest : Option ℕ)
      → Finds is_physical_ok ps o
      → (All (λ p. is_physical_ok p ≡ false) ps → IsBest ps rest)
      → IsBest ps (or_else o rest)
  first-IsBest none rest found later = later found
  first-IsBest (some i) rest (p, at, passes, before) later = (
    p,
    at,
    omega (arith, rank_physical_ok p passes),
    All-of _ ps (λ q. omega (arith, rank-le q, rank_physical_ok p passes)),
    All-imp _ _ (take i ps)
        (λ q h. omega (arith, rank_not_physical_ok q h, rank_physical_ok p passes)) before,
  )

-- The default interface is the first of the best ones, a physical one before any other and then one with
-- a connection before one without; there is none exactly where no interface is physical and none connects.
pub pick_default_interface-IsBest :
    (ps : List InterfaceProbe) → IsBest ps (pick_default_interface ps)
unfolding pick_default_interface
pick_default_interface-IsBest ps =
    first-IsBest ps (index_where is_physical_ok ps) _ (index_where-Finds is_physical_ok ps)
      (λ none_ok.
        second-IsBest ps (index_where is_physical_probe ps) _ none_ok
          (index_where-Finds is_physical_probe ps)
          (λ virtual. third-IsBest ps (index_where is_ok ps) virtual (index_where-Finds is_ok ps)))
