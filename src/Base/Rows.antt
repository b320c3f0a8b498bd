-- ===== src/Base/Rows.antt =====
-- What LIMIT and OFFSET keep of the rows, and the row that a statement finds.
use Prim.Native.Nat.{ℕ, zero, suc, ◌≤◌}
use mathlib.Core.Path.{◌≡◌, refl}
use mathlib.Core.Logic.{inl, inr}
use mathlib.Core.Bool.{Bool, true}
use mathlib.Core.Option.{some}
use mathlib.Core.List.{List, [], ◌∷◌, map}
use native.Mathlib.Omega.{arith}
use pingachock.Base.Tests.{Bool-cases}
use pingachock.Base.Lists.{All, any_where, drop, find_where, length, take}

module _ {ℓ} {A : Type ℓ} where
  pub All-take {κ} : (P : A → Type κ) (n : ℕ) (xs : List A) → All P xs → All P (take n xs)
  All-take P zero xs h = tt
  All-take P (suc n) [] h = tt
  All-take P (suc n) (x ∷ xs) h = (h.0, All-take P n xs h.1)

  pub All-drop {κ} : (P : A → Type κ) (n : ℕ) (xs : List A) → All P xs → All P (drop n xs)
  All-drop P zero xs h = h
  All-drop P (suc n) [] h = tt
  All-drop P (suc n) (x ∷ xs) h = All-drop P n xs h.1

  pub length-map-take {κ} :
      {B : Type κ} (g : A → B) (n : ℕ) (xs : List A) → length (map g (take n xs)) ≤ n
  length-map-take g zero xs = omega arith
  length-map-take g (suc n) [] = omega arith
  length-map-take g (suc n) (x ∷ xs) = omega (arith, length-map-take g n xs)

pub find_where-any {ℓ} :
    {A : Type ℓ} (p : A → Bool) (xs : List A) (a : A)
    → find_where p xs ≡ some a
    → any_where p xs ≡ true
find_where-any p [] a e = absurd cc
find_where-any p (x ∷ xs) a e = ground (arith, find_where-any p xs a)

pub any_where-find {ℓ} :
    {A : Type ℓ} (p : A → Bool) (xs : List A)
    → any_where p xs ≡ true
    → (a : A) × (find_where p xs ≡ some a)
any_where-find p [] h = absurd cc
any_where-find p (x ∷ xs) h = elim (Bool-cases (p x)) [
  | inl here ↦ (x, rw here refl)
  | inr there ↦ let (a, e) = any_where-find p xs (ground (arith, h, there)) in (a, rw there e)
]
