-- ===== src/Base/Sorts.antt =====
-- `ORDER BY`: a stable insertion sort by a key, with what the statements need of it.
use Prim.Native.Nat.{ℕ, ◌≤◌}
use mathlib.Core.Path.{◌≡◌, refl}
use mathlib.Core.Bool.{Bool}
use mathlib.Core.List.{List, [], ◌∷◌, map}
use native.Mathlib.Omega.{arith}
use pingachock.Base.Tests.{if◌then◌else◌, leb}
use pingachock.Base.Lists.{any_where, All, count_where, member}

module _ {A : Type 0} (key : A → ℕ) where
  abbrev pub insert_by : A → List A → List A
  insert_by a [] = a ∷ []
  insert_by a (x ∷ xs) = if leb (key a) (key x) then a ∷ x ∷ xs else x ∷ insert_by a xs

  unfoldable pub sort_by : List A → List A
  sort_by [] = []
  sort_by (x ∷ xs) = insert_by x (sort_by xs)

  -- Every key is at least `k`.
  abbrev pub FromKey : ℕ → List A → Type 0
  FromKey k xs = All (λ x. k ≤ key x) xs

  abbrev pub IsSortedBy : List A → Type 0
  IsSortedBy [] = Unit
  IsSortedBy (x ∷ xs) = FromKey (key x) xs × IsSortedBy xs

  FromKey-weaken : (j k : ℕ) (xs : List A) → j ≤ k → FromKey k xs → FromKey j xs
  FromKey-weaken j k [] h f = tt
  FromKey-weaken j k (x ∷ xs) h f = (omega arith, FromKey-weaken j k xs h f.1)

  insert_by-FromKey :
      (k : ℕ) (a : A) (xs : List A) → k ≤ key a → FromKey k xs → FromKey k (insert_by a xs)
  insert_by-FromKey k a [] h f = (h, tt)
  insert_by-FromKey k a (x ∷ xs) h f = ground (arith, insert_by-FromKey k a xs h f.1)

  insert_by-IsSortedBy : (a : A) (xs : List A) → IsSortedBy xs → IsSortedBy (insert_by a xs)
  insert_by-IsSortedBy a [] s = (tt, tt)
  insert_by-IsSortedBy a (x ∷ xs) s = ground (
    arith,
    insert_by-IsSortedBy a xs s.1,
    insert_by-FromKey (key x) a xs,
    FromKey-weaken (key a) (key x) xs,
  )

  pub sort_by-IsSortedBy : (xs : List A) → IsSortedBy (sort_by xs)
  unfolding sort_by
  sort_by-IsSortedBy [] = tt
  sort_by-IsSortedBy (x ∷ xs) = insert_by-IsSortedBy x (sort_by xs) (sort_by-IsSortedBy xs)

  count_where-insert_by :
      (p : A → Bool) (a : A) (xs : List A) → count_where p (insert_by a xs) ≡ count_where p (a ∷ xs)
  count_where-insert_by p a [] = refl
  count_where-insert_by p a (x ∷ xs) = ground (arith, count_where-insert_by p a xs)

  -- A sort keeps every row, as often.
  pub count_where-sort_by :
      (p : A → Bool) (xs : List A) → count_where p (sort_by xs) ≡ count_where p xs
  unfolding sort_by
  count_where-sort_by p [] = refl
  count_where-sort_by p (x ∷ xs) =
      omega (arith, count_where-insert_by p x (sort_by xs), count_where-sort_by p xs)

  insert_by-All : (P : A → Type 0) (a : A) (xs : List A) → P a → All P xs → All P (insert_by a xs)
  insert_by-All P a [] h f = (h, tt)
  insert_by-All P a (x ∷ xs) h f = ground (arith, insert_by-All P a xs h f.1)

  pub sort_by-All : (P : A → Type 0) (xs : List A) → All P xs → All P (sort_by xs)
  unfolding sort_by
  sort_by-All P [] h = tt
  sort_by-All P (x ∷ xs) h = insert_by-All P x (sort_by xs) h.0 (sort_by-All P xs h.1)

  any_where-insert_by :
      (p : A → Bool) (x : A) (xs : List A) → any_where p (insert_by x xs) ≡ any_where p (x ∷ xs)
  any_where-insert_by p x [] = refl
  any_where-insert_by p x (y ∷ ys) = ground (arith, any_where-insert_by p x ys)

  pub any_where-sort_by : (p : A → Bool) (xs : List A) → any_where p (sort_by xs) ≡ any_where p xs
  unfolding sort_by
  any_where-sort_by p [] = refl
  any_where-sort_by p (x ∷ xs) =
      ground (arith, any_where-insert_by p x (sort_by xs), any_where-sort_by p xs)

  module _ (g : A → ℕ) (a : ℕ) where
    member-insert_by :
        (x : A) (xs : List A) → member a (map g (insert_by x xs)) ≡ member a (map g (x ∷ xs))
    member-insert_by x [] = refl
    member-insert_by x (y ∷ ys) = ground (arith, member-insert_by x ys)

    pub member-sort_by : (xs : List A) → member a (map g (sort_by xs)) ≡ member a (map g xs)
    unfolding sort_by
    member-sort_by [] = refl
    member-sort_by (x ∷ xs) = ground (arith, member-insert_by x (sort_by xs), member-sort_by xs)
