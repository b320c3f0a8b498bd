-- ===== src/Base/Lists.antt =====
-- Lists measured by native numbers, and the row operations that the SQL statements are written in:
-- `select` (WHERE), `update_where` (UPDATE), `count_where` (count(*) FILTER).
use Prim.Native.Nat.{ℕ, zero, suc, ◌+◌, ◌≤◌, ◌<◌}
use Prim.Native.String.{String, ◌++◌ as str_append}
use mathlib.Core.Path.{◌≡◌, refl}
use mathlib.Core.Bool.{Bool, true, false, ◌||◌}
use mathlib.Core.Option.{Option, none, some}
use mathlib.Core.List.{map, List, [], ◌∷◌, ◌++◌}
use native.Mathlib.Omega.{arith}
use pingachock.Base.Tests.{if◌then◌else◌, ◌==◌}

module _ {ℓ} {A : Type ℓ} where
  abbrev pub length : List A → ℕ
  length [] = 0
  length (x ∷ xs) = suc (length xs)

  abbrev pub take : ℕ → List A → List A
  take zero xs = []
  take (suc n) [] = []
  take (suc n) (x ∷ xs) = x ∷ take n xs

  abbrev pub drop : ℕ → List A → List A
  drop zero xs = xs
  drop (suc n) [] = []
  drop (suc n) (x ∷ xs) = drop n xs

  abbrev pub select : (A → Bool) → List A → List A
  select p [] = []
  select p (x ∷ xs) = let rest = select p xs in if p x then x ∷ rest else rest

  abbrev pub update_where : (A → Bool) → (A → A) → List A → List A
  update_where p f [] = []
  update_where p f (x ∷ xs) = (if p x then f x else x) ∷ update_where p f xs

  abbrev pub count_where : (A → Bool) → List A → ℕ
  count_where p [] = 0
  count_where p (x ∷ xs) = (if p x then 1 else 0) + count_where p xs

  abbrev pub any_where : (A → Bool) → List A → Bool
  any_where p [] = false
  any_where p (x ∷ xs) = p x || any_where p xs

  abbrev pub find_where : (A → Bool) → List A → Option A
  find_where p [] = none
  find_where p (x ∷ xs) = let rest = find_where p xs in if p x then some x else rest

  abbrev pub or_else : Option A → Option A → Option A
  or_else none o = o
  or_else (some x) o = some x

  abbrev pub find_last : (A → Bool) → List A → Option A
  find_last p [] = none
  find_last p (x ∷ xs) = or_else (find_last p xs) (if p x then some x else none)

  abbrev pub get_elem? : List A → ℕ → Option A
  get_elem? [] n = none
  get_elem? (x ∷ xs) zero = some x
  get_elem? (x ∷ xs) (suc n) = get_elem? xs n

  abbrev pub head? : List A → Option A
  head? [] = none
  head? (x ∷ xs) = some x

abbrev pub member : ℕ → List ℕ → Bool
member a xs = any_where (λ x. x == a) xs

-- The values of `xs` without repeats, the first of each kept.
abbrev pub distinct_from : List ℕ → List ℕ → List ℕ
distinct_from seen [] = []
distinct_from seen (x ∷ xs) =
    let rest = distinct_from (x ∷ seen) xs in
    let skipped = distinct_from seen xs in if member x seen then skipped else x ∷ rest

-- A text put together from its parts.
abbrev pub join_str : List String → String
join_str [] = ""
join_str (s ∷ ss) = str_append s (join_str ss)

-- Predicates on all the elements, by recursion.
abbrev pub All {ℓ κ} : {A : Type ℓ} → (A → Type κ) → List A → Type κ
All P [] = Unit
All P (x ∷ xs) = P x × All P xs

module _ {ℓ} {A : Type ℓ} where
  pub All-imp {κ ι} :
      (P : A → Type κ) (Q : A → Type ι) (xs : List A) → ((a : A) → P a → Q a) → All P xs → All Q xs
  All-imp P Q [] f h = tt
  All-imp P Q (x ∷ xs) f h = (f x h.0, All-imp P Q xs f h.1)

  pub All-of {κ} : (P : A → Type κ) (xs : List A) → ((a : A) → P a) → All P xs
  All-of P [] f = tt
  All-of P (x ∷ xs) f = (f x, All-of P xs f)

  pub All-zip {κ ι} :
      (P : A → Type κ) (Q : A → Type ι) (xs : List A)
      → All P xs
      → All Q xs
      → All (λ x. P x × Q x) xs
  All-zip P Q [] p q = tt
  All-zip P Q (x ∷ xs) p q = ((p.0, q.0), All-zip P Q xs p.1 q.1)

  pub length-append : (xs ys : List A) → length (xs ++ ys) ≡ length xs + length ys
  length-append [] ys = omega arith
  length-append (x ∷ xs) ys = omega (arith, length-append xs ys)

  pub get_elem?-within : (xs : List A) (n : ℕ) → n < length xs → (x : A) × (get_elem? xs n ≡ some x)
  get_elem?-within [] n h = absurd (omega arith)
  get_elem?-within (x ∷ xs) zero h = (x, refl)
  get_elem?-within (x ∷ xs) (suc n) h = get_elem?-within xs n (omega arith)

  pub All-select {κ} :
      (P : A → Type κ) (p : A → Bool) (xs : List A) → All P xs → All P (select p xs)
  All-select P p [] h = tt
  All-select P p (x ∷ xs) h = ground (arith, All-select P p xs h.1)

  pub count_where-append :
      (p : A → Bool) (xs ys : List A)
      → count_where p (xs ++ ys) ≡ count_where p xs + count_where p ys
  count_where-append p [] ys = omega arith
  count_where-append p (x ∷ xs) ys = omega (arith, count_where-append p xs ys)

  pub count_where-update_where :
      (p q : A → Bool) (f : A → A) (xs : List A)
      → All (λ x. q x ≡ true → p (f x) ≡ p x) xs
      → count_where p (update_where q f xs) ≡ count_where p xs
  count_where-update_where p q f [] h = refl
  count_where-update_where p q f (x ∷ xs) h =
      ground (arith, h.0, count_where-update_where p q f xs h.1)

  pub count_where-update_where_le :
      (p q : A → Bool) (f : A → A) (xs : List A)
      → All (λ x. q x ≡ true → p (f x) ≡ true → p x ≡ true) xs
      → count_where p (update_where q f xs) ≤ count_where p xs
  count_where-update_where_le p q f [] h = omega arith
  count_where-update_where_le p q f (x ∷ xs) h =
      ground (arith, h.0, count_where-update_where_le p q f xs h.1)

  -- What an update keeps of every row.
  pub All-update_where {κ ι} :
      (P : A → Type κ) (Q : A → Type ι) (q : A → Bool) (f : A → A) (xs : List A)
      → ((x : A) → q x ≡ true → P x → Q (f x))
      → ((x : A) → q x ≡ false → P x → Q x)
      → All P xs
      → All Q (update_where q f xs)
  All-update_where P Q q f [] yes_case no_case h = tt
  All-update_where P Q q f (x ∷ xs) yes_case no_case h =
      (at_head (q x) refl, All-update_where P Q q f xs yes_case no_case h.1)
    where
      at_head : (b : Bool) → q x ≡ b → Q (if b then f x else x)
      at_head true e = yes_case x e h.0
      at_head false e = no_case x e h.0

  pub map-update_where :
      {B : Type 0} (g : A → B) (q : A → Bool) (f : A → A) (xs : List A)
      → ((x : A) → g (f x) ≡ g x)
      → map g (update_where q f xs) ≡ map g xs
  map-update_where g q f [] h = refl
  map-update_where g q f (x ∷ xs) h = ground (arith, h x, map-update_where g q f xs h)

-- No value stands twice.
abbrev pub Unique : List ℕ → Type 0
Unique [] = Unit
Unique (x ∷ xs) = (member x xs ≡ false) × Unique xs

module _ {A : Type 0} (g : A → ℕ) (a : ℕ) where
  pub member-take :
      (n : ℕ) (xs : List A) → member a (map g (take n xs)) ≡ true → member a (map g xs) ≡ true
  member-take zero xs h = cc
  member-take (suc n) [] h = cc
  member-take (suc n) (x ∷ xs) h = ground (arith, member-take n xs)

  pub member-select :
      (p : A → Bool) (xs : List A)
      → member a (map g (select p xs)) ≡ true
      → member a (map g xs) ≡ true
  member-select p [] h = cc
  member-select p (x ∷ xs) h = ground (arith, member-select p xs)

  pub member-append :
      (xs ys : List A) → member a (map g (xs ++ ys)) ≡ (member a (map g xs) || member a (map g ys))
  member-append [] ys = refl
  member-append (x ∷ xs) ys = ground (arith, member-append xs ys)
