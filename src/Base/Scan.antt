-- ===== src/Base/Scan.antt =====
-- Go's functions on strings, on the list of a text's bytes. White space is that of ASCII.
use Prim.Native.Nat.{ℕ, ◌+◌}
use mathlib.Core.Path.{◌≡◌, refl, ap, ◌∙◌}
use mathlib.Core.Bool.{Bool, true, false, ◌&&◌, ◌||◌, not}
use mathlib.Core.Option.{Option, none, some}
use mathlib.Core.List.{List, [], ◌∷◌, ◌++◌, map, reverse}
use native.Mathlib.Omega.{arith}
use pingachock.Base.Tests.{if◌then◌else◌, ◌==◌, leb, is_some}
use pingachock.Base.Text.{cut_prefix, equal_codes}

-- A text whose bytes the program looks at.
abbrev pub Bytes : Type 0
Bytes = List ℕ

-- `unicode.IsSpace` on ASCII
abbrev pub is_space : ℕ → Bool
is_space c = c == b' ' || (leb 9 c && leb c 13)

abbrev pub skip_spaces : Bytes → Bytes
skip_spaces [] = []
skip_spaces (c ∷ s) = let rest = skip_spaces s in if is_space c then rest else c ∷ s

-- A byte before text whose right end is trimmed.
abbrev pub keep_right : ℕ → Bytes → Bytes
keep_right c [] = if is_space c then [] else c ∷ []
keep_right c (x ∷ xs) = c ∷ x ∷ xs

-- `strings.TrimRight` of white space
unfoldable pub trim_right : Bytes → Bytes
trim_right [] = []
trim_right (c ∷ s) = keep_right c (trim_right s)

-- `strings.TrimSpace`
unfoldable pub trim_space : Bytes → Bytes
unfolding trim_right
trim_space s = trim_right (skip_spaces s)

-- `strings.HasPrefix`
abbrev pub has_prefix : Bytes → Bytes → Bool
has_prefix p s = is_some (cut_prefix p s)

-- `strings.HasSuffix`
abbrev pub has_suffix : Bytes → Bytes → Bool
has_suffix suffix s = has_prefix (reverse suffix) (reverse s)

-- The text before and behind the first occurrence of `sep`.
abbrev pub prepend : ℕ → Option (Bytes × Bytes) → Option (Bytes × Bytes)
prepend c none = none
prepend c (some (before, behind)) = some (c ∷ before, behind)

-- `strings.Cut`
unfoldable pub cut : Bytes → Bytes → Option (Bytes × Bytes)
cut sep [] = elim (cut_prefix sep []) [ none ↦ none | some r ↦ some ([], r) ]
cut sep (c ∷ s) =
    let rest = cut sep s in
    elim (cut_prefix sep (c ∷ s)) [ none ↦ prepend c rest | some r ↦ some ([], r) ]

-- `strings.Contains`
unfoldable pub contains : Bytes → Bytes → Bool
unfolding cut
contains s sub = is_some (cut sub s)

-- What comes before the last `c`, where there is one.
unfoldable pub before_last : ℕ → Bytes → Option Bytes
before_last c [] = none
before_last c (x ∷ s) =
    let rest = before_last c s in
    elim rest [ none ↦ if x == c then some [] else none | some t ↦ some (x ∷ t) ]

-- What comes behind the last `c`, where there is one.
unfoldable pub behind_last : ℕ → Bytes → Option Bytes
behind_last c [] = none
behind_last c (x ∷ s) =
    let rest = behind_last c s in
    elim rest [ none ↦ if x == c then some s else none | some t ↦ some t ]

abbrev pub add_to_first : ℕ → List Bytes → List Bytes
add_to_first c [] = (c ∷ []) ∷ []
add_to_first c (p ∷ ps) = (c ∷ p) ∷ ps

-- `strings.Split` at one byte: at least one part.
unfoldable pub split_on : ℕ → Bytes → List Bytes
split_on sep [] = [] ∷ []
split_on sep (c ∷ s) =
    let rest = split_on sep s in if c == sep then [] ∷ rest else add_to_first c rest

abbrev pub last_of : Bytes → List Bytes → Bytes
last_of p [] = p
last_of p (q ∷ qs) = last_of q qs

-- ASCII part of `strings.ToLower` and `strings.EqualFold`.
abbrev pub lower_byte : ℕ → ℕ
lower_byte c = if leb b'A' c && leb c b'Z' then c + 32 else c

abbrev pub to_lower : Bytes → Bytes
to_lower = map lower_byte

abbrev pub equal_fold : Bytes → Bytes → Bool
equal_fold s t = equal_codes (to_lower s) (to_lower t)

abbrev pub is_empty : Bytes → Bool
is_empty [] = true
is_empty (_ ∷ _) = false

-- Trimmed text stays as it is.
abbrev starts_solid : Bytes → Bool
starts_solid [] = true
starts_solid (c ∷ _) = not (is_space c)

skip_spaces-solid : (s : Bytes) → starts_solid (skip_spaces s) ≡ true
skip_spaces-solid [] = refl
skip_spaces-solid (c ∷ s) = ground (arith, skip_spaces-solid s)

skip_spaces_of_solid : (s : Bytes) → starts_solid s ≡ true → skip_spaces s ≡ s
skip_spaces_of_solid [] h = refl
skip_spaces_of_solid (c ∷ s) h = ground arith

keep_right-solid : (c : ℕ) (s : Bytes) → is_space c ≡ false → starts_solid (keep_right c s) ≡ true
keep_right-solid c [] h = ground arith
keep_right-solid c (x ∷ s) h = ground arith

trim_right-solid : (s : Bytes) → starts_solid s ≡ true → starts_solid (trim_right s) ≡ true
unfolding trim_right
trim_right-solid [] h = refl
trim_right-solid (c ∷ s) h = keep_right-solid c (trim_right s) (ground arith)

trim_right-keep_right :
    (c : ℕ) (s : Bytes) → trim_right s ≡ s → trim_right (keep_right c s) ≡ keep_right c s
unfolding trim_right
trim_right-keep_right c [] h = ground arith
trim_right-keep_right c (x ∷ s) h = ap (keep_right c) h

pub trim_right_idem : (s : Bytes) → trim_right (trim_right s) ≡ trim_right s
unfolding trim_right
trim_right_idem [] = refl
trim_right_idem (c ∷ s) = trim_right-keep_right c (trim_right s) (trim_right_idem s)

pub trim_space_idem : (s : Bytes) → trim_space (trim_space s) ≡ trim_space s
unfolding trim_space
trim_space_idem s =
    ap trim_right (
      skip_spaces_of_solid (trim_right (skip_spaces s))
        (trim_right-solid (skip_spaces s) (skip_spaces-solid s)))
    ∙ trim_right_idem (skip_spaces s)

trim_right-append :
    (p : Bytes) (x : ℕ) (s : Bytes)
    → trim_right (x ∷ s) ≡ x ∷ s
    → trim_right (p ++ (x ∷ s)) ≡ p ++ (x ∷ s)
unfolding trim_right
trim_right-append [] x s e = e
trim_right-append (c ∷ []) x s e = ap (keep_right c) e
trim_right-append (c ∷ d ∷ p) x s e = ap (keep_right c) (trim_right-append (d ∷ p) x s e)

-- Text put before trimmed text stays trimmed, if it starts with no white space.
pub trim_space-append :
    (c : ℕ) (p : Bytes) (x : ℕ) (s : Bytes)
    → is_space c ≡ false
    → trim_right (x ∷ s) ≡ x ∷ s
    → trim_space ((c ∷ p) ++ (x ∷ s)) ≡ (c ∷ p) ++ (x ∷ s)
unfolding trim_space
trim_space-append c p x s h e =
    ap trim_right (skip_spaces_of_solid ((c ∷ p) ++ (x ∷ s)) (ground arith))
    ∙ trim_right-append (c ∷ p) x s e
