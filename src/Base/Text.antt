-- ===== src/Base/Text.antt =====
-- Text as the list of its codes, where the program looks inside it: prefixes, fields, lines.
use Prim.Native.Char.{code}
use Prim.Native.Nat.{ℕ}
use Prim.Native.String.{String}
use mathlib.Core.Path.{◌≡◌, refl}
use mathlib.Core.Logic.{◌↔◌}
use mathlib.Core.Bool.{Bool, true, false, ◌&&◌}
use mathlib.Core.Option.{Option, none, some}
use mathlib.Core.List.{List, [], ◌∷◌, ◌++◌}
use native.Mathlib.Omega.{arith}
use pingachock.Base.Tests.{if◌then◌else◌, ◌==◌}

-- The bytes of an ASCII literal.
abbrev pub codes : String → List ℕ
codes String.[] = []
codes (String.◌∷◌ c s) = code c ∷ codes s

abbrev pub equal_codes : List ℕ → List ℕ → Bool
equal_codes [] [] = true
equal_codes [] (_ ∷ _) = false
equal_codes (_ ∷ _) [] = false
equal_codes (a ∷ s) (b ∷ t) = a == b && equal_codes s t

-- `strings.CutPrefix`: the rest after the prefix.
abbrev pub cut_prefix : List ℕ → List ℕ → Option (List ℕ)
cut_prefix [] s = some s
cut_prefix (p ∷ ps) [] = none
cut_prefix (p ∷ ps) (c ∷ s) = let rest = cut_prefix ps s in if c == p then rest else none

pub equal_codes_iff : (s t : List ℕ) → (equal_codes s t ≡ true) ↔ (s ≡ t)
equal_codes_iff [] [] = (λ _. refl, λ _. refl)
equal_codes_iff [] (b ∷ t) = (λ h. cc, λ h. cc)
equal_codes_iff (a ∷ s) [] = (λ h. cc, λ h. cc)
equal_codes_iff (a ∷ s) (b ∷ t) =
    (λ h. ground (arith, (equal_codes_iff s t).0), λ e. ground (arith, (equal_codes_iff s t).1))

pub cut_prefix-some : (p s r : List ℕ) → cut_prefix p s ≡ some r → s ≡ p ++ r
cut_prefix-some [] s r h = ground arith
cut_prefix-some (p ∷ ps) [] r h = cc
cut_prefix-some (p ∷ ps) (c ∷ s) r h = ground (arith, cut_prefix-some ps s r)

pub cut_prefix-append : (p r : List ℕ) → cut_prefix p (p ++ r) ≡ some r
cut_prefix-append [] r = refl
cut_prefix-append (p ∷ ps) r = ground (arith, cut_prefix-append ps r)
