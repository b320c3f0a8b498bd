-- ===== src/Agent/Setup/Input/Laws.antt =====
-- cmd/agent/main.go: what the prompts and the tidying up give.
use pingachock.Agent.Setup.Input.{
  in_range, typed, accepted, prompt_int_default, end_of_input, Input, has_scheme,
}
use pingachock.Base.{
  arith, ◌&&◌, ◌≤◌, [], if◌then◌else◌, none, List, ◌∷◌, Bool, some, refl, ℕ, true, ◌++◌, false,
  codes, ◌≡◌, trim_space, Option, is_empty, Bytes,
}
use pingachock.Base.Int.{negsuc, pos, ℤ}

module _ (atoi : Bytes → Option ℤ) (lo hi default : ℕ) where
  abbrev WithinSome : Option ℕ → Type 0
  WithinSome none = Unit
  WithinSome (some n) = (lo ≤ n) × (n ≤ hi)

  -- What holds of an answer, where there is one.
  abbrev pub Within : Option (ℕ × Input) → Type 0
  Within none = Unit
  Within (some (n, _)) = (lo ≤ n) × (n ≤ hi)

  typed-WithinSome : (o : Option ℤ) → WithinSome (typed atoi lo hi default o)
  typed-WithinSome none = tt
  typed-WithinSome (some (pos n)) = ground arith
  typed-WithinSome (some (negsuc n)) = tt

  guarded-WithinSome :
      (b : Bool) (o : Option ℕ)
      → WithinSome o
      → WithinSome (if b && in_range lo hi (pos default) then some default else o)
  guarded-WithinSome true o h = ground arith
  guarded-WithinSome false o h = h

  accepted-WithinSome : (line : Bytes) → WithinSome (accepted atoi lo hi default line)
  unfolding accepted
  accepted-WithinSome line = guarded-WithinSome (is_empty line) _ (typed-WithinSome (atoi line))

  end_of_input-Within : (o : Option ℕ) → WithinSome o → Within (end_of_input atoi lo hi default o)
  end_of_input-Within none h = tt
  end_of_input-Within (some n) h = h

  pub prompt_int_default-Within :
      (ls : List Bytes) (last : Bytes) → Within (prompt_int_default atoi lo hi default ls last)
  unfolding prompt_int_default
  prompt_int_default-Within [] last =
      end_of_input-Within (accepted atoi lo hi default (trim_space last))
        (accepted-WithinSome (trim_space last))
  prompt_int_default-Within (l ∷ ls) last =
      round (accepted atoi lo hi default (trim_space l)) (accepted-WithinSome (trim_space l))
        (prompt_int_default-Within ls last)
    where
      round :
          (o : Option ℕ)
          → WithinSome o
          → Within (prompt_int_default atoi lo hi default ls last)
          → Within (elim o [
            | none ↦ prompt_int_default atoi lo hi default ls last
            | some n ↦ some (n, record { lines = ls; last = last })
          ])
      round none h rest = rest
      round (some n) h rest = h

has_scheme-https : (t : Bytes) → has_scheme (codes "https://" ++ t) ≡ true
has_scheme-https t = refl
