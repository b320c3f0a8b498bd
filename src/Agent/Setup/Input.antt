-- ===== src/Agent/Setup/Input.antt =====
-- cmd/agent/main.go: what the operator types, and how host names and addresses are tidied up.
pub mod Laws
use pingachock.Base.{
  length, ◌++◌, equal_codes, false, not, ◌&&◌, ◌==◌, is_empty, true, ◌||◌, [], some, if◌then◌else◌,
  codes, none, leb, has_prefix, ◌∷◌, Option, cut, trim_space, Bool, before_last, List, Bytes, ℕ,
  contains,
}
use pingachock.Base.Int.{negsuc, to_nat, pos, ℤ}

-- What is left of standard input: whole lines, and what stands behind the last line break.
pub record Input : Type 0 where
  pub lines : List Bytes
  pub last : Bytes

-- `promptString`
abbrev pub read_lines : List Bytes → Bytes → Bytes × Input
read_lines [] last = (last, record { lines = []; last = [] })
read_lines (l ∷ ls) last = (l, record { lines = ls; last = last })

unfoldable pub prompt_string : Input → Bytes × Input
prompt_string i = let (line, rest) = read_lines i.lines i.last in (trim_space line, rest)

abbrev pub in_range : ℕ → ℕ → ℤ → Bool
in_range lo hi (pos n) = leb lo n && leb n hi
in_range lo hi (negsuc _) = false

module _ (atoi : Bytes → Option ℤ) (lo hi default : ℕ) where
  -- The number that is typed, where it is one in the range.
  abbrev pub typed : Option ℤ → Option ℕ
  typed none = none
  typed (some n) = if in_range lo hi n then some (to_nat n) else none

  -- One round of `promptIntDefault`; `none` asks again.
  unfoldable pub accepted : Bytes → Option ℕ
  accepted line =
      if is_empty line && in_range lo hi (pos default) then some default else typed (atoi line)

  abbrev pub end_of_input : Option ℕ → Option (ℕ × Input)
  end_of_input none = none
  end_of_input (some n) = some (n, record { lines = []; last = [] })

  -- `promptIntDefault`; `none` is its exit where the input ends.
  unfoldable pub prompt_int_default : List Bytes → Bytes → Option (ℕ × Input)
  unfolding accepted
  prompt_int_default [] last = end_of_input (accepted (trim_space last))
  prompt_int_default (l ∷ ls) last =
      let again = prompt_int_default ls last in
      elim (accepted (trim_space l)) [
        | none ↦ again
        | some n ↦ some (n, record { lines = ls; last = last })
      ]

abbrev pub has_scheme : Bytes → Bool
has_scheme s = has_prefix (codes "http://") s || has_prefix (codes "https://") s

-- `normalizeURL`: the value, and whether it was changed.
unfoldable pub normalize_trimmed : Bytes → Bytes × Bool
normalize_trimmed t =
    if is_empty t || has_scheme t then (t, false) else (codes "https://" ++ t, true)

unfoldable pub normalize_url : Bytes → Bytes × Bool
unfolding normalize_trimmed
normalize_url input = normalize_trimmed (trim_space input)

abbrev pub behind_scheme : Bytes → Bytes
behind_scheme s = elim (cut (codes "://") s) [ none ↦ s | some (_, rest) ↦ rest ]

abbrev pub before_path : Bytes → Bytes
before_path s = elim (cut (codes "/") s) [ none ↦ s | some (host, _) ↦ host ]

abbrev pub before_port : Bytes → Bytes
before_port s = elim (before_last b':' s) [ none ↦ s | some host ↦ host ]

-- `normalizeBareHost`
unfoldable pub bare_host : Bytes → Bytes
bare_host t = before_port (before_path (behind_scheme t))

unfoldable pub normalize_bare_host : Bytes → Bytes × Bool
unfolding bare_host
normalize_bare_host input =
    let t = trim_space input in
    if is_empty t then ([], false) else (bare_host t, not (equal_codes (bare_host t) t))

abbrev pub is_digit : ℕ → Bool
is_digit c = leb b'0' c && leb c b'9'

abbrev pub is_letter_digit : ℕ → Bool
is_letter_digit c = (leb b'a' c && leb c b'z') || (leb b'A' c && leb c b'Z') || is_digit c

abbrev pub is_host_byte : ℕ → Bool
is_host_byte c = is_letter_digit c || c == b'-' || c == b'.'

abbrev pub is_hex_digit : ℕ → Bool
is_hex_digit c = is_digit c || (leb b'a' c && leb c b'f') || (leb b'A' c && leb c b'F')

abbrev pub all_where : (ℕ → Bool) → Bytes → Bool
all_where p [] = true
all_where p (c ∷ s) = p c && all_where p s

-- `isHexString`
unfoldable pub is_hex_string : Bytes → Bool
is_hex_string s = all_where is_hex_digit s

-- `looksLikeHostname`
unfoldable pub looks_like_hostname : Bytes → Bool
unfolding is_hex_string contains
looks_like_hostname s =
    if is_empty s
    then true
    else if not (all_where is_host_byte s)
    then false
    else not (not (contains s (codes ".")) && leb 32 (length s) && is_hex_string s)
