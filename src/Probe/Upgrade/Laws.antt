-- ===== src/Probe/Upgrade/Laws.antt =====
-- internal/checks/upgrade.go: how much of an answer is read, and which answers count as an upgrade.
use mathlib.Core.List.{append-nil, append_assoc}
use pingachock.Probe.Upgrade.{
  first_line, keep_unless_cr, is_101, match_switching_protocols, trim_cr, second_part,
  UpgradeAnswer, at_end, body, nothing, Stream, read_chunks, read_upgrade_response,
}
use pingachock.Base.{
  ◌∙◌, prepend, ap, ==_refl, codes, ◌==◌, equal_codes, any_where, some, cut, Bool, ltb→lt,
  length-append, inr, sym, inl, refl, false, Bool-cases, true, ◌+◌, arith, ◌≡◌, ◌<◌, ◌≤◌, All, [],
  ◌∷◌, ltb, ◌++◌, length, ℕ, List, Bytes,
}
use pingachock.Probe.Address.{NetError}

-- No read gives more than the chunk of the loop.
abbrev pub Small : Bytes → Type 0
Small b = length b ≤ 4096

-- The bytes that come, in their order.
abbrev pub all_bytes : List Bytes → Bytes → Bytes
all_bytes [] final = final
all_bytes (c ∷ cs) final = c ++ all_bytes cs final

-- What is read of the bytes that come: the first of them, fewer than a chunk more than the limit, and all
-- of them where they are fewer than the limit; nothing only where none come.
abbrev pub IsRead : ℕ → Bytes → UpgradeAnswer → Type 0
IsRead limit bytes (nothing e) = bytes ≡ []
IsRead limit bytes (body b) =
    (length b < limit + 4096)
    × ((rest : Bytes) × (bytes ≡ b ++ rest) × (length b < limit → rest ≡ []))

at_end-IsRead :
    (limit : ℕ) (b : Bytes) (e : NetError) → length b < limit + 4096 → IsRead limit b (at_end b e)
at_end-IsRead limit [] e h = refl
at_end-IsRead limit (c ∷ b) e h = (h, ([], sym (append-nil (c ∷ b)), λ _. refl))

stopped-IsRead :
    (limit : ℕ) (buf rest : Bytes)
    → length buf < limit + 4096
    → ltb (length buf) limit ≡ false
    → IsRead limit (buf ++ rest) (body buf)
stopped-IsRead limit buf rest h stop = (h, (rest, refl, λ less. absurd (ground arith)))

length-append-lt :
    (limit : ℕ) (buf c : Bytes)
    → ltb (length buf) limit ≡ true
    → Small c
    → length (buf ++ c) < limit + 4096
length-append-lt limit buf c more small =
    omega (arith, length-append {0} buf c, ltb→lt (length buf) limit more)

read_chunks-IsRead :
    (limit : ℕ) (cs : List Bytes) (final : Bytes) (e : NetError) (buf : Bytes)
    → All Small cs
    → Small final
    → length buf < limit + 4096
    → IsRead limit (buf ++ all_bytes cs final) (read_chunks limit cs final e buf)
unfolding read_chunks
read_chunks-IsRead limit [] final e buf small last h = elim (Bool-cases (ltb (length buf) limit)) [
  | inl more ↦
      rw more (at_end-IsRead limit (buf ++ final) e (length-append-lt limit buf final more last))
  | inr stop ↦ rw stop (stopped-IsRead limit buf final h stop)
]
read_chunks-IsRead limit (c ∷ cs) final e buf small last h =
    elim (Bool-cases (ltb (length buf) limit)) [
      | inl more ↦
          rw (more, sym (append_assoc buf c (all_bytes cs final)))
            (read_chunks-IsRead limit cs final e (buf ++ c) small.1 last
              (length-append-lt limit buf c more small.0))
      | inr stop ↦ rw stop (stopped-IsRead limit buf (c ++ all_bytes cs final) h stop)
    ]

-- Of an answer at most 4095 bytes more than the limit are read, the first ones, and all of them where they
-- are fewer than the limit; the probe gives up only where nothing comes at all. A read gives at most 4096
-- bytes.
pub read_upgrade_response-IsRead :
    (s : Stream) (limit : ℕ)
    → All Small s.chunks
    → Small s.final
    → IsRead limit (all_bytes s.chunks s.final) (read_upgrade_response s limit)
unfolding read_upgrade_response
read_upgrade_response-IsRead s limit small last =
    read_chunks-IsRead limit s.chunks s.final s.error [] small last (omega arith)

-- Whether a byte is in a text.
abbrev pub has : ℕ → Bytes → Bool
has c s = any_where (λ x. x == c) s

cut-append :
    (c : ℕ) (p rest : Bytes) → has c p ≡ false → cut (c ∷ []) (p ++ (c ∷ rest)) ≡ some (p, rest)
unfolding cut
cut-append c [] rest h = rw (==_refl c, cut) refl
cut-append c (x ∷ p) rest h = elim (Bool-cases (x == c)) [
  | inl e ↦ absurd (ground (arith, e, h))
  | inr e ↦ rw (e, cut) (ap (prepend x) (cut-append c p rest (ground (arith, e, h))))
]

trim_cr-append :
    (p : Bytes) (x : ℕ) (s : Bytes)
    → (x == 13) ≡ false
    → trim_cr (p ++ (x ∷ s)) ≡ p ++ (x ∷ trim_cr s)
unfolding trim_cr
trim_cr-append [] x s h = kept (trim_cr s)
  where
    kept : (t : Bytes) → keep_unless_cr x t ≡ x ∷ t
    kept [] = rw h refl
    kept (y ∷ t) = refl
trim_cr-append (c ∷ p) x s h = rw (trim_cr-append p x s h) (kept p)
  where
    kept : (q : Bytes) → keep_unless_cr c (q ++ (x ∷ trim_cr s)) ≡ c ∷ (q ++ (x ∷ trim_cr s))
    kept [] = refl
    kept (y ∷ q) = refl

has-append : (c : ℕ) (s t : Bytes) → has c s ≡ false → has c t ≡ false → has c (s ++ t) ≡ false
has-append c [] t h k = k
has-append c (x ∷ s) t h k = ground (arith, has-append c s t)

status_line-second_part :
    (version status rest : Bytes)
    → has b' ' version ≡ false
    → has b' ' status ≡ false
    → second_part (version ++ (b' ' ∷ (status ++ (b' ' ∷ rest)))) ≡ some status
unfolding second_part
status_line-second_part version status rest v s =
    rw (cut-append b' ' version (status ++ (b' ' ∷ rest)) v, second_part)
      (rw (cut-append b' ' status rest s, second_part) refl)

status_line-matches :
    (version status reason : Bytes)
    → has b' ' version ≡ false
    → has b' ' status ≡ false
    → is_101 (second_part (trim_cr ((version ++ (b' ' ∷ status)) ++ (b' ' ∷ reason))))
      ≡ equal_codes status (codes "101")
status_line-matches version status reason v s =
    ap (λ l. is_101 (second_part l))
      (trim_cr-append (version ++ (b' ' ∷ status)) b' ' reason refl
        ∙ append_assoc version (b' ' ∷ status) (b' ' ∷ trim_cr reason))
    ∙ ap is_101 (status_line-second_part version status (trim_cr reason) v s)

first_line-append : (p more : Bytes) → has 10 p ≡ false → first_line (p ++ (10 ∷ more)) ≡ p
first_line-append p more h = rw (cut-append 10 p more h, first_line) refl

-- An answer with a status line counts as an upgrade exactly when its status is 101, whatever its version,
-- reason and the lines behind. Neither the version nor the status has a space, and none of the three a
-- line break.
pub match_switching_protocols-status :
    (version status reason more : Bytes)
    → has b' ' version ≡ false
    → has b' ' status ≡ false
    → has 10 version ≡ false
    → has 10 status ≡ false
    → has 10 reason ≡ false
    → match_switching_protocols (((version ++ (b' ' ∷ status)) ++ (b' ' ∷ reason)) ++ (10 ∷ more))
      ≡ equal_codes status (codes "101")
unfolding match_switching_protocols
match_switching_protocols-status version status reason more v s nv ns nr =
    ap (λ l. is_101 (second_part (trim_cr l)))
      (first_line-append ((version ++ (b' ' ∷ status)) ++ (b' ' ∷ reason)) more (
        has-append 10 (version ++ (b' ' ∷ status)) (b' ' ∷ reason)
          (has-append 10 version (b' ' ∷ status) nv ns) nr))
    ∙ status_line-matches version status reason v s
