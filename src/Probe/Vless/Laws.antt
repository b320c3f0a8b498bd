-- ===== src/Probe/Vless/Laws.antt =====
-- internal/checks/vless.go: what a patched configuration says, and when patching panics.
use pingachock.Probe.Vless.{
  socks_inbound, written, bind_entries, put_outbounds, or_nothing, inbounds_key, quiet_log,
  patch_outbounds, outbounds_key, log_key, patch_object, XrayCodec, and_then_bound, Patched,
  is_text, bind_outbound, bind_outbounds, patched, panics, invalid, Object, put, lookup,
}
use pingachock.Base.{
  ◌⊎◌, is_empty, ℕ, none, is_none, codes, any_where, Option, List, sym, ◌∙◌, false, true, ◌∷◌, [],
  inl, inr, Bool-cases, refl, equal_codes_iff, some, equal_codes, if◌then◌else◌, ◌≡◌, Bytes,
}

-- Two keys that both equal a third are equal.
equal_codes_trans :
    (i k j : Bytes) → equal_codes k j ≡ true → equal_codes i j ≡ true → equal_codes i k ≡ true
equal_codes_trans i k j g f =
    (equal_codes_iff i k).1 ((equal_codes_iff i j).0 f ∙ sym ((equal_codes_iff k j).0 g))

lookup-put :
    (k j v : Bytes) (o : Object)
    → lookup j (put k v o) ≡ (if equal_codes k j then some v else lookup j o)
unfolding lookup put
lookup-put k j v [] = refl
lookup-put k j v ((i, w) ∷ o) = elim (Bool-cases (equal_codes i k)) [
  | inl e ↦ rw (e, (equal_codes_iff i k).0 e) (overwritten k)
  | inr e ↦ elim (Bool-cases (equal_codes i j)) [
    | inl f ↦ elim (Bool-cases (equal_codes k j)) [
      | inl g ↦ let same = equal_codes_trans i k j g f in absurd (cc)
      | inr g ↦ rw (e, f, g) refl
    ]
    | inr f ↦ rw (e, f) (lookup-put k j v o)
  ]
]
  where
    overwritten :
        (n : Bytes)
        → (if equal_codes n j then some v else lookup j o)
          ≡ (if equal_codes n j then some v else if equal_codes n j then some w else lookup j o)
    overwritten n = elim (Bool-cases (equal_codes n j)) [ inl g ↦ rw g refl | inr g ↦ rw g refl ]

module _ (c : XrayCodec) where
  -- What becomes of an outbound: a black hole stays as it is, any other is bound to the address, and its
  -- other keys stay.
  abbrev pub IsBound : Bytes → Option Object → Option Object → Type 0
  IsBound address none e = ⊥
  IsBound address (some o) none = ⊥
  IsBound address (some o) (some o') =
      (is_text c (lookup (codes "protocol") o) "blackhole" ≡ true → o' ≡ o)
      × (is_text c (lookup (codes "protocol") o) "blackhole" ≡ false
          → (k : Bytes)
          → lookup k o'
            ≡ (if equal_codes (codes "sendThrough") k then some (c.text address) else lookup k o))

  abbrev pub AllBound : Bytes → List (Option Object) → List (Option Object) → Type 0
  AllBound address [] [] = Unit
  AllBound address [] (e' ∷ es') = ⊥
  AllBound address (e ∷ es) [] = ⊥
  AllBound address (e ∷ es) (e' ∷ es') = IsBound address e e' × AllBound address es es'

  abbrev pub BoundIn : Bytes → List (Option Object) → Patched (List (Option Object)) → Type 0
  BoundIn address es (patched es') = AllBound address es es'
  BoundIn address es invalid = ⊥
  BoundIn address es panics = any_where is_none es ≡ true

  bind_outbound-IsBound :
      (address : Bytes) (o : Object)
      → (o' : Object) × (bind_outbound c address (some o) ≡ patched (some o'))
        × IsBound address (some o) (some o')
  unfolding bind_outbound
  bind_outbound-IsBound address o =
      elim (Bool-cases (is_text c (lookup (codes "protocol") o) "blackhole")) [
        | inl e ↦ (o, rw e refl, (λ _. refl, λ f. absurd (cc)))
        | inr e ↦ (
          put (codes "sendThrough") (c.text address) o,
          rw e refl,
          (λ f. absurd (cc), λ _ k. lookup-put (codes "sendThrough") k (c.text address) o),
        )
      ]

  and_then_bound-BoundIn :
      (address : Bytes) (o o' : Object) (es : List (Option Object))
      (r : Patched (List (Option Object)))
      → IsBound address (some o) (some o')
      → BoundIn address es r
      → BoundIn address (some o ∷ es) (and_then_bound c (patched (some o')) r)
  and_then_bound-BoundIn address o o' es (patched es') b h = (b, h)
  and_then_bound-BoundIn address o o' es invalid b h = h
  and_then_bound-BoundIn address o o' es panics b h = h

  -- Every outbound but a black hole is bound to the address, with all its other keys as they were, and a
  -- black hole is left as it is; writing to an outbound that is null panics, and nothing else does.
  pub bind_outbounds-BoundIn :
      (address : Bytes) (es : List (Option Object))
      → BoundIn address es (bind_outbounds c address es)
  unfolding bind_outbounds
  bind_outbounds-BoundIn address [] = tt
  bind_outbounds-BoundIn address (none ∷ es) = refl
  bind_outbounds-BoundIn address (some o ∷ es) =
      let (o', e, b) = bind_outbound-IsBound address o in
      rw e (
        and_then_bound-BoundIn address o o' es (bind_outbounds c address es) b
          (bind_outbounds-BoundIn address es))

  -- What becomes of the outbounds `old`: nothing where there are none, and otherwise they are a list
  -- whose members are bound.
  abbrev pub BoundOutbounds : Bytes → Bytes → Bytes → Type 0
  BoundOutbounds address old v =
      ((is_empty old ≡ true) × (v ≡ old))
      ⊎ ((es : List (Option Object)) × (c.entries_of old ≡ some es)
          × ((es' : List (Option Object)) × AllBound address es es' × (v ≡ c.write_entries es')))

  -- The outbounds are a list with a null in it.
  abbrev pub HasNull : Bytes → Type 0
  HasNull old =
      (is_empty old ≡ false)
      × ((es : List (Option Object)) × (c.entries_of old ≡ some es) × (any_where is_none es ≡ true))

  abbrev ArePatched : Bytes → Bytes → Patched Bytes → Type 0
  ArePatched address old (patched v) = BoundOutbounds address old v
  ArePatched address old invalid = c.entries_of old ≡ none
  ArePatched address old panics = HasNull old

  written-ArePatched :
      (address old : Bytes) (es : List (Option Object)) (r : Patched (List (Option Object)))
      → is_empty old ≡ false
      → c.entries_of old ≡ some es
      → BoundIn address es r
      → ArePatched address old (written c r)
  written-ArePatched address old es (patched es') h e b = inr (es, e, (es', b, refl))
  written-ArePatched address old es invalid h e b = absurd b
  written-ArePatched address old es panics h e b = (h, (es, e, b))

  bind_entries-ArePatched :
      (address old : Bytes) (d : Option (List (Option Object)))
      → is_empty old ≡ false
      → c.entries_of old ≡ d
      → ArePatched address old (bind_entries c address d)
  bind_entries-ArePatched address old none h e = e
  bind_entries-ArePatched address old (some es) h e =
      written-ArePatched address old es (bind_outbounds c address es) h e
        (bind_outbounds-BoundIn address es)

  patch_outbounds-ArePatched :
      (address old : Bytes) → ArePatched address old (patch_outbounds c old address)
  unfolding patch_outbounds
  patch_outbounds-ArePatched address old = elim (Bool-cases (is_empty old)) [
    | inl e ↦ rw e (inl (e, refl))
    | inr e ↦ rw e (bind_entries-ArePatched address old (c.entries_of old) e refl)
  ]

  abbrev pub outbounds_of : Object → Bytes
  outbounds_of o = or_nothing (lookup outbounds_key o)

  -- What the patched configuration says under each key, and why there is none.
  abbrev pub IsPatched : ℕ → Bytes → Object → Patched Object → Type 0
  IsPatched port address o invalid =
      (is_empty address ≡ false) × (c.entries_of (outbounds_of o) ≡ none)
  IsPatched port address o panics = (is_empty address ≡ false) × HasNull (outbounds_of o)
  IsPatched port address o (patched o') =
      ((k : Bytes)
        → equal_codes outbounds_key k ≡ false
        → lookup k o' ≡ (
            if equal_codes log_key k
            then some quiet_log
            else if equal_codes inbounds_key k
            then some (
                c.write_inbounds (
                  record {
                    listen = codes "127.0.0.1";
                    port = port;
                    protocol = codes "socks";
                    udp = false;
                  }
                  ∷ []))
            else lookup k o))
      × (is_empty address ≡ true → lookup outbounds_key o' ≡ lookup outbounds_key o)
      × (is_empty address ≡ false
          → (v : Bytes) × (lookup outbounds_key o' ≡ some v)
            × BoundOutbounds address (outbounds_of o) v)

  -- The configuration with its new log and inbounds.
  abbrev listening : ℕ → Object → Object
  listening port o =
      put log_key quiet_log (put inbounds_key (c.write_inbounds (socks_inbound port ∷ [])) o)

  pub lookup-listening :
      (port : ℕ) (o : Object) (k : Bytes)
      → lookup k (listening port o) ≡ (
          if equal_codes log_key k
          then some quiet_log
          else if equal_codes inbounds_key k
          then some (c.write_inbounds (socks_inbound port ∷ []))
          else lookup k o)
  lookup-listening port o k =
      let inbounds : Bytes = c.write_inbounds (socks_inbound port ∷ []) in
      rw
        (
          lookup-put log_key k quiet_log (put inbounds_key inbounds o),
          lookup-put inbounds_key k inbounds o,
        )
        refl

  put_outbounds-IsPatched :
      (port : ℕ) (address : Bytes) (o : Object) (r : Patched Bytes)
      → is_empty address ≡ false
      → ArePatched address (outbounds_of o) r
      → IsPatched port address o (put_outbounds c (listening port o) r)
  put_outbounds-IsPatched port address o invalid h e = (h, e)
  put_outbounds-IsPatched port address o panics h e = (h, e)
  put_outbounds-IsPatched port address o (patched v) h e = (
    λ k other.
        lookup-put outbounds_key k v (listening port o) ∙ rw other (lookup-listening port o k),
    λ f. absurd (cc),
    λ _. (v, lookup-put outbounds_key outbounds_key v (listening port o), e),
  )

  -- A patched xray configuration has as its only inbound a SOCKS proxy without UDP at 127.0.0.1, on the
  -- port that the check chose, and logs warnings only. Without an address its outbounds are as they were;
  -- with one each of them is bound to it but black holes, if there are any. Every other key has the value that it
  -- had. Patching fails only where there is an address and the outbounds are no list of objects, and it
  -- panics only where one of them is null.
  pub patch_object-IsPatched :
      (port : ℕ) (address : Bytes) (o : Object)
      → IsPatched port address o (patch_object c port address o)
  unfolding patch_object
  patch_object-IsPatched port address o = elim (Bool-cases (is_empty address)) [
    | inl e ↦ rw e (
      λ k _. lookup-listening port o k,
      λ _. lookup-listening port o outbounds_key,
      λ f. absurd (cc),
    )
    | inr e ↦ rw e (
        put_outbounds-IsPatched port address o _ e (
          rw (lookup-listening port o outbounds_key)
            (patch_outbounds-ArePatched address (outbounds_of o))))
  ]
