-- ===== src/Probe/Vless/Panics.antt =====
-- internal/checks/vless.go: the configurations that patchInbound panics on.
use pingachock.Probe.Vless.{
  written, invalid, patched, write_patched, outbounds_key, bind_outbounds, patch_decoded, Patched,
  panics, Object, patch_outbounds, patch_inbound, patch_object, XrayCodec,
}
use pingachock.Base.{
  [], ◌∷◌, refl, true, ◌⊎◌, is_none, inr, ◌↔◌, none, any_where, false, inl, is_empty, some, List,
  ◌≡◌, Option, Bytes, ℕ,
}
use pingachock.Probe.Vless.Laws.{
  patch_object-IsPatched, outbounds_of, bind_outbounds-BoundIn, lookup-listening, IsPatched,
  BoundIn, AllBound, HasNull,
}

module _ (c : XrayCodec) where
  none_bound :
      (address : Bytes) (es es' : List (Option Object))
      → AllBound c address es es'
      → any_where is_none es ≡ true
      → ⊥
  none_bound address [] es' b h = cc
  none_bound address (none ∷ es) [] b h = b
  none_bound address (none ∷ es) (e' ∷ es') b h = b.0
  none_bound address (some o ∷ es) [] b h = b
  none_bound address (some o ∷ es) (e' ∷ es') b h = none_bound address es es' b.1 h

  null-panics :
      (address : Bytes) (es : List (Option Object)) (r : Patched (List (Option Object)))
      → BoundIn c address es r
      → any_where is_none es ≡ true
      → written c r ≡ panics
  null-panics address es (patched es') b h = absurd (none_bound address es es' b h)
  null-panics address es invalid b h = absurd b
  null-panics address es panics b h = refl

  patch_outbounds-panics :
      (address old : Bytes) → HasNull c old → patch_outbounds c old address ≡ panics
  unfolding patch_outbounds
  patch_outbounds-panics address old (h, (es, e, n)) =
      rw (h, e)
        (null-panics address es (bind_outbounds c address es) (bind_outbounds-BoundIn c address es)
          n)

  -- With an address there is a null among the outbounds.
  abbrev pub HasBoundNull : Bytes → Object → Type 0
  HasBoundNull address o = (is_empty address ≡ false) × HasNull c (outbounds_of c o)

  patch_object-panics :
      (port : ℕ) (address : Bytes) (o : Object)
      → HasBoundNull address o
      → patch_object c port address o ≡ panics
  unfolding patch_object
  patch_object-panics port address o (h, n) =
      rw
        (
          h,
          lookup-listening c port o outbounds_key,
          patch_outbounds-panics address (outbounds_of c o) n,
        )
        refl

  write_patched-panics :
      (port : ℕ) (address : Bytes) (o : Object) (r : Patched Object)
      → IsPatched c port address o r
      → write_patched c r ≡ panics
      → HasBoundNull address o
  write_patched-panics port address o (patched o') p h = absurd (cc)
  write_patched-panics port address o invalid p h = absurd (cc)
  write_patched-panics port address o panics p h = p

  -- What patching panics on.
  abbrev pub PanicsOn : Bytes → Option (Option Object) → Type 0
  PanicsOn address d =
      (d ≡ some none) ⊎ ((o : Object) × (d ≡ some (some o)) × HasBoundNull address o)

  decoded-panics :
      (port : ℕ) (address : Bytes) (d : Option (Option Object))
      → patch_decoded c port address d ≡ panics
      → PanicsOn address d
  decoded-panics port address none h = absurd (cc)
  decoded-panics port address (some none) h = inl refl
  decoded-panics port address (some (some o)) h =
      inr
        (o, refl, write_patched-panics port address o _ (patch_object-IsPatched c port address o) h)

  panics-decoded :
      (port : ℕ) (address : Bytes) (d : Option (Option Object))
      → PanicsOn address d
      → patch_decoded c port address d ≡ panics
  panics-decoded port address d (inl e) = rw e refl
  panics-decoded port address d (inr (o, e, n)) = rw (e, patch_object-panics port address o n) refl

  -- Patching panics exactly on a configuration that is JSON's null and, where there is an address to bind
  -- to, on one whose outbounds are a list with a null in it.
  pub patch_inbound-panics :
      (config : Bytes) (port : ℕ) (address : Bytes)
      → (patch_inbound c config port address ≡ panics) ↔ PanicsOn address (c.object_of config)
  unfolding patch_inbound
  patch_inbound-panics config port address = (
    decoded-panics port address (c.object_of config),
    panics-decoded port address (c.object_of config),
  )
