-- ===== src/Platform/Lookup.antt =====
-- The search for a resource.
use ampi.Base.{
  ℕ, zero, suc, ◌≡◌, ◌<◌, refl, false, ◌==◌, if◌then◌else◌, none, some, List, [], ◌∷◌, get_elem?,
  arith, Bool-cases, inl, inr,
}
use ampi.Base.Words.{sub32, word}
use ampi.Base.Int.{pos}
use ampi.Platform.{Resource, has_flags, get_resource, ioresource_irq, minus_enxio, get_irq}

-- The resources with one of the flags, in order.
unfoldable pub matching : ℕ → List Resource → List Resource
matching flags [] = []
matching flags (r ∷ rs) =
    let rest = matching flags rs in if has_flags flags r then r ∷ rest else rest

-- `platform_get_resource` returns the resource with the given index among those that have one of
-- the flags, and a null pointer if there are not so many.
get_resource_lem :
    (rs : List Resource) (flags index : ℕ)
    → index < word
    → get_resource rs flags index ≡ get_elem? (matching flags rs) index
unfolding get_resource matching
get_resource_lem [] flags index h = refl
get_resource_lem (r ∷ rs) flags zero h = elim (Bool-cases (has_flags flags r)) [
  | inl y ↦ rw y
  | inr n ↦ rw n (get_resource_lem rs flags 0 h)
]
get_resource_lem (r ∷ rs) flags (suc index) h =
    let e : sub32 (suc index) 1 ≡ index = omega arith in
    let z : (suc index == 0) ≡ false = ground arith in
    elim (Bool-cases (has_flags flags r)) [
      | inl y ↦ rw (y, z, e) (get_resource_lem rs flags index (omega arith))
      | inr n ↦ rw n (get_resource_lem rs flags (suc index) h)
    ]

-- `platform_get_irq` gives the start of the resource with the index among the interrupts, and
-- `-ENXIO` if there are not so many interrupts.
get_irq_lem :
    (rs : List Resource) (index : ℕ)
    → index < word
    → get_irq rs index ≡ elim (get_elem? (matching ioresource_irq rs) index) [
      | none ↦ minus_enxio
      | some r ↦ pos r.start
    ]
unfolding get_irq
get_irq_lem rs index h = rw (get_resource_lem rs ioresource_irq index h, get_irq)
