-- ===== src/Platform.antt =====
-- ampi/linux/platform_device.c, ampi/linux/ioport.h and `devm_ioremap_resource` of
-- ampi/linux/device.c: the resources of a platform device.
pub mod Lookup
mod Tests
use ampi.Base.{
  ℕ, zero, suc, ◌+◌, ◌-◌, Bool, true, false, not, ◌==◌, ltb, leb, ◌&&◌, ◌||◌, if◌then◌else◌, Option,
  none, some, List, [], ◌∷◌, ◌++◌, length,
}
use Prim.Native.Nat.{bit_and}
use ampi.Base.Words.{sub32}
use ampi.Base.Int.{ℤ, pos, negsuc}

-- `struct resource`
pub record Resource : Type 0 where
  pub start : ℕ
  pub end : ℕ
  pub flags : ℕ

abbrev pub ioresource_mem : ℕ
ioresource_mem = 0x200

abbrev pub ioresource_irq : ℕ
ioresource_irq = 0x400

abbrev pub ioresource_dma : ℕ
ioresource_dma = 0x800

abbrev pub has_flags : ℕ → Resource → Bool
has_flags flags r = not (bit_and r.flags flags == 0)

-- `platform_get_resource` over the first `num_resources` resources. `index--` is made at each
-- resource with the flags.
unfoldable pub get_resource : List Resource → ℕ → ℕ → Option Resource
get_resource [] flags index = none
get_resource (r ∷ rs) flags index =
    let rest = get_resource rs flags (if has_flags flags r then sub32 index 1 else index) in
    if has_flags flags r && index == 0 then some r else rest

-- `-ENXIO`
abbrev pub minus_enxio : ℤ
minus_enxio = negsuc 5

-- `platform_get_irq`. The start of an interrupt is its number, which fits an `int`.
unfoldable pub get_irq : List Resource → ℕ → ℤ
get_irq rs index = elim (get_resource rs ioresource_irq index) [
  | none ↦ minus_enxio
  | some r ↦ pos r.start
]

-- `devm_ioremap_resource`; a null pointer is `none`, and 0 is the null result.
unfoldable pub ioremap_resource : Option Resource → ℕ
ioremap_resource none = 0
ioremap_resource (some r) = if not (has_flags ioresource_mem r) then 0 else r.start
