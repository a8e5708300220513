-- ===== src/Platform/Tests.antt =====
-- The theorems on platform resources at inputs that meet their hypotheses.
use ampi.Base.{◌≡◌, refl, List, [], ◌∷◌}
use ampi.Base.Int.{pos}
use ampi.Platform.{
  Resource, get_resource, get_irq, ioresource_mem, ioresource_irq, ioremap_resource, minus_enxio,
}

-- Registers, a doorbell and a second interrupt.
abbrev resources : List Resource
resources =
    record { start = 0x2000b840; end = 0x2000b84e; flags = ioresource_mem }
    ∷ record { start = 66; end = 66; flags = ioresource_irq }
    ∷ record { start = 67; end = 67; flags = ioresource_irq }
    ∷ []

second_interrupt : get_irq resources 1 ≡ pos 67
unfolding get_irq get_resource
second_interrupt = refl

no_third_interrupt : get_irq resources 2 ≡ minus_enxio
unfolding get_irq get_resource
no_third_interrupt = refl

registers : ioremap_resource (get_resource resources ioresource_mem 0) ≡ 0x2000b840
unfolding ioremap_resource get_resource
registers = refl
