-- ===== src/Critical.antt =====
-- ampi/linux/synchronize.c and ampi/linux/spinlock.c on one core: critical sections, and the range
-- operation on the data cache.
pub mod Nesting
pub mod Cache
mod Tests
use ampi.Base.{ℕ, ◌+◌, ◌-◌, Bool, true, false, not, ◌&&◌, ◌==◌, if◌then◌else◌}
use ampi.Base.Words.{add32, sub32}

-- The variables `s_nCriticalLevel` and `s_bWereEnabled`, and whether interrupts are enabled (the
-- flag 0x80 of the status register is clear).
pub record Core : Type 0 where
  pub level : ℕ
  pub were_enabled : Bool
  pub interrupts : Bool

-- `linuxemu_EnterCritical`
unfoldable pub enter_critical : Core → Core
enter_critical s = record {
  level = add32 s.level 1;
  were_enabled = if s.level == 0 then s.interrupts else s.were_enabled;
  interrupts = false;
}

-- `linuxemu_LeaveCritical`
unfoldable pub leave_critical : Core → Core
leave_critical s =
    let level = sub32 s.level 1 in
    record s {
      level = level;
      interrupts = if level == 0 && s.were_enabled then true else s.interrupts;
    }

-- `spin_lock` and `spin_unlock`, without `ARM_ALLOW_MULTI_CORE`
unfoldable pub spin_lock : Core → Core
spin_lock s = enter_critical s

unfoldable pub spin_unlock : Core → Core
spin_unlock s = leave_critical s
