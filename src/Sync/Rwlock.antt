-- ===== src/Sync/Rwlock.antt =====
-- ampi/linux/rwlock.c
pub mod Tasks
use ampi.Base.{ℕ, ◌+◌, ◌-◌, ◌%◌, ◌^◌, Bool, ltb, leb, ◌==◌, if◌then◌else◌}
use ampi.Base.Words.{add32, sub32}
use ampi.Wait.{Task, ◌>>=◌, ◌>>◌, modify, poll}
use ampi.Sync.{Cell}

-- `WRITE_LOCK`, the highest bit of the word
abbrev pub write_lock : ℕ
write_lock = 2 ^ 31

-- `lock |= WRITE_LOCK` on a 32-bit word
unfoldable pub set_write : ℕ → ℕ
set_write l = if leb write_lock l then l else l + write_lock

-- `lock & ~WRITE_LOCK` on a 32-bit word
unfoldable pub clear_write : ℕ → ℕ
clear_write l = l % write_lock

-- The conditions that end the two loops.
abbrev pub may_read : ℕ → Bool
may_read l = ltb l write_lock

abbrev pub may_write : ℕ → Bool
may_write l = clear_write l == 0

module _ {S : Type 0} (lock : Cell S) where
  unfoldable pub rwlock_init : S → S
  rwlock_init s = lock.put 0 s

  unfoldable pub read_lock_bh : Task S (Unit {0})
  read_lock_bh =
      modify (λ s. lock.put (add32 (lock.get s) 1) s) >> poll (λ s. may_read (lock.get s))

  unfoldable pub read_unlock_bh : S → S
  read_unlock_bh s = lock.put (sub32 (lock.get s) 1) s

  unfoldable pub write_lock_bh : Task S (Unit {0})
  write_lock_bh =
      modify (λ s. lock.put (set_write (lock.get s)) s) >> poll (λ s. may_write (lock.get s))

  unfoldable pub write_unlock_bh : S → S
  write_unlock_bh s = lock.put (clear_write (lock.get s)) s
