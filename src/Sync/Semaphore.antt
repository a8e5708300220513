-- ===== src/Sync/Semaphore.antt =====
-- ampi/linux/semaphore.c
use ampi.Base.{ℕ, ◌-◌, ◌≡◌, not, ◌==◌, if◌then◌else◌, some, none, [], arith}
use ampi.Base.Words.{add32}
use ampi.Wait.{Task, ◌>>◌, modify, poll, poll_ready, poll_blocked}
use ampi.Sync.{Cell}

module _ {S : Type 0} (sem : Cell S) where
  unfoldable pub sema_init : ℕ → S → S
  sema_init val s = sem.put val s

  unfoldable pub down : Task S (Unit {0})
  down = poll (λ s. not (sem.get s == 0)) >> modify (λ s. sem.put (sem.get s - 1) s)

  unfoldable pub up : S → S
  up s = sem.put (add32 (sem.get s) 1) s

  unfoldable pub down_trylock : S → ℕ × S
  down_trylock s = if sem.get s == 0 then (1, s) else (0, sem.put (sem.get s - 1) s)

  -- `down_trylock` does what `down` does when that need not wait, and leaves the semaphore alone
  -- when it would.
  down_trylock-down :
      (s : S)
      → let (r, t) = down_trylock s in
        (r ≡ 0 → down s [] ≡ some (tt, t, [])) × (r ≡ 1 → (down s [] ≡ none) × (t ≡ s))
  unfolding down down_trylock
  down_trylock-down s = ground (
    arith,
    poll_ready (λ (s : S). not (sem.get s == 0)) s [],
    poll_blocked (λ (s : S). not (sem.get s == 0)) s,
  )
