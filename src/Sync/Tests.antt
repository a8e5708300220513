-- ===== src/Sync/Tests.antt =====
-- The theorems on the waiting primitives, at inputs that meet their hypotheses.
use ampi.Base.{ℕ, ◌≡◌, ◌<◌, refl, inr, false, some, []}
use ampi.Base.Words.{add32}
use ampi.Sync.{Cell, whole}
use ampi.Sync.Mutex
use ampi.Sync.Mutex.{mutex_lock, mutex_exclusion, Exclusive}
use ampi.Sync.Rwlock.{
  write_lock, set_write, clear_write, rwlock_init, read_lock_bh, write_lock_bh, write_unlock_bh,
}
use ampi.Wait.{poll}
use ampi.Sync.Rwlock

-- A completion beside a clock that is about to wrap round.
record Clock : Type 0 where
  done : ℕ
  now : ℕ

abbrev done_cell : Cell Clock
done_cell = record { get = λ c. c.done; put = λ n c. record c { done = n } }

abbrev tick : Clock → Clock
tick c = record c { now = add32 c.now 1 }

abbrev late : Clock
late = record { done = 0; now = 0xffffffff }

-- One task waits, then locks.
abbrev one_waits : Mutex.Tasks
one_waits = record { word = 0; waiting = 1; inside = 0 }

one_waits_reached : Mutex.Reach one_waits
unfolding Mutex.mutex_init
one_waits_reached = Mutex.Reach.next Mutex.Reach.start Mutex.Step.ask

mutex_exclusion_example : Exclusive one_waits
mutex_exclusion_example = mutex_exclusion one_waits_reached

abbrev one_writer : Rwlock.Tasks.Tasks
one_writer = record {
  word = write_lock;
  read_waiting = 0;
  reading = 0;
  write_waiting = 0;
  writing = 1;
}

one_writer_reached : Rwlock.Tasks.Reach false one_writer
unfolding set_write clear_write rwlock_init write_lock_bh poll
one_writer_reached =
    Rwlock.Tasks.Reach.next Rwlock.Tasks.Reach.start
      (Rwlock.Tasks.Step.write_at_once write_lock 0 (inr refl) refl)

single_writer_example : Rwlock.Tasks.Inv one_writer
single_writer_example = Rwlock.Tasks.single_writer one_writer_reached

abbrev one_reader : Rwlock.Tasks.Tasks
one_reader = record { word = 1; read_waiting = 0; reading = 1; write_waiting = 0; writing = 0 }

deadlock_arises_example :
    (t : Rwlock.Tasks.Tasks) × Rwlock.Tasks.Run one_reader t
    × (0 < t.read_waiting)
    × (0 < t.write_waiting)
    × ((u : Rwlock.Tasks.Tasks) → Rwlock.Tasks.Run t u → (u.reading ≡ 0) × (u.writing ≡ 0))
deadlock_arises_example = Rwlock.Tasks.deadlock_arises one_reader refl (refl, refl) (refl, refl)

second_writer_example :
    (write_lock_bh whole write_lock [] ≡ some (tt, write_lock, []))
    × (read_lock_bh whole (write_unlock_bh whole write_lock) [] ≡ some (tt, 1, []))
second_writer_example = Rwlock.Tasks.second_writer write_lock [] (inr refl)
