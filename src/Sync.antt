-- ===== src/Sync.antt =====
-- The waiting primitives of ampi/linux: semaphore.c, completion.c, mutex.c and rwlock.c, with the
-- inline functions of their headers. A wait is a polling loop of `Wait`. The primitives stand in a
-- larger state `S`: a cell says where. The checks for core 0 are compiled only for several cores,
-- which ampienv.h rules out.
pub mod Semaphore
pub mod Completion
pub mod Mutex
pub mod Rwlock
mod Tests
use ampi.Base.{ℕ}

-- The place of an `int` in a larger state.
pub record Cell (S : Type 0) : Type 0 where
  pub get : S → ℕ
  pub put : ℕ → S → S

-- A state that is one `int`.
abbrev pub whole : Cell ℕ
whole = record { get = λ n. n; put = λ n m. n }
