-- ===== src/Sync/Mutex.antt =====
-- ampi/linux/mutex.c, and any number of tasks that lock and unlock one mutex.
use ampi.Base.{ℕ, suc, ◌-◌, ◌≡◌, ◌≢◌, ◌≤◌, ◌<◌, ◌==◌, some, [], arith}
use ampi.Wait.{Task, ◌>>◌, modify, poll, poll_ready, poll_blocked}
use ampi.Sync.{Cell, whole}

module _ {S : Type 0} (lock : Cell S) where
  unfoldable pub mutex_init : S → S
  mutex_init s = lock.put 0 s

  unfoldable pub mutex_lock : Task S (Unit {0})
  mutex_lock = poll (λ s. lock.get s == 0) >> modify (λ s. lock.put 1 s)

  unfoldable pub mutex_unlock : S → S
  mutex_unlock s = lock.put 0 s

-- A lock that does not wait finds the word at 0 and sets it to 1.
mutex_lock_free : (l : ℕ) → l ≡ 0 → mutex_lock whole l [] ≡ some (tt, 1, [])
unfolding mutex_lock poll
mutex_lock_free l e = rw e

mutex_lock_now : (l l' : ℕ) → mutex_lock whole l [] ≡ some (tt, l', []) → (l ≡ 0) × (l' ≡ 1)
unfolding mutex_lock
mutex_lock_now l l' h =
    ground (arith, poll_ready (λ (n : ℕ). n == 0) l [], poll_blocked (λ (n : ℕ). n == 0) l)

-- The mutex, the number of tasks that wait for it, and of those between lock and unlock.
pub record Tasks : Type 0 where
  pub word : ℕ
  pub waiting : ℕ
  pub inside : ℕ

-- What can happen between two yields.
pub data Step (s : Tasks) : Tasks → Type 0 where
  ask : Step s (record s { waiting = suc s.waiting })
  enter :
      {l : ℕ}
      → 0 < s.waiting
      → mutex_lock whole s.word [] ≡ some (tt, l, [])
      → Step s (record { word = l; waiting = s.waiting - 1; inside = suc s.inside })
  leave :
      0 < s.inside → Step s (record s { word = mutex_unlock whole s.word; inside = s.inside - 1 })

abbrev pub unlocked : Tasks
unlocked = record { word = mutex_init whole 0; waiting = 0; inside = 0 }

pub data Reach : Tasks → Type 0 where
  start : Reach unlocked
  next : {s t : Tasks} → Reach s → Step s t → Reach t

-- The word says whether a task is inside, and there is one at most.
pub record Exclusive (s : Tasks) : Type 0 where
  pub one : s.inside ≤ 1
  pub free : s.word ≡ 0 → s.inside ≡ 0
  pub taken : s.word ≢ 0 → s.inside ≡ 1

Step-Exclusive : {s t : Tasks} → Step s t → Exclusive s → Exclusive t
unfolding mutex_unlock
Step-Exclusive ask v = ground arith
Step-Exclusive {s} (enter {l} h e) v = ground (arith, mutex_lock_now s.word l e)
Step-Exclusive (leave h) v = ground arith

-- However many tasks lock and unlock, one at most is between its lock and its unlock.
pub mutex_exclusion : {s : Tasks} → Reach s → Exclusive s
unfolding mutex_init
mutex_exclusion start = omega arith
mutex_exclusion (next r st) = Step-Exclusive st (mutex_exclusion r)

-- No waiting task is stuck: if nobody is inside, one that waits can enter at once.
mutex_progress :
    {s : Tasks} → Reach s → 0 < s.waiting → s.inside ≡ 0 → (t : Tasks) × Step s t × (t.inside ≡ 1)
mutex_progress {s} r w z =
    let v = mutex_exclusion r in
    (
      record { word = 1; waiting = s.waiting - 1; inside = suc s.inside },
      enter w (mutex_lock_free s.word (ground arith)),
      omega arith,
    )
