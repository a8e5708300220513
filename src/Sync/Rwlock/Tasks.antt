-- ===== src/Sync/Rwlock/Tasks.antt =====
-- Any number of tasks that read and write under one lock of ampi/linux/rwlock.c.
use ampi.Base.{
  ℕ, suc, ◌+◌, ◌-◌, ◌*◌, ◌≡◌, ◌≤◌, ◌<◌, refl, sym, subst, Bool, true, false, arith, ◌⊎◌, inl, some,
  List, [], ◌∷◌,
}
use ampi.Base.Words.{add32}
use ampi.Wait.{poll, poll_ready, poll_yield, poll_blocked}
use ampi.Sync.{Cell, whole}
use ampi.Sync.Rwlock.{
  write_lock, set_write, clear_write, may_read, may_write, rwlock_init, read_lock_bh,
  read_unlock_bh, write_lock_bh, write_unlock_bh,
}

-- The lock's word, and how many tasks are in the loop of `read_lock_bh`, between it and
-- `read_unlock_bh`, and the same for writing.
pub record Tasks : Type 0 where
  pub word : ℕ
  pub read_waiting : ℕ
  pub reading : ℕ
  pub write_waiting : ℕ
  pub writing : ℕ

-- The word, and what was seen of it at the first yield of a call
abbrev pub watched : Cell (ℕ × ℕ)
watched = record { get = λ s. s.0; put = λ n s. (n, s.1) }

-- At the yield the word is noted, and then it is set to `n`.
abbrev pub note : ℕ → ℕ × ℕ → ℕ × ℕ
note n s = (n, s.0)

-- What can happen between two yields. A call of `read_lock_bh` or `write_lock_bh` at once gets inside, or
-- it yields for the first time with some word left behind; a call that has yielded goes on inside when
-- the word is one at which it ends; an unlock. The first argument says whether a writer may call while
-- another one is about. (There are always less than 2^31 readers.)
pub data Step (many : Bool) (s : Tasks) : Tasks → Type 0 where
  read_at_once :
      (l m : ℕ)
      → suc (s.reading + s.read_waiting) < write_lock
      → read_lock_bh watched (s.word, 0) [] ≡ some (tt, (l, m), [])
      → Step many s (record s { word = l; reading = suc s.reading })
  read_call :
      (l : ℕ)
      → suc (s.reading + s.read_waiting) < write_lock
      → read_lock_bh watched (s.word, 0) (note 0 ∷ []) ≡ some (tt, (0, l), [])
      → Step many s (record s { word = l; read_waiting = suc s.read_waiting })
  read_enter :
      (l m : ℕ)
      → 0 < s.read_waiting
      → read_lock_bh watched (l, 0) (note s.word ∷ []) ≡ some (tt, (s.word, m), [])
      → Step many s (record s { read_waiting = s.read_waiting - 1; reading = suc s.reading })
  read_leave :
      0 < s.reading
      → Step many s (record s { word = read_unlock_bh whole s.word; reading = s.reading - 1 })
  write_at_once :
      (l m : ℕ)
      → (many ≡ true) ⊎ (s.writing + s.write_waiting ≡ 0)
      → write_lock_bh watched (s.word, 0) [] ≡ some (tt, (l, m), [])
      → Step many s (record s { word = l; writing = suc s.writing })
  write_call :
      (l : ℕ)
      → (many ≡ true) ⊎ (s.writing + s.write_waiting ≡ 0)
      → write_lock_bh watched (s.word, 0) (note 0 ∷ []) ≡ some (tt, (0, l), [])
      → Step many s (record s { word = l; write_waiting = suc s.write_waiting })
  write_enter :
      (l m : ℕ)
      → 0 < s.write_waiting
      → write_lock_bh watched (l, 0) (note s.word ∷ []) ≡ some (tt, (s.word, m), [])
      → Step many s (record s { write_waiting = s.write_waiting - 1; writing = suc s.writing })
  write_leave :
      0 < s.writing
      → Step many s (record s { word = write_unlock_bh whole s.word; writing = s.writing - 1 })

module _ (w n l m : ℕ) where
  abbrev can_read : ℕ × ℕ → Bool
  can_read s = may_read s.0

  abbrev can_write : ℕ × ℕ → Bool
  can_write s = may_write s.0

  read_now :
      read_lock_bh watched (w, 0) [] ≡ some (tt, (l, m), [])
      → (may_read (add32 w 1) ≡ true) × (l ≡ add32 w 1)
  unfolding read_lock_bh
  read_now h =
      ground (arith, poll_ready can_read (add32 w 1, 0) [], poll_blocked can_read (add32 w 1, 0))

  read_later :
      read_lock_bh watched (w, 0) (note n ∷ []) ≡ some (tt, (l, m), [])
      → (may_read n ≡ true) × (l ≡ n) × (m ≡ add32 w 1)
  unfolding read_lock_bh
  read_later h = ground (
    arith,
    poll_ready can_read (add32 w 1, 0) (note n ∷ []),
    poll_yield can_read (add32 w 1, 0) (note n) [],
    poll_ready can_read (n, add32 w 1) [],
    poll_blocked can_read (n, add32 w 1),
  )

  write_now :
      write_lock_bh watched (w, 0) [] ≡ some (tt, (l, m), [])
      → (may_write (set_write w) ≡ true) × (l ≡ set_write w)
  unfolding write_lock_bh
  write_now h =
      ground
        (arith, poll_ready can_write (set_write w, 0) [], poll_blocked can_write (set_write w, 0))

  write_later :
      write_lock_bh watched (w, 0) (note n ∷ []) ≡ some (tt, (l, m), [])
      → (may_write n ≡ true) × (l ≡ n) × (m ≡ set_write w)
  unfolding write_lock_bh
  write_later h = ground (
    arith,
    poll_ready can_write (set_write w, 0) (note n ∷ []),
    poll_yield can_write (set_write w, 0) (note n) [],
    poll_ready can_write (n, set_write w) [],
    poll_blocked can_write (n, set_write w),
  )

abbrev pub unlocked : Tasks
unlocked = record {
  word = rwlock_init whole 0;
  read_waiting = 0;
  reading = 0;
  write_waiting = 0;
  writing = 0;
}

pub data Reach (many : Bool) : Tasks → Type 0 where
  start : Reach many unlocked
  next : {s t : Tasks} → Reach many s → Step many s t → Reach many t

-- The word counts the readers, those that wait among them, and its highest bit is the writer.
pub record Inv (s : Tasks) : Type 0 where
  pub few : s.reading + s.read_waiting < write_lock
  pub single : s.writing + s.write_waiting ≤ 1
  pub count : s.word ≡ s.reading + s.read_waiting + (s.writing + s.write_waiting) * write_lock
  pub apart : (s.writing ≡ 0) ⊎ (s.reading ≡ 0)

Step-Inv : {s t : Tasks} → Step false s t → Inv s → Inv t
unfolding set_write clear_write read_unlock_bh write_unlock_bh
Step-Inv {s} (read_at_once l m h e) v = ground (arith, read_now s.word 0 l m e)
Step-Inv {s} (read_call l h e) v = ground (arith, read_later s.word 0 0 l e)
Step-Inv {s} (read_enter l m h e) v = ground (arith, read_later l s.word s.word m e)
Step-Inv (read_leave h) v = ground arith
Step-Inv {s} (write_at_once l m h e) v = ground (arith, write_now s.word 0 l m e)
Step-Inv {s} (write_call l h e) v = ground (arith, write_later s.word 0 0 l e)
Step-Inv {s} (write_enter l m h e) v = ground (arith, write_later l s.word s.word m e)
Step-Inv (write_leave h) v = ground arith

-- As long as no writer calls while another one waits or writes, and there are less than 2^31 readers,
-- `read_lock_bh` and `write_lock_bh` keep readers and the writer apart, and the word says exactly who
-- is about.
pub single_writer : {s : Tasks} → Reach false s → Inv s
unfolding rwlock_init
single_writer start = ground arith
single_writer (next r st) = Step-Inv st (single_writer r)

-- A writer that waits while a reader waits too, with nobody inside.
pub record Stuck (s : Tasks) : Type 0 where
  pub reader : 0 < s.read_waiting
  pub writer : 0 < s.write_waiting
  pub nobody : (s.reading ≡ 0) × (s.writing ≡ 0)
  pub few : s.read_waiting < write_lock
  pub both : s.word ≡ write_lock + s.read_waiting

Step-Stuck : {s t : Tasks} → Step true s t → Stuck s → Stuck t
unfolding set_write clear_write read_unlock_bh write_unlock_bh
Step-Stuck {s} (read_at_once l m h e) v = ground (arith, read_now s.word 0 l m e)
Step-Stuck {s} (read_call l h e) v = ground (arith, read_later s.word 0 0 l e)
Step-Stuck {s} (read_enter l m h e) v = ground (arith, read_later l s.word s.word m e)
Step-Stuck (read_leave h) v = ground arith
Step-Stuck {s} (write_at_once l m h e) v = ground (arith, write_now s.word 0 l m e)
Step-Stuck {s} (write_call l h e) v = ground (arith, write_later s.word 0 0 l e)
Step-Stuck {s} (write_enter l m h e) v = ground (arith, write_later l s.word s.word m e)
Step-Stuck (write_leave h) v = ground arith

pub data Run (s : Tasks) : Tasks → Type 0 where
  stay : Run s s
  go : {t u : Tasks} → Run s t → Step true t u → Run s u

-- A reader and a writer that wait for one another wait for ever: nobody gets inside any more,
-- whoever calls and however the tasks are scheduled.
deadlock : {s t : Tasks} → Stuck s → Run s t → Stuck t
deadlock h stay = h
deadlock h (go r st) = Step-Stuck st (deadlock h r)

-- A writer that calls while one reader is inside yields, and so does a reader that calls then.
write_waits : write_lock_bh watched (1, 0) (note 0 ∷ []) ≡ some (tt, (0, write_lock + 1), [])
unfolding write_lock_bh poll set_write clear_write
write_waits = refl

read_waits :
    read_lock_bh watched (write_lock + 1, 0) (note 0 ∷ []) ≡ some (tt, (0, write_lock + 2), [])
unfolding read_lock_bh poll
read_waits = refl

-- When one reader is inside and nobody else is about, a writer calls `write_lock_bh`, a second reader
-- calls `read_lock_bh`, and the first one leaves, a state is reached from which nobody gets inside
-- any more, whoever calls and however the tasks are scheduled.
pub deadlock_arises :
    (s : Tasks)
    → s.word ≡ 1
    → (s.reading ≡ 1) × (s.read_waiting ≡ 0)
    → (s.writing ≡ 0) × (s.write_waiting ≡ 0)
    → (t : Tasks) × Run s t
      × (0 < t.read_waiting)
      × (0 < t.write_waiting)
      × ((u : Tasks) → Run t u → (u.reading ≡ 0) × (u.writing ≡ 0))
unfolding read_unlock_bh
deadlock_arises s w r x =
    let l = write_lock + 1 in
    let asked : Tasks = record s { word = l; write_waiting = suc s.write_waiting } in
    let both : Tasks = record asked { word = l + 1; read_waiting = suc s.read_waiting } in
    let writer =
      subst (λ n. write_lock_bh watched (n, 0) (note 0 ∷ []) ≡ some (tt, (0, l), [])) (sym w)
        write_waits in
    let stuck : Stuck
        (record both { word = read_unlock_bh whole (l + 1); reading = s.reading - 1 }) =
      ground arith in
    (
      _,
      go
          (go (go stay (write_call l (inl refl) writer))
            (read_call (l + 1) (omega arith) read_waits))
          (read_leave (omega arith)),
      stuck.reader,
      stuck.writer,
      λ u run. (deadlock stuck run).nobody,
    )

-- A writer that calls while the word counts no reader gets inside at once, though another writer is
-- inside; when one of the two leaves, a reader gets inside at once, though the other one still writes.
pub second_writer :
    (l : ℕ) (env : List (ℕ → ℕ))
    → (l ≡ 0) ⊎ (l ≡ write_lock)
    → (write_lock_bh whole l env ≡ some (tt, write_lock, env))
      × (read_lock_bh whole (write_unlock_bh whole write_lock) env ≡ some (tt, 1, env))
unfolding write_lock_bh read_lock_bh write_unlock_bh set_write clear_write
second_writer l env h = (
  ground (arith, poll_ready (λ (n : ℕ). may_write n) write_lock env),
  poll_ready (λ (n : ℕ). may_read n) 1 env refl,
)
