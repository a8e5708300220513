-- ===== src/Coroutine/Thread.antt =====
-- ampi/linux/kthread.c: kernel threads as coroutines.
use ampi.Base.{
  ℕ, suc, ◌-◌, ◌≡◌, ◌≢◌, ◌≤◌, ◌<◌, refl, true, false, ltb, leb, if◌then◌else◌, arith, List, set,
  Option, none, some, ℕ_discrete, dec_lt,
}
use ampi.Coroutine.{Scheduler, max_co, create, set_callback}
use ampi.Coroutine.Create.{is_used, Created, create-Created}

-- The variables of kthread.c: the `pid` of each of the `MAX_CO` task structures, and the index of
-- the one to which `current` points.
pub record Threads (W : Type 0) : Type 0 where
  pub scheduler : Scheduler W
  pub tasks : List ℕ
  pub current_task : ℕ

-- `tasks[pid].pid = value`; `none` stands for a write outside the array.
abbrev pub write_task : {W : Type 0} → ℕ → ℕ → Threads W → Option (Threads W)
write_task pid value t =
    if ltb pid max_co then some (record t { tasks = set t.tasks pid value }) else none

module _ {W : Type 0} where
  -- `kthread_create`: the index of the task structure to which it returns a pointer
  unfoldable pub kthread_create : ℕ → ℕ → Threads W → Option (ℕ × Threads W)
  kthread_create fn arg t =
      let (pid, s) = create fn arg t.scheduler in
      elim (write_task pid pid (record t { scheduler = s })) [
        | none ↦ none
        | some t' ↦ some (pid, t')
      ]

  -- `task_switch_handler`: `none` stands for the failed `BUG_ON`.
  unfoldable pub task_switch_handler : ℕ → Threads W → Option (Threads W)
  task_switch_handler pid t =
      if leb max_co pid then none else some (record t { current_task = pid })

  -- `linuxemu_init_kthread`; `handler` is the address of `task_switch_handler`.
  unfoldable pub init_kthread : ℕ → Threads W → Threads W
  init_kthread handler t = record t {
    scheduler = set_callback handler t.scheduler;
    tasks = set t.tasks 0 0;
    current_task = 0;
  }

-- The first `n` threads exist, and no more.
pub record Count {W : Type 0} (n : ℕ) (s : Scheduler W) : Type 0 where
  pub below : (j : ℕ) → j < n → is_used s j ≡ true
  pub above : (j : ℕ) → n ≤ j → is_used s j ≡ false

create_next :
    {W : Type 0} (n fn arg : ℕ) (s : Scheduler W)
    → n < max_co
    → Count n s
    → (create fn arg s).0 ≡ suc n
create_next n fn arg s h k = elim (ℕ_discrete (create fn arg s).0 0) [
  | yes z ↦ let used = (c.full z).1 n (omega arith) h in cc (k.above n (omega arith))
  | no nz ↦ exact nz
]
  where
    c : Created 0 max_co fn arg s (create fn arg s).0 (create fn arg s).1
    c = create-Created fn arg s

    not_below : (create fn arg s).0 ≢ 0 → n ≤ (create fn arg s).0 - 1
    not_below nz = elim (dec_lt ((create fn arg s).0 - 1) n) [
      | yes l ↦ let a = k.below _ l in let b = (c.least nz).0 in cc
      | no g ↦ omega arith
    ]

    not_above : (create fn arg s).0 ≢ 0 → (create fn arg s).0 - 1 ≤ n
    not_above nz = elim (dec_lt n ((create fn arg s).0 - 1)) [
      | yes l ↦ let a = (c.least nz).1 n (omega arith) l in let b = k.above n (omega arith) in cc
      | no g ↦ omega arith
    ]

    exact : (create fn arg s).0 ≢ 0 → (create fn arg s).0 ≡ suc n
    exact nz = omega (arith, not_below nz, not_above nz)

create_full :
    {W : Type 0} (fn arg : ℕ) (s : Scheduler W)
    → Count max_co s
    → ((create fn arg s).0 ≡ 0) × ((create fn arg s).1 ≡ s)
create_full fn arg s k =
    let c = create-Created fn arg s in
    elim (ℕ_discrete (create fn arg s).0 0) [
      | yes z ↦ (z, (c.full z).0)
      | no nz ↦
          let (low, high) = c.range nz in
          let a = k.below ((create fn arg s).0 - 1) (omega arith) in let b = (c.least nz).0 in cc
    ]

module _ {W : Type 0} (fn arg : ℕ) (t : Threads W) where
  -- With fewer than seven threads, `kthread_create` makes one more and returns its task structure,
  -- which holds its number; the current task stays.
  kthread_create_lem :
      (n : ℕ)
      → suc n < max_co
      → Count n t.scheduler
      → kthread_create fn arg t
        ≡ some (
          suc n,
          record t {
            scheduler = (create fn arg t.scheduler).1;
            tasks = set t.tasks (suc n) (suc n);
          },
        )
  unfolding kthread_create
  kthread_create_lem n h k = ground (arith, create_next n fn arg t.scheduler (omega arith) k)

  -- With seven threads, the eighth is made, since the scheduler has room for it; but its number is
  -- 8, and `tasks[8]` lies outside the array. A switch to it fails the `BUG_ON`.
  pub kthread_create_eighth :
      Count 7 t.scheduler
      → ((create fn arg t.scheduler).0 ≡ 8)
        × (kthread_create fn arg t ≡ none)
        × (task_switch_handler 8 t ≡ none)
  unfolding kthread_create task_switch_handler
  kthread_create_eighth k =
      let e = create_next 7 fn arg t.scheduler (omega arith) k in (e, ground arith, refl)

  -- With eight threads, no thread is made, and the caller gets the task structure of the main
  -- thread, as if it were that of a new one.
  kthread_create_full :
      Count max_co t.scheduler
      → kthread_create fn arg t ≡ some (0, record t { tasks = set t.tasks 0 0 })
  unfolding kthread_create
  kthread_create_full k = let (a, b) = create_full fn arg t.scheduler k in ground arith
