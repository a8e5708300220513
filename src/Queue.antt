-- ===== src/Queue.antt =====
-- ampi/vc4/vchiq/vchiq_util.c: a ring of message headers with two semaphores.
pub mod Ring
pub mod Refine
pub mod Fifo
mod Tests
use ampi.Base.{
  ℕ, zero, suc, ◌+◌, ◌-◌, ◌*◌, Bool, true, false, not, ◌==◌, ◌&&◌, if◌then◌else◌, none, some, List,
  Option, get_or, set, replicate,
}
use Prim.Native.Nat.{bit_and}
use ampi.Base.Words.{add32}
use ampi.Wait.{Task, ◌>>=◌, ◌>>◌, pure, lift, modify}
use ampi.Sync.{Cell}
use ampi.Sync.Semaphore.{down, up}

-- `VCHIU_QUEUE_T`. A header is an address, and the `int` positions are 32-bit patterns.
pub record Queue : Type 0 where
  pub size : ℕ
  pub read : ℕ
  pub write : ℕ
  pub initialized : Bool
  pub pop_sem : ℕ
  pub push_sem : ℕ
  pub storage : List ℕ

abbrev pub pop_cell : Cell Queue
pop_cell = record { get = λ q. q.pop_sem; put = λ n q. record q { pop_sem = n } }

abbrev pub push_cell : Cell Queue
push_cell = record { get = λ q. q.push_sem; put = λ n q. record q { push_sem = n } }

unfoldable pub is_pow2 : ℕ → Bool
is_pow2 i = not (i == 0) && bit_and i (i - 1) == 0

-- `vchiu_queue_init`: what `kzalloc` gives is an argument, zeros or nothing. The first result says
-- whether a warning is logged, the second is the status. On failure the storage that is not there
-- is not freed.
unfoldable pub init : Bool → ℕ → Bool × ℕ × Queue
init allocated size =
    let fresh : Queue = record {
      size = size;
      read = 0;
      write = 0;
      initialized = true;
      pop_sem = 0;
      push_sem = 0;
      storage = if allocated then replicate size 0 else replicate 0 0;
    } in
    (not (is_pow2 size), (if allocated then 1 else 0), fresh)

unfoldable pub is_empty : Queue → Bool
is_empty q = q.read == q.write

unfoldable pub is_full : Queue → Bool
is_full q = q.write == add32 q.read q.size

-- `position & (size - 1)`
unfoldable pub slot : Queue → ℕ → ℕ
slot q position = bit_and position (q.size - 1)

-- `while (condition) down_interruptible (semaphore)`, which is never interrupted here. Each round
-- takes one from the semaphore. `none` says that the task still waits, or that the fuel is spent.
unfoldable pub wait_while : (Queue → Bool) → Cell Queue → ℕ → Task Queue (Unit {0})
wait_while condition sem zero q env = none
wait_while condition sem (suc fuel) q env =
    let next = (down sem >> wait_while condition sem fuel) q env in
    if condition q then next else some (tt, q, env)

abbrev pub store : ℕ → Queue → Queue
store header q =
    up push_cell
      (record q { storage = set q.storage (slot q q.write) header; write = add32 q.write 1 })

unfoldable pub push : ℕ → ℕ → Task Queue (Unit {0})
push fuel header q env =
    if q.initialized
    then (wait_while is_full pop_cell fuel >> modify (store header)) q env
    else some (tt, q, env)

abbrev pub front : Queue → ℕ
front q = get_or q.storage (slot q q.read) 0

unfoldable pub peek : ℕ → Task Queue ℕ
peek fuel = do
  wait_while (λ q. q.write == q.read) push_cell fuel
  modify (up push_cell)
  lift (λ q. (front q, q))

unfoldable pub pop : ℕ → Task Queue ℕ
pop fuel = do
  wait_while (λ q. q.write == q.read) push_cell fuel
  lift (λ q. (front q, up pop_cell (record q { read = add32 q.read 1 })))
