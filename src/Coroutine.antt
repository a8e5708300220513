-- ===== src/Coroutine.antt =====
-- ampi/linux/coroutine.c and ampi/linux/kthread.c: the cooperative scheduler, and the kernel
-- threads that stand on it.
mod Tests
pub mod Create
pub mod Poke
pub mod Thread
use ampi.Base.{
  ℕ, zero, suc, ◌+◌, ◌-◌, Bool, true, false, not, ◌==◌, ltb, leb, if◌then◌else◌, ◌||◌, List, [],
  ◌∷◌, get_or, set, replicate,
}

-- `MAX_CO`
abbrev pub max_co : ℕ
max_co = 8

-- The variables of coroutine.c. Bit `i` of `used` is element `i`; `started` says of a thread that
-- its saved `pc` is not 0. `handler` is the callback, 0 if there is none, and `switches` are the
-- arguments of its calls, the latest first. `world` is the state of the rest of the program.
pub record Scheduler (W : Type 0) : Type 0 where
  pub used : List Bool
  pub fn_ptr : List ℕ
  pub args : List ℕ
  pub started : List Bool
  pub current : ℕ
  pub handler : ℕ
  pub switches : List ℕ
  pub world : W

-- What runs until the thread yields: the function from its start with its argument, or the rest of
-- the thread `id` from where it yielded last.
pub record Slices (W : Type 0) : Type 0 where
  pub begin : (fn arg id : ℕ) → Scheduler W → Scheduler W
  pub resume : (id : ℕ) → Scheduler W → Scheduler W

module _ {W : Type 0} where
  abbrev pub initial : W → Scheduler W
  initial w = record {
    used = replicate max_co false;
    fn_ptr = replicate max_co 0;
    args = replicate max_co 0;
    started = replicate max_co false;
    current = 0;
    handler = 0;
    switches = [];
    world = w;
  }

  -- The loop of `ampi_co_create` from the index `i` on, with `n` indices to go.
  unfoldable pub create_from : ℕ → ℕ → ℕ → ℕ → Scheduler W → ℕ × Scheduler W
  create_from zero i fn arg s = (0, s)
  create_from (suc n) i fn arg s =
      let rest = create_from n (i + 1) fn arg s in
      if not (get_or s.used i false)
      then (
        i + 1,
        record s { used = set s.used i true; fn_ptr = set s.fn_ptr i fn; args = set s.args i arg },
      )
      else rest

  -- `ampi_co_create`
  unfoldable pub create : ℕ → ℕ → Scheduler W → ℕ × Scheduler W
  create fn arg s = create_from max_co 0 fn arg s

  -- `ampi_co_callback`
  unfoldable pub set_callback : ℕ → Scheduler W → Scheduler W
  set_callback cb s = record s { handler = cb }

  -- A switch to the thread `id`, or to the main thread for 0: `current = id` and the callback.
  unfoldable pub switch_to : ℕ → Scheduler W → Scheduler W
  switch_to id s = record s {
    current = id;
    switches = if s.handler == 0 then s.switches else id ∷ s.switches;
  }

  -- `ampi_co_yield` on a thread, up to the jump back to the main thread
  unfoldable pub yield_thread : Scheduler W → Scheduler W
  yield_thread = switch_to 0

  module _ (run : Slices W) where
    -- One slice of the thread with the index `i`.
    abbrev pub slice : ℕ → Scheduler W → Scheduler W
    slice i s =
        if get_or s.started i false
        then run.resume (i + 1) s
        else run.begin (get_or s.fn_ptr i 0) (get_or s.args i 0) (i + 1)
            (record s { started = set s.started i true })

    -- `ampi_co_next` on the main thread, until the thread that it runs yields
    unfoldable pub next : ℕ → Scheduler W → Scheduler W
    next id s =
        if get_or s.used (id - 1) false then yield_thread (slice (id - 1) (switch_to id s)) else s

    -- `for (int i = id; i < id + n; i++) ampi_co_next (i);`
    unfoldable pub next_from : ℕ → ℕ → Scheduler W → Scheduler W
    next_from zero id s = s
    next_from (suc n) id s = next_from n (id + 1) (next id s)

    -- `ampi_co_yield` on the main thread
    unfoldable pub yield_main : Scheduler W → Scheduler W
    yield_main = next_from max_co 1

    -- `AMPiPoke` of ampi/ampi.c
    unfoldable pub poke : Scheduler W → Scheduler W
    poke = next_from max_co 1
